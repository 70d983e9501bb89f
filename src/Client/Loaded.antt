-- ===== src/Client/Loaded.antt =====
-- packages/api-client/workbench-client.mjs: what a bootstrap that is returned or an error that is thrown can be.
use network_analytics_predic.Client.Load.{
  request_of, WorkbenchRequest, demo_base_url, target_endpoint, payload, unreadable, replies,
  refuses, fails, Reply, is_remote, Loader, attempt, load_workbench_bootstrap, recover,
}
use network_analytics_predic.Client.Bootstrap.{
  validate_workbench_bootstrap-cases, plain, bootstrap_error, static_workbench_bootstrap, returned,
  thrown, Failure, validate_workbench_bootstrap, Bootstrap, Result,
}
use network_analytics_predic.Prelude.{
  Option-cases, arith, Bool-cases, ◌&&◌, is_empty, inl, inr, false, true, ℕ, Option, ◌≡◌, String,
  ◌⊎◌, none, some, refl,
}

-- The reply holds a payload that passed the validation, and it is returned as one of the authorized API.
abbrev pub FromApi : Reply → Result Bootstrap → Type 0
FromApi reply r =
    (p : Bootstrap) × (reply ≡ replies (payload (some p)))
    × (validate_workbench_bootstrap (some p) ≡ returned p)
    × (r ≡ returned (record p { transport = some "authorized-api" }))

abbrev pub Throws : Result Bootstrap → Type 0
Throws r =
    (message : String) × (code : String) × (status : Option ℕ) × (at : String) × (r
      ≡ thrown (bootstrap_error message code status at))

abbrev Attempted : Reply → Result Bootstrap → Type 0
Attempted reply r = FromApi reply r ⊎ ((e : Failure) × (r ≡ thrown e))

attempt-Attempted : (target : String) (reply : Reply) → Attempted reply (attempt target reply)
unfolding attempt validate_workbench_bootstrap
attempt-Attempted target (fails message) = inr (plain message, refl)
attempt-Attempted target (refuses status code) = inr (_, refl)
attempt-Attempted target (replies (unreadable message)) = inr (plain message, refl)
attempt-Attempted target (replies (payload none)) =
    inr (plain "Expected WorkbenchBootstrapV1", refl)
attempt-Attempted target (replies (payload (some p))) =
    elim (validate_workbench_bootstrap-cases p) [
      | inl (e, _) ↦ inl (p, refl, e, rw e refl)
      | inr (f, e, _) ↦ inr (f, rw e refl)
    ]

recover-remote :
    (l : Loader) (reply : Reply) (r : Result Bootstrap)
    → is_remote l ≡ true
    → Attempted reply r
    → FromApi reply (recover l r) ⊎ Throws (recover l r)
unfolding recover
recover-remote l reply r remote (inl (p, same_reply, e, same)) =
    inl (p, same_reply, e, rw same refl)
recover-remote l reply r remote (inr (plain message, same)) =
    inr (message, "workbench_bootstrap_failed", none, target_endpoint l, rw (same, remote) refl)
recover-remote l reply r remote (inr (bootstrap_error message code status at, same)) =
    inr (message, code, status, at, rw (same, remote) refl)

recover-local :
    (l : Loader) (reply : Reply) (r : Result Bootstrap)
    → is_remote l ≡ false
    → Attempted reply r
    → FromApi reply (recover l r) ⊎ (recover l r ≡ returned (static_workbench_bootstrap l.fixture))
unfolding recover
recover-local l reply r near (inl (p, same_reply, e, same)) = inl (p, same_reply, e, rw same refl)
recover-local l reply r near (inr (e, same)) = inr (rw (same, near) refl)

-- Loading with no demo address and no endpoint never throws: it returns a payload of the API that passed the
-- validation, or the static fixture.
pub load_workbench_bootstrap-local :
    (l : Loader)
    → is_remote l ≡ false
    → let r = load_workbench_bootstrap l in
      ((fetch : WorkbenchRequest → Reply) × (l.fetch ≡ some fetch)
        × FromApi (fetch (request_of l)) r)
      ⊎ (r ≡ returned (static_workbench_bootstrap l.fixture))
unfolding load_workbench_bootstrap
load_workbench_bootstrap-local l near =
    elim (Bool-cases (l.static_deployment && is_empty (demo_base_url l))) [
      | inl e ↦ rw e (inr refl)
      | inr e ↦ elim (Option-cases l.fetch) [
        | inl f ↦ rw (e, f) (inr refl)
        | inr (fetch, f) ↦
            rw (e, f)
              (elim (recover-local l (fetch (request_of l))
                (attempt (target_endpoint l) (fetch (request_of l))) near
                (attempt-Attempted (target_endpoint l) (fetch (request_of l)))) [
                  | inl api ↦ inl (fetch, refl, api)
                  | inr same ↦ inr same
                ])
      ]
    ]

-- Loading from a demo address with a way to fetch never falls back to the static fixture: it returns a payload of the
-- API that passed the validation, or throws a bootstrap error.
pub load_workbench_bootstrap-demo :
    (l : Loader) (fetch : WorkbenchRequest → Reply)
    → is_empty (demo_base_url l) ≡ false
    → l.fetch ≡ some fetch
    → let r = load_workbench_bootstrap l in FromApi (fetch (request_of l)) r ⊎ Throws r
unfolding load_workbench_bootstrap
load_workbench_bootstrap-demo l fetch demo f =
    let no_static : (l.static_deployment && is_empty (demo_base_url l)) ≡ false =
      ground (arith, demo) in
    let remote : is_remote l ≡ true = ground (arith, demo) in
    rw (no_static, f)
      (recover-remote l (fetch (request_of l)) (attempt (target_endpoint l) (fetch (request_of l)))
        remote (attempt-Attempted (target_endpoint l) (fetch (request_of l))))
