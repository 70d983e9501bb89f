-- ===== src/Workspace/Keeps/Past.antt =====
-- A commit keeps what it replaces, and undo and redo take and put back bodies of the history: all
-- three keep a workspace well formed.
use network_analytics_predic.Workspace.Valid.{BodyOk, WorkspaceOk}
use network_analytics_predic.Workspace.State.{Body, Workspace}
use network_analytics_predic.Workspace.History.{
  redo_some, undo_some, redo_none, undo_none, push_capped, redo_workspace_change,
  undo_workspace_change, commit_workspace_change,
}
use network_analytics_predic.Prelude.{
  zero, suc, inr, subst, All-snoc, inl, some, Option-cases, suc, ◌++◌, ◌≡◌, drop, init, last?, All,
  ℕ, List, [], ◌∷◌,
}

module _ {ℓ} (P : Body → Type ℓ) where
  All-last? : (s : List Body) (b : Body) → All P s → last? s ≡ some b → P b
  All-last? [] b h e = cc
  All-last? (x ∷ []) b h e = subst P (cc) h.0
  All-last? (x ∷ y ∷ s) b h e = All-last? (y ∷ s) b h.1 e

  All-init : (s : List Body) → All P s → All P (init s)
  All-init [] h = tt
  All-init (x ∷ []) h = tt
  All-init (x ∷ y ∷ s) h = (h.0, All-init (y ∷ s) h.1)

  All-drop : (n : ℕ) (s : List Body) → All P s → All P (drop n s)
  All-drop zero s h = h
  All-drop (suc n) [] h = tt
  All-drop (suc n) (x ∷ s) h = All-drop n s h.1

  All-push_capped : (s : List Body) (b : Body) → All P s → P b → All P (push_capped s b)
  All-push_capped s b h hb = unfold push_capped in All-drop _ (s ++ b ∷ []) (All-snoc P s b h hb)

pub commit-WorkspaceOk :
    (w next : Workspace)
    → WorkspaceOk w
    → WorkspaceOk next
    → WorkspaceOk (commit_workspace_change w next)
unfolding commit_workspace_change
commit-WorkspaceOk w next h hn = record {
  body = hn.body;
  past = All-push_capped BodyOk w.undo_stack w.body h.past h.body;
  future = tt;
}

pub undo-WorkspaceOk : (w : Workspace) → WorkspaceOk w → WorkspaceOk (undo_workspace_change w)
undo-WorkspaceOk w h = elim (Option-cases (last? w.undo_stack)) [
  | inl e ↦ rw (undo_none w e) h
  | inr (b, e) ↦ rw (undo_some w b e) (record {
    body = All-last? BodyOk w.undo_stack b h.past e;
    past = All-init BodyOk w.undo_stack h.past;
    future = All-push_capped BodyOk w.redo_stack w.body h.future h.body;
  })
]

pub redo-WorkspaceOk : (w : Workspace) → WorkspaceOk w → WorkspaceOk (redo_workspace_change w)
redo-WorkspaceOk w h = elim (Option-cases (last? w.redo_stack)) [
  | inl e ↦ rw (redo_none w e) h
  | inr (b, e) ↦ rw (redo_some w b e) (record {
    body = All-last? BodyOk w.redo_stack b h.future e;
    past = All-push_capped BodyOk w.undo_stack w.body h.past h.body;
    future = All-init BodyOk w.redo_stack h.future;
  })
]
