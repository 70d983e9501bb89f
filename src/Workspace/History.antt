-- ===== src/Workspace/History.antt =====
-- packages/graph-renderer/chart-workspace.mjs: `withoutHistory`, `commitWorkspaceChange`,
-- `undoWorkspaceChange`, `redoWorkspaceChange`. Undo and redo only move a cursor along a timeline.
use mathlib.Core.List.{reverse, reverse-append}
use network_analytics_predic.Prelude.{
  ℕ, zero, suc, ◌+◌, ◌-◌, ◌≤◌, ◌<◌, ◌≡◌, refl, sym, ap, ◌∙◌, ◌≢◌, none, some, List, [], ◌∷◌, ◌++◌,
  length, take_last, drop, min, Option-cases, last?, init, arith, inl, inr, length-append,
  length-drop, last?-append, init-append, append_assoc,
}
use network_analytics_predic.Workspace.State.{Body, Workspace}

-- `[...stack, entry].slice(-30)`
unfoldable pub push_capped : List Body → Body → List Body
push_capped stack entry = take_last 30 (stack ++ entry ∷ [])

unfoldable pub commit_workspace_change : Workspace → Workspace → Workspace
unfolding push_capped
commit_workspace_change workspace next = record next {
  undo_stack = push_capped workspace.undo_stack workspace.body;
  redo_stack = [];
}

unfoldable pub undo_workspace_change : Workspace → Workspace
unfolding push_capped
undo_workspace_change workspace = elim (last? workspace.undo_stack) [
  | none ↦ workspace
  | some previous ↦ record {
    body = previous;
    undo_stack = init workspace.undo_stack;
    redo_stack = push_capped workspace.redo_stack workspace.body;
  }
]

unfoldable pub redo_workspace_change : Workspace → Workspace
unfolding push_capped
redo_workspace_change workspace = elim (last? workspace.redo_stack) [
  | none ↦ workspace
  | some next ↦ record {
    body = next;
    undo_stack = push_capped workspace.undo_stack workspace.body;
    redo_stack = init workspace.redo_stack;
  }
]

-- The two stacks together hold at most thirty bodies.
abbrev pub IsBounded : Workspace → Type 0
IsBounded w = length w.undo_stack + length w.redo_stack ≤ 30

-- All bodies that undo and redo can reach, the oldest first.
abbrev pub timeline : Workspace → List Body
timeline w = w.undo_stack ++ w.body ∷ reverse w.redo_stack

drop_zero : (n : ℕ) (xs : List Body) → n ≡ 0 → drop n xs ≡ xs
drop_zero zero xs h = refl
drop_zero (suc n) xs h = absurd (omega arith)

push_capped_below : (s : List Body) (b : Body) → length s < 30 → push_capped s b ≡ s ++ b ∷ []
unfolding push_capped
push_capped_below s b h = drop_zero _ _ (omega (arith, length-append s (b ∷ [])))

length-push_capped : (s : List Body) (b : Body) → length (push_capped s b) ≡ min 30 (length s + 1)
unfolding push_capped
length-push_capped s b =
    omega (arith, length-append s (b ∷ []), length-drop (length (s ++ b ∷ []) - 30) (s ++ b ∷ []))

last?-drop :
    (n : ℕ) (s : List Body) (b : Body) → n ≤ length s → last? (drop n (s ++ b ∷ [])) ≡ some b
last?-drop zero s b h = last?-append s b
last?-drop (suc n) [] b h = absurd (omega arith)
last?-drop (suc n) (x ∷ s) b h = last?-drop n s b (omega arith)

last?-push_capped : (s : List Body) (b : Body) → last? (push_capped s b) ≡ some b
unfolding push_capped
last?-push_capped s b = last?-drop _ s b (omega (arith, length-append s (b ∷ [])))

length-init : (s : List Body) (b : Body) → last? s ≡ some b → length s ≡ length (init s) + 1
length-init [] b h = cc
length-init (x ∷ []) b h = omega arith
length-init (x ∷ y ∷ s) b h = omega (arith, length-init (y ∷ s) b h)

init-last : (s : List Body) (b : Body) → last? s ≡ some b → s ≡ init s ++ b ∷ []
init-last [] b h = cc
init-last (x ∷ []) b h = cc
init-last (x ∷ y ∷ s) b h = ap (x ∷◌) (init-last (y ∷ s) b h)

last?-none : (s : List Body) → last? s ≡ none → s ≡ []
last?-none [] h = refl
last?-none (x ∷ []) h = cc
last?-none (x ∷ y ∷ s) h = cc (last?-none (y ∷ s) h)

-- The two branches of undo and of redo.
pub undo_none : (w : Workspace) → last? w.undo_stack ≡ none → undo_workspace_change w ≡ w
unfolding undo_workspace_change
undo_none w e = rw (e, undo_workspace_change)

pub undo_some :
    (w : Workspace) (b : Body)
    → last? w.undo_stack ≡ some b
    → undo_workspace_change w ≡ record {
      body = b;
      undo_stack = init w.undo_stack;
      redo_stack = push_capped w.redo_stack w.body;
    }
unfolding undo_workspace_change
undo_some w b e = rw (e, undo_workspace_change)

pub redo_none : (w : Workspace) → last? w.redo_stack ≡ none → redo_workspace_change w ≡ w
unfolding redo_workspace_change
redo_none w e = rw (e, redo_workspace_change)

pub redo_some :
    (w : Workspace) (b : Body)
    → last? w.redo_stack ≡ some b
    → redo_workspace_change w ≡ record {
      body = b;
      undo_stack = push_capped w.undo_stack w.body;
      redo_stack = init w.redo_stack;
    }
unfolding redo_workspace_change
redo_some w b e = rw (e, redo_workspace_change)

-- A commit meets the bound whatever it replaces, and undo and redo keep it.
pub commit-IsBounded : (w next : Workspace) → IsBounded (commit_workspace_change w next)
unfolding commit_workspace_change
commit-IsBounded w next = omega (arith, length-push_capped w.undo_stack w.body)

pub undo-IsBounded : (w : Workspace) → IsBounded w → IsBounded (undo_workspace_change w)
undo-IsBounded w h = elim (Option-cases (last? w.undo_stack)) [
  | inl e ↦ rw (undo_none w e) h
  | inr (b, e) ↦
      rw (undo_some w b e)
        (omega (arith, length-push_capped w.redo_stack w.body, length-init w.undo_stack b e))
]

pub redo-IsBounded : (w : Workspace) → IsBounded w → IsBounded (redo_workspace_change w)
redo-IsBounded w h = elim (Option-cases (last? w.redo_stack)) [
  | inl e ↦ rw (redo_none w e) h
  | inr (b, e) ↦
      rw (redo_some w b e)
        (omega (arith, length-push_capped w.undo_stack w.body, length-init w.redo_stack b e))
]

-- From a workspace with at most thirty bodies in its history, undo keeps the sequence of all bodies that undo and
-- redo can reach.
pub timeline-undo : (w : Workspace) → IsBounded w → timeline (undo_workspace_change w) ≡ timeline w
timeline-undo w h = elim (Option-cases (last? w.undo_stack)) [
  | inl e ↦ rw (undo_none w e)
  | inr (b, e) ↦
      let short : length w.redo_stack < 30 = omega (arith, length-init w.undo_stack b e) in
      let split = init-last w.undo_stack b e in
      let merge : init w.undo_stack ++ b ∷ w.body ∷ reverse w.redo_stack ≡ timeline w =
        sym (append_assoc (init w.undo_stack) (b ∷ []) (w.body ∷ reverse w.redo_stack))
        ∙ ap (λ s. s ++ w.body ∷ reverse w.redo_stack) (sym split) in
      rw (undo_some w b e, push_capped_below w.redo_stack w.body short, reverse-append) merge
]

-- From a workspace with at most thirty bodies in its history, redo keeps the sequence of all bodies that undo and
-- redo can reach.
pub timeline-redo : (w : Workspace) → IsBounded w → timeline (redo_workspace_change w) ≡ timeline w
timeline-redo w h = elim (Option-cases (last? w.redo_stack)) [
  | inl e ↦ rw (redo_none w e)
  | inr (b, e) ↦
      let short : length w.undo_stack < 30 = omega (arith, length-init w.redo_stack b e) in
      let turned : reverse w.redo_stack ≡ b ∷ reverse (init w.redo_stack) =
        ap reverse (init-last w.redo_stack b e) ∙ reverse-append (init w.redo_stack) (b ∷ []) in
      rw (redo_some w b e, push_capped_below w.undo_stack w.body short)
        (append_assoc w.undo_stack (w.body ∷ []) (b ∷ reverse (init w.redo_stack))
          ∙ ap (λ s. w.undo_stack ++ w.body ∷ s) (sym turned))
]

-- Undo after a commit gives back the body that the commit replaced, its audit log and its snapshot with it.
pub undo-commit :
    (w next : Workspace) → (undo_workspace_change (commit_workspace_change w next)).body ≡ w.body
unfolding commit_workspace_change
undo-commit w next =
    rw (undo_some (commit_workspace_change w next) w.body (last?-push_capped w.undo_stack w.body))

init-push_capped : (s : List Body) (b : Body) → length s < 30 → init (push_capped s b) ≡ s
init-push_capped s b h = rw (push_capped_below s b h) (init-append s b)

-- From a workspace with at most thirty bodies in its history and something to undo, redo after undo gives back the
-- whole workspace.
pub redo-undo :
    (w : Workspace)
    → IsBounded w
    → w.undo_stack ≢ []
    → redo_workspace_change (undo_workspace_change w) ≡ w
redo-undo w h some_undo = elim (Option-cases (last? w.undo_stack)) [
  | inl e ↦ absurd (some_undo (last?-none w.undo_stack e))
  | inr (b, e) ↦
      let short : length w.redo_stack < 30 = omega (arith, length-init w.undo_stack b e) in
      let room : length (init w.undo_stack) < 30 = omega (arith, length-init w.undo_stack b e) in
      let undone : Workspace = record {
        body = b;
        undo_stack = init w.undo_stack;
        redo_stack = push_capped w.redo_stack w.body;
      } in
      rw
        (
          undo_some w b e,
          redo_some undone w.body (last?-push_capped w.redo_stack w.body),
          init-push_capped w.redo_stack w.body short,
          push_capped_below (init w.undo_stack) b room,
          ← init-last w.undo_stack b e,
        )
        refl
]
