-- ===== src/Community/Parts.antt =====
-- What the components of a graph are, as a partition of its nodes, and that their sort keeps them.
use network_analytics_predic.Community.{Link, first_id, insert_component, sort_components}
use network_analytics_predic.Community.Linked.{Connected}
use network_analytics_predic.Prelude.{
  inr, inl, refl, Bool-cases, ap, arith, ◌∙◌, ◌≡◌, Bool, true, false, String, List, [], ◌∷◌, ◌||◌,
  has, any, All, ◌↔◌,
}

-- A list of exactly the nodes that are connected to one of them.
abbrev pub IsClass : List Link → List String → List String → Type 0
IsClass links nodes c =
    (start : String) × (has nodes start ≡ true)
    × ((v : String) → (has c v ≡ true) ↔ Connected links nodes start v)

abbrev pub Apart : List String → List String → Type 0
Apart c d = (v : String) → has c v ≡ true → has d v ≡ false

-- No two of the lists share a node.
abbrev pub IsApart : List (List String) → Type 0
IsApart [] = Unit
IsApart (c ∷ cs) = All (Apart c) cs × IsApart cs

-- Classes of the nodes, apart from one another, that hold the nodes `rest` and no others.
pub record Parts (links : List Link) (nodes rest : List String) (cs : List (List String))
    : Type 0 where
  pub classes : All (IsClass links nodes) cs
  pub apart : IsApart cs
  pub covers : (v : String) → any (λ c. has c v) cs ≡ has rest v

pub covers-Apart :
    (c : List String) (cs : List (List String))
    → ((v : String) → has c v ≡ true → any (λ d. has d v) cs ≡ false)
    → All (Apart c) cs
covers-Apart c [] h = tt
covers-Apart c (d ∷ cs) h =
    (λ v m. ground (arith, h v m), covers-Apart c cs (λ v m. ground (arith, h v m)))

Apart-sym : (c d : List String) → Apart c d → Apart d c
Apart-sym c d h v m = elim (Bool-cases (has c v)) [ inl e ↦ absurd (cc (h v e, m)) | inr e ↦ e ]

module _ (id_before : String → String → Bool) where
  insert_component-All {κ} :
      (P : List String → Type κ) (c : List String) (cs : List (List String))
      → P c
      → All P cs
      → All P (insert_component id_before c cs)
  unfolding insert_component
  insert_component-All P c [] p h = (p, tt)
  insert_component-All P c (d ∷ cs) p h = elim (Bool-cases (id_before (first_id d) (first_id c))) [
    | inl e ↦ rw e (h.0, insert_component-All P c cs p h.1)
    | inr e ↦ rw e (p, h)
  ]

  insert_component-IsApart :
      (c : List String) (cs : List (List String))
      → All (Apart c) cs
      → IsApart cs
      → IsApart (insert_component id_before c cs)
  unfolding insert_component
  insert_component-IsApart c [] h a = (tt, tt)
  insert_component-IsApart c (d ∷ cs) h a =
      elim (Bool-cases (id_before (first_id d) (first_id c))) [
        | inl e ↦ rw e (
          insert_component-All (Apart d) c cs (Apart-sym c d h.0) a.0,
          insert_component-IsApart c cs h.1 a.1,
        )
        | inr e ↦ rw e (h, a)
      ]

  any-insert_component :
      (v : String) (c : List String) (cs : List (List String))
      → any (λ d. has d v) (insert_component id_before c cs) ≡ (has c v || any (λ d. has d v) cs)
  unfolding insert_component
  any-insert_component v c [] = refl
  any-insert_component v c (d ∷ cs) = elim (Bool-cases (id_before (first_id d) (first_id c))) [
    | inl e ↦ rw e (ground (arith, any-insert_component v c cs))
    | inr e ↦ rw e
  ]

  pub sort_components-All {κ} :
      (P : List String → Type κ) (cs : List (List String))
      → All P cs
      → All P (sort_components id_before cs)
  unfolding sort_components
  sort_components-All P [] h = tt
  sort_components-All P (c ∷ cs) h =
      insert_component-All P c (sort_components id_before cs) h.0 (sort_components-All P cs h.1)

  pub sort_components-IsApart :
      (cs : List (List String)) → IsApart cs → IsApart (sort_components id_before cs)
  unfolding sort_components
  sort_components-IsApart [] a = tt
  sort_components-IsApart (c ∷ cs) a =
      insert_component-IsApart c (sort_components id_before cs)
        (sort_components-All (Apart c) cs a.0) (sort_components-IsApart cs a.1)

  pub any-sort_components :
      (v : String) (cs : List (List String))
      → any (λ d. has d v) (sort_components id_before cs) ≡ any (λ d. has d v) cs
  unfolding sort_components
  any-sort_components v [] = refl
  any-sort_components v (c ∷ cs) =
      any-insert_component v c (sort_components id_before cs)
      ∙ ap (λ b. has c v || b) (any-sort_components v cs)
