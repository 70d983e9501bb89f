-- ===== src/Community/Labels/Kept.antt =====
-- Where the labels of a label propagation come from: each round keeps the nodes, and gives a node the anchor of some
-- node or leaves it without a label.
use network_analytics_predic.Community.{Neighbors, neighbors_at}
use network_analytics_predic.Community.Labels.{
  better, count_given, label_of, Labels, label_at, set_label, is_label, count_label, count_labels,
  leads, leader, majority_label, insert_node, sort_nodes, sweep, is_changed, propagate,
  start_labels,
}
use network_analytics_predic.Prelude.{
  arith, foldl, refl, eq_iff, ◌∙◌, ap, sym, inr, subst, inl, is_empty, if_keeps, ◌==◌, Bool-cases,
  set_add, ◌≡◌, Bool, true, String, List, [], ◌∷◌, ◌||◌, has, All, map, ℕ, zero, suc, Option, none,
  some,
}

abbrev pub keys_of : Labels → List String
keys_of = map (λ e. e.0)

keys_of-set_label :
    (id : String) (label : Option String) (labels : Labels)
    → keys_of (set_label id label labels) ≡ set_add (keys_of labels) id
unfolding set_add
keys_of-set_label id label [] = refl
keys_of-set_label id label ((k, old) ∷ labels) = elim (Bool-cases (k == id)) [
  | inl e ↦ rw e
  | inr e ↦ elim (Bool-cases (has (keys_of labels) id)) [
    | inl h ↦ rw (e, h) (ap (k ∷◌) (keys_of-set_label id label labels ∙ rw h))
    | inr h ↦ rw (e, h) (ap (k ∷◌) (keys_of-set_label id label labels ∙ rw h))
  ]
]

All-set_label {κ} :
    (P : String × Option String → Type κ) (id : String) (label : Option String) (labels : Labels)
    → P (id, label)
    → All P labels
    → All P (set_label id label labels)
All-set_label P id label [] p h = (p, tt)
All-set_label P id label ((k, old) ∷ labels) p h = elim (Bool-cases (k == id)) [
  | inl e ↦ rw e (subst (λ x. P (x, label)) (sym ((eq_iff k id).0 e)) p, h.1)
  | inr e ↦ rw e (h.0, All-set_label P id label labels p h.1)
]

module _ (anchors : String → Option String) where
  -- A label is the anchor of some node.
  abbrev pub Sourced : Option String → Type 0
  Sourced none = Unit
  Sourced (some label) = (node : String) × (anchors node ≡ some label)

  Sourced-anchors : (id : String) (o : Option String) → anchors id ≡ o → Sourced o
  Sourced-anchors id none e = tt
  Sourced-anchors id (some label) e = (id, e)

  -- An anchored node has its anchor, and every label is an anchor.
  abbrev pub Kept : String × Option String → Type 0
  Kept (id, label) = (is_label (anchors id) ≡ true → label ≡ anchors id) × Sourced label

  Sourced-label_at :
      (labels : Labels) (id : String) → All Kept labels → Sourced (label_at labels id)
  Sourced-label_at [] id h = tt
  Sourced-label_at ((k, label) ∷ labels) id h = elim (Bool-cases (k == id)) [
    | inl e ↦ rw e h.0.1
    | inr e ↦ rw e (Sourced-label_at labels id h.1)
  ]

  abbrev Counted : String × ℕ → Type 0
  Counted (label, n) = Sourced (some label)

  All-count_label :
      (label : String) (counts : List (String × ℕ))
      → Sourced (some label)
      → All Counted counts
      → All Counted (count_label label counts)
  All-count_label label [] s h = (s, tt)
  All-count_label label ((l, n) ∷ counts) s h = elim (Bool-cases (l == label)) [
    | inl e ↦ rw e (h.0, h.1)
    | inr e ↦ rw e (h.0, All-count_label label counts s h.1)
  ]

  All-count_labels :
      (labels : Labels) (ns : List String) (counts : List (String × ℕ))
      → All Kept labels
      → All Counted counts
      → All Counted (count_labels labels ns counts)
  unfolding count_labels
  All-count_labels labels [] counts k h = h
  All-count_labels labels (n ∷ ns) counts k h =
      All-count_labels labels ns (count_given (label_at labels n) counts) k
        (given (label_at labels n) (Sourced-label_at labels n k))
    where
      given : (o : Option String) → Sourced o → All Counted (count_given o counts)
      given none s = h
      given (some label) s =
          if_keeps (All Counted) (is_empty label) _ _ h (All-count_label label counts s h)

  abbrev Leads : Option (String × ℕ) → Type 0
  Leads none = Unit
  Leads (some c) = Counted c

  Leads-better :
      (id_before : String → String → Bool) (c : String × ℕ) (o : Option (String × ℕ))
      → Counted c
      → Leads o
      → Leads (better id_before c o)
  Leads-better id_before c none h o = h
  Leads-better id_before c (some d) h o = if_keeps Counted (leads id_before d c) d c o h

  Leads-leader :
      (id_before : String → String → Bool) (counts : List (String × ℕ))
      → All Counted counts
      → Leads (leader id_before counts)
  unfolding leader
  Leads-leader id_before [] h = tt
  Leads-leader id_before (c ∷ counts) h =
      Leads-better id_before c (leader id_before counts) h.0 (Leads-leader id_before counts h.1)

  Sourced-label_of :
      (o : Option (String × ℕ)) (own : Option String)
      → Leads o
      → Sourced own
      → Sourced (label_of o own)
  Sourced-label_of none own h s = s
  Sourced-label_of (some c) own h s = h

  module _ (id_before : String → String → Bool) (neighbors : Neighbors) where
    majority_label-Kept :
        (labels : Labels) (id : String)
        → All Kept labels
        → Kept (id, majority_label id_before anchors neighbors labels id)
    unfolding majority_label
    majority_label-Kept labels id k = elim (Bool-cases (is_label (anchors id))) [
      | inl e ↦ rw e (λ h. refl, Sourced-anchors id (anchors id) refl)
      | inr e ↦ rw e (
        λ h. cc h,
        Sourced-label_of (leader id_before (count_labels labels (neighbors_at neighbors id) []))
            (label_at labels id)
            (Leads-leader id_before (count_labels labels (neighbors_at neighbors id) [])
              (All-count_labels labels (neighbors_at neighbors id) [] k tt))
            (Sourced-label_at labels id k),
      )
    ]

    abbrev sweep_of : Labels → List String → Labels → Labels
    sweep_of = sweep id_before anchors neighbors

    sweep-Kept :
        (labels : Labels) (ids : List String) (next : Labels)
        → All Kept labels
        → All Kept next
        → All Kept (sweep_of labels ids next)
    unfolding sweep
    sweep-Kept labels [] next k n = n
    sweep-Kept labels (id ∷ ids) next k n =
        let label = majority_label id_before anchors neighbors labels id in
        sweep-Kept labels ids (set_label id label next) k
          (All-set_label Kept id label next (majority_label-Kept labels id k) n)

    sweep-keys :
        (labels : Labels) (ids : List String) (next : Labels)
        → ((v : String) → has ids v ≡ true → has (keys_of next) v ≡ true)
        → keys_of (sweep_of labels ids next) ≡ keys_of next
    unfolding sweep
    sweep-keys labels [] next h = refl
    sweep-keys labels (id ∷ ids) next h =
        let label = majority_label id_before anchors neighbors labels id in
        let known : has (keys_of next) id ≡ true = h id (ground (arith, eq_iff id id)) in
        let same : keys_of (set_label id label next) ≡ keys_of next =
          keys_of-set_label id label next ∙ unfold set_add in rw known in
        sweep-keys labels ids (set_label id label next)
          (λ v m. ap (λ ks. has ks v) same ∙ h v (ground arith))
        ∙ same

    pub propagate-Kept :
        (rounds : ℕ) (ids : List String) (labels : Labels)
        → All Kept labels
        → All Kept (propagate id_before anchors neighbors rounds ids labels)
    unfolding propagate
    propagate-Kept zero ids labels k = k
    propagate-Kept (suc rounds) ids labels k =
        let next = sweep-Kept labels ids labels k k in
        if_keeps (All Kept) (is_changed id_before anchors neighbors labels ids) _ _
          (propagate-Kept rounds ids (sweep_of labels ids labels) next) next

    pub propagate-keys :
        (rounds : ℕ) (ids : List String) (labels : Labels)
        → ((v : String) → has ids v ≡ true → has (keys_of labels) v ≡ true)
        → keys_of (propagate id_before anchors neighbors rounds ids labels) ≡ keys_of labels
    unfolding propagate
    propagate-keys zero ids labels h = refl
    propagate-keys (suc rounds) ids labels h =
        let same = sweep-keys labels ids labels h in
        if_keeps (λ ls. keys_of ls ≡ keys_of labels)
          (is_changed id_before anchors neighbors labels ids) _ _
          (propagate-keys rounds ids (sweep_of labels ids labels)
              (λ v m. ap (λ ks. has ks v) same ∙ h v m)
            ∙ same)
          same

  pub start_labels-Kept :
      (ids : List String) (labels : Labels)
      → All Kept labels
      → All Kept (start_labels anchors ids labels)
  unfolding start_labels
  start_labels-Kept [] labels k = k
  start_labels-Kept (id ∷ ids) labels k = start_labels-Kept ids (set_label id (anchors id) labels) (
      All-set_label Kept id (anchors id) labels (λ h. refl, Sourced-anchors id (anchors id) refl) k)

  pub start_labels-keys :
      (ids : List String) (labels : Labels)
      → keys_of (start_labels anchors ids labels) ≡ foldl set_add (keys_of labels) ids
  unfolding start_labels
  start_labels-keys [] labels = refl
  start_labels-keys (id ∷ ids) labels =
      start_labels-keys ids (set_label id (anchors id) labels)
      ∙ ap (λ ks. foldl set_add ks ids) (keys_of-set_label id (anchors id) labels)

has-insert_node :
    (id_before : String → String → Bool) (x : String) (xs : List String) (v : String)
    → has (insert_node id_before x xs) v ≡ (x == v || has xs v)
unfolding insert_node
has-insert_node id_before x [] v = refl
has-insert_node id_before x (y ∷ ys) v = ground (arith, has-insert_node id_before x ys v)

pub has-sort_nodes :
    (id_before : String → String → Bool) (xs : List String) (v : String)
    → has (sort_nodes id_before xs) v ≡ has xs v
unfolding sort_nodes
has-sort_nodes id_before [] v = refl
has-sort_nodes id_before (x ∷ xs) v =
    has-insert_node id_before x (sort_nodes id_before xs) v
    ∙ ap (λ b. x == v || b) (has-sort_nodes id_before xs v)
