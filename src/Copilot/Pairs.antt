-- ===== src/Copilot/Pairs.antt =====
-- What the suggestions of entity resolutions are: numbered pairs of nodes of one type with something in common.
use network_analytics_predic.Copilot.Resolution.{
  Suggestion, compare_all, compare_with, is_alike, shared_edges, shared_tokens,
  suggest_entity_resolutions, suggestion_of,
}
use network_analytics_predic.Timeline.Rows.{SemanticEdge, semantic_rows}
use network_analytics_predic.Graph.{Node, Settings, Source}
use mathlib.Core.List.{Memᴰ}
use network_analytics_predic.Prelude.{
  ltb, ap, String, ◌∙◌, All-take, length-take, refl, arith, All_self, eq_iff, All-snoc, zero, ◌+◌,
  ◌≤◌, ◌⊎◌, Bool-cases, length, suc, ◌++◌, ◌<◌, ◌⧺◌, All, take, ◌≡◌, List, show, ℕ, true, some, [],
  ◌∷◌, inl, inr,
}

-- The first node stands before the second one in the list.
abbrev pub Precedes : Node → Node → List Node → Type 0
Precedes left right [] = ⊥
Precedes left right (n ∷ nodes) = ((n ≡ left) × Memᴰ right nodes) ⊎ Precedes left right nodes

-- Two nodes of the list, one after the other, of one type, that share a token of their labels or a visible relationship.
pub record IsPair (rows : List SemanticEdge) (nodes : List Node) (s : Suggestion) : Type 0 where
  pub left : Node
  pub right : Node
  pub ordered : Precedes left right nodes
  pub left_named : s.left_id ≡ left.id
  pub right_named : s.right_id ≡ right.id
  pub one_type : left.type ≡ right.type
  pub alike : (0 < length (shared_tokens left right)) ⊎ (0 < length (shared_edges rows left right))
  pub undecided : s.required_decision ≡ "analyst-confirmation-before-any-merge"

abbrev pub numbered_id : ℕ → String
numbered_id n = "entity-resolution-" ⧺ show n

-- The ids count on from a number.
abbrev pub Numbered : ℕ → List Suggestion → Type 0
Numbered n [] = Unit
Numbered n (s ∷ suggestions) = (s.id ≡ numbered_id (n + 1)) × Numbered (suc n) suggestions

Numbered-snoc :
    (n : ℕ) (suggestions : List Suggestion) (s : Suggestion)
    → Numbered n suggestions
    → s.id ≡ numbered_id (n + length suggestions + 1)
    → Numbered n (suggestions ++ s ∷ [])
Numbered-snoc n [] s h e = (e ∙ ap numbered_id (omega arith), tt)
Numbered-snoc n (x ∷ suggestions) s h e =
    (h.0, Numbered-snoc (suc n) suggestions s h.1 (e ∙ ap numbered_id (omega arith)))

Numbered-take :
    (n count : ℕ) (suggestions : List Suggestion)
    → Numbered n suggestions
    → Numbered n (take count suggestions)
Numbered-take n zero suggestions h = tt
Numbered-take n (suc count) [] h = tt
Numbered-take n (suc count) (s ∷ suggestions) h = (h.0, Numbered-take (suc n) count suggestions h.1)

All_of_all {ℓ} :
    (P Q : Node → Type ℓ) (nodes : List Node) → ((n : Node) → P n → Q n) → All P nodes → All Q nodes
All_of_all P Q [] f h = tt
All_of_all P Q (n ∷ nodes) f h = (f n h.0, All_of_all P Q nodes f h.1)

module _ (rows : List SemanticEdge) (all_nodes : List Node) where
  pub record Right (found : List Suggestion) : Type 0 where
    pub pairs : All (IsPair rows all_nodes) found
    pub numbered : Numbered 0 found

  suggestion-Right :
      (left right : Node) (found : List Suggestion)
      → Precedes left right all_nodes
      → is_alike rows left right ≡ true
      → Right found
      → Right (found ++ suggestion_of rows (length found) left right ∷ [])
  unfolding suggestion_of is_alike
  suggestion-Right left right found o e h =
      let count : length found + 1 ≡ 0 + length found + 1 = omega arith in
      record {
        pairs = All-snoc (IsPair rows all_nodes) found _ h.pairs (record {
          left = left;
          right = right;
          ordered = o;
          left_named = refl;
          right_named = refl;
          one_type = (eq_iff left.type right.type).0 (ground (arith, e));
          alike = elim (Bool-cases (ltb 0 (length (shared_tokens left right)))) [
            | inl k ↦ inl (ground (arith, k))
            | inr k ↦ inr (ground (arith, e, k))
          ];
          undecided = refl;
        });
        numbered =
            Numbered-snoc 0 found (suggestion_of rows (length found) left right) h.numbered
              (ap numbered_id count);
      }

  compare_with-Right :
      (left : Node) (nodes : List Node) (found : List Suggestion)
      → All (λ n. Precedes left n all_nodes) nodes
      → Right found
      → Right (compare_with rows left nodes found)
  unfolding compare_with
  compare_with-Right left [] found ms h = h
  compare_with-Right left (right ∷ nodes) found ms h =
      compare_with-Right left nodes _ ms.1 (elim (Bool-cases (is_alike rows left right)) [
        | inl e ↦ rw e (suggestion-Right left right found ms.0 e h)
        | inr e ↦ rw e h
      ])

  compare_all-Right :
      (nodes : List Node) (found : List Suggestion)
      → ((left right : Node) → Precedes left right nodes → Precedes left right all_nodes)
      → Right found
      → Right (compare_all rows nodes found)
  unfolding compare_all
  compare_all-Right [] found inside h = h
  compare_all-Right (left ∷ nodes) found inside h =
      compare_all-Right nodes _ (λ l r o. inside l r (inr o))
        (compare_with-Right left nodes found
          (All_of_all (λ n. Memᴰ n nodes) (λ n. Precedes left n all_nodes) nodes
            (λ n m. inside left n (inl (refl, m))) (All_self nodes))
          h)

-- Where the rows can be built, there are at most five suggestions. Each is of two nodes at different places of the graph's
-- list, the first before the second, of one type, that share a token of their labels or a visible relationship, and
-- leaves the decision to the analyst; and they are numbered from 1 on.
pub suggest_entity_resolutions-pairs :
    (source : Source) (settings : Settings) (rows : List SemanticEdge)
    → semantic_rows settings source ≡ some rows
    → (suggestions : List Suggestion) × (suggest_entity_resolutions source settings
        ≡ some suggestions)
      × (length suggestions ≤ 5)
      × All (IsPair rows source.nodes) suggestions
      × Numbered 0 suggestions
unfolding suggest_entity_resolutions
suggest_entity_resolutions-pairs source settings rows e =
    let found = compare_all rows source.nodes [] in
    let right =
      compare_all-Right rows source.nodes source.nodes [] (λ l r o. o)
        (record { pairs = tt; numbered = tt }) in
    (
      take 5 found,
      rw e refl,
      omega (arith, length-take 5 found),
      All-take (IsPair rows source.nodes) 5 found right.pairs,
      Numbered-take 0 5 found right.numbered,
    )
