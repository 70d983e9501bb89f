-- ===== src/Community/Labels/Spread.antt =====
-- `labelPropagationCommunities` as a whole: what its labels are, and that its communities group the nodes by them.
use network_analytics_predic.Community.Labels.Groups.{
  has_member-gather, has_member-sort, has_label, has_member,
}
use network_analytics_predic.Community.Labels.Kept.{
  has-sort_nodes, propagate-keys, start_labels-keys, start_labels-Kept, Kept, keys_of,
  propagate-Kept,
}
use network_analytics_predic.Community.{Link, neighbors_from_edges}
use network_analytics_predic.Community.Labels.{
  Labels, is_label, sort_nodes, propagate, start_labels, gather, Propagation,
  label_propagation_communities,
}
use network_analytics_predic.Prelude.{
  All-map, has-unique, ◌⊎◌, refl, ◌∙◌, ap, sym, inr, inl, ◌≡◌, Bool, true, String, List, [], ◌∷◌,
  has, All, map, ℕ, Option, none, some, unique, get_or,
}

-- Each node has one label. An anchored node has its anchor, any other the anchor of some node or its own id; and the
-- members of a community are the nodes of its label.
pub record Spread (anchors : String → Option String) (node_ids : List String) (p : Propagation)
    : Type 0 where
  pub labeled : map (λ e. e.0) p.labels ≡ unique node_ids
  pub anchored : All (λ e. is_label (anchors e.0) ≡ true → anchors e.0 ≡ some e.1) p.labels
  pub sourced : All (λ e. (e.1 ≡ e.0) ⊎ ((node : String) × (anchors node ≡ some e.1))) p.labels
  pub grouped : (label v : String) → has_member p.communities label v ≡ has_label p.labels label v

keys-resolved :
    (labels : Labels)
    → map
        (λ (e : String × String). e.0)
        (map (λ (e : String × Option String). (e.0, get_or e.1 e.0)) labels)
      ≡ keys_of labels
keys-resolved [] = refl
keys-resolved (e ∷ labels) = ap (e.0 ∷◌) (keys-resolved labels)

anchored_entry :
    (anchors : String → Option String) (id : String) (label : Option String)
    → Kept anchors (id, label)
    → is_label (anchors id) ≡ true
    → anchors id ≡ some (get_or label id)
anchored_entry anchors id none k h = cc (k.0 h, h)
anchored_entry anchors id (some l) k h = sym (k.0 h)

sourced_entry :
    (anchors : String → Option String) (id : String) (label : Option String)
    → Kept anchors (id, label)
    → (get_or label id ≡ id) ⊎ ((node : String) × (anchors node ≡ some (get_or label id)))
sourced_entry anchors id none k = inl refl
sourced_entry anchors id (some l) k = inr k.1

-- Whatever the nodes, the links, the anchors and the limit of iterations, the result labels the nodes, each once; an
-- anchored node bears the label of its anchor; every label is the node's own id or the label of some anchor; and a
-- community holds a node exactly when the node bears the community's label.
pub label_propagation_communities-Spread :
    (id_before : String → String → Bool) (node_ids : List String) (links : List Link)
    (anchors : String → Option String) (max_iterations : Option ℕ)
    → Spread anchors node_ids
        (label_propagation_communities id_before node_ids links anchors max_iterations)
unfolding label_propagation_communities
label_propagation_communities-Spread id_before node_ids links anchors max_iterations =
    let neighbors = neighbors_from_edges links in
    let rounds = get_or max_iterations 25 in
    let ids = sort_nodes id_before node_ids in
    let start = start_labels anchors node_ids [] in
    let labels = propagate id_before anchors neighbors rounds ids start in
    let kept =
      propagate-Kept anchors id_before neighbors rounds ids start
        (start_labels-Kept anchors node_ids [] tt) in
    let start_keys : keys_of start ≡ unique node_ids =
      unfold unique in start_labels-keys anchors node_ids [] in
    let keys = propagate-keys anchors id_before neighbors rounds ids start (λ v m.
      ap (λ ks. has ks v) start_keys
      ∙ has-unique node_ids v
      ∙ sym (has-sort_nodes id_before node_ids v)
      ∙ m) in
    record {
      labeled = keys-resolved labels ∙ keys ∙ start_keys;
      anchored =
          All-map (Kept anchors) (λ e. is_label (anchors e.0) ≡ true → anchors e.0 ≡ some e.1)
            (λ e. (e.0, get_or e.1 e.0)) labels (λ e k. anchored_entry anchors e.0 e.1 k) kept;
      sourced =
          All-map (Kept anchors) (λ e. (e.1 ≡ e.0) ⊎ ((node : String) × (anchors node ≡ some e.1)))
            (λ e. (e.0, get_or e.1 e.0)) labels (λ e k. sourced_entry anchors e.0 e.1 k) kept;
      grouped = λ label v.
          has_member-sort id_before (gather labels []) label v
          ∙ has_member-gather labels [] label v;
    }
