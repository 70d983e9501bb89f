-- ===== src/Community/Labels.antt =====
-- packages/predictive/community-baselines.mjs: `majorityLabel`, `labelPropagationCommunities` and the counts of
-- `evaluateCommunitySplit`, whose ratio is given by them. An object is the list of its entries in the order of
-- insertion, which differs from the source's order for keys that are array indices; null is none.
pub mod Kept
pub mod Groups
pub mod Spread
use network_analytics_predic.Gates.Folds.{sort_ids}
use network_analytics_predic.Community.{Link, Neighbors, neighbors_at, neighbors_from_edges}
use network_analytics_predic.Prelude.{
  unique, map, filter, has, not, length, get_or, is_empty, ltb, eqb, if◌then◌else◌, ◌==◌, ◌&&◌,
  ◌||◌, String, Bool, true, false, Option, none, some, List, [], ◌∷◌, ◌++◌, ℕ, zero, suc, ◌+◌,
}

abbrev pub Labels : Type 0
Labels = List (String × Option String)

-- `labels[id] ?? null`
abbrev pub label_at : Labels → String → Option String
label_at [] id = none
label_at ((k, label) ∷ labels) id =
    let later = label_at labels id in if k == id then label else later

-- `labels[id] = label`
abbrev pub set_label : String → Option String → Labels → Labels
set_label id label [] = (id, label) ∷ []
set_label id label ((k, old) ∷ labels) =
    let later = set_label id label labels in
    if k == id then (k, label) ∷ labels else (k, old) ∷ later

abbrev pub is_label : Option String → Bool
is_label none = false
is_label (some label) = not (is_empty label)

-- `counts.set(label, (counts.get(label) ?? 0) + 1)`
abbrev pub count_label : String → List (String × ℕ) → List (String × ℕ)
count_label label [] = (label, 1) ∷ []
count_label label ((l, n) ∷ counts) =
    let later = count_label label counts in
    if l == label then (l, n + 1) ∷ counts else (l, n) ∷ later

abbrev pub count_given : Option String → List (String × ℕ) → List (String × ℕ)
count_given none counts = counts
count_given (some label) counts = if is_empty label then counts else count_label label counts

pub count_labels : Labels → List String → List (String × ℕ) → List (String × ℕ)
count_labels labels [] counts = counts
count_labels labels (n ∷ ns) counts =
    count_labels labels ns (count_given (label_at labels n) counts)

-- `b[1] - a[1] || a[0].localeCompare(b[0])`, and the first entry in that order
abbrev pub leads : (String → String → Bool) → String × ℕ → String × ℕ → Bool
leads id_before (a, m) (b, n) = ltb n m || (eqb m n && id_before a b)

abbrev pub better :
    (String → String → Bool) → String × ℕ → Option (String × ℕ) → Option (String × ℕ)
better id_before c none = some c
better id_before c (some d) = some (if leads id_before d c then d else c)

pub leader : (String → String → Bool) → List (String × ℕ) → Option (String × ℕ)
leader id_before [] = none
leader id_before (c ∷ counts) = better id_before c (leader id_before counts)

abbrev pub label_of : Option (String × ℕ) → Option String → Option String
label_of none own = own
label_of (some c) own = some c.0

unfoldable pub majority_label :
    (String → String → Bool)
    → (String → Option String)
    → Neighbors
    → Labels
    → String
    → Option String
unfolding count_labels leader neighbors_at
majority_label id_before anchors neighbors labels id =
    if is_label (anchors id)
    then anchors id
    else label_of (leader id_before (count_labels labels (neighbors_at neighbors id) []))
        (label_at labels id)

abbrev pub same_label : Option String → Option String → Bool
same_label none none = true
same_label (some a) (some b) = a == b
same_label none (some b) = false
same_label (some a) none = false

-- `[...nodes].sort((a, b) => a.id.localeCompare(b.id))`
pub insert_node : (String → String → Bool) → String → List String → List String
insert_node id_before id [] = id ∷ []
insert_node id_before id (x ∷ xs) =
    let rest = insert_node id_before id xs in if id_before x id then x ∷ rest else id ∷ x ∷ xs

pub sort_nodes : (String → String → Bool) → List String → List String
unfolding insert_node
sort_nodes id_before [] = []
sort_nodes id_before (x ∷ xs) = insert_node id_before x (sort_nodes id_before xs)

module _ (id_before : String → String → Bool) (anchors : String → Option String)
    (neighbors : Neighbors) where
  -- The loop over the nodes: the new labels, from the old ones.
  pub sweep : Labels → List String → Labels → Labels
  unfolding majority_label
  sweep labels [] next = next
  sweep labels (id ∷ ids) next =
      sweep labels ids (set_label id (majority_label id_before anchors neighbors labels id) next)

  pub is_changed : Labels → List String → Bool
  unfolding majority_label
  is_changed labels [] = false
  is_changed labels (id ∷ ids) =
      not (same_label (majority_label id_before anchors neighbors labels id) (label_at labels id))
      || is_changed labels ids

  pub propagate : ℕ → List String → Labels → Labels
  unfolding sweep is_changed
  propagate zero ids labels = labels
  propagate (suc rounds) ids labels =
      let more = propagate rounds ids (sweep labels ids labels) in
      if is_changed labels ids then more else sweep labels ids labels

-- `Object.fromEntries(nodes.map((node) => [node.id, anchors[node.id] ?? null]))`
pub start_labels : (String → Option String) → List String → Labels → Labels
start_labels anchors [] labels = labels
start_labels anchors (id ∷ ids) labels = start_labels anchors ids (set_label id (anchors id) labels)

abbrev pub Communities : Type 0
Communities = List (String × List String)

abbrev pub add_member : String → String → Communities → Communities
add_member label id [] = (label, id ∷ []) ∷ []
add_member label id ((l, members) ∷ communities) =
    let later = add_member label id communities in
    if l == label then (l, members ++ id ∷ []) ∷ communities else (l, members) ∷ later

pub gather : Labels → Communities → Communities
gather [] communities = communities
gather ((id, label) ∷ labels) communities =
    gather labels (add_member (get_or label id) id communities)

pub insert_community : (String → String → Bool) → String × List String → Communities → Communities
insert_community id_before c [] = c ∷ []
insert_community id_before c (d ∷ communities) =
    let rest = insert_community id_before c communities in
    if id_before d.0 c.0 then d ∷ rest else c ∷ d ∷ communities

pub sort_communities : (String → String → Bool) → Communities → Communities
unfolding insert_community sort_ids
sort_communities id_before [] = []
sort_communities id_before ((label, members) ∷ communities) =
    insert_community id_before (label, sort_ids members) (sort_communities id_before communities)

pub record Propagation : Type 0 where
  pub labels : List (String × String)
  pub communities : Communities

unfoldable pub label_propagation_communities :
    (String → String → Bool)
    → List String
    → List Link
    → (String → Option String)
    → Option ℕ
    → Propagation
unfolding neighbors_from_edges propagate start_labels sort_nodes gather sort_communities
label_propagation_communities id_before node_ids links anchors max_iterations =
    let labels =
      propagate id_before anchors (neighbors_from_edges links) (get_or max_iterations 25)
        (sort_nodes id_before node_ids) (start_labels anchors node_ids []) in
    record {
      labels = map (λ e. (e.0, get_or e.1 e.0)) labels;
      communities = sort_communities id_before (gather labels []);
    }

pub record SplitEvaluation : Type 0 where
  pub evaluated_nodes : ℕ
  pub correct : ℕ
  pub uncertain_nodes : List String

-- `predicted` and `expected` are looked up by node id; `ids` are the keys of `expected`.
unfoldable pub evaluate_community_split :
    (String → Option String)
    → (String → Option String)
    → List String
    → List String
    → SplitEvaluation
unfolding sort_ids
evaluate_community_split predicted expected ids uncertain =
    let node_ids = sort_ids (filter (λ id. not (has uncertain id)) ids) in
    record {
      evaluated_nodes = length node_ids;
      correct = length (filter (λ id. same_label (predicted id) (expected id)) node_ids);
      uncertain_nodes = sort_ids (unique uncertain);
    }
