-- ===== src/Community/Labels/Groups.antt =====
-- The communities of a label propagation group the nodes by their labels.
use network_analytics_predic.Gates.Folds.{sort_ids}
use network_analytics_predic.Community.Fill.{has-sort_ids}
use network_analytics_predic.Community.Labels.{
  Labels, Communities, add_member, gather, insert_community, sort_communities,
}
use network_analytics_predic.Prelude.{
  has-append, arith, refl, eq_iff, ◌==◌, ◌≡◌, Bool, String, List, [], ◌∷◌, ◌||◌, ◌&&◌, has, any,
  map, get_or,
}

-- The members of all communities of a name.
abbrev pub has_member : Communities → String → String → Bool
has_member communities label v = any (λ c. c.0 == label && has c.1 v) communities

abbrev pub has_label : List (String × String) → String → String → Bool
has_label labels label v = any (λ e. e.0 == v && e.1 == label) labels

has_member-add_member :
    (name id : String) (communities : Communities) (label v : String)
    → has_member (add_member name id communities) label v
      ≡ (has_member communities label v || (name == label && id == v))
has_member-add_member name id [] label v = ground arith
has_member-add_member name id ((l, members) ∷ communities) label v = ground (
  arith,
  has_member-add_member name id communities label v,
  has-append members (id ∷ []) v,
  eq_iff l name,
  eq_iff l label,
  eq_iff name label,
)

pub has_member-gather :
    (labels : Labels) (communities : Communities) (label v : String)
    → has_member (gather labels communities) label v ≡ (
        has_member communities label v
        || has_label (map (λ e. (e.0, get_or e.1 e.0)) labels) label v)
unfolding gather
has_member-gather [] communities label v = ground arith
has_member-gather ((id, l) ∷ labels) communities label v =
    let name = get_or l id in
    ground (
      arith,
      has_member-gather labels (add_member name id communities) label v,
      has_member-add_member name id communities label v,
    )

has_member-insert :
    (id_before : String → String → Bool) (c : String × List String) (communities : Communities)
    (label v : String)
    → has_member (insert_community id_before c communities) label v
      ≡ ((c.0 == label && has c.1 v) || has_member communities label v)
unfolding insert_community
has_member-insert id_before c [] label v = refl
has_member-insert id_before c (d ∷ communities) label v =
    ground (arith, has_member-insert id_before c communities label v)

pub has_member-sort :
    (id_before : String → String → Bool) (communities : Communities) (label v : String)
    → has_member (sort_communities id_before communities) label v ≡ has_member communities label v
unfolding sort_communities
has_member-sort id_before [] label v = refl
has_member-sort id_before ((l, members) ∷ communities) label v = ground (
  arith,
  has_member-insert id_before (l, sort_ids members) (sort_communities id_before communities) label
      v,
  has_member-sort id_before communities label v,
  has-sort_ids members v,
)
