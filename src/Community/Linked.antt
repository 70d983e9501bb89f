-- ===== src/Community/Linked.antt =====
-- Which nodes the map of neighbours joins, and what is connected.
use network_analytics_predic.Community.{
  Link, Neighbors, neighbors_at, make_set, add_to_set, add_link, neighbors_from_edges,
}
use network_analytics_predic.Prelude.{
  has-set_add, inr, inl, Bool-cases, eq_iff, refl, arith, foldl, ◌==◌, ◌≡◌, Bool, true, false,
  String, List, [], ◌∷◌, ◌||◌, ◌&&◌, has, any,
}

-- Whether a link is between `u` and `v`, one way or the other.
abbrev pub joins : String → String → Link → Bool
joins u v l = (l.source == u && l.target == v) || (l.target == u && l.source == v)

abbrev pub joined : List Link → String → String → Bool
joined links u v = any (joins u v) links

-- A path along the links, all of whose nodes are listed.
pub data Connected (links : List Link) (nodes : List String) (u : String) : String → Type 0 where
  here : has nodes u ≡ true → Connected links nodes u u
  step :
      {v : String} (w : String)
      → Connected links nodes u v
      → joined links v w ≡ true
      → has nodes w ≡ true
      → Connected links nodes u w

pub joined_sym : (links : List Link) (u v : String) → joined links u v ≡ joined links v u
joined_sym [] u v = refl
joined_sym (l ∷ links) u v = ground (arith, joined_sym links u v)

-- Whether the map has a set for a key.
has_key : Neighbors → String → Bool
has_key [] key = false
has_key ((k, ids) ∷ rest) key = k == key || has_key rest key

neighbors_at-make_set :
    (key : String) (m : Neighbors) (id : String)
    → neighbors_at (make_set key m) id ≡ neighbors_at m id
unfolding make_set neighbors_at
neighbors_at-make_set key [] id = ground arith
neighbors_at-make_set key ((k, ids) ∷ m) id = elim (Bool-cases (k == key)) [
  | inl e ↦ rw e
  | inr e ↦ rw e (ground (arith, neighbors_at-make_set key m id))
]

has_key-make_set :
    (key : String) (m : Neighbors) (id : String)
    → has_key (make_set key m) id ≡ (has_key m id || key == id)
unfolding make_set has_key
has_key-make_set key [] id = ground arith
has_key-make_set key ((k, ids) ∷ m) id =
    ground (arith, has_key-make_set key m id, eq_iff k key, eq_iff k id, eq_iff key id)

has_key-add_to_set :
    (key x : String) (m : Neighbors) (id : String) → has_key (add_to_set key x m) id ≡ has_key m id
unfolding add_to_set has_key
has_key-add_to_set key x [] id = refl
has_key-add_to_set key x ((k, ids) ∷ m) id = ground (arith, has_key-add_to_set key x m id)

has-add_to_set :
    (key x : String) (m : Neighbors) (u v : String)
    → has_key m key ≡ true
    → has (neighbors_at (add_to_set key x m) u) v
      ≡ (has (neighbors_at m u) v || (key == u && x == v))
unfolding add_to_set has_key neighbors_at
has-add_to_set key x [] u v h = cc
has-add_to_set key x ((k, ids) ∷ m) u v h = elim (Bool-cases (k == key)) [
  | inl e ↦ rw e (ground (arith, has-set_add ids x v, (eq_iff k key).0 e, eq_iff k u, eq_iff key u))
  | inr e ↦
      let later : has_key m key ≡ true = ground arith in
      rw e
        (ground (arith, has-add_to_set key x m u v later, eq_iff k key, eq_iff k u, eq_iff key u))
]

has-add_link :
    (m : Neighbors) (l : Link) (u v : String)
    → has (neighbors_at (add_link m l) u) v ≡ (has (neighbors_at m u) v || joins u v l)
unfolding add_link
has-add_link m l u v =
    let m1 = make_set l.source m in
    let m2 = make_set l.target m1 in
    let m3 = add_to_set l.source l.target m2 in
    let k1 : has_key m2 l.source ≡ true = ground (
      arith,
      has_key-make_set l.target m1 l.source,
      has_key-make_set l.source m l.source,
      eq_iff l.source l.source,
    ) in
    let k2 : has_key m3 l.target ≡ true = ground (
      arith,
      has_key-add_to_set l.source l.target m2 l.target,
      has_key-make_set l.target m1 l.target,
      eq_iff l.target l.target,
    ) in
    ground (
      arith,
      has-add_to_set l.target l.source m3 u v k2,
      has-add_to_set l.source l.target m2 u v k1,
      neighbors_at-make_set l.target m1 u,
      neighbors_at-make_set l.source m u,
    )

has-foldl :
    (m : Neighbors) (links : List Link) (u v : String)
    → has (neighbors_at (foldl add_link m links) u) v
      ≡ (has (neighbors_at m u) v || joined links u v)
has-foldl m [] u v = ground arith
has-foldl m (l ∷ links) u v =
    ground (arith, has-foldl (add_link m l) links u v, has-add_link m l u v)

pub has-neighbors :
    (links : List Link) (u v : String)
    → has (neighbors_at (neighbors_from_edges links) u) v ≡ joined links u v
unfolding neighbors_from_edges neighbors_at
has-neighbors links u v = has-foldl [] links u v
