-- ===== src/Connections/Segments.antt =====
-- The legs of a link and the segments of its route.
use mapper.Prelude.{
  ℕ, String, ◌≡◌, ◌⊎◌, inl, inr, ℕ_discrete, some, List, [], ◌∷◌, arith, ◌==◌, Bool-cases, Has,
  Has-append, Has-append_left, Has-append_right, Has-of_get_elem?, get_elem?,
}
use mapper.Prelude.IntMap.{get, Ascending, get-Above}
use mapper.Turnpoints.{Endpoint, Turnpoint, Shape, Leg}
use mapper.Turnpoints.Joins.{Node, device, point, Joins, Spans}
use mapper.Turnpoints.Chain.{Tps, first, NotIn, IsRoute, IsRoute-forward, Represents, path_of}
use mapper.Connections.{build_tps}
use mapper.Connections.Legs.{legs_of, all_legs, legs-build_tps}

-- The legs of a stored turnpoint are among the link's.
pub Has-all_legs :
    (dev nei : String) (i : ℕ) (t : Turnpoint) (leg : Leg) (m : Tps)
    → get i m ≡ some t
    → Has leg (legs_of dev nei i t.shape)
    → Has leg (all_legs dev nei m)
unfolding get
Has-all_legs dev nei i t leg [] e h = absurd (cc)
Has-all_legs dev nei i t leg ((j, u) ∷ m) e h = elim (Bool-cases (j == i)) [
  | inl same ↦
      let p : j ≡ i = ground arith in
      let q : u ≡ t = ground arith in
      Has-append_left leg (legs_of dev nei j u.shape) (all_legs dev nei m) (rw (p, q) h)
  | inr other ↦ Has-append_right leg _ _ (Has-all_legs dev nei i t leg m (ground arith) h)
]

-- Every leg of the link is that of a stored turnpoint.
all_legs-stored :
    (dev nei : String) (leg : Leg) (m : Tps)
    → Ascending m
    → Has leg (all_legs dev nei m)
    → (i : ℕ) × (t : Turnpoint) × (get i m ≡ some t) × Has leg (legs_of dev nei i t.shape)
unfolding get
all_legs-stored dev nei leg [] a h = absurd h
all_legs-stored dev nei leg ((j, u) ∷ m) a h = elim (Has-append leg _ _ h) [
  | inl here ↦ (j, u, ground arith, here)
  | inr later ↦
      let (i, t, e, k) = all_legs-stored dev nei leg m a.1 later in
      (i, t, ground (arith, get-Above j m a.0, e), k)
]

-- A leg of the turnpoint `i` lies between `i` and one of its neighbours.
Spans-legs_of :
    (dev nei : String) (i : ℕ) (s : Shape) (p q : Node) (leg : Leg)
    → Joins s p q
    → Has leg (legs_of dev nei i s)
    → Spans leg p (point i) ⊎ Spans leg (point i) q
Spans-legs_of dev nei i (Shape.devdev f t) p q leg j h = ground arith
Spans-legs_of dev nei i (Shape.devtp f t) p q leg j h = ground arith
Spans-legs_of dev nei i (Shape.tptp f t) p q leg j h = ground arith

-- A turnpoint that is stored is one of the route's.
place :
    (m : Tps) (a b : Endpoint) (i : ℕ) (t : Turnpoint) (ls ys : List ℕ)
    → get i m ≡ some t
    → IsRoute m a ls ys b
    → NotIn i ls
    → (ls' : List ℕ) × (ys' : List ℕ) × (path_of ls' (i ∷ ys') ≡ path_of ls ys)
      × IsRoute m a ls' (i ∷ ys') b
place m a b i t ls [] e r n = absurd (ground (arith, r.only i n tt))
place m a b i t ls (y ∷ ys) e r n = elim (ℕ_discrete i y) [
  | yes p ↦ (ls, ys, rw p, rw p r)
  | no p ↦ place m a b i t (y ∷ ls) ys e (IsRoute-forward ls y ys r) (p, n)
]

-- Which route a leg belongs to: it joins the two neighbours of a place of the route.
abbrev pub OnRoute : Leg → Endpoint → List ℕ → Endpoint → Type 0
OnRoute leg a is b =
    (ls : List ℕ) × (ys : List ℕ) × (path_of ls ys ≡ is)
    × Spans leg (first ls (device a)) (first ys (device b))

-- When the turnpoints of a link, in ascending order of their numbers, are the route `is` from `a` to
-- `b`, every leg that is built for it joins two neighbours on that route, the two ends included.
pub build_tps-OnRoute :
    (dev nei : String) (m : Tps) (a b : Endpoint) (is : List ℕ) (k : ℕ) (leg : Leg)
    → Ascending m
    → Represents m a is b
    → get_elem? (build_tps dev nei m).legs k ≡ some leg
    → OnRoute leg a is b
build_tps-OnRoute dev nei m a b is k leg asc r h =
    let has : Has leg (all_legs dev nei m) = Has-of_get_elem? leg _ k (rw legs-build_tps at h) in
    let (i, t, e, here) = all_legs-stored dev nei leg m asc has in
    let (ls, ys, same, r') = place m a b i t [] is e r tt in side i t ls ys e same here r'
  where
    side :
        (i : ℕ) (t : Turnpoint) (ls ys : List ℕ)
        → get i m ≡ some t
        → path_of ls (i ∷ ys) ≡ is
        → Has leg (legs_of dev nei i t.shape)
        → IsRoute m a ls (i ∷ ys) b
        → OnRoute leg a is b
    side i t ls ys e same here r' =
        let (u, f, j, _) = r'.right in
        let ut : u ≡ t = cc (e, f) in
        elim (Spans-legs_of dev nei i t.shape _ _ leg (rw ut at j) here) [
          | inl before ↦ (ls, i ∷ ys, same, before)
          | inr behind ↦ (i ∷ ls, ys, same, behind)
        ]
