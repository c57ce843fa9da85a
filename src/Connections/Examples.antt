-- ===== src/Connections/Examples.antt =====
-- The legs of a small link, and the theorems on legs at it.
use mapper.Prelude.{ℕ, ◌≡◌, refl, inl, inr, some, [], ◌∷◌, arith, eq_iff, Has, get_elem?}
use mapper.Prelude.Int.{pos}
use mapper.Prelude.IntMap.{get, set}
use mapper.Turnpoints.{Endpoint, Turnpoint, Shape, Leg}
use mapper.Turnpoints.Joins.{device, Spans}
use mapper.Turnpoints.Chain.{Tps, Represents, first}
use mapper.Connections.{build_tps}
use mapper.Connections.Legs.{legs-build_tps}
use mapper.Connections.Segments.{OnRoute, build_tps-OnRoute}
use mapper.Connections.Complete.{build_tps_twice, build_tps_complete}

abbrev left : Endpoint
left = record { dev = "sw1"; int = "Gi0/1" }

abbrev right : Endpoint
right = record { dev = "sw2"; int = "Gi0/2" }

abbrev at_x : ℕ → Shape → Turnpoint
at_x x s = record { x = pos x; y = pos 8; shape = s }

-- sw1 - 1 - 0 - sw2
abbrev two_tps : Tps
two_tps = (0, at_x 24 (Shape.devtp right 1)) ∷ (1, at_x 8 (Shape.devtp left 0)) ∷ []

-- The segment between the turnpoints has two legs.
four_legs :
    (build_tps "sw1" "sw2" two_tps).legs
    ≡ Shape.devtp right 0 ∷ Shape.tptp 0 1 ∷ Shape.devtp left 1 ∷ Shape.tptp 1 0 ∷ []
unfolding build_tps get set
four_legs = refl

two_tps-Represents : Represents two_tps left (1 ∷ 0 ∷ []) right
unfolding get
two_tps-Represents = record {
  left = tt;
  right = (
    at_x 8 (Shape.devtp left 0),
    refl,
    inl refl,
    (at_x 24 (Shape.devtp right 1), refl, inr refl, tt),
  );
  left_distinct = tt;
  right_distinct = (((λ e. ground arith), tt), (tt, tt));
  disjoint = tt;
  two_devices = ground (arith, eq_iff "sw1" "sw2");
  only = λ k p q. ground arith;
}

first_leg : get_elem? (build_tps "sw1" "sw2" two_tps).legs 1 ≡ some (Shape.tptp 0 1)
unfolding build_tps get set
first_leg = refl

build_tps-OnRoute_example : OnRoute (Shape.tptp 0 1) left (1 ∷ 0 ∷ []) right
build_tps-OnRoute_example =
    build_tps-OnRoute "sw1" "sw2" two_tps left right (1 ∷ 0 ∷ []) 1 (Shape.tptp 0 1)
      ((omega arith, tt), (tt, tt)) two_tps-Represents first_leg

build_tps_twice_example :
    Has (Shape.tptp 1 0) (build_tps "sw1" "sw2" two_tps).legs
    × Has (Shape.tptp 0 1) (build_tps "sw1" "sw2" two_tps).legs
build_tps_twice_example =
    build_tps_twice "sw1" "sw2" two_tps left right refl refl [] 1 0 [] two_tps-Represents

build_tps_complete_example :
    (leg : Leg) × Has leg (build_tps "sw1" "sw2" two_tps).legs
    × Spans leg (device left) (first (1 ∷ 0 ∷ []) (device right))
build_tps_complete_example =
    build_tps_complete "sw1" "sw2" two_tps left right refl refl [] (1 ∷ 0 ∷ []) two_tps-Represents
      (λ e. cc)

legs-build_tps_instance :
    (build_tps "sw1" "sw2" two_tps).legs
    ≡ Shape.devtp right 0 ∷ Shape.tptp 0 1 ∷ Shape.devtp left 1 ∷ Shape.tptp 1 0 ∷ []
legs-build_tps_instance = legs-build_tps "sw1" "sw2" two_tps
