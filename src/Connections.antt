-- ===== src/Connections.antt =====
-- The legs of one link, as `build_connections` of map-broker/www/mapper.js derives them from the
-- link's turnpoints.
pub mod Legs
pub mod Segments
pub mod Complete
pub mod Build
pub mod Sound
pub mod Kept
pub mod Found
pub mod Routed
mod Examples
use mapper.Prelude.{
  ℕ, String, Option, none, some, Bool, true, false, not, ◌&&◌, ◌||◌, List, [], ◌∷◌, ◌++◌, str_eq,
  if◌then◌else◌,
}
use mapper.Prelude.IntMap.{IntMap, get, set}
use mapper.Turnpoints.{Endpoint, Turnpoint, Shape, Leg}

-- The object `connected` of a turnpoint, once it was created.
abbrev pub Connected : Type 0
Connected = Option (IntMap ℕ)

-- What `build_connections` puts together for one link. `errors` are the turnpoints that it
-- reports as invalid.
pub record Built : Type 0 where
  pub tps : IntMap Connected
  pub legs : List Leg
  pub errors : List ℕ

-- `tps[j] == undefined` makes an empty object.
touch : ℕ → IntMap Connected → IntMap Connected
touch j tps = elim (get j tps) [ none ↦ set j none tps | some _ ↦ tps ]

-- `tps[i]["connected"] == undefined || tps[i]["connected"][j] == undefined`
unconnected : ℕ → ℕ → IntMap Connected → Bool
unconnected i j tps = elim (get i tps) [
  | none ↦ true
  | some none ↦ true
  | some (some c) ↦ elim (get j c) [ none ↦ true | some _ ↦ false ]
]

mark_one : ℕ → ℕ → IntMap Connected → IntMap Connected
mark_one i j tps = elim (get i tps) [
  | none ↦ set i (some (set j 1 [])) tps
  | some none ↦ set i (some (set j 1 [])) tps
  | some (some c) ↦ set i (some (set j 1 c)) tps
]

-- Both turnpoints are told that they are connected.
mark : ℕ → ℕ → IntMap Connected → IntMap Connected
unfolding mark_one
mark i j tps = mark_one i j (mark_one j i tps)

push : Leg → Built → Built
push leg b = record b { legs = b.legs ++ leg ∷ [] }

-- A leg between the turnpoints `i` and `j`, unless `i` is connected to `j`.
join : ℕ → ℕ → Built → Built
unfolding unconnected mark push
join i j b =
    if unconnected i j b.tps
    then record b { legs = b.legs ++ Shape.tptp i j ∷ []; tps = mark i j b.tps }
    else b

report : ℕ → Built → Built
report i b = record b { errors = b.errors ++ i ∷ [] }

-- One turn of the loop over the turnpoints of the link between `dev` and `nei`.
build_tp : String → String → ℕ → Shape → Built → Built
unfolding touch join push report
build_tp dev nei i (Shape.devdev f t) b =
    let b1 : Built = record b { tps = set i none b.tps } in
    if (not (str_eq f.dev dev) && not (str_eq f.dev nei))
      || (not (str_eq t.dev dev) && not (str_eq t.dev nei))
    then report i b1
    else push (Shape.devtp t i) (push (Shape.devtp f i) b1)
build_tp dev nei i (Shape.devtp f t) b =
    let b1 : Built = record b { tps = touch t (set i none b.tps) } in
    if not (str_eq f.dev dev) && not (str_eq f.dev nei)
    then report i b1
    else join i t (push (Shape.devtp f i) b1)
build_tp dev nei i (Shape.tptp f t) b =
    let b1 : Built = record b { tps = touch t (touch f (set i none b.tps)) } in
    join i t (join i f b1)

build_from : String → String → Built → IntMap Turnpoint → Built
build_from dev nei b [] = b
build_from dev nei b ((i, t) ∷ m) = build_from dev nei (build_tp dev nei i t.shape b) m

-- The loop over the turnpoints, from a connection with no legs.
pub build_tps : String → String → IntMap Turnpoint → Built
unfolding build_from build_tp
build_tps dev nei m = build_from dev nei (record { tps = []; legs = []; errors = [] }) m
