-- ===== src/Turnpoints.antt =====
-- The turnpoints of one link, `map_data["tps"][link_id]` of map-broker/www/mapper.js, and what
-- `new_tp` and `remove_tp` do to them.
pub mod Joins
pub mod Chain
pub mod Route
pub mod Split
pub mod Insert
pub mod Bypass
pub mod Erase
mod Examples
use mapper.Prelude.{
  ℕ, suc, String, Option, none, some, Bool, true, false, List, [], ◌∷◌, ◌==◌, str_eq, if◌then◌else◌,
  length,
}
use mapper.Prelude.Int.{ℤ}
use mapper.Prelude.IntMap.{IntMap, get, set, delete, first_free}

-- An interface of a device.
pub record Endpoint : Type 0 where
  pub dev : String
  pub int : String

-- The fields that go with each `type` of a turnpoint.
pub data Shape : Type 0 where
  devdev : Endpoint → Endpoint → Shape
  devtp : Endpoint → ℕ → Shape
  tptp : ℕ → ℕ → Shape

pub record Turnpoint : Type 0 where
  pub x : ℤ
  pub y : ℤ
  pub shape : Shape

-- A drawable segment of a link has the same types, with the same fields, as a turnpoint.
abbrev pub Leg : Type 0
Leg = Shape

-- How a handler ends: it runs through, it reports an error and returns, or it throws because it
-- reads a field of a turnpoint that is not there. `endless` is a search that ran out of fuel.
pub data Status : Type 0 where
  done invalid corrupted thrown endless : Status

-- What `new_tp` makes of the turnpoint beside a device `e`, when `n` comes in between.
unfoldable pub detach : Shape → Endpoint → ℕ → Shape
detach (Shape.devdev f t) e n = if str_eq f.dev e.dev then Shape.devtp t n else Shape.devtp f n
detach (Shape.devtp f t) e n = Shape.tptp n t
detach (Shape.tptp f t) e n = Shape.tptp f t

-- What `new_tp` makes of a turnpoint beside the turnpoint `old`, when `n` comes in between.
unfoldable pub retarget : Shape → ℕ → ℕ → Shape
retarget (Shape.devdev f t) old n = Shape.devdev f t
retarget (Shape.devtp f t) old n = Shape.devtp f n
retarget (Shape.tptp f t) old n = if f == old then Shape.tptp n t else Shape.tptp f n

reshape : Turnpoint → Shape → Turnpoint
reshape t s = record t { shape = s }

-- The second turnpoint of a `tptp` leg is read after the first was written.
split_far : ℕ → ℕ → ℕ → IntMap Turnpoint → Status × IntMap Turnpoint
unfolding reshape retarget
split_far old1 old2 n m = elim (get old2 m) [
  | none ↦ (thrown, m)
  | some t ↦ (done, set old2 (reshape t (retarget t.shape old1 n)) m)
]

-- The neighbours' part of `new_tp`, after the new turnpoint was stored.
unfoldable pub split_leg : Leg → ℕ → IntMap Turnpoint → Status × IntMap Turnpoint
unfolding split_far reshape detach retarget
split_leg (Shape.devdev f t) n m = (done, m)
split_leg (Shape.devtp e old) n m = elim (get old m) [
  | none ↦ (thrown, m)
  | some t ↦ (done, set old (reshape t (detach t.shape e n)) m)
]
split_leg (Shape.tptp old1 old2) n m = elim (get old1 m) [
  | none ↦ (thrown, m)
  | some t ↦ split_far old1 old2 n (set old1 (reshape t (retarget t.shape old2 n)) m)
]

-- `map_data["tps"][link_id]` is an object or undefined; a `devdev` leg goes with undefined.
unfoldable pub fits_leg : Option (IntMap Turnpoint) → Leg → Bool
fits_leg none (Shape.devdev _ _) = true
fits_leg none _ = false
fits_leg (some _) (Shape.devdev _ _) = false
fits_leg (some _) _ = true

abbrev pub or_empty : Option (IntMap Turnpoint) → IntMap Turnpoint
or_empty none = []
or_empty (some m) = m

-- `new_tp` from the test of the leg's type to the call of `save_map`.
pub insert_tp : ℤ → ℤ → Leg → Option (IntMap Turnpoint) → Status × Option (IntMap Turnpoint)
unfolding split_leg fits_leg
insert_tp cx cy leg tps =
    let m = or_empty tps in
    if fits_leg tps leg
    then elim (first_free (suc (length m)) 0 m) [
      | none ↦ (endless, some m)
      | some n ↦
          let (status, m') = split_leg leg n (set n (record { x = cx; y = cy; shape = leg }) m) in
          (status, some m')
    ]
    else (invalid, tps)

-- `remove_tp` makes the neighbour of a turnpoint `i` beside the device `e` end at `e` itself.
unfoldable pub attach : Shape → ℕ → Endpoint → Option Shape
attach (Shape.devdev f t) i e = none
attach (Shape.devtp f t) i e = if t == i then some (Shape.devdev f e) else none
attach (Shape.tptp f t) i e =
    if f == i then some (Shape.devtp e t) else if t == i then some (Shape.devtp e f) else none

-- `remove_tp` makes a neighbour of the turnpoint `i` point to `j` instead.
unfoldable pub redirect : Shape → ℕ → ℕ → Option Shape
redirect (Shape.devdev f t) i j = none
redirect (Shape.devtp f t) i j = if t == i then some (Shape.devtp f j) else none
redirect (Shape.tptp f t) i j =
    if f == i then some (Shape.tptp j t) else if t == i then some (Shape.tptp f j) else none

-- Reads the turnpoint `k`, changes its shape by `f`, and writes it; `none` is a corrupted database.
unfoldable pub rewire : ℕ → (Shape → Option Shape) → IntMap Turnpoint → Status × IntMap Turnpoint
unfolding reshape
rewire k f m = elim (get k m) [
  | none ↦ (thrown, m)
  | some t ↦ elim (f t.shape) [ none ↦ (corrupted, m) | some s ↦ (done, set k (reshape t s) m) ]
]

abbrev and_then :
    Status × IntMap Turnpoint
    → (IntMap Turnpoint → Status × IntMap Turnpoint)
    → Status × IntMap Turnpoint
and_then (done, m) k = k m
and_then (invalid, m) k = (invalid, m)
and_then (corrupted, m) k = (corrupted, m)
and_then (thrown, m) k = (thrown, m)
and_then (endless, m) k = (endless, m)

-- The neighbours' part of `remove_tp`: what was written before an error stays written.
unfoldable pub bypass : Shape → ℕ → IntMap Turnpoint → Status × IntMap Turnpoint
unfolding rewire attach redirect
bypass (Shape.devdev f t) i m = (done, m)
bypass (Shape.devtp e next) i m = rewire next (λ s. attach s i e) m
bypass (Shape.tptp prev next) i m =
    and_then (rewire prev (λ s. redirect s i next) m)
      (λ m'. rewire next (λ s. redirect s i prev) m')

abbrev nonempty : IntMap Turnpoint → Option (IntMap Turnpoint)
nonempty [] = none
nonempty (e ∷ m) = some (e ∷ m)

-- `delete map_data["tps"][link_id][tpi]`, and the link's object with its last turnpoint.
unfoldable pub forget : ℕ → IntMap Turnpoint → Option (IntMap Turnpoint)
forget i m = nonempty (delete i m)

finish : ℕ → Status × IntMap Turnpoint → Status × Option (IntMap Turnpoint)
unfolding forget
finish i (done, m) = (done, forget i m)
finish i (status, m) = (status, some m)

-- `remove_tp` up to the call of `save_map`.
pub erase_tp : ℕ → Option (IntMap Turnpoint) → Status × Option (IntMap Turnpoint)
unfolding bypass finish
erase_tp i none = (thrown, none)
erase_tp i (some m) = elim (get i m) [
  | none ↦ (thrown, some m)
  | some t ↦ finish i (bypass t.shape i m)
]
