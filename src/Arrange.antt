-- ===== src/Arrange.antt =====
-- How `arrange_interfaces_dev2tp` and `arrange_interfaces_dev2dev` (map-broker/www/mapper.js) choose
-- a slot of a device for an interface: the nearest that is free.
pub mod Nearest
pub mod Occupy
mod Examples
use mapper.Prelude.{
  ℕ, zero, suc, ◌+◌, ◌*◌, String, Option, none, some, Bool, true, false, ◌&&◌, List, [], ◌∷◌, set,
  get_elem?, if◌then◌else◌,
}
use mapper.Prelude.Int.{ℤ, pos, ◌+ℤ◌, ◌-ℤ◌, ◌*ℤ◌, ltb_ℤ, leb_ℤ, pos_part, neg_part}
use mapper.Grid.{Slot, SlotFunc}

pub record Point : Type 0 where
  pub x : ℤ
  pub y : ℤ

-- `dx*dx + dy*dy`
unfoldable pub distance : Point → Point → ℤ
distance p q = let dx = p.x -ℤ q.x in let dy = p.y -ℤ q.y in dx *ℤ dx +ℤ dy *ℤ dy

-- A turnpoint or a neighbouring device, with the link that leads there; `dev_id` is set for a device.
pub record Candidate : Type 0 where
  pub distance : ℤ
  pub x : ℤ
  pub y : ℤ
  pub link_id : String
  pub dev_id : Option String

-- `distances.sort(...)[0]`: sorting by distance is stable, so the first of the least comes first.
unfoldable pub closest_from : Candidate → List Candidate → Candidate
closest_from best [] = best
closest_from best (c ∷ cs) = closest_from (if ltb_ℤ c.distance best.distance then c else best) cs

unfoldable pub closest : List Candidate → Option Candidate
unfolding closest_from
closest [] = none
closest (c ∷ cs) = some (closest_from c cs)

abbrev pub is_free : Slot → Bool
is_free s = elim s.by [ none ↦ true | some _ ↦ false ]

-- `nearest_slot` and `nearest_distance`; `none` is undefined.
abbrev pub Found : Type 0
Found = Option (ℕ × ℤ)

-- `nearest_slot == undefined || nearest_distance > distance`
abbrev better : Found → ℤ → Bool
better none d = true
better (some (i, n)) d = ltb_ℤ d n

-- The loop over the slots, from the slot with the index `i` on.
unfoldable pub nearest_from : (Slot → ℤ) → Found → ℕ → List Slot → Found
nearest_from dist found i [] = found
nearest_from dist found i (s ∷ ss) =
    nearest_from dist (if is_free s && better found (dist s) then some (i, dist s) else found)
      (i + 1) ss

unfoldable pub nearest : (Slot → ℤ) → List Slot → Found
unfolding nearest_from
nearest dist ss = nearest_from dist none 0 ss

-- Where a slot of a device with its corner at `corner` lies; `shift` is `int_half` for the search of
-- a slot near a device, and 0 near a turnpoint.
unfoldable pub slot_point : ℕ → ℕ → Point → Slot → Point
slot_point int_size shift corner s = record {
  x = corner.x +ℤ pos (s.col * int_size) +ℤ pos shift;
  y = corner.y +ℤ pos (s.row * int_size) +ℤ pos shift;
}

-- `slots[sl]["occupied"] = true`, with `by` and `func`
unfoldable pub occupy : ℕ → String → SlotFunc → List Slot → List Slot
occupy i int func ss = elim (get_elem? ss i) [
  | none ↦ ss
  | some s ↦ set ss i (record s { by = some (int, func) })
]

-- What an interface is given: the index of a slot, its column and its row.
pub record Placed : Type 0 where
  pub index : ℕ
  pub col : ℕ
  pub row : ℕ
  pub slots : List Slot

-- From the choice of a slot to its occupation; `none` is the error "no slots!".
unfoldable pub place : (Slot → ℤ) → String → SlotFunc → List Slot → Option Placed
place dist int func ss = elim (nearest dist ss) [
  | none ↦ none
  | some (i, d) ↦ elim (get_elem? ss i) [
    | none ↦ none
    | some s ↦ some (record { index = i; col = s.col; row = s.row; slots = occupy i int func ss })
  ]
]
