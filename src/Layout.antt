-- ===== src/Layout.antt =====
-- The arrangement of a device's interfaces, `arrange_interfaces_dev2tp` and
-- `arrange_interfaces_dev2dev` of map-broker/www/mapper.js: which interface is drawn near which
-- turnpoint or device, and in which order they take the slots.
pub mod Target
pub mod Requests
pub mod Places
pub mod Ends
pub mod Step
pub mod Loop
pub mod Distinct
pub mod Near
pub mod Total
mod Examples
mod PageExamples
use mapper.Prelude.{
  ℕ, suc, ◌+◌, ◌*◌, String, Option, none, some, Bool, true, false, not, ◌&&◌, ◌||◌, List, [], ◌∷◌,
  length, get_elem?, str_eq, ◌==◌, if◌then◌else◌,
}
use mapper.Prelude.Int.{ℤ, pos, ◌+ℤ◌, ◌-ℤ◌}
use mapper.Prelude.IntMap.{IntMap}
use mapper.Prelude.IntMap
use mapper.Prelude.Obj.{Obj, get, set, is_defined}
use mapper.Turnpoints.{Endpoint, Turnpoint, Shape, Leg}
use mapper.Connections.Build.{Connection}
use mapper.Grid.{Slot, SlotFunc, all_slots}
use mapper.Arrange.{Point, distance, Candidate, closest, is_free, slot_point, occupy, Placed, place}
use mapper.Layout.Requests.{
  Device, Request, near_tp, near_dev, collect, closest_request, request_tp, request_dev,
}
use mapper.Layout.Target.{Box, corner_of, center_of, frame_of, target_point}

-- `_col` and `_row` of an interface
pub record Cell : Type 0 where
  pub col : ℕ
  pub row : ℕ

-- What the functions change: `slots`, `relocated` and the interfaces' cells of the device,
-- `connections_rearranged`, and the local `nei_devs`.
pub record Layout : Type 0 where
  pub slots : List Slot
  pub relocated : Obj ℕ
  pub cells : Obj Cell
  pub rearranged : Obj ℕ
  pub nei_devs : Obj ℕ

-- Does the interface stay where it was?
abbrev pub unmoved : Placed → Option Cell → Bool
unmoved p none = false
unmoved p (some c) = (c.col == p.col) && (c.row == p.row)

abbrev pub note_dev : Option String → Obj ℕ → Obj ℕ
note_dev none m = m
note_dev (some dev) m = set dev 1 m

-- The interface `int` gets the slot that was chosen for it.
unfoldable pub settle : Bool → String → Candidate → Placed → Layout → Layout
settle moved int c p s =
    let moves = not (unmoved p (get int s.cells)) || moved in
    record {
      slots = p.slots;
      relocated = set int 1 s.relocated;
      cells = set int (record { col = p.col; row = p.row }) s.cells;
      rearranged = if moves then set c.link_id 1 s.rearranged else s.rearranged;
      nei_devs = if moves then note_dev c.dev_id s.nei_devs else s.nei_devs;
    }

-- What a function returns: whether it goes on, and the state.
abbrev pub Result : Type 0
Result = Bool × Layout

-- The body of the loop over the interfaces, near what was asked for. `shift` is 0 near a turnpoint and
-- `int_half` near a device.
unfoldable pub take_slot : Device → SlotFunc → ℕ → Bool → String → Candidate → Layout → Result
unfolding settle
take_slot d func shift moved int c s =
    elim (place
      (λ sl. distance (slot_point d.int_size shift d.box.corner sl) (record { x = c.x; y = c.y }))
      int func s.slots) [
        | none ↦ (false, s)
        | some p ↦
            if d.shown int
            then (true, settle moved int c p s)
            else (false, record s { slots = p.slots })
      ]

unfoldable pub arrange_int :
    Device → SlotFunc → ℕ → Bool → (String → Request) → String → Layout → Result
unfolding take_slot
arrange_int d func shift moved req int s = elim (req int) [
  | Request.fail ↦ (false, s)
  | Request.idle ↦ (true, s)
  | Request.near c ↦ take_slot d func shift moved int c s
]

abbrev pub and_then : Result → (Layout → Result) → Result
and_then (true, s) f = f s
and_then (false, s) f = (false, s)

-- The loops over `interfaces_sorted`; a step that does not go on ends the function.
unfoldable pub each_drawn :
    (String → Bool) → (String → Layout → Result) → List String → Layout → Result
each_drawn drawn f [] s = (true, s)
each_drawn drawn f (int ∷ ints) s =
    if drawn int
    then and_then (f int s) (λ s'. each_drawn drawn f ints s')
    else each_drawn drawn f ints s

-- `arrange_interfaces_dev2tp`, with the element of the device on the page
unfoldable pub arrange_interfaces_dev2tp : Device → Bool → Layout → Result
unfolding each_drawn arrange_int
arrange_interfaces_dev2tp d moved s =
    each_drawn d.drawn (arrange_int d SlotFunc.dev2tp 0 moved (request_tp d)) d.ints
      (record s { slots = all_slots d.rows d.cols; relocated = [] })

-- The first slot that is free, from the index `i` on
unfoldable pub free_slot : ℕ → List Slot → Option (ℕ × Slot)
free_slot i [] = none
free_slot i (sl ∷ sls) =
    let rest = free_slot (i + 1) sls in if is_free sl then some (i, sl) else rest

-- An interface that was not relocated gets the first free slot.
unfoldable pub relocate_int : Device → String → Layout → Result
unfolding free_slot
relocate_int d int s =
    if is_defined (get int s.relocated) then (true, s) else elim (free_slot 0 s.slots) [
      | none ↦ (false, s)
      | some (i, sl) ↦
          let slots = occupy i int SlotFunc.dev2dev_reloc s.slots in
          if d.shown int
          then (
            true,
            record s {
              slots = slots;
              cells = set int (record { col = sl.col; row = sl.row }) s.cells;
            },
          )
          else (false, record s { slots = slots })
    ]

-- `arrange_interfaces_dev2dev` up to the recursion to the neighbours
unfoldable pub arrange_interfaces_dev2dev : Device → Bool → Layout → Result
unfolding each_drawn arrange_int relocate_int
arrange_interfaces_dev2dev d moved s =
    and_then
      (each_drawn d.drawn (arrange_int d SlotFunc.dev2dev_dev d.int_half moved (request_dev d))
        d.ints (record s { nei_devs = [] }))
      (each_drawn d.drawn (relocate_int d) d.ints)
