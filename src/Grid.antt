-- ===== src/Grid.antt =====
-- The cells of a device's box on the map: how many rows and columns `add_device` gives it, where it
-- puts the interfaces first, and the slots that `arrange_interfaces_dev2tp` makes of the border
-- (map-broker/www/mapper.js).
pub mod Size
pub mod Slots
pub mod Walk
mod Examples
use mapper.Prelude.{
  ℕ, zero, suc, ◌+◌, ◌-◌, ◌*◌, String, Option, none, some, Bool, true, false, ◌&&◌, List, [], ◌∷◌,
  ◌++◌, ltb, ◌==◌, if◌then◌else◌,
}

-- The columns and rows that are added to those of the name.
pub record Added : Type 0 where
  pub cols : ℕ
  pub rows : ℕ

-- `if(name_cells_x == 0) name_cells_x = 1;`
unfoldable pub at_least_one : ℕ → ℕ
at_least_one n = if n == 0 then 1 else n

module _ (name_x name_y : ℕ) where
  abbrev pub outer_slots : Added → ℕ
  outer_slots a = 4 + name_x * 2 + name_y * 2 + a.rows * 2 + a.cols * 2

  abbrev pub inner_slots : Added → ℕ
  inner_slots a = a.rows * name_x + a.rows * a.cols

  -- The body of both loops
  unfoldable pub grow : Added → Added
  grow a =
      if ltb (name_y + a.rows) (name_x + a.cols)
      then record a { rows = a.rows + 1 }
      else record a { cols = a.cols + 1 }

  -- `while(outer_slots < draw1_count)`
  unfoldable pub grow_outer : ℕ → ℕ → Added → Added
  unfolding grow
  grow_outer zero draw1 a = a
  grow_outer (suc fuel) draw1 a = elim (ltb (outer_slots a) draw1) [
    | true ↦ grow_outer fuel draw1 (grow a)
    | false ↦ a
  ]

  -- `while(inner_slots < draw2_count)`
  unfoldable pub grow_inner : ℕ → ℕ → Added → Added
  unfolding grow
  grow_inner zero draw2 a = a
  grow_inner (suc fuel) draw2 a = elim (ltb (inner_slots a) draw2) [
    | true ↦ grow_inner fuel draw2 (grow a)
    | false ↦ a
  ]

  -- Both loops, with the fuel that they need.
  unfoldable pub added : ℕ → ℕ → Added
  unfolding grow_outer grow_inner
  added draw1 draw2 =
      grow_inner (name_y + draw1 + draw2 * 2 + 2) draw2
        (grow_outer (draw1 + 1) draw1 (record { cols = 0; rows = 0 }))

-- `_cols`, `_rows` and the first row of the inner cells
pub record GridSize : Type 0 where
  pub cols : ℕ
  pub rows : ℕ
  pub inner_start_row : ℕ
  pub inner_cols : ℕ
  pub inner_rows : ℕ

-- The size of a device whose name takes `name_x` by `name_y` cells (before the two are made at
-- least 1), with `draw1` interfaces outside and `draw2` inside.
unfoldable pub grid_size : ℕ → ℕ → ℕ → ℕ → GridSize
unfolding added at_least_one
grid_size name_x name_y draw1 draw2 =
    let x = at_least_one name_x in
    let y = at_least_one name_y in
    let a = added x y draw1 draw2 in
    record {
      cols = x + a.cols + 2;
      rows = y + a.rows + 2;
      inner_start_row = 1 + y;
      inner_cols = x + a.cols;
      inner_rows = a.rows;
    }

-- How a slot came to be occupied.
pub data SlotFunc : Type 0 where
  dev2tp dev2dev_dev dev2dev_reloc : SlotFunc

pub record Slot : Type 0 where
  pub col : ℕ
  pub row : ℕ
  -- the interface that occupies the slot, with `func`
  pub by : Option (String × SlotFunc)

-- The column after `c` in row `r`: rows in the middle have two cells.
unfoldable pub next_col : ℕ → ℕ → ℕ → ℕ → ℕ
next_col rows cols r c = if ltb 0 r && ltb r (rows - 1) && (c + 1 == 1) then cols - 1 else c + 1

unfoldable pub row_slots : ℕ → ℕ → ℕ → ℕ → ℕ → List Slot
unfolding next_col
row_slots zero rows cols r c = []
row_slots (suc fuel) rows cols r c = elim (ltb c cols) [
  | true ↦
      record { col = c; row = r; by = none } ∷ row_slots fuel rows cols r (next_col rows cols r c)
  | false ↦ []
]

-- The rows from `r` on, `left` of them
unfoldable pub slots_from : ℕ → ℕ → ℕ → ℕ → List Slot
unfolding row_slots
slots_from zero rows cols r = []
slots_from (suc left) rows cols r =
    row_slots cols rows cols r 0 ++ slots_from left rows cols (r + 1)

-- `temp_data["devs"][dev_id]["slots"]` before any is occupied
unfoldable pub all_slots : ℕ → ℕ → List Slot
unfolding slots_from
all_slots rows cols = slots_from rows rows cols 0

-- Where `add_device` puts the next interface, and how it goes on.
pub record Cursor : Type 0 where
  pub row : ℕ
  pub col : ℕ

wrap : ℕ → Cursor → Cursor
wrap cols p = if p.col == cols then record { row = p.row + 1; col = 0 } else p

unfoldable pub advance : ℕ → ℕ → Cursor → Cursor
unfolding wrap
advance rows cols p = wrap cols (
    if ltb 0 p.row && ltb p.row (rows - 1) && p.col == 0
    then record p { col = cols - 1 }
    else record p { col = p.col + 1 })

unfoldable pub advance_inner : ℕ → Cursor → Cursor
advance_inner cols p =
    if ltb (p.col + 1) (cols - 1)
    then record p { col = p.col + 1 }
    else record { row = p.row + 1; col = 1 }

-- The cells of `n` interfaces, one after another
unfoldable pub walk : ℕ → ℕ → ℕ → Cursor → List Cursor
unfolding advance
walk zero rows cols p = []
walk (suc n) rows cols p = p ∷ walk n rows cols (advance rows cols p)

unfoldable pub walk_inner : ℕ → ℕ → Cursor → List Cursor
unfolding advance_inner
walk_inner zero cols p = []
walk_inner (suc n) cols p = p ∷ walk_inner n cols (advance_inner cols p)
