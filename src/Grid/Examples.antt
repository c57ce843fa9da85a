-- ===== src/Grid/Examples.antt =====
-- The box of a small device, and the theorems on boxes at it.
use mapper.Prelude.{
  ◌+◌, ◌-◌, ◌*◌, ◌≤◌, ◌≡◌, refl, List, [], ◌∷◌, ◌++◌, map, ◌&&◌, length, ltb, if◌then◌else◌, arith,
}
use mapper.Grid.{Cursor, grid_size, all_slots, walk}
use mapper.Grid.Size.{grid_size_enough}
use mapper.Grid.Slots.{count_cell, count_cell-all_slots, on_border}
use mapper.Grid.Walk.{cell, slots_enough, length-all_slots, walk-slots}

small_box :
    grid_size 3 1 11 2
    ≡ record { cols = 5; rows = 4; inner_start_row = 2; inner_cols = 3; inner_rows = 1 }
unfolding grid_size
small_box = refl

border_cells :
    map cell (all_slots 3 3)
    ≡ record { row = 0; col = 0 }
      ∷ record { row = 0; col = 1 }
      ∷ record { row = 0; col = 2 }
      ∷ record { row = 1; col = 0 }
      ∷ record { row = 1; col = 2 }
      ∷ record { row = 2; col = 0 }
      ∷ record { row = 2; col = 1 }
      ∷ record { row = 2; col = 2 }
      ∷ []
unfolding all_slots
border_cells = refl

grid_size_enough_example :
    (3 ≤ (grid_size 3 1 11 2).cols)
    × (3 ≤ (grid_size 3 1 11 2).rows)
    × (11 ≤ (grid_size 3 1 11 2).cols * 2 + ((grid_size 3 1 11 2).rows - 2) * 2)
    × (2 ≤ (grid_size 3 1 11 2).inner_rows * (grid_size 3 1 11 2).inner_cols)
grid_size_enough_example = grid_size_enough 3 1 11 2

count_cell-all_slots_example :
    count_cell 1 1 (all_slots 3 3) ≡ (if ltb 1 3 && ltb 1 3 && on_border 3 3 1 1 then 1 else 0)
count_cell-all_slots_example = count_cell-all_slots 1 1 3 3 (omega arith)

slots_enough_instance : 11 ≤ length (all_slots (grid_size 3 1 11 2).rows (grid_size 3 1 11 2).cols)
slots_enough_instance = slots_enough 3 1 11 2

walk-slots_instance :
    (rest : List Cursor) × (map cell (all_slots 3 3)
      ≡ walk 4 3 3 (record { row = 0; col = 0 }) ++ rest)
walk-slots_instance =
    walk-slots 4 3 3 (omega arith) (omega arith)
      (omega (arith, length-all_slots 3 3 (omega arith) (omega arith)))
