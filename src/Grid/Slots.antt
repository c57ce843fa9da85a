-- ===== src/Grid/Slots.antt =====
-- The slots of a device are the cells on the border of its box, each once.
use mapper.Prelude.{
  ℕ, zero, suc, ◌+◌, ◌-◌, ◌≤◌, ◌<◌, ◌≡◌, refl, ◌∙◌, Bool, true, false, ◌&&◌, ◌||◌, List, [], ◌∷◌,
  ◌++◌, arith, ltb, leb, ◌==◌, if◌then◌else◌, Bool-cases, inl, inr, none, ltb→lt,
}
use mapper.Grid.{Slot, next_col, row_slots, slots_from, all_slots}

-- Which rows lie between the first and the last
abbrev pub middle : ℕ → ℕ → Bool
middle rows r = ltb 0 r && ltb r (rows - 1)

pub next_edge : (rows cols r c : ℕ) → middle rows r ≡ false → next_col rows cols r c ≡ c + 1
unfolding next_col
next_edge rows cols r c e = ground arith

pub next_middle :
    (rows cols r c : ℕ)
    → middle rows r ≡ true
    → next_col rows cols r c ≡ (if c == 0 then cols - 1 else c + 1)
unfolding next_col
next_middle rows cols r c e = ground arith

pub row_slots_past : (fuel rows cols r c : ℕ) → cols ≤ c → row_slots fuel rows cols r c ≡ []
unfolding row_slots
row_slots_past zero rows cols r c h = refl
row_slots_past (suc fuel) rows cols r c h = ground arith

pub row_slots_more :
    (fuel rows cols r c : ℕ)
    → c < cols
    → row_slots (suc fuel) rows cols r c
      ≡ record { col = c; row = r; by = none } ∷ row_slots fuel rows cols r (next_col rows cols r c)
unfolding row_slots
row_slots_more fuel rows cols r c h = ground arith

-- A row in the middle has two cells.
pub row_slots-middle :
    (fuel rows cols r : ℕ)
    → middle rows r ≡ true
    → 2 ≤ cols
    → 2 ≤ fuel
    → row_slots fuel rows cols r 0
      ≡ record { col = 0; row = r; by = none } ∷ record { col = cols - 1; row = r; by = none } ∷ []
row_slots-middle zero rows cols r e h f = absurd (omega arith)
row_slots-middle (suc zero) rows cols r e h f = absurd (omega arith)
row_slots-middle (suc (suc fuel)) rows cols r e h f =
    let one : next_col rows cols r 0 ≡ cols - 1 = ground (arith, next_middle rows cols r 0 e) in
    let two : next_col rows cols r (cols - 1) ≡ cols =
      ground (arith, next_middle rows cols r (cols - 1) e) in
    row_slots_more (suc fuel) rows cols r 0 (omega arith)
    ∙ rw one (
        rw (row_slots_more fuel rows cols r (cols - 1) (omega arith))
          (rw two (rw (row_slots_past fuel rows cols r cols (omega arith)))))

-- How often a cell is among some slots
unfoldable pub count_cell : ℕ → ℕ → List Slot → ℕ
count_cell c r [] = 0
count_cell c r (s ∷ ss) = (if s.col == c && s.row == r then 1 else 0) + count_cell c r ss

count_cell-append :
    (c r : ℕ) (xs ys : List Slot)
    → count_cell c r (xs ++ ys) ≡ count_cell c r xs + count_cell c r ys
unfolding count_cell
count_cell-append c r [] ys = omega arith
count_cell-append c r (x ∷ xs) ys = omega (arith, count_cell-append c r xs ys)

-- A row at the top or the bottom has the cells from `c` on.
count_row_edge :
    (c' r' fuel rows cols r c : ℕ)
    → middle rows r ≡ false
    → cols ≤ c + fuel
    → count_cell c' r' (row_slots fuel rows cols r c)
      ≡ (if r == r' && leb c c' && ltb c' cols then 1 else 0)
unfolding count_cell
count_row_edge c' r' zero rows cols r c e h =
    rw (row_slots_past zero rows cols r c (omega arith)) (ground arith)
count_row_edge c' r' (suc fuel) rows cols r c e h = elim (Bool-cases (ltb c cols)) [
  | inl more ↦ rw (row_slots_more fuel rows cols r c (ltb→lt c cols more)) (
      rw (next_edge rows cols r c e)
        (ground (arith, count_row_edge c' r' fuel rows cols r (c + 1) e (omega arith))))
  | inr done ↦ rw (row_slots_past (suc fuel) rows cols r c (ground arith)) (ground arith)
]

abbrev pub on_border : ℕ → ℕ → ℕ → ℕ → Bool
on_border rows cols r c = r == 0 || r + 1 == rows || c == 0 || c + 1 == cols

count_row :
    (c' r' rows cols r : ℕ)
    → 2 ≤ cols
    → r < rows
    → count_cell c' r' (row_slots cols rows cols r 0)
      ≡ (if r == r' && ltb c' cols && on_border rows cols r' c' then 1 else 0)
unfolding count_cell
count_row c' r' rows cols r h l = elim (Bool-cases (middle rows r)) [
  | inl inside ↦ rw (row_slots-middle cols rows cols r inside h h) (ground arith)
  | inr edge ↦ count_row_edge c' r' cols rows cols r 0 edge (omega arith) ∙ ground arith
]

count_slots_from :
    (c' r' left rows cols r : ℕ)
    → 2 ≤ cols
    → r + left ≡ rows
    → count_cell c' r' (slots_from left rows cols r)
      ≡ (if leb r r' && ltb r' rows && ltb c' cols && on_border rows cols r' c' then 1 else 0)
unfolding slots_from count_cell
count_slots_from c' r' zero rows cols r h e = ground arith
count_slots_from c' r' (suc left) rows cols r h e =
    count_cell-append c' r' (row_slots cols rows cols r 0) (slots_from left rows cols (r + 1))
    ∙ rw (count_row c' r' rows cols r h (omega arith))
        (rw (count_slots_from c' r' left rows cols (r + 1) h (omega arith)) (ground arith))

-- In a box of at least two columns, every cell on the border is exactly one of the slots, and no
-- other cell is one.
pub count_cell-all_slots :
    (c r rows cols : ℕ)
    → 2 ≤ cols
    → count_cell c r (all_slots rows cols)
      ≡ (if ltb r rows && ltb c cols && on_border rows cols r c then 1 else 0)
unfolding all_slots
count_cell-all_slots c r rows cols h =
    count_slots_from c r rows rows cols 0 h (omega arith) ∙ ground arith
