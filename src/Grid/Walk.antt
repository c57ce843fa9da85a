-- ===== src/Grid/Walk.antt =====
-- How many slots there are, and that `add_device` puts the interfaces on them in their order.
use mapper.Prelude.{
  ℕ, zero, suc, ◌+◌, ◌-◌, ◌*◌, ◌≤◌, ◌<◌, ◌≡◌, refl, ◌∙◌, ap, false, List, [], ◌∷◌, ◌++◌, arith, ltb,
  ◌==◌, if◌then◌else◌, Bool-cases, inl, inr, length, length-append, ltb→lt, map, ==_iff,
}
use mapper.Grid.{Slot, Cursor, next_col, row_slots, slots_from, all_slots, advance, walk, grid_size}
use mapper.Grid.Size.{grid_size_enough}
use mapper.Grid.Slots.{middle, next_edge, row_slots_past, row_slots_more, row_slots-middle}

length_row_edge :
    (fuel rows cols r c : ℕ)
    → middle rows r ≡ false
    → cols ≤ c + fuel
    → length (row_slots fuel rows cols r c) ≡ cols - c
length_row_edge zero rows cols r c e h =
    rw (row_slots_past zero rows cols r c (omega arith)) (omega arith)
length_row_edge (suc fuel) rows cols r c e h = elim (Bool-cases (ltb c cols)) [
  | inl more ↦ rw (row_slots_more fuel rows cols r c (ltb→lt c cols more)) (
      rw (next_edge rows cols r c e) (
        omega
          (arith, ltb→lt c cols more, length_row_edge fuel rows cols r (c + 1) e (omega arith))))
  | inr done ↦ rw (row_slots_past (suc fuel) rows cols r c (ground arith)) (ground arith)
]

-- The rows below the first: two cells each, and the last one whole.
length-slots_from :
    (left rows cols r : ℕ)
    → 2 ≤ cols
    → 1 ≤ r
    → r + suc left ≡ rows
    → length (slots_from (suc left) rows cols r) ≡ left * 2 + cols
unfolding slots_from
length-slots_from zero rows cols r h p e =
    length-append (row_slots cols rows cols r 0) []
    ∙ omega (arith, length_row_edge cols rows cols r 0 (ground arith) (omega arith))
length-slots_from (suc left) rows cols r h p e =
    length-append (row_slots cols rows cols r 0) (slots_from (suc left) rows cols (r + 1))
    ∙ rw (row_slots-middle cols rows cols r (ground arith) h h)
        (omega (arith, length-slots_from left rows cols (r + 1) h (omega arith) (omega arith)))

pub length-all_slots :
    (rows cols : ℕ) → 2 ≤ rows → 2 ≤ cols → length (all_slots rows cols) ≡ cols * 2 + (rows - 2) * 2
unfolding all_slots slots_from
length-all_slots zero cols h k = absurd (omega arith)
length-all_slots (suc zero) cols h k = absurd (omega arith)
length-all_slots (suc (suc rows)) cols h k =
    length-append (row_slots cols (suc (suc rows)) cols 0 0) _
    ∙ omega (
      arith,
      length_row_edge cols (suc (suc rows)) cols 0 0 refl (omega arith),
      length-slots_from rows (suc (suc rows)) cols 1 k (omega arith) (omega arith),
    )

-- The device has at least as many slots as interfaces that are drawn outside.
pub slots_enough :
    (name_x name_y draw1 draw2 : ℕ)
    → draw1
      ≤ length (
          all_slots
            (grid_size name_x name_y draw1 draw2).rows
            (grid_size name_x name_y draw1 draw2).cols)
slots_enough name_x name_y draw1 draw2 =
    let (c, r, enough, _) = grid_size_enough name_x name_y draw1 draw2 in
    rw
      (length-all_slots (grid_size name_x name_y draw1 draw2).rows
        (grid_size name_x name_y draw1 draw2).cols (omega arith) (omega arith))
      enough

abbrev pub cell : Slot → Cursor
cell s = record { row = s.row; col = s.col }

advance_within :
    (rows cols r c : ℕ)
    → 2 ≤ cols
    → c < cols
    → advance rows cols (record { row = r; col = c }) ≡ (
        if next_col rows cols r c == cols
        then record { row = r + 1; col = 0 }
        else record { row = r; col = next_col rows cols r c })
unfolding advance next_col
advance_within rows cols r c h l = ground arith

next_col_bounds :
    (rows cols r c : ℕ)
    → 2 ≤ cols
    → c < cols
    → (c < next_col rows cols r c) × (next_col rows cols r c ≤ cols)
unfolding next_col
next_col_bounds rows cols r c h l = ground arith

-- From a cell on, the walk over `n` cells goes over the slots that follow.
abbrev ahead : ℕ → ℕ → ℕ → ℕ → ℕ → ℕ → List Slot
ahead fuel left rows cols r c = row_slots fuel rows cols r c ++ slots_from left rows cols (r + 1)

abbrev Along : ℕ → ℕ → ℕ → Type 0
Along n rows cols =
    (fuel left r c : ℕ)
    → c < cols
    → cols ≤ c + fuel
    → n ≤ length (ahead fuel left rows cols r c)
    → (rest : List Cursor) × (map cell (ahead fuel left rows cols r c)
        ≡ walk n rows cols (record { row = r; col = c }) ++ rest)

-- At the end of a row the walk goes on in the next one.
next_row :
    (n rows cols : ℕ)
    → 2 ≤ cols
    → Along n rows cols
    → (fuel left r : ℕ) → n ≤ length (ahead fuel left rows cols r cols)
    → (rest : List Cursor) × (map cell (ahead fuel left rows cols r cols)
        ≡ walk n rows cols (record { row = r + 1; col = 0 }) ++ rest)
unfolding slots_from walk
next_row zero rows cols h ih fuel left r k = (_, refl)
next_row (suc n) rows cols h ih fuel zero r k =
    absurd (omega (arith, rw (row_slots_past fuel rows cols r cols (omega arith)) at k))
next_row (suc n) rows cols h ih fuel (suc left) r k =
    rw (row_slots_past fuel rows cols r cols (omega arith)) (
      ih cols left (r + 1) 0 (omega arith) (omega arith)
        (rw (row_slots_past fuel rows cols r cols (omega arith)) at k))

Along-step : (n rows cols : ℕ) → 2 ≤ cols → Along n rows cols → Along (suc n) rows cols
unfolding walk
Along-step n rows cols h ih zero left r c l f k = absurd (omega arith)
Along-step n rows cols h ih (suc fuel) left r c l f k =
    let next = next_col rows cols r c in
    let (grows, fits) = next_col_bounds rows cols r c h l in
    let k' : n ≤ length (ahead fuel left rows cols r next) =
      omega (arith, rw (row_slots_more fuel rows cols r c l) at k) in
    rw (row_slots_more fuel rows cols r c l, advance_within rows cols r c h l)
      (elim (Bool-cases (next == cols)) [
        | inl over ↦
            let e : next ≡ cols = (==_iff next cols).0 over in
            rw over (cons_rest _ _ _ (rw e (next_row n rows cols h ih fuel left r (rw e at k'))))
        | inr within ↦
            rw within (cons_rest _ _ _ (ih fuel left r next (ground arith) (omega arith) k'))
      ])
  where
    cons_rest :
        (p : Cursor) (xs ys : List Cursor)
        → (rest : List Cursor) × (xs ≡ ys ++ rest)
        → (rest : List Cursor) × (p ∷ xs ≡ p ∷ (ys ++ rest))
    cons_rest p xs ys (rest, e) = (rest, ap (λ (t : List Cursor). p ∷ t) e)

walk_all : (n rows cols : ℕ) → 2 ≤ cols → Along n rows cols
unfolding walk
walk_all zero rows cols h fuel left r c l f k = (_, refl)
walk_all (suc n) rows cols h fuel left r c l f k =
    Along-step n rows cols h (walk_all n rows cols h) fuel left r c l f k

-- In a box of at least two columns and one row with at least `n` slots, the cells that `add_device`
-- gives to the first `n` interfaces outside are those of the first `n` slots, in the same order.
pub walk-slots :
    (n rows cols : ℕ)
    → 2 ≤ cols
    → 1 ≤ rows
    → n ≤ length (all_slots rows cols)
    → (rest : List Cursor) × (map cell (all_slots rows cols)
        ≡ walk n rows cols (record { row = 0; col = 0 }) ++ rest)
unfolding all_slots slots_from
walk-slots n zero cols h p k = absurd (omega arith)
walk-slots n (suc rows) cols h p k =
    walk_all n (suc rows) cols h cols rows 0 0 (omega arith) (omega arith) k
