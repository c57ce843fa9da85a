-- ===== src/Grid/Size.antt =====
-- A device's box has room for all interfaces that are drawn.
use mapper.Prelude.{
  ℕ, zero, suc, ◌+◌, ◌-◌, ◌*◌, ◌≤◌, ◌<◌, ◌≡◌, arith, ltb, Bool-cases, ltb→lt, inl, inr,
}
use mapper.Grid.{
  Added, at_least_one, outer_slots, inner_slots, grow, grow_outer, grow_inner, added, grid_size,
}

module _ (x y : ℕ) where
  outer_slots-grow : (a : Added) → outer_slots x y (grow x y a) ≡ outer_slots x y a + 2
  unfolding grow
  outer_slots-grow a = ground arith

  rows-grow : (a : Added) → (grow x y a).rows ≤ a.rows + 1
  unfolding grow
  rows-grow a = ground arith

  grow_outer_lem :
      (fuel draw1 : ℕ) (a : Added)
      → draw1 < outer_slots x y a + fuel
      → draw1 ≤ outer_slots x y (grow_outer x y fuel draw1 a)
  unfolding grow_outer
  grow_outer_lem zero draw1 a h = omega arith
  grow_outer_lem (suc fuel) draw1 a h = elim (Bool-cases (ltb (outer_slots x y a) draw1)) [
    | inl more ↦
        rw (more, grow_outer)
          (grow_outer_lem fuel draw1 (grow x y a) (omega (arith, outer_slots-grow a)))
    | inr done ↦ rw (done, grow_outer) (ground arith)
  ]

  grow_outer_rows :
      (fuel draw1 : ℕ) (a : Added) → (grow_outer x y fuel draw1 a).rows ≤ a.rows + fuel
  unfolding grow_outer
  grow_outer_rows zero draw1 a = omega arith
  grow_outer_rows (suc fuel) draw1 a = elim (Bool-cases (ltb (outer_slots x y a) draw1)) [
    | inl more ↦
        rw (more, grow_outer) (omega (arith, rows-grow a, grow_outer_rows fuel draw1 (grow x y a)))
    | inr done ↦ rw (done, grow_outer) (omega arith)
  ]

  -- How many columns a new row waits for.
  missing_cols : Added → ℕ
  missing_cols a = y + a.rows + 1 - (x + a.cols)

  measure : ℕ → Added → ℕ
  unfolding missing_cols
  measure draw2 a = missing_cols a + (draw2 - a.rows) * 2

  -- As many rows as interfaces are enough, since a row has a cell.
  rows_enough : (a : Added) → 0 < x → a.rows ≤ inner_slots x y a
  rows_enough a p = grind arith

  measure-grow :
      (draw2 : ℕ) (a : Added) → a.rows < draw2 → measure draw2 (grow x y a) < measure draw2 a
  unfolding measure grow
  measure-grow draw2 a h = ground arith

  grow_inner_lem :
      (fuel draw2 : ℕ) (a : Added)
      → 0 < x
      → measure draw2 a < fuel
      → draw2 ≤ inner_slots x y (grow_inner x y fuel draw2 a)
  unfolding grow_inner
  grow_inner_lem zero draw2 a p h = absurd (omega arith)
  grow_inner_lem (suc fuel) draw2 a p h = elim (Bool-cases (ltb (inner_slots x y a) draw2)) [
    | inl more ↦
        rw (more, grow_inner)
          (grow_inner_lem fuel draw2 (grow x y a) p
            (omega (arith, measure-grow draw2 a (omega (arith, rows_enough a p, ltb→lt _ _ more)))))
    | inr done ↦ rw (done, grow_inner) (ground arith)
  ]

  grow_inner_outer :
      (fuel draw2 : ℕ) (a : Added)
      → outer_slots x y a ≤ outer_slots x y (grow_inner x y fuel draw2 a)
  unfolding grow_inner
  grow_inner_outer zero draw2 a = omega arith
  grow_inner_outer (suc fuel) draw2 a = elim (Bool-cases (ltb (inner_slots x y a) draw2)) [
    | inl more ↦
        rw (more, grow_inner)
          (omega (arith, outer_slots-grow a, grow_inner_outer fuel draw2 (grow x y a)))
    | inr done ↦ rw (done, grow_inner) (omega arith)
  ]

  added_lem :
      (draw1 draw2 : ℕ)
      → 0 < x
      → (draw1 ≤ outer_slots x y (added x y draw1 draw2))
        × (draw2 ≤ inner_slots x y (added x y draw1 draw2))
  unfolding added measure
  added_lem draw1 draw2 p =
      let none_yet : Added = record { cols = 0; rows = 0 } in
      let a : Added = grow_outer x y (draw1 + 1) draw1 none_yet in
      let fuel : ℕ = y + draw1 + draw2 * 2 + 2 in
      let outer : draw1 ≤ outer_slots x y a =
        grow_outer_lem (draw1 + 1) draw1 none_yet (omega arith) in
      let rows : a.rows ≤ 0 + (draw1 + 1) = grow_outer_rows (draw1 + 1) draw1 none_yet in
      (
        omega (arith, outer, grow_inner_outer fuel draw2 a),
        grow_inner_lem fuel draw2 a p (omega (arith, rows)),
      )

-- The box that `add_device` computes has at least three columns and rows, its border has at least
-- as many cells as there are interfaces to draw outside, and the rows added inside have at least as
-- many as there are to draw inside.
pub grid_size_enough :
    (name_x name_y draw1 draw2 : ℕ)
    → let g = grid_size name_x name_y draw1 draw2 in
      (3 ≤ g.cols)
      × (3 ≤ g.rows)
      × (draw1 ≤ g.cols * 2 + (g.rows - 2) * 2)
      × (draw2 ≤ g.inner_rows * g.inner_cols)
unfolding grid_size
grid_size_enough name_x name_y draw1 draw2 =
    let x = at_least_one name_x in
    let y = at_least_one name_y in
    let px : 1 ≤ x = positive name_x in
    let py : 1 ≤ y = positive name_y in
    let (outer, inner) = added_lem x y draw1 draw2 px in
    (omega arith, omega arith, omega (arith, outer), grind (arith, inner))
  where
    positive : (n : ℕ) → 1 ≤ at_least_one n
    positive n = ground arith
