-- ===== src/Drawing/Buttons.antt =====
-- Where the button of a leg stands in `draw_connection`.
use mapper.Prelude.{
  ℕ, ◌+◌, ◌*◌, ◌≤◌, ◌<◌, Option, none, some, arith, if◌then◌else◌, Bool-cases, inl, inr,
}
use mapper.Prelude.Int.{ℤ, pos, negsuc, ◌+ℤ◌, ◌-ℤ◌, ◌≤ℤ◌}
use mapper.Arrange.{Point}
use mapper.Drawing.{is_long, button_point, half_up, square}

-- Half of the sum of both, or the next integer above
abbrev pub IsMiddle : ℤ → ℤ → ℤ → Type 0
IsMiddle a b m = (a +ℤ b ≤ℤ m +ℤ m) × (m +ℤ m ≤ℤ (a +ℤ b) +ℤ pos 1)

-- No button when the points are at most `min` apart, and else one in the middle
abbrev pub IsButton : ℕ → Point → Point → Option Point → Type 0
IsButton min p q none = square (q.x -ℤ p.x) + square (q.y -ℤ p.y) ≤ min * min
IsButton min p q (some b) =
    (min * min < square (q.x -ℤ p.x) + square (q.y -ℤ p.y))
    × IsMiddle p.x q.x b.x
    × IsMiddle p.y q.y b.y

half_up-double : (s : ℤ) → (s ≤ℤ half_up s +ℤ half_up s) × (half_up s +ℤ half_up s ≤ℤ s +ℤ pos 1)
unfolding ◌+ℤ◌ ◌-ℤ◌
half_up-double (pos n) = (ground arith, ground arith)
half_up-double (negsuc n) = (ground arith, ground arith)

pub IsButton-IsButton :
    (min : ℕ) (p q : Point)
    → IsButton min p q (if is_long min p q then some (button_point p q) else none)
unfolding is_long button_point
IsButton-IsButton min p q = elim (Bool-cases (is_long min p q)) [
  | inl l ↦ rw l (ground arith, half_up-double (p.x +ℤ q.x), half_up-double (p.y +ℤ q.y))
  | inr l ↦ rw l (ground arith)
]
