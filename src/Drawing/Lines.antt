-- ===== src/Drawing/Lines.antt =====
-- Where `draw_line` puts a line.
use mapper.Prelude.{◌+◌, ◌≤◌, ◌≡◌, arith, Bool-cases, inl, inr}
use mapper.Prelude.Int.{ℤ, pos, pos_part, neg_part, ◌+ℤ◌, ◌-ℤ◌, ◌≤ℤ◌, ltb_ℤ, int_laws}
use mapper.Arrange.{Point}
use mapper.Drawing.{LineBox, Span, span_of, with_margin, draw_line}

-- A span from `a` to `b`
abbrev IsSpan : ℤ → ℤ → Span → Type 0
IsSpan a b s =
    (s.low +ℤ s.from_off ≡ a)
    × (s.low +ℤ s.to_off ≡ b)
    × (pos 0 ≤ℤ s.from_off)
    × (pos 0 ≤ℤ s.to_off)
    × (s.from_off ≤ℤ s.extent)
    × (s.to_off ≤ℤ s.extent)

back : (a b : ℤ) → a +ℤ (b -ℤ a) ≡ b
back a b = omega int_laws

same : (a : ℤ) → a +ℤ pos 0 ≡ a
same a = omega int_laws

span_of-IsSpan : (a b : ℤ) → IsSpan a b (span_of a b)
unfolding span_of
span_of-IsSpan a b = elim (Bool-cases (ltb_ℤ a b)) [
  | inl p ↦
      let less : pos_part a + neg_part b ≤ pos_part b + neg_part a = ground (arith, p) in
      rw p (same a, back a b, omega int_laws, omega int_laws, omega int_laws, omega int_laws)
  | inr p ↦
      let more : pos_part b + neg_part a ≤ pos_part a + neg_part b = ground (arith, p) in
      rw p (back b a, same b, omega int_laws, omega int_laws, omega int_laws, omega int_laws)
]

-- Room for what is below the extent
with_margin-le : (w f : ℤ) → f ≤ℤ w → (f +ℤ pos 1 ≤ℤ with_margin w) × (pos 2 ≤ℤ with_margin w)
with_margin-le w f h = elim (Bool-cases (ltb_ℤ w (pos 1))) [
  | inl p ↦
      let less : pos_part w + 0 ≤ neg_part w = ground (arith, p) in
      rw p (omega int_laws, omega int_laws)
  | inr p ↦
      let more : 1 + neg_part w ≤ pos_part w = ground (arith, p) in
      rw p (omega int_laws, omega int_laws)
]

-- A line in a box: it starts at one point of the page and ends at the other, and both are inside.
abbrev pub IsLineFrom : Point → Point → LineBox → Type 0
IsLineFrom p q b =
    ((b.corner.x +ℤ b.from_at.x ≡ p.x) × (b.corner.y +ℤ b.from_at.y ≡ p.y))
    × ((b.corner.x +ℤ b.to_at.x ≡ q.x) × (b.corner.y +ℤ b.to_at.y ≡ q.y))
    × ((pos 0 ≤ℤ b.from_at.x)
        × (pos 0 ≤ℤ b.from_at.y)
        × (pos 0 ≤ℤ b.to_at.x)
        × (pos 0 ≤ℤ b.to_at.y))
    × ((b.from_at.x +ℤ pos 1 ≤ℤ b.w) × (b.from_at.y +ℤ pos 1 ≤ℤ b.h))
    × ((b.to_at.x +ℤ pos 1 ≤ℤ b.w) × (b.to_at.y +ℤ pos 1 ≤ℤ b.h))

pub draw_line-IsLineFrom : (p q : Point) → IsLineFrom p q (draw_line p q)
unfolding draw_line
draw_line-IsLineFrom p q =
    let (a, b, c, d, e, f) = span_of-IsSpan p.x q.x in
    let (a', b', c', d', e', f') = span_of-IsSpan p.y q.y in
    (
      (a, a'),
      (b, b'),
      (c, c', d, d'),
      ((with_margin-le _ _ e).0, (with_margin-le _ _ e').0),
      ((with_margin-le _ _ f).0, (with_margin-le _ _ f').0),
    )
