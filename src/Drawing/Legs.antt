-- ===== src/Drawing/Legs.antt =====
-- Which lines `draw_connection` draws.
use mapper.Prelude.{
  ℕ, zero, suc, ◌+◌, ◌≡◌, ◌≢◌, refl, ◌∙◌, none, some, false, List, [], ◌∷◌, ◌⊎◌, arith, inl, inr,
  Has, All, get_elem?, map, ap, Option-cases,
}
use mapper.Turnpoints.{Leg}
use mapper.Arrange.{Point}
use mapper.Drawing.{
  Canvas, LegEnds, ends, missing, thrown, leg_ends, Line, line_at, draw_legs, tp_point,
}
use mapper.Drawing.Buttons.{IsButton, IsButton-IsButton}
use mapper.Drawing.Link.{tp_button, tp_buttons, Drawable, Drawing, drawing_of, draw_connection}
use mapper.Drawing.Lines.{IsLineFrom, draw_line-IsLineFrom}

-- The line of the leg with number `n`, from one point to the other, with a button in its middle exactly
-- when it is long
abbrev pub IsLineOf : Canvas → ℕ → Point → Point → Line → Type 0
IsLineOf c n p q d = (d.leg ≡ n) × IsLineFrom p q d.box × IsButton c.min_line_length p q d.button

abbrev pub NoError : Canvas → Leg → Type 0
NoError c leg = leg_ends c leg ≢ thrown

abbrev Known : Canvas → List Leg → Type 0
Known c = All (NoError c)

ends-cases :
    (e : LegEnds) → e ≢ thrown → (e ≡ missing) ⊎ ((p : Point) × (q : Point) × (e ≡ ends p q))
ends-cases missing h = inl refl
ends-cases (ends p q) h = inr (p, q, refl)
ends-cases thrown h = absurd (h refl)

draw_legs-ok :
    (c : Canvas) (l : ℕ) (legs : List Leg) → Known c legs → (draw_legs c l legs).failed ≡ false
unfolding draw_legs
draw_legs-ok c l [] h = refl
draw_legs-ok c l (leg ∷ legs) h = elim (ends-cases (leg_ends c leg) h.0) [
  | inl e ↦ rw e (draw_legs-ok c (suc l) legs h.1)
  | inr (p, q, e) ↦ rw e (draw_legs-ok c (suc l) legs h.1)
]

draw_legs-drawn :
    (c : Canvas) (l : ℕ) (legs : List Leg)
    → Known c legs
    → (k : ℕ) (leg : Leg) (p q : Point) → get_elem? legs k ≡ some leg
    → leg_ends c leg ≡ ends p q
    → (d : Line) × Has d (draw_legs c l legs).lines × IsLineOf c (l + k) p q d
unfolding draw_legs
draw_legs-drawn c l [] h k leg p q g e = absurd (ground (arith, g))
draw_legs-drawn c l (leg' ∷ legs) h zero leg p q g e =
    let mine : leg_ends c leg' ≡ ends p q = ground (arith, g, e) in
    rw mine (
      line_at l c p q,
      inl refl,
      (omega arith, draw_line-IsLineFrom p q, IsButton-IsButton c.min_line_length p q),
    )
draw_legs-drawn c l (leg' ∷ legs) h (suc k) leg p q g e =
    let (d, there, is) = draw_legs-drawn c (suc l) legs h.1 k leg p q g e in
    let same : suc l + k ≡ l + suc k = omega arith in
    elim (ends-cases (leg_ends c leg') h.0) [
      | inl f ↦ rw f (d, there, rw same at is)
      | inr (p', q', f) ↦ rw f (d, inr there, rw same at is)
    ]

-- A line of some leg
abbrev pub OfLeg : Canvas → ℕ → List Leg → Line → Type 0
OfLeg c l legs d =
    (k : ℕ) × (leg : Leg) × (p : Point) × (q : Point) × (get_elem? legs k ≡ some leg)
    × (leg_ends c leg ≡ ends p q)
    × (d ≡ line_at (l + k) c p q)

OfLeg-further :
    (c : Canvas) (l : ℕ) (leg : Leg) (legs : List Leg) (d : Line)
    → OfLeg c (suc l) legs d
    → OfLeg c l (leg ∷ legs) d
OfLeg-further c l leg' legs d (k, leg, p, q, g, e, f) =
    let same : suc l + k ≡ l + suc k = omega arith in (suc k, leg, p, q, g, e, f ∙ rw same refl)

draw_legs-only :
    (c : Canvas) (l : ℕ) (legs : List Leg) (d : Line)
    → Known c legs
    → Has d (draw_legs c l legs).lines
    → OfLeg c l legs d
unfolding draw_legs
draw_legs-only c l [] d h there = absurd there
draw_legs-only c l (leg ∷ legs) d h there =
    let rest = draw_legs-only c (suc l) legs d h.1 in
    elim (ends-cases (leg_ends c leg) h.0) [
      | inl e ↦ OfLeg-further c l leg legs d (rest (rw e at there))
      | inr (p, q, e) ↦ first p q e (rw e at there) rest
    ]
  where
    first :
        (p q : Point)
        → leg_ends c leg ≡ ends p q
        → (d ≡ line_at l c p q) ⊎ Has d (draw_legs c (suc l) legs).lines
        → (Has d (draw_legs c (suc l) legs).lines → OfLeg c (suc l) legs d)
        → OfLeg c l (leg ∷ legs) d
    first p q e (inl f) rest =
        let n_zero : l + zero ≡ l = omega arith in (zero, leg, p, q, refl, e, f ∙ rw n_zero refl)
    first p q e (inr r) rest = OfLeg-further c l leg legs d (rest r)

abbrev pub HasTurnpoint : Canvas → ℕ → Type 0
HasTurnpoint c i = tp_point c i ≢ none

tp_buttons-All :
    (c : Canvas) (size : ℕ) (is : List ℕ)
    → All (HasTurnpoint c) is
    → (bs : List (ℕ × Point)) × (tp_buttons c size is ≡ some bs) × (map (λ b. b.0) bs ≡ is)
unfolding tp_buttons
tp_buttons-All c size [] h = ([], refl, refl)
tp_buttons-All c size (i ∷ is) h =
    let (bs, e, f) = tp_buttons-All c size is h.1 in
    elim (Option-cases (tp_point c i)) [
      | inl p ↦ absurd (h.0 p)
      | inr (q, p) ↦ (tp_button size i q ∷ bs, rw (p, e) refl, ap (λ js. i ∷ js) f)
    ]

-- When the turnpoints of a link and of all its legs are there, `draw_connection` runs through. Every leg
-- whose devices and interfaces are on the page gets a line with its number, which starts in the box that
-- is drawn at the one end and ends at the other, with both inside, and a button in the middle exactly
-- when it is longer than the least length; there are no other lines; and every turnpoint gets a button.
pub draw_connection_lem :
    (c : Canvas) (k : Drawable)
    → All (NoError c) k.legs
    → All (HasTurnpoint c) k.tps
    → (d : Drawing) × (draw_connection c k ≡ some d)
      × ((n : ℕ) (leg : Leg) (p q : Point)
          → get_elem? k.legs n ≡ some leg
          → leg_ends c leg ≡ ends p q
          → (x : Line) × Has x d.lines × IsLineOf c (0 + n) p q x)
      × ((x : Line) → Has x d.lines → OfLeg c 0 k.legs x)
      × (map (λ b. b.0) d.buttons ≡ k.tps)
unfolding draw_connection
draw_connection_lem c k h t =
    let (bs, e, f) = tp_buttons-All c k.tp_btn_size k.tps t in
    (
      drawing_of k (draw_legs c 0 k.legs).lines bs,
      rw (draw_legs-ok c 0 k.legs h, e) refl,
      λ n leg p q. draw_legs-drawn c 0 k.legs h n leg p q,
      λ x. draw_legs-only c 0 k.legs x h,
      f,
    )
