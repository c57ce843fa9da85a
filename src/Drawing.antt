-- ===== src/Drawing.antt =====
-- The lines of a link on the page: `draw_connection` and `draw_line` of map-broker/www/mapper.js, on the
-- legs of Connections and the turnpoints of Turnpoints. What is drawn is a value; where the elements of
-- devices and interfaces stand is an argument, and coordinates are whole.
pub mod Link
pub mod Lines
pub mod Buttons
pub mod Legs
mod Examples
use mapper.Prelude.{
  ℕ, suc, ◌+◌, ◌*◌, ◌/◌, String, Option, none, some, Bool, true, false, not, ◌&&◌, ◌||◌, List, [],
  ◌∷◌, ◌++◌, if◌then◌else◌, ◌==◌, ltb,
}
use mapper.Prelude.Int.{ℤ, pos, negsuc, pos_part, neg_part, ◌+ℤ◌, ◌-ℤ◌, ◌*ℤ◌, ltb_ℤ}
use mapper.Prelude.IntMap.{IntMap, get}
use mapper.Text.{◌>>=◌}
use mapper.Turnpoints.{Endpoint, Turnpoint, Shape, Leg}
use mapper.Arrange.{Point}

-- What `draw_line` computes: the place and size of the drawing, and the line in it
pub record LineBox : Type 0 where
  pub corner : Point
  pub from_at : Point
  pub to_at : Point
  pub w : ℤ
  pub h : ℤ

-- One coordinate: the corner, where the line starts and ends, and the length
pub record Span : Type 0 where
  pub low : ℤ
  pub from_off : ℤ
  pub to_off : ℤ
  pub extent : ℤ

abbrev pub zero_ℤ : ℤ
zero_ℤ = pos 0

unfoldable pub span_of : ℤ → ℤ → Span
span_of a b =
    if ltb_ℤ a b
    then record { low = a; from_off = zero_ℤ; to_off = b -ℤ a; extent = b -ℤ a }
    else record { low = b; from_off = a -ℤ b; to_off = zero_ℤ; extent = a -ℤ b }

-- `if(w < 1) w = 1; w++;`
abbrev pub with_margin : ℤ → ℤ
with_margin w = (if ltb_ℤ w (pos 1) then pos 1 else w) +ℤ pos 1

unfoldable pub draw_line : Point → Point → LineBox
unfolding span_of
draw_line p q =
    let h = span_of p.x q.x in
    let v = span_of p.y q.y in
    record {
      corner = record { x = h.low; y = v.low };
      from_at = record { x = h.from_off; y = v.from_off };
      to_at = record { x = h.to_off; y = v.to_off };
      w = with_margin h.extent;
      h = with_margin v.extent;
    }

-- The elements of a device and of an interface in it, as the browser measures them
pub record Spot : Type 0 where
  pub dev_left : ℤ
  pub dev_top : ℤ
  pub int_left : ℤ
  pub int_top : ℤ
  pub width : ℕ
  pub height : ℕ

-- The middle of the interface on the page
unfoldable pub spot_point : Point → Spot → Point
spot_point scroll s = record {
  x = s.dev_left +ℤ scroll.x +ℤ s.int_left +ℤ pos (s.width / 2) +ℤ pos 2;
  y = s.dev_top +ℤ scroll.y +ℤ s.int_top +ℤ pos (s.height / 2) +ℤ pos 2;
}

-- The ends of a leg, or `error_at` and the next leg, or a TypeError
pub data LegEnds : Type 0 where
  ends : Point → Point → LegEnds
  missing : LegEnds
  thrown : LegEnds

-- What the two functions read
pub record Canvas : Type 0 where
  pub scroll : Point
  pub spots : Endpoint → Option Spot
  pub tps : Option (IntMap Turnpoint)
  pub min_line_length : ℕ

abbrev in_map : ℕ → Option (IntMap Turnpoint) → Option Turnpoint
in_map i none = none
in_map i (some m) = get i m

-- `map_data["tps"][link_id][i]`, as a point
unfoldable pub tp_point : Canvas → ℕ → Option Point
tp_point c i = in_map i c.tps >>= λ t. some (record { x = t.x; y = t.y })

abbrev pub spot_of : Canvas → Endpoint → Option Point
spot_of c e = c.spots e >>= λ s. some (spot_point c.scroll s)

abbrev pub dev_dev : Option Point → Option Point → LegEnds
dev_dev (some p) (some q) = ends p q
dev_dev p q = missing

abbrev pub dev_tp : Option Point → Option Point → LegEnds
dev_tp none q = missing
dev_tp (some p) none = thrown
dev_tp (some p) (some q) = ends p q

abbrev pub tp_tp : Option Point → Option Point → LegEnds
tp_tp (some p) (some q) = ends p q
tp_tp p q = thrown

unfoldable pub leg_ends : Canvas → Leg → LegEnds
unfolding tp_point spot_point
leg_ends c (Shape.devdev e f) = dev_dev (spot_of c e) (spot_of c f)
leg_ends c (Shape.devtp e t) = dev_tp (spot_of c e) (tp_point c t)
leg_ends c (Shape.tptp s t) = tp_tp (tp_point c s) (tp_point c t)

-- `len > min_line_length`, by the squares
abbrev pub square : ℤ → ℕ
square a = (pos_part a + neg_part a) * (pos_part a + neg_part a)

unfoldable pub is_long : ℕ → Point → Point → Bool
is_long min p q = ltb (min * min) (square (q.x -ℤ p.x) + square (q.y -ℤ p.y))

-- `Math.ceil(a / 2)`
abbrev pub half_up : ℤ → ℤ
half_up (pos n) = pos ((n + 1) / 2)
half_up (negsuc n) = zero_ℤ -ℤ pos ((n + 1) / 2)

-- Where the button for a new turnpoint stands: `Math.ceil((x2 - x1) / 2 + x1)`
unfoldable pub button_point : Point → Point → Point
button_point p q = record { x = half_up (p.x +ℤ q.x); y = half_up (p.y +ℤ q.y) }

pub data Color : Type 0 where
  black red mediumblue saddlebrown : Color

unfoldable pub line_color : ℕ → Color
line_color status =
    if status == 2
    then red
    else if status == 3
    then mediumblue
    else if status == 4
    then saddlebrown
    else black

-- The width of the line, and whether it is dashed, as for a virtual link
abbrev pub stroke : Bool → Bool → Bool → ℕ × Bool
stroke l3 tp_show virtual =
    let width : ℕ = if l3 && not tp_show then 0 else 1 in
    if virtual then (width + 1, true) else (width, false)

-- A leg that is drawn, by its number
pub record Line : Type 0 where
  pub leg : ℕ
  pub box : LineBox
  pub button : Option Point

abbrev pub line_at : ℕ → Canvas → Point → Point → Line
line_at l c p q = record {
  leg = l;
  box = draw_line p q;
  button = if is_long c.min_line_length p q then some (button_point p q) else none;
}

-- The lines that were drawn, and whether a TypeError ended the loop
pub record DrawnLegs : Type 0 where
  pub lines : List Line
  pub failed : Bool

abbrev pub draw_leg : ℕ → Canvas → LegEnds → DrawnLegs → DrawnLegs
draw_leg l c (ends p q) rest = record rest { lines = line_at l c p q ∷ rest.lines }
draw_leg l c missing rest = rest
draw_leg l c thrown rest = record { lines = []; failed = true }

-- The loop over the legs, from number `l`
unfoldable pub draw_legs : Canvas → ℕ → List Leg → DrawnLegs
unfolding draw_line is_long button_point leg_ends
draw_legs c l [] = record { lines = []; failed = false }
draw_legs c l (leg ∷ legs) =
    let rest = draw_legs c (suc l) legs in draw_leg l c (leg_ends c leg) rest
