-- ===== src/Drawing/Link.antt =====
-- All that `draw_connection` of map-broker/www/mapper.js draws of one link: the lines of its legs and the
-- buttons of its turnpoints.
use mapper.Prelude.{ℕ, ◌+◌, ◌/◌, Option, none, some, Bool, not, ◌&&◌, List, [], ◌∷◌, if◌then◌else◌}
use mapper.Prelude.Int.{pos, ◌-ℤ◌}
use mapper.Text.{◌>>=◌}
use mapper.Turnpoints.{Leg}
use mapper.Arrange.{Point}
use mapper.Drawing.{Canvas, Color, Line, tp_point, draw_legs, line_color, stroke}

-- The button of a turnpoint: its number and its corner, from `Math.ceil(tp_btn_size / 2)`
abbrev pub tp_button : ℕ → ℕ → Point → ℕ × Point
tp_button size i p =
    (i, record { x = p.x -ℤ pos ((size + 1) / 2); y = p.y -ℤ pos ((size + 1) / 2) })

abbrev pub add_button : ℕ → ℕ → Option Point → Option (List (ℕ × Point)) → Option (List (ℕ × Point))
add_button size i none rest = none
add_button size i (some p) rest = rest >>= λ bs. some (tp_button size i p ∷ bs)

-- The loop over `connections[link_id]["tps"]`, none for a TypeError
unfoldable pub tp_buttons : Canvas → ℕ → List ℕ → Option (List (ℕ × Point))
unfolding tp_point
tp_buttons c size [] = some []
tp_buttons c size (i ∷ is) =
    let rest = tp_buttons c size is in add_button size i (tp_point c i) rest

-- `connections[link_id]` with what else is read of the link and of the page
pub record Drawable : Type 0 where
  pub legs : List Leg
  pub tps : List ℕ
  pub status : ℕ
  pub virtual : Bool
  pub l3 : Bool
  pub tp_show : Bool
  pub tp_btn_size : ℕ

-- All that `draw_connection` draws of a link
pub record Drawing : Type 0 where
  pub lines : List Line
  pub color : Color
  pub width : ℕ
  pub dashed : Bool
  pub buttons : List (ℕ × Point)

-- A link on the site of L3 links is never virtual.
abbrev pub stroke_of : Drawable → ℕ × Bool
stroke_of k = stroke k.l3 k.tp_show (not k.l3 && k.virtual)

abbrev pub drawing_of : Drawable → List Line → List (ℕ × Point) → Drawing
drawing_of k lines buttons = record {
  lines = lines;
  color = line_color k.status;
  width = (stroke_of k).0;
  dashed = (stroke_of k).1;
  buttons = buttons;
}

-- None for a TypeError
unfoldable pub draw_connection : Canvas → Drawable → Option Drawing
unfolding draw_legs tp_buttons line_color
draw_connection c k =
    let d = draw_legs c 0 k.legs in
    let rest = tp_buttons c k.tp_btn_size k.tps >>= λ bs. some (drawing_of k d.lines bs) in
    if d.failed then none else rest
