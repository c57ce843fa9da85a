-- ===== src/Drawing/Examples.antt =====
-- A link with one turnpoint on the page.
use mapper.Prelude.{
  ℕ, ◌+◌, ◌≡◌, refl, none, some, true, false, [], ◌∷◌, map, All, Has, get_elem?, str_eq,
  if◌then◌else◌,
}
use mapper.Prelude.Int.{pos, ◌+ℤ◌, ◌-ℤ◌}
use mapper.Prelude.IntMap.{get}
use mapper.Turnpoints.{Endpoint, Shape, Leg}
use mapper.Arrange.{Point}
use mapper.Drawing.{Canvas, Spot, ends, leg_ends, tp_point, draw_line, Line}
use mapper.Drawing.Link.{Drawable, Drawing, draw_connection}
use mapper.Drawing.Legs.{NoError, HasTurnpoint, IsLineOf, OfLeg, draw_connection_lem}

abbrev point : ℕ → ℕ → Point
point x y = record { x = pos x; y = pos y }

abbrev end_a : Endpoint
end_a = record { dev = "a"; int = "Gi1" }

abbrev end_b : Endpoint
end_b = record { dev = "b"; int = "Gi1" }

abbrev spot : ℕ → Spot
spot left = record {
  dev_left = pos left;
  dev_top = pos 0;
  int_left = pos 0;
  int_top = pos 0;
  width = 16;
  height = 16;
}

abbrev page : Canvas
page = record {
  scroll = point 0 0;
  spots = λ e.
      if str_eq e.dev "a" then some (spot 0) else if str_eq e.dev "b" then some (spot 90) else none;
  tps = some ((0, record { x = pos 50; y = pos 80; shape = Shape.devdev end_a end_b }) ∷ []);
  min_line_length = 10;
}

abbrev link : Drawable
link = record {
  legs = Shape.devtp end_a 0 ∷ Shape.devtp end_b 0 ∷ [];
  tps = 0 ∷ [];
  status = 2;
  virtual = false;
  l3 = false;
  tp_show = true;
  tp_btn_size = 10;
}

upwards : draw_line (point 30 40) (point 10 40) ≡ record {
  corner = point 10 40;
  from_at = point 20 0;
  to_at = point 0 0;
  w = pos 21;
  h = pos 2;
}
unfolding draw_line ◌+ℤ◌ ◌-ℤ◌
upwards = refl

first_ends : leg_ends page (Shape.devtp end_a 0) ≡ ends (point 10 10) (point 50 80)
unfolding leg_ends get ◌+ℤ◌
first_ends = refl

legs-NoError : All (NoError page) link.legs
unfolding leg_ends get ◌+ℤ◌
legs-NoError = (λ e. cc, (λ e. cc, tt))

tps-HasTurnpoint : All (HasTurnpoint page) link.tps
unfolding tp_point get
tps-HasTurnpoint = (λ e. cc, tt)

draw_connection_lem_example :
    (d : Drawing) × (draw_connection page link ≡ some d)
    × ((n : ℕ) (leg : Leg) (p q : Point)
        → get_elem? link.legs n ≡ some leg
        → leg_ends page leg ≡ ends p q
        → (x : Line) × Has x d.lines × IsLineOf page (0 + n) p q x)
    × ((x : Line) → Has x d.lines → OfLeg page 0 link.legs x)
    × (map (λ b. b.0) d.buttons ≡ link.tps)
draw_connection_lem_example = draw_connection_lem page link legs-NoError tps-HasTurnpoint
