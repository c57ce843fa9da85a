-- ===== src/Drawn/Cases.antt =====
-- The ways in which `add_device` leaves an interface.
use mapper.Prelude.{Bool, ◌&&◌, not, true, false, if_both}
use mapper.Text.{Text}
use mapper.Drawn.{
  NetInterface, NetDevice, outside, inside, hidden, unset, DrawState, set_draw, count_outside,
  count_inside, draw_interface, draw_l3, draw_l2, is_number, is_text, is_linked, is_shown_port,
  is_logical,
}
use mapper.Drawn.Match.{hide_alias}

module _ (P : DrawState → Type 0) (d : NetDevice) (int : Text) (i : NetInterface) (s : DrawState)
    (out : P (count_outside (set_draw int outside s)))
    (into : P (count_inside (set_draw int inside s))) (none_drawn : P (set_draw int hidden s))
    (not_set : P (set_draw int unset s)) where
  pub draw_interface-cases : (l3 : Bool) → P (draw_interface l3 d int i s)
  unfolding draw_interface draw_l3 draw_l2
  draw_interface-cases true =
      if_both P (i.has_ips && not (is_number 24 i.if_type)) _ _ out
        (if_both P (is_number 24 i.if_type) _ _ into none_drawn)
  draw_interface-cases false = if_both P (is_number 131 i.if_type) _ _ none_drawn (
      if_both P (is_linked d int i) _ _ out (
        if_both P (is_text hide_alias i.alias) _ _ none_drawn (
          if_both P (is_shown_port d int i) _ _ out
            (if_both P (is_logical d int i) _ _ into not_set))))
