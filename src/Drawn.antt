-- ===== src/Drawn.antt =====
-- Which interfaces of a device are drawn, and where: the first loop of `add_device` of
-- map-broker/www/mapper.js, with the power sensor that it finds on the way.
pub mod Match
pub mod Cases
pub mod Counts
pub mod Sensors
mod Examples
use mapper.Prelude.{
  ℕ, ◌+◌, String, Option, none, some, Bool, true, false, not, ◌&&◌, ◌||◌, List, [], ◌∷◌, ◌++◌,
  if◌then◌else◌, ◌==◌, ltb,
}
use mapper.Prelude.Obj.{Obj, set}
use mapper.Text.{Text, codes}
use Match.{
  power_sensor_alias, alert_alias, hide_alias, show_all_location, rps_location, logical_name,
  bridge_name, port_channel_name, epon_name,
}

-- The fields of an interface that decide how it is drawn
pub record NetInterface : Type 0 where
  pub alias : Option Text
  pub if_type : Option ℕ
  pub admin_status : Option ℕ
  pub oper_status : Option ℕ
  pub has_ips : Bool
  pub has_l2_links : Bool
  pub macs_count : Option ℕ

pub record NetDevice : Type 0 where
  pub location : Option Text
  pub is_virtual : Bool
  pub is_group : Bool
  pub power_state : Option ℕ
  -- In the order of `interfaces_sorted`, by name
  pub interfaces : List (Text × NetInterface)

-- `x == n` for a field that may be undefined
abbrev pub is_number : ℕ → Option ℕ → Bool
is_number n none = false
is_number n (some m) = m == n

abbrev pub is_text : (Text → Bool) → Option Text → Bool
is_text test none = false
is_text test (some t) = test t

abbrev pub many_macs : Option ℕ → Bool
many_macs none = false
many_macs (some n) = ltb 3 n

-- `_draw`: not set, 0, 1 and 2
pub data Draw : Type 0 where
  unset hidden outside inside : Draw

abbrev pub is_linked : NetDevice → Text → NetInterface → Bool
is_linked d int i =
    i.has_l2_links
    || is_text alert_alias i.alias
    || (is_number 6 i.if_type && i.has_ips && not (logical_name int))
    || (many_macs i.macs_count && is_number 6 i.if_type)
    || d.is_virtual

abbrev pub is_shown_port : NetDevice → Text → NetInterface → Bool
is_shown_port d int i =
    is_text show_all_location d.location
    && (is_number 6 i.if_type || is_number 117 i.if_type)
    && not (logical_name int)

abbrev pub is_logical : NetDevice → Text → NetInterface → Bool
is_logical d int i =
    (i.has_ips
      && is_number 1 i.admin_status
      && not (is_number 23 i.if_type)
      && not (is_number 135 i.if_type)
      && not (bridge_name int)
      && not d.is_group)
    || (port_channel_name int && is_number 53 i.if_type && is_number 1 i.admin_status)
    || (epon_name int && is_number 1 i.admin_status)
    || many_macs i.macs_count

-- `power_sensor`, `power_sensor_at` and `on_battery`
pub record Power : Type 0 where
  pub sensor : Option Bool
  pub at : Text
  pub on_battery : Bool

-- Before the loop: the state that the device itself tells
unfoldable pub own_power : NetDevice → Power
own_power d = elim d.power_state [
  | none ↦ record { sensor = none; at = []; on_battery = false }
  | some s ↦
      if not (s == 1) && not (is_text rps_location d.location)
      then record { sensor = some false; at = codes "Onboard"; on_battery = true }
      else record { sensor = none; at = []; on_battery = false }
]

abbrev pub is_unknown : Option Bool → Bool
is_unknown none = true
is_unknown (some b) = false

-- The name, or the names with a comma
abbrev pub add_name : Text → Text → Text
add_name [] int = int
add_name (c ∷ cs) int = (c ∷ cs) ++ (codes ", " ++ int)

-- `if(power_sensor == undefined) power_sensor = 1`, or 0 when the interface is not up
abbrev pub sensor_of : NetInterface → Option Bool → Option Bool
sensor_of i old =
    if is_number 1 i.oper_status then (if is_unknown old then some true else old) else some false

unfoldable pub see_power : Text → NetInterface → Power → Power
see_power int i p =
    if is_text power_sensor_alias i.alias && is_unknown p.sensor && is_number 1 i.admin_status
    then record p { at = add_name p.at int; sensor = sensor_of i p.sensor }
    else p

-- What the loop has found
pub record DrawState : Type 0 where
  pub draws : List (Text × Draw)
  pub draw1_count : ℕ
  pub draw2_count : ℕ
  pub power : Power

-- `_draw` is set.
abbrev pub set_draw : Text → Draw → DrawState → DrawState
set_draw int w s = record s { draws = s.draws ++ (int, w) ∷ [] }

-- `draw1_count++`
abbrev pub count_outside : DrawState → DrawState
count_outside s = record s { draw1_count = s.draw1_count + 1 }

-- `draw2_count++`
abbrev pub count_inside : DrawState → DrawState
count_inside s = record s { draw2_count = s.draw2_count + 1 }

-- On the site of L3 links
unfoldable pub draw_l3 : Text → NetInterface → DrawState → DrawState
draw_l3 int i s =
    if i.has_ips && not (is_number 24 i.if_type)
    then count_outside (set_draw int outside s)
    else if is_number 24 i.if_type
    then count_inside (set_draw int inside s)
    else set_draw int hidden s

-- On the site of L2 links
unfoldable pub draw_l2 : NetDevice → Text → NetInterface → DrawState → DrawState
draw_l2 d int i s =
    if is_number 131 i.if_type
    then set_draw int hidden s
    else if is_linked d int i
    then count_outside (set_draw int outside s)
    else if is_text hide_alias i.alias
    then set_draw int hidden s
    else if is_shown_port d int i
    then count_outside (set_draw int outside s)
    else if is_logical d int i
    then count_inside (set_draw int inside s)
    else set_draw int unset s

unfoldable pub draw_interface : Bool → NetDevice → Text → NetInterface → DrawState → DrawState
unfolding draw_l3 draw_l2
draw_interface l3 d int i s = if l3 then draw_l3 int i s else draw_l2 d int i s

abbrev pub with_power : Power → DrawState → DrawState
with_power p s = record s { power = p }

unfoldable pub draw_loop : Bool → NetDevice → List (Text × NetInterface) → DrawState → DrawState
unfolding see_power draw_interface
draw_loop l3 d [] s = s
draw_loop l3 d ((int, i) ∷ ints) s =
    draw_loop l3 d ints (draw_interface l3 d int i (with_power (see_power int i s.power) s))

unfoldable pub draw_interfaces : Bool → NetDevice → DrawState
unfolding draw_loop own_power
draw_interfaces l3 d =
    draw_loop l3 d d.interfaces
      (record { draws = []; draw1_count = 0; draw2_count = 0; power = own_power d })
