-- ===== src/Drawn/Examples.antt =====
-- A switch with a link, a loopback, and two power sensors of which the second is down.
use mapper.Prelude.{ℕ, ◌≡◌, refl, none, some, true, false, [], ◌∷◌, if◌then◌else◌}
use mapper.Text.{codes}
use mapper.Drawn.{
  NetInterface, NetDevice, unset, outside, inside, own_power, is_unknown, draw_interfaces,
}
use mapper.Drawn.Match.{
  power_sensor_alias, alert_alias, hide_alias, show_all_location, rps_location, logical_name,
  bridge_name, port_channel_name, epon_name,
}
use mapper.Drawn.Sensors.{first_sensor, power_lem}

abbrev plain : NetInterface
plain = record {
  alias = none;
  if_type = some 6;
  admin_status = some 1;
  oper_status = some 1;
  has_ips = false;
  has_l2_links = false;
  macs_count = none;
}

abbrev sensor : ℕ → NetInterface
sensor up = record plain { alias = some (codes "Power Sensor"); oper_status = some up }

abbrev switch : NetDevice
switch = record {
  location = some (codes "Room 1");
  is_virtual = false;
  is_group = false;
  power_state = none;
  interfaces =
      (codes "Gi1", record plain { has_l2_links = true })
      ∷ (codes "Gi2", sensor 1)
      ∷ (codes "Gi3", sensor 2)
      ∷ (codes "Vl1", record plain { if_type = some 53; has_ips = true })
      ∷ [];
}

sensor_text : power_sensor_alias (codes "POWER, main sensor") ≡ true
unfolding power_sensor_alias
sensor_text = refl

rps_text : rps_location (codes "hall, rps") ≡ true
unfolding rps_location
rps_text = refl

no_rps_text : rps_location (codes "corps") ≡ false
unfolding rps_location
no_rps_text = refl

epon_text : epon_name (codes "EPON0/12") ≡ true
unfolding epon_name
epon_text = refl

channel_text : port_channel_name (codes "Po1.2") ≡ false
unfolding port_channel_name
channel_text = refl

drawn_run :
    (draw_interfaces false switch).draws
    ≡ (codes "Gi1", outside)
      ∷ (codes "Gi2", unset)
      ∷ (codes "Gi3", unset)
      ∷ (codes "Vl1", inside)
      ∷ []
unfolding draw_interfaces power_sensor_alias alert_alias hide_alias show_all_location logical_name
    bridge_name port_channel_name epon_name
drawn_run = refl

-- The second sensor is down, but only the first is shown.
power_lem_example : (draw_interfaces false switch).power ≡ (
    if is_unknown (own_power switch).sensor
    then first_sensor switch.interfaces (own_power switch)
    else own_power switch)
power_lem_example = power_lem false switch
