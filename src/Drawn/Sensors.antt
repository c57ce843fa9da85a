-- ===== src/Drawn/Sensors.antt =====
-- The power sensor that `add_device` shows.
use mapper.Prelude.{
  ◌≡◌, refl, ap, ◌∙◌, none, some, Bool, true, false, ◌&&◌, List, [], ◌∷◌, arith, if◌then◌else◌,
  Bool-cases, inl, inr,
}
use mapper.Text.{Text}
use mapper.Drawn.{
  NetInterface, NetDevice, draw_interface, see_power, own_power, Power, is_text, is_number,
  is_unknown, DrawState, with_power, draw_loop, draw_interfaces,
}
use mapper.Drawn.Cases.{draw_interface-cases}
use mapper.Drawn.Match.{power_sensor_alias}

abbrev pub is_sensor : NetInterface → Bool
is_sensor i = is_text power_sensor_alias i.alias && is_number 1 i.admin_status

-- What the first sensor says
abbrev pub first_sensor : List (Text × NetInterface) → Power → Power
first_sensor [] p = p
first_sensor ((int, i) ∷ ints) p =
    if is_sensor i
    then record p { at = int; sensor = some (is_number 1 i.oper_status) }
    else first_sensor ints p

draw_interface-power :
    (l3 : Bool) (d : NetDevice) (int : Text) (i : NetInterface) (s : DrawState)
    → (draw_interface l3 d int i s).power ≡ s.power
draw_interface-power l3 d int i s =
    draw_interface-cases (λ t. t.power ≡ s.power) d int i s refl refl refl refl l3

see_power-known :
    (int : Text) (i : NetInterface) (p : Power)
    → is_unknown p.sensor ≡ false
    → see_power int i p ≡ p
unfolding see_power
see_power-known int i p h = ground (arith, h)

loop_known :
    (l3 : Bool) (d : NetDevice) (ints : List (Text × NetInterface)) (s : DrawState)
    → is_unknown s.power.sensor ≡ false
    → (draw_loop l3 d ints s).power ≡ s.power
unfolding draw_loop
loop_known l3 d [] s h = refl
loop_known l3 d ((int, i) ∷ ints) s h =
    let t = with_power (see_power int i s.power) s in
    let same : (draw_interface l3 d int i t).power ≡ s.power =
      draw_interface-power l3 d int i t ∙ see_power-known int i s.power h in
    loop_known l3 d ints (draw_interface l3 d int i t) (rw same h) ∙ same

see_power-first :
    (int : Text) (i : NetInterface) (p : Power)
    → p.sensor ≡ none
    → p.at ≡ []
    → see_power int i p ≡ (
        if is_sensor i then record p { at = int; sensor = some (is_number 1 i.oper_status) } else p)
unfolding see_power
see_power-first int i p h a = ground (arith, h, a)

loop_unknown :
    (l3 : Bool) (d : NetDevice) (ints : List (Text × NetInterface)) (s : DrawState)
    → s.power.sensor ≡ none
    → s.power.at ≡ []
    → (draw_loop l3 d ints s).power ≡ first_sensor ints s.power
unfolding draw_loop
loop_unknown l3 d [] s h a = refl
loop_unknown l3 d ((int, i) ∷ ints) s h a =
    let t = with_power (see_power int i s.power) s in
    let seen = draw_interface-power l3 d int i t ∙ see_power-first int i s.power h a in
    elim (Bool-cases (is_sensor i)) [
      | inl p ↦
          let now : (draw_interface l3 d int i t).power
              ≡ record s.power { at = int; sensor = some (is_number 1 i.oper_status) } =
            rw p at seen in
          rw p (loop_known l3 d ints (draw_interface l3 d int i t) (rw now refl) ∙ now)
      | inr p ↦
          let now : (draw_interface l3 d int i t).power ≡ s.power = rw p at seen in
          rw p (
            loop_unknown l3 d ints (draw_interface l3 d int i t) (rw now h) (rw now a)
            ∙ ap (first_sensor ints) now)
    ]

own_power-cases :
    (d : NetDevice)
    → (is_unknown (own_power d).sensor ≡ true)
    → ((own_power d).sensor ≡ none) × ((own_power d).at ≡ [])
unfolding own_power
own_power-cases d h = ground arith

-- What is shown of the power is what the device itself tells, or else what the first sensor tells that
-- is not shut down, by its name and whether it is up: all further sensors are passed over.
pub power_lem :
    (l3 : Bool) (d : NetDevice)
    → (draw_interfaces l3 d).power ≡ (
        if is_unknown (own_power d).sensor
        then first_sensor d.interfaces (own_power d)
        else own_power d)
unfolding draw_interfaces
power_lem l3 d = elim (Bool-cases (is_unknown (own_power d).sensor)) [
  | inl p ↦ let (a, b) = own_power-cases d p in rw p (loop_unknown l3 d d.interfaces _ a b)
  | inr p ↦ rw p (loop_known l3 d d.interfaces _ p)
]
