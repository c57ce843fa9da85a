-- ===== src/Layout/Examples.antt =====
-- A switch with a direct link, a link with a turnpoint, and an interface without a link.
use mapper.Prelude.{
  ℕ, ◌≤◌, length, ◌≡◌, refl, ◌≢◌, String, some, true, false, List, [], ◌∷◌, arith, str_eq, eq_iff,
  Bool-cases, inl, inr, if◌then◌else◌,
}
use mapper.Prelude.Int.{pos, ◌+ℤ◌, ◌-ℤ◌, ◌*ℤ◌}
use mapper.Prelude.IntMap
use mapper.Prelude.Obj.{get, set}
use mapper.Turnpoints.{Endpoint, Shape}
use mapper.Grid.{all_slots, slots_from, row_slots, next_col}
use mapper.Arrange.{
  Point, place, nearest, nearest_from, closest, closest_from, occupy, slot_point, distance,
}
use mapper.Layout.Requests.{
  Device, Request, neighbour, first_tp, beside_device, near_tp, near_dev, collect, closest_request,
  request_tp, request_dev,
}
use mapper.Layout.{
  Layout, settle, take_slot, arrange_int, each_drawn, and_then, arrange_interfaces_dev2tp,
  arrange_interfaces_dev2dev, free_slot, relocate_int,
}
use mapper.Layout.Places.{IsFrame, Within, target_point-Within, target_point_left_bottom}
use mapper.Layout.Target.{Box, Frame, center_of, frame_of, floor_half, common_middle, target_point}
use mapper.Layout.Total.{all_demands, Fits, IsArranged, arrange_interfaces-IsArranged}

abbrev port : String → String → Endpoint
port dev int = record { dev = dev; int = int }

abbrev box_at : ℕ → ℕ → Box
box_at x y = record { corner = record { x = pos x; y = pos y }; width = 28; height = 28 }

abbrev links : String → List String
links int = if str_eq "Gi1" int then "l" ∷ [] else if str_eq "Gi2" int then "m" ∷ [] else []

abbrev sw1 : Device
sw1 = record {
  id = "sw1";
  box = box_at 100 100;
  int_size = 10;
  int_half = 5;
  rows = 3;
  cols = 3;
  ints = "Gi1" ∷ "Gi2" ∷ "Gi3" ∷ [];
  drawn = λ int. true;
  shown = λ int. true;
  links = links;
  connections =
      (
        "l",
        record {
          from = port "sw1" "Gi1";
          to = port "sw2" "Gi1";
          status = 1;
          errors = [];
          legs = Shape.devdev (port "sw1" "Gi1") (port "sw2" "Gi1") ∷ [];
        },
      )
      ∷ (
        "m",
        record {
          from = port "sw2" "Gi2";
          to = port "sw1" "Gi2";
          status = 1;
          errors = [];
          legs = Shape.devtp (port "sw2" "Gi2") 0 ∷ Shape.devtp (port "sw1" "Gi2") 0 ∷ [];
        },
      )
      ∷ [];
  tps =
      (
        "m",
        (
          0,
          record {
            x = pos 120;
            y = pos 40;
            shape = Shape.devdev (port "sw2" "Gi2") (port "sw1" "Gi2");
          },
        )
            ∷ [],
      )
      ∷ [];
  boxes = λ dev. some (box_at 300 100);
}

abbrev blank : Layout
blank = record { slots = []; relocated = []; cells = []; rearranged = []; nei_devs = [] }

-- Gi1 is drawn to the right, Gi2 to the top, and Gi3 takes the first cell.
arranged_cells :
    (and_then
      (arrange_interfaces_dev2tp sw1 false blank)
      (arrange_interfaces_dev2dev sw1 false)).1.cells
    ≡ ("Gi2", record { col = 2; row = 0 })
      ∷ ("Gi1", record { col = 2; row = 1 })
      ∷ ("Gi3", record { col = 0; row = 0 })
      ∷ []
unfolding arrange_interfaces_dev2tp arrange_interfaces_dev2dev each_drawn arrange_int take_slot
    settle relocate_int free_slot place nearest nearest_from closest closest_from occupy slot_point
    distance near_tp near_dev neighbour first_tp beside_device collect closest_request center_of
    frame_of floor_half common_middle target_point all_slots slots_from row_slots next_col get set
    IntMap.get ◌+ℤ◌ ◌-ℤ◌ ◌*ℤ◌
arranged_cells = refl

sw1_tps : (int : String) → request_tp sw1 int ≢ Request.fail
unfolding near_tp near_dev neighbour first_tp beside_device collect closest_request closest
    closest_from get IntMap.get
sw1_tps int e = elim (Bool-cases (str_eq "Gi1" int)) [
  | inl p ↦
      let q : int ≡ "Gi1" = ground (arith, eq_iff "Gi1" int) in
      let f : request_tp sw1 "Gi1" ≡ Request.fail = rw q at e in cc (f)
  | inr p ↦ elim (Bool-cases (str_eq "Gi2" int)) [
    | inl q ↦
        let r : int ≡ "Gi2" = ground (arith, eq_iff "Gi2" int) in
        let f : request_tp sw1 "Gi2" ≡ Request.fail = rw r at e in cc (f)
    | inr q ↦ let f : Request.idle ≡ Request.fail = rw (p, q) at e in cc (f)
  ]
]

sw1_devs : (int : String) → request_dev sw1 int ≢ Request.fail
unfolding near_tp near_dev neighbour first_tp beside_device collect closest_request closest
    closest_from get IntMap.get target_point frame_of common_middle floor_half ◌+ℤ◌ ◌-ℤ◌
sw1_devs int e = elim (Bool-cases (str_eq "Gi1" int)) [
  | inl p ↦
      let q : int ≡ "Gi1" = ground (arith, eq_iff "Gi1" int) in
      let f : request_dev sw1 "Gi1" ≡ Request.fail = rw q at e in cc (f)
  | inr p ↦ elim (Bool-cases (str_eq "Gi2" int)) [
    | inl q ↦
        let r : int ≡ "Gi2" = ground (arith, eq_iff "Gi2" int) in
        let f : request_dev sw1 "Gi2" ≡ Request.fail = rw r at e in cc (f)
    | inr q ↦ let f : Request.idle ≡ Request.fail = rw (p, q) at e in cc (f)
  ]
]

sw1-Fits : Fits sw1
sw1-Fits = record {
  shown = λ int h. refl;
  tps = λ int h. sw1_tps int;
  devs = λ int h. sw1_devs int;
}

sw1_enough : all_demands sw1 ≤ length (all_slots 3 3)
unfolding near_tp near_dev neighbour first_tp beside_device collect closest_request closest
    closest_from get IntMap.get target_point frame_of common_middle floor_half ◌+ℤ◌ ◌-ℤ◌ all_slots
    slots_from row_slots next_col
sw1_enough = omega arith

arrange_interfaces-IsArranged_example :
    (s : Layout) × (and_then
        (arrange_interfaces_dev2tp sw1 false blank)
        (arrange_interfaces_dev2dev sw1 false)
      ≡ (true, s))
    × IsArranged sw1 s
arrange_interfaces-IsArranged_example =
    arrange_interfaces-IsArranged sw1 false false blank sw1-Fits (omega arith) sw1_enough

abbrev here : Frame
here = record { left = pos 105; top = pos 105; right = pos 123; bottom = pos 123 }

abbrev left_below : Frame
left_below = record { left = pos 5; top = pos 205; right = pos 23; bottom = pos 223 }

here-IsFrame : IsFrame here
here-IsFrame = record { across = omega arith; down = omega arith }

left_below-IsFrame : IsFrame left_below
left_below-IsFrame = record { across = omega arith; down = omega arith }

target_point-Within_example :
    (p : Point) × (target_point here left_below ≡ some p) × Within left_below p
target_point-Within_example = target_point-Within here left_below here-IsFrame left_below-IsFrame

target_point_left_bottom_example :
    target_point here left_below ≡ some (record { x = pos 14; y = pos 214 })
unfolding floor_half ◌+ℤ◌ ◌-ℤ◌
target_point_left_bottom_example =
    target_point_left_bottom here left_below here-IsFrame left_below-IsFrame refl refl

-- To the right and below it is the corner.
right_bottom_corner :
    target_point here (record { left = pos 205; top = pos 205; right = pos 223; bottom = pos 223 })
    ≡ some (record { x = pos 205; y = pos 205 })
unfolding target_point common_middle floor_half ◌+ℤ◌ ◌-ℤ◌
right_bottom_corner = refl
