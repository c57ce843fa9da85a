-- ===== src/Arrange/Examples.antt =====
-- The choice of a slot at a small device.
use mapper.Prelude.{◌≡◌, refl, ◌⊎◌, none, some}
use mapper.Prelude.Int.{ℤ, pos, ◌+ℤ◌, ◌-ℤ◌, ◌*ℤ◌}
use mapper.Grid.{Slot, dev2tp, all_slots}
use mapper.Arrange.{distance, slot_point, nearest, Placed, place}
use mapper.Arrange.Occupy.{IsPlaced, count_free, place_lem}

-- Squared distances to a turnpoint to the right of a device with its corner at (100, 100).
abbrev dist : Slot → ℤ
dist s =
    distance (slot_point 16 0 (record { x = pos 100; y = pos 100 }) s)
      (record { x = pos 300; y = pos 120 })

middle_right : nearest dist (all_slots 3 3) ≡ some (4, pos 28240)
unfolding nearest all_slots distance slot_point ◌+ℤ◌ ◌-ℤ◌ ◌*ℤ◌
middle_right = refl

place_lem_example :
    ((count_free (all_slots 3 3) ≡ 0) × (place dist "Gi0/1" dev2tp (all_slots 3 3) ≡ none))
    ⊎ ((p : Placed) × (place dist "Gi0/1" dev2tp (all_slots 3 3) ≡ some p)
        × IsPlaced dist "Gi0/1" dev2tp (all_slots 3 3) p)
place_lem_example = place_lem dist "Gi0/1" dev2tp (all_slots 3 3)
