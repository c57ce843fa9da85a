-- ===== src/Drawn/Counts.antt =====
-- What the loop of `add_device` counts.
use mapper.Prelude.{◌≢◌, some, ℕ, ◌+◌, ◌≡◌, Bool, true, false, List, [], ◌∷◌, if◌then◌else◌}
use mapper.Text.{Text}
use mapper.Drawn.{NetInterface, Draw, outside, inside, DrawState}

abbrev pub is_outside : Draw → Bool
is_outside outside = true
is_outside d = false

abbrev pub is_inside : Draw → Bool
is_inside inside = true
is_inside d = false

-- How many interfaces are drawn in a way
abbrev pub count : (Draw → Bool) → List (Text × Draw) → ℕ
count p [] = 0
count p ((int, w) ∷ ws) = (if p w then 1 else 0) + count p ws

-- The counts are those of the interfaces that are drawn.
record IsCounted (s : DrawState) : Type 0 where
  one : s.draw1_count ≡ count is_outside s.draws
  two : s.draw2_count ≡ count is_inside s.draws

-- May the interface be an end of a link that is drawn on the site?
abbrev pub IsLinkEnd : Bool → NetInterface → Type 0
IsLinkEnd true i = (i.has_ips ≡ true) × (i.if_type ≢ some 24)
IsLinkEnd false i = (i.has_l2_links ≡ true) × (i.if_type ≢ some 131)
