-- ===== src/Moving/Examples.antt =====
-- Two switches that are moved together, with the turnpoint of the link between them.
use mapper.Prelude.{String, ◌≡◌, refl, some, true, [], ◌∷◌}
use mapper.Prelude.Int.{ℤ, pos, negsuc, ◌+ℤ◌}
use mapper.Prelude.IntMap.{IntMap}
use mapper.Prelude.Obj.{Obj, get, set}
use mapper.Turnpoints.{Endpoint, Turnpoint, Shape}
use mapper.Links.{Interface, Data}
use mapper.Arrange.{Point}
use mapper.Moving.{member, add_links, add_ints, dev_links, shift_all, move_links, move_tps, snap}
use mapper.Moving.Once.{move_tps_lem}

abbrev port : String → Endpoint
port dev = record { dev = dev; int = "Gi1" }

abbrev ports : Obj Interface
ports = ("Gi1", record { l2_links = some ("l" ∷ []) }) ∷ []

abbrev net : Data
net = record {
  l2_links = ("l", record { first = port "a"; second = port "b"; status = 1 }) ∷ [];
  devs = ("a", ports) ∷ ("b", ports) ∷ [];
}

abbrev turn_at : ℤ → IntMap Turnpoint
turn_at x = (0, record { x = x; y = pos 8; shape = Shape.devdev (port "a") (port "b") }) ∷ []

abbrev by : Point
by = record { x = pos 16; y = pos 0 }

-- Both devices list the link, but its turnpoint moves once.
moved_once :
    move_tps (λ id. true) (λ dev. true) net ("a" ∷ "b" ∷ []) by (("l", turn_at (pos 24)) ∷ [])
    ≡ ("l", turn_at (pos 40)) ∷ []
unfolding move_tps move_links dev_links add_ints add_links member shift_all get set ◌+ℤ◌
moved_once = refl

snapped : snap 16 (pos 37) ≡ pos 32
unfolding snap
snapped = refl

left_of_page : snap 16 (negsuc 3) ≡ pos 0
unfolding snap
left_of_page = refl

move_tps_lem_example :
    get "l"
      (move_tps (λ id. true) (λ dev. true) net ("a" ∷ "b" ∷ []) by (("l", turn_at (pos 24)) ∷ []))
    ≡ some (turn_at (pos 40))
unfolding dev_links add_ints add_links member shift_all get ◌+ℤ◌
move_tps_lem_example =
    move_tps_lem (λ id. true) (λ dev. true) net ("a" ∷ "b" ∷ []) by (("l", turn_at (pos 24)) ∷ [])
      "l"
