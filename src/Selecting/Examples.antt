-- ===== src/Selecting/Examples.antt =====
-- Three switches in a row, and clicks on the first.
use mapper.Prelude.{◌≡◌, refl, String, some, true, false, not, List, [], ◌∷◌, str_eq, if◌then◌else◌}
use mapper.Prelude.Obj.{Obj, get}
use mapper.Links.{L2Link, Interface}
use mapper.Moving.{member}
use mapper.Selecting.{ctrl, Network, Selection, port_links, far_end, click, select_from}
use mapper.Selecting.Down.{IsOnce, Extends, select_from_lem}
use mapper.Selecting.Toggle.{click_lem}

abbrev cable : String → String → L2Link
cable a b = record {
  first = record { dev = a; int = "Gi1" };
  second = record { dev = b; int = "Gi1" };
  status = 1;
}

abbrev holding : List String → Obj Interface
holding ls = ("Gi1", record { l2_links = some ls }) ∷ []

abbrev row : Network
row = record {
  devs =
      ("a", holding ("a-b" ∷ []))
      ∷ ("b", holding ("a-b" ∷ "b-c" ∷ []))
      ∷ ("c", holding ("b-c" ∷ []))
      ∷ [];
  sorted = λ dev. "Gi1" ∷ [];
  link_of = λ id. get id (("a-b", cable "a" "b") ∷ ("b-c", cable "b" "c") ∷ []);
}

all_down : select_from row "a" "Gi1" [] ≡ "b" ∷ "c" ∷ []
unfolding select_from get
all_down = refl

select_from_lem_example :
    Extends row ("a" ∷ []) "a" ("c" ∷ []) (select_from row "a" "Gi1" ("c" ∷ []))
    × ((id : String) (l : L2Link)
        → member id (port_links row "a" "Gi1") ≡ true
        → row.link_of id ≡ some l
        → member (far_end "a" l) ("a" ∷ []) ≡ false
        → member (far_end "a" l) (select_from row "a" "Gi1" ("c" ∷ [])) ≡ true)
select_from_lem_example = select_from_lem row "a" "Gi1" ("c" ∷ [])

a-b-IsOnce : IsOnce ("a" ∷ "b" ∷ [])
unfolding member
a-b-IsOnce = (refl, refl, (refl, refl, tt))

click_lem_instance :
    (r : Selection) × (click ctrl "a" ("a" ∷ "b" ∷ []) ≡ some r)
    × IsOnce r
    × ((y : String)
        → member y r
          ≡ (if str_eq "a" y then not (member "a" ("a" ∷ "b" ∷ [])) else member y ("a" ∷ "b" ∷ [])))
click_lem_instance = click_lem "a" ("a" ∷ "b" ∷ []) a-b-IsOnce
