-- ===== src/Moving.antt =====
-- What `device_drag_stop` of map-broker/www/mapper.js does to the coordinates when a device is dropped
-- that is selected with others: the turnpoints of links between selected devices move with them. This
-- is the site of L2 links.
pub mod Once
mod Examples
use mapper.Prelude.{
  ℕ, ◌+◌, ◌*◌, ◌/◌, String, Option, none, some, Bool, true, false, not, ◌&&◌, ◌||◌, List, [], ◌∷◌,
  ◌++◌, str_eq, if◌then◌else◌,
}
use mapper.Prelude.Int.{ℤ, pos, pos_part, ◌+ℤ◌, ◌-ℤ◌}
use mapper.Prelude.IntMap.{IntMap}
use mapper.Prelude.Obj.{Obj, get, set, is_defined}
use mapper.Turnpoints.{Turnpoint}
use mapper.Links.{L2Link, Interface, Data}
use mapper.Arrange.{Point}

-- `indexOf(x) >= 0`
unfoldable pub member : String → List String → Bool
member x [] = false
member x (y ∷ ys) = str_eq y x || member x ys

-- `if(X < 0) X = 0; X = Math.floor(X / int_size) * int_size;`
unfoldable pub snap : ℕ → ℤ → ℤ
snap int_size x = pos (pos_part x / int_size * int_size)

-- `connections[link_id] !== undefined && map_data["tps"][link_id] !== undefined && ...`
abbrev pub with_tps : (String → Bool) → Obj (IntMap Turnpoint) → Obj L2Link → String → Bool
with_tps connected tps l2_links id =
    connected id && is_defined (get id tps) && is_defined (get id l2_links)

-- `dev_links` after the links of one interface
unfoldable pub add_links : (String → Bool) → List String → List String → List String
unfolding member
add_links ok acc [] = acc
add_links ok acc (id ∷ ids) =
    add_links ok (if ok id && not (member id acc) then acc ++ id ∷ [] else acc) ids

abbrev pub listed : Interface → List String
listed i = elim i.l2_links [ none ↦ [] | some ls ↦ ls ]

unfoldable pub add_ints : (String → Bool) → List String → Obj Interface → List String
unfolding add_links
add_ints ok acc [] = acc
add_ints ok acc ((int, i) ∷ ints) = add_ints ok (add_links ok acc (listed i)) ints

-- A device that is on the page has interfaces in the data.
abbrev pub ints_of : Option (Obj Interface) → Obj Interface
ints_of none = []
ints_of (some ints) = ints

-- `dev_links` of the selected devices that are on the page
unfoldable pub dev_links :
    (String → Bool) → (String → Bool) → Data → List String → List String → List String
unfolding add_ints
dev_links ok on_page s acc [] = acc
dev_links ok on_page s acc (dev ∷ devs) =
    dev_links ok on_page s (if on_page dev then add_ints ok acc (ints_of (get dev s.devs)) else acc)
      devs

-- Every turnpoint of a link is moved.
unfoldable pub shift_all : Point → IntMap Turnpoint → IntMap Turnpoint
shift_all d [] = []
shift_all d ((i, t) ∷ m) = (i, record t { x = t.x +ℤ d.x; y = t.y +ℤ d.y }) ∷ shift_all d m

abbrev pub inner : List String → Option L2Link → Bool
inner selected none = false
inner selected (some l) = member l.first.dev selected && member l.second.dev selected

abbrev pub shift_at : Point → Option (IntMap Turnpoint) → Option (IntMap Turnpoint)
shift_at d none = none
shift_at d (some m) = some (shift_all d m)

abbrev pub put :
    String → Option (IntMap Turnpoint) → Obj (IntMap Turnpoint) → Obj (IntMap Turnpoint)
put id none tps = tps
put id (some m) tps = set id m tps

-- The loop over `dev_links`
unfoldable pub move_links :
    List String → Obj L2Link → Point → List String → Obj (IntMap Turnpoint) → Obj (IntMap Turnpoint)
unfolding shift_all
move_links selected l2_links d [] tps = tps
move_links selected l2_links d (id ∷ ids) tps =
    move_links selected l2_links d ids
      (if inner selected (get id l2_links) then put id (shift_at d (get id tps)) tps else tps)

-- What is dropped at `at_point`, from where it was, with others
unfoldable pub move_tps :
    (String → Bool)
    → (String → Bool)
    → Data
    → List String
    → Point
    → Obj (IntMap Turnpoint)
    → Obj (IntMap Turnpoint)
unfolding move_links dev_links
move_tps connected on_page s selected d tps =
    move_links selected s.l2_links d
      (dev_links (with_tps connected tps s.l2_links) on_page s [] selected) tps
