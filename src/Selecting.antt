-- ===== src/Selecting.antt =====
-- Which devices are selected: `device_click`, and `select_down` with its call in `interface_click`, of
-- map-broker/www/mapper.js, on the site of L2 links.
pub mod Toggle
pub mod Down
mod Examples
use mapper.Prelude.{
  ℕ, zero, suc, String, Option, none, some, Bool, true, false, not, ◌&&◌, ◌||◌, List, [], ◌∷◌, ◌++◌,
  str_eq, if◌then◌else◌,
}
use mapper.Prelude.Obj.{Obj, get}
use mapper.Links.{L2Link, Interface, Devs}
use mapper.Moving.{member, listed}

-- `dev_selected.splice(i, 1)` at the first place where the device stands
unfoldable pub splice : String → List String → List String
splice x [] = []
splice x (y ∷ ys) = let rest = splice x ys in if str_eq y x then ys else y ∷ rest

-- The keys that are held down
pub data Keys : Type 0 where
  no_key ctrl shift : Keys

-- `device_click` of a device that is there, when selecting is allowed: `dev_selected`, or the window of
-- the device
unfoldable pub click : Keys → String → List String → Option (List String)
unfolding member splice
click no_key id sel = none
click ctrl id sel = some (if member id sel then splice id sel else sel ++ id ∷ [])
click shift id sel = some (id ∷ [])

-- What `select_down` reads: the devices with the links of their interfaces, the order of the
-- interfaces, and `data["l2_links"][link_id]` of the connections that there are.
pub record Network : Type 0 where
  pub devs : Devs
  pub sorted : String → List String
  pub link_of : String → Option L2Link

abbrev pub ints_of_dev : Option (Obj Interface) → Obj Interface
ints_of_dev none = []
ints_of_dev (some ints) = ints

abbrev pub links_listed : Option Interface → List String
links_listed none = []
links_listed (some i) = listed i

-- `data["devs"][dev_id]["interfaces"][int]["l2_links"]`; the interfaces that are sorted are there.
abbrev pub port_links : Network → String → String → List String
port_links net dev int = links_listed (get int (ints_of_dev (get dev net.devs)))

-- `nei_dev`
abbrev pub far_end : String → L2Link → String
far_end dev l = if str_eq l.first.dev dev then l.second.dev else l.first.dev

abbrev pub Selection : Type 0
Selection = List String

-- The loop over the interfaces of the neighbour
unfoldable pub each_int : (String → Selection → Selection) → List String → Selection → Selection
each_int go [] sel = sel
each_int go (int ∷ ints) sel = each_int go ints (go int sel)

-- One connection; `go` is the recursive call.
unfoldable pub visit :
    (String → String → Selection → Selection)
    → Network
    → List String
    → String
    → Option L2Link
    → Selection
    → Selection
unfolding member each_int
visit go net excl dev none sel = sel
visit go net excl dev (some l) sel =
    let nei = far_end dev l in
    if member nei sel || member nei excl
    then sel
    else each_int (go nei) (net.sorted nei) (sel ++ nei ∷ [])

-- The loop over the links of the interface
unfoldable pub visit_all :
    (String → String → Selection → Selection)
    → Network
    → List String
    → String
    → List String
    → Selection
    → Selection
unfolding visit
visit_all go net excl dev [] sel = sel
visit_all go net excl dev (id ∷ ids) sel =
    visit_all go net excl dev ids (visit go net excl dev (net.link_of id) sel)

-- `select_down(dev_id, int, excl, counter)` with 65 - counter calls left
unfoldable pub select_down : ℕ → Network → List String → String → String → Selection → Selection
unfolding visit_all
select_down zero net excl dev int sel = sel
select_down (suc left) net excl dev int sel =
    visit_all (select_down left net excl) net excl dev (port_links net dev int) sel

-- The call in `interface_click`
unfoldable pub select_from : Network → String → String → Selection → Selection
unfolding select_down
select_from net dev int sel = select_down 65 net (dev ∷ []) dev int sel
