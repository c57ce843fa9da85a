-- ===== src/Vlinks.antt =====
-- Virtual links, which a user draws between two interfaces of the two selected devices:
-- `vLinksWindow` of map-broker/www/mapper.js. That such a link has the field `virtual` is left out, as
-- only the list of the window reads it.
pub mod Listing
pub mod Added
pub mod Roundtrip
mod Examples
use Prim.Native.String.{◌++◌ as str_append}
use mapper.Prelude.{
  String, ℕ, Option, none, some, Bool, ◌&&◌, ◌||◌, List, [], ◌∷◌, str_eq, if◌then◌else◌,
}
use mapper.Prelude.Int.{ℤ}
use mapper.Prelude.Obj.{Obj, get, set, is_defined}
use mapper.Turnpoints.{Endpoint}
use mapper.Links.{L2Link, Interface, Devs, Data, or_none}
use mapper.Connections.Routed.{above_zero}
use mapper.Offline.{append_once}

unfoldable pub vlink_id : Endpoint → Endpoint → String
vlink_id a b =
    str_append a.dev
      (str_append "@" (str_append a.int (str_append "#" (str_append b.dev (str_append "@" b.int)))))

-- `pairs`, sorted by `localeCompare` of the devices
unfoldable pub sorted_pair : (String → String → ℤ) → Endpoint → Endpoint → Endpoint × Endpoint
sorted_pair locale_compare a b = if above_zero (locale_compare a.dev b.dev) then (b, a) else (a, b)

-- What the window asks the server to save; `is_up` is the test whether `ifOperStatus` is 1.
unfoldable pub vlink_of : (Endpoint → Bool) → Endpoint × Endpoint → String × L2Link
unfolding vlink_id
vlink_of is_up (a, b) =
    (vlink_id a b, record { first = a; second = b; status = if is_up a && is_up b then 1 else 2 })

-- A click on the button: no request when an interface is not chosen, or when there is such a link.
unfoldable pub create_vlink :
    (String → String → ℤ)
    → (Endpoint → Bool)
    → Endpoint
    → Endpoint
    → Obj L2Link
    → Option (String × L2Link)
unfolding vlink_of sorted_pair
create_vlink locale_compare is_up left right links =
    let (id, link) = vlink_of is_up (sorted_pair locale_compare left right) in
    if str_eq left.int "" || str_eq right.int ""
    then none
    else if is_defined (get id links)
    then none
    else some (id, link)

-- A device or an interface that is not there throws, which is ignored.
unfoldable pub list_link : String → Endpoint → Devs → Devs
unfolding append_once
list_link id e devs = elim (get e.dev devs) [
  | none ↦ devs
  | some ints ↦ elim (get e.int ints) [
    | none ↦ devs
    | some i ↦
        set e.dev
          (set e.int (record i { l2_links = some (append_once (or_none i.l2_links) id) }) ints) devs
  ]
]

-- The answer to `save_vlink`
unfoldable pub add_vlink : String → L2Link → Data → Data
unfolding list_link
add_vlink id link s = record {
  l2_links = set id link s.l2_links;
  devs = list_link id link.second (list_link id link.first s.devs);
}
