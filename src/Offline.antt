-- ===== src/Offline.antt =====
-- The map without a server: `offline_query` of map-broker/www/mapper.js answers the queries of the page
-- from a copy of the data, `OD`, that map-broker/http-ajax.go exports. Here is that data, and the action
-- "get_front"; the searches are in the modules below.
pub mod Select
pub mod ForIn
pub mod Rows
pub mod Shown
pub mod MacSearch
pub mod IpSearch
pub mod Search
pub mod Answer
mod Examples
use mapper.Prelude.{
  ℕ, String, Option, none, some, Bool, true, false, ◌&&◌, ◌||◌, List, [], ◌∷◌, ◌++◌, str_eq,
  if◌then◌else◌,
}
use mapper.Prelude.Obj.{Obj, get, set, is_defined}
use mapper.Text.{◌>>=◌}

-- The fields of an object that hold texts
abbrev pub Fields : Type 0
Fields = Obj String

-- An interface: its texts, and the lengths of the masks of its addresses, if it has `ips`
pub record Port : Type 0 where
  pub fields : Fields
  pub ips : Option (Obj ℕ)

-- What a device hears on a port of a neighbour, with the address of the neighbour under "1", if any
pub record Neighbour : Type 0 where
  pub fields : Fields
  pub address : Option String

-- An element of `lldp_ports` or `cdp_ports`
pub record HeardOn : Type 0 where
  pub if_name : Option String
  pub neighbours : Obj Neighbour

-- The export gives each device its interfaces, sites and projects.
pub record OfflineDevice : Type 0 where
  pub fields : Fields
  pub inventory : Obj Fields
  pub dev_sites : List String
  pub dev_projects : List String
  pub interfaces : Obj Port
  pub lldp_ports : Obj HeardOn
  pub cdp_ports : Obj HeardOn

-- The devices at the ends of a link, under 0 and 1
pub record LinkDevs : Type 0 where
  pub first : String
  pub second : String

pub record StoredMap : Type 0 where
  pub site : String
  pub proj : String
  pub map_json : String

-- `OD`: networks are the devices by their addresses, `arp` the MAC addresses by device, interface and
-- IP address, and `macs` those that were seen, by device, interface and VLAN.
pub record OfflineData : Type 0 where
  pub devs : Obj OfflineDevice
  pub l2_links : Obj LinkDevs
  pub l3_links : Obj (Obj String)
  pub maps : List StoredMap
  pub arp : Obj (Obj (Obj String))
  pub macs : Obj (Obj (Obj (List String)))

-- `in_array(list, value)`
unfoldable pub in_array : List String → String → Bool
in_array [] v = false
in_array (x ∷ xs) v = str_eq x v || in_array xs v

-- `append_once(list, val)`
unfoldable pub append_once : List String → String → List String
unfolding in_array
append_once list val = if in_array list val then list else list ++ val ∷ []

abbrev pub is_empty {ℓ} : {A : Type ℓ} → List A → Bool
is_empty [] = true
is_empty (x ∷ xs) = false

-- `site_match`
unfoldable pub site_match : String → OfflineDevice → Bool
unfolding in_array
site_match site d =
    if str_eq site "all"
    then true
    else if str_eq site "nodata"
    then is_empty d.dev_sites
    else in_array d.dev_sites site

-- `proj_match`: the field `dev_projs` is not among those of a device, and its length is a TypeError.
unfoldable pub proj_match : String → OfflineDevice → Option Bool
unfolding in_array
proj_match proj d =
    if str_eq proj "all"
    then some true
    else if str_eq proj "nodata"
    then none
    else some (in_array d.dev_projects proj)

-- `ret["devs"]`, none for a TypeError
unfoldable pub front_devs :
    String → String → Obj OfflineDevice → Obj OfflineDevice → Option (Obj OfflineDevice)
unfolding site_match proj_match
front_devs site proj ret [] = some ret
front_devs site proj ret ((id, d) ∷ devs) =
    let skipped = front_devs site proj ret devs in
    let matched =
      proj_match proj d >>= λ b. front_devs site proj (if b then set id d ret else ret) devs in
    if site_match site d then matched else skipped

-- `for(let k in obj) { if(test) ret[k] = obj[k]; }`
unfoldable pub select {ℓ} : {V : Type ℓ} → (V → Bool) → Obj V → Obj V → Obj V
select test ret [] = ret
select test ret ((k, v) ∷ obj) = select test (if test v then set k v ret else ret) obj

abbrev pub both_shown : Obj OfflineDevice → LinkDevs → Bool
both_shown devs l = is_defined (get l.first devs) && is_defined (get l.second devs)

-- The loop over the addresses of a network, up to the first of a device that is shown
unfoldable pub any_shown : Obj OfflineDevice → Obj String → Bool
any_shown devs [] = false
any_shown devs ((ip, dev) ∷ net) = is_defined (get dev devs) || any_shown devs net

abbrev pub no_map : String
no_map = "{\"tps\": {}, \"loc\": {}, \"colors\": {}, \"options\": {}}"

-- The first map of the site and the project
unfoldable pub find_map : String → String → List StoredMap → String
find_map site proj [] = no_map
find_map site proj (m ∷ maps) =
    if str_eq m.site site && str_eq m.proj proj then m.map_json else find_map site proj maps

-- What depends on the query in the answer to "get_front"
pub record Front : Type 0 where
  pub devs : Obj OfflineDevice
  pub l2_links : Obj LinkDevs
  pub l3_links : Obj (Obj String)
  pub map_json : String

abbrev pub front_of : String → String → OfflineData → Obj OfflineDevice → Front
front_of site proj od devs = record {
  devs = devs;
  l2_links = select (both_shown devs) [] od.l2_links;
  l3_links = select (any_shown devs) [] od.l3_links;
  map_json = find_map site proj od.maps;
}

unfoldable pub get_front : String → String → OfflineData → Option Front
unfolding front_devs select any_shown find_map
get_front site proj od =
    front_devs site proj [] od.devs >>= λ devs. some (front_of site proj od devs)
