-- ===== src/Offline/Answer/Actions.antt =====
-- `offline_query` of map-broker/www/mapper.js as a whole: the action of a query decides what is answered.
use mapper.Prelude.{
  ◌≡◌, refl, String, Option, none, some, Bool, false, ◌||◌, List, [], ◌∷◌, str_eq, if◌then◌else◌,
}
use mapper.Prelude.Obj.{Obj, get}
use mapper.Text.{◌>>=◌}
use mapper.Offline.{OfflineDevice, Port, OfflineData, Front, StoredMap, get_front}
use mapper.Offline.MacSearch.{MacInfo, search_mac_info}
use mapper.Offline.IpSearch.{IpInfo, search_ip_info}
use mapper.Offline.Answer.{Compiled, dialog, QueryResult, ok, fail, or_thrown, SearchResult, search}
use mapper.Saving.{
  SaveRequest, save_map_key_id, del_map_key_id, save_map_key, del_map_key, save_map_all, MapPage,
  save_query,
}

-- The tables that an interface of a device gets, where there are any
pub record Tables : Type 0 where
  pub macs : Option (Obj (List String))
  pub arp : Option (Obj String)

abbrev part {ℓ} : {V : Type ℓ} → String → Option (Obj V) → Option V
part k none = none
part k (some o) = get k o

unfoldable pub tables_of : OfflineData → String → Obj Port → Obj Tables
tables_of od dev [] = []
tables_of od dev ((int, p) ∷ ints) =
    (int, record { macs = part int (get dev od.macs); arp = part int (get dev od.arp) })
    ∷ tables_of od dev ints

-- "get_device": a device that is not there is a TypeError.
unfoldable pub get_device : OfflineData → String → QueryResult (OfflineDevice × Obj Tables)
unfolding tables_of
get_device od dev = or_thrown (get dev od.devs >>= λ d. some (d, tables_of od dev d.interfaces))

-- What the page asks for
pub data Query : Type 0 where
  asks_front : String → String → Query
  lists_maps : Query
  asks_device : String → Query
  asks_mac : String → Query
  asks_ip : String → Query
  searches : Bool → String → Query
  saves : SaveRequest → Query
  acts : String → Query

pub data Answer : Type 0 where
  front : Front → Answer
  map_list : List StoredMap → Answer
  device : OfflineDevice → Obj Tables → Answer
  mac_info : MacInfo → Answer
  ip_info : Option IpInfo → Answer
  found : SearchResult → Answer
  nothing : Answer

infixl 5 ◌>=>◌
abbrev ◌>=>◌ : {A B : Type 0} → QueryResult A → (A → B) → QueryResult B
ok a >=> f = ok (f a)
fail e >=> f = fail e

abbrev pub action_of : SaveRequest → String
action_of (save_map_key_id file key id v) = "save_map_key_id"
action_of (del_map_key_id file key id) = "del_map_key_id"
action_of (save_map_key file key o) = "save_map_key"
action_of (del_map_key file key) = "del_map_key"
action_of (save_map_all file md) = "save_map"

-- The branches for the actions that save, and for all that are not known
unfoldable pub other_action : (String → String) → String → QueryResult Answer
other_action unimplemented action =
    if str_eq action "save_map" || str_eq action "save_map_key_id" || str_eq action "save_map_key"
    then ok nothing
    else fail (dialog (unimplemented action))

-- What `successfunc` is called with, or what ends the query instead. `unimplemented` puts the text of
-- the dialog before an action.
unfoldable pub offline_query :
    (Bool → String → Compiled) → (String → String) → OfflineData → Query → QueryResult Answer
unfolding other_action
offline_query compile unimplemented od (asks_front site proj) =
    or_thrown (get_front site proj od) >=> front
offline_query compile unimplemented od lists_maps = ok (map_list od.maps)
offline_query compile unimplemented od (asks_device dev) = get_device od dev >=> λ a. device a.0 a.1
offline_query compile unimplemented od (asks_mac mac) =
    or_thrown (search_mac_info od mac) >=> mac_info
offline_query compile unimplemented od (asks_ip ip) = ok (ip_info (search_ip_info od ip))
offline_query compile unimplemented od (searches reg for) = search compile od reg for >=> found
offline_query compile unimplemented od (saves r) = other_action unimplemented (action_of r)
offline_query compile unimplemented od (acts action) = other_action unimplemented action

-- Without a server, when the map is no default map any more and an entry that is saved is not in the
-- map, as after a device or the last turnpoint of a link was taken off it, the query of `save_map` ends
-- with the dialog for an action that is not implemented.
pub offline_query-del_map_key_id :
    (compile : Bool → String → Compiled) (unimplemented : String → String) (od : OfflineData)
    (p : MapPage) (key id : String) (o : Obj String)
    → p.default_map ≡ false
    → get key p.map_data ≡ some o
    → get id o ≡ none
    → (r : SaveRequest) × (save_query (some key) (some id) none none p ≡ some r)
      × (offline_query compile unimplemented od (saves r)
          ≡ fail (dialog (unimplemented "del_map_key_id")))
unfolding offline_query save_query
offline_query-del_map_key_id compile unimplemented od p key id o d k gone =
    (del_map_key_id p.file_key key id, rw (d, k, gone) refl, refl)
