-- ===== src/Saving.antt =====
-- How changes of the map reach the server: `save_map` of map-broker/www/mapper.js with what its answer
-- does to the page, and the five actions of map-broker/http-ajax.go that it asks for. An entry of the
-- map, such as the location of a device, is its JSON text: `JSON.stringify` writes it and
-- `json.Unmarshal` reads it back.
pub mod Entries
pub mod Requests
pub mod Steps
pub mod Sync
pub mod Operations
pub mod Lost
pub mod Dropped
pub mod Removal
mod Examples
use mapper.Prelude.{
  ℕ, String, Option, none, some, Bool, true, false, ◌&&◌, List, [], ◌∷◌, ◌++◌, str_eq,
  if◌then◌else◌,
}
use mapper.Prelude.Obj.{Obj, get, set, delete}

abbrev pub Entries : Type 0
Entries = Obj String

-- `map_data`: under the keys "loc", "tps", "colors" and "options" the entries by their ids.
abbrev pub MapData : Type 0
MapData = Obj Entries

-- What `run_query` is called with; the site and the project stay the same on a page.
pub data SaveRequest : Type 0 where
  save_map_key_id : String → String → String → String → SaveRequest
  del_map_key_id : String → String → String → SaveRequest
  save_map_key : String → String → Entries → SaveRequest
  del_map_key : String → String → SaveRequest
  save_map_all : String → MapData → SaveRequest

pub record MapPage : Type 0 where
  pub map_data : MapData
  pub file_key : String
  -- `data["default_map"] != undefined`
  pub default_map : Bool
  pub enable_save : Bool
  pub unsaved : Bool

abbrev pub id_request : String → String → String → Option String → SaveRequest
id_request file key id none = del_map_key_id file key id
id_request file key id (some v) = save_map_key_id file key id v

abbrev pub key_request : String → String → Option Entries → SaveRequest
key_request file key none = del_map_key file key
key_request file key (some o) = save_map_key file key o

-- `md[key][id]`, which throws when there is no `md[key]`
abbrev pub entry_request : String → String → String → Option Entries → Option SaveRequest
entry_request file key id none = none
entry_request file key id (some o) = some (id_request file key id (get id o))

abbrev pub part_request : String → MapData → Option String → Option String → Option SaveRequest
part_request file md none id = some (save_map_all file md)
part_request file md (some key) none = some (key_request file key (get key md))
part_request file md (some key) (some id) = entry_request file key id (get key md)

abbrev pub else_use {ℓ} : {A : Type ℓ} → A → Option A → A
else_use a none = a
else_use a (some b) = b

-- A default map is saved as a whole.
abbrev pub or_whole : Bool → String → MapData → Option SaveRequest → Option SaveRequest
or_whole whole file md none = none
or_whole whole file md (some r) = some (if whole then save_map_all file md else r)

-- The query of `save_map(key, id, fk, md)`, none when it throws
unfoldable pub save_query :
    Option String → Option String → Option String → Option MapData → MapPage → Option SaveRequest
save_query key id fk md p =
    let save_fk = else_use p.file_key fk in
    let m = else_use p.map_data md in
    or_whole (p.default_map && str_eq save_fk "") save_fk m (part_request save_fk m key id)

-- A request on its way, with the `fk` that its answer looks at
pub record Sent : Type 0 where
  pub request : SaveRequest
  pub fk : Option String

abbrev pub sent_as : Option String → Option SaveRequest → List Sent
sent_as fk none = []
sent_as fk (some r) = record { request = r; fk = fk } ∷ []

-- `save_map`: the page afterwards and what was sent
unfoldable pub save_map :
    Option String → Option String → Option String → Option MapData → MapPage → MapPage × List Sent
unfolding save_query
save_map key id fk md p =
    if p.enable_save
    then (p, sent_as fk (save_query key id fk md p))
    else (record p { unsaved = true }, [])

-- What the answer does: all saved, if it is the file of the page, and no default map any more.
abbrev pub answered : Option String → MapPage → MapPage
answered none p = record p { unsaved = false; default_map = false }
answered (some fk) p = record p { default_map = false }

-- The server's files of one user
abbrev pub Files : Type 0
Files = Obj MapData

-- A file that is not there yet
abbrev pub new_file : MapData
new_file = ("tps", []) ∷ ("loc", []) ∷ ("colors", []) ∷ ("options", []) ∷ []

unfoldable pub read_file : String → Files → MapData
read_file file fs = else_use new_file (get file fs)

abbrev pub entries_of : Option Entries → Entries
entries_of = else_use []

unfoldable pub put_entry : String → String → String → MapData → MapData
put_entry key id v m = set key (set id v (entries_of (get key m))) m

abbrev pub drop_from : String → String → MapData → Option Entries → MapData
drop_from key id m none = m
drop_from key id m (some o) = set key (delete id o) m

unfoldable pub drop_entry : String → String → MapData → MapData
drop_entry key id m = drop_from key id m (get key m)

-- The loop over the keys of a new file
unfoldable pub whole_map : MapData → MapData → MapData
whole_map md [] = []
whole_map md ((key, o) ∷ keys) = (key, else_use o (get key md)) ∷ whole_map md keys

-- What the server does with a request that passes its checks of the file, the key and the id
unfoldable pub handle : SaveRequest → Files → Files
unfolding read_file put_entry drop_entry whole_map
handle (save_map_key_id file key id v) fs = set file (put_entry key id v (read_file file fs)) fs
handle (del_map_key_id file key id) fs = set file (drop_entry key id (read_file file fs)) fs
handle (save_map_key file key o) fs = set file (set key o (read_file file fs)) fs
handle (del_map_key file key) fs = set file (set key [] (read_file file fs)) fs
handle (save_map_all file md) fs = set file (whole_map md new_file) fs
