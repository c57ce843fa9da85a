-- ===== src/Saving/Operations.antt =====
-- What the handlers of map-broker/www/mapper.js change in the map before they call `save_map`:
-- `device_drag`, `dev_list_stop`, `tp_moved`, `remove_tp`, `remove_from_map` and the buttons of a file.
use mapper.Prelude.{
  String, Option, none, some, Bool, ◌||◌, List, [], ◌∷◌, ◌++◌, str_eq, if◌then◌else◌,
}
use mapper.Prelude.Obj.{Obj, get, set, delete}
use mapper.Text.{◌>>=◌}
use mapper.Saving.{MapData, put_entry, drop_entry, answered, Sent, MapPage}
use mapper.Saving.Steps.{State, with_map, with_page, send, after}

abbrev pub change_map : (MapData → MapData) → State → State
change_map f s = with_page (with_map (f s.page.map_data) s.page) s

-- `map_data["loc"][id] = {"x": X, "y": Y}; save_map("loc", id);`
unfoldable pub put_device : String → String → State → State
unfolding put_entry send
put_device id point s = send (some "loc") (some id) none (change_map (put_entry "loc" id point) s)

-- The turnpoints of a link, or none when the last one was removed
abbrev pub set_tps : String → Option String → MapData → MapData
set_tps link_id none m = drop_entry "tps" link_id m
set_tps link_id (some v) m = put_entry "tps" link_id v m

unfoldable pub store_tps : String → Option String → State → State
unfolding put_entry drop_entry send
store_tps link_id tps s = send (some "tps") (some link_id) none (change_map (set_tps link_id tps) s)

-- `connections[link_id]`, by its ends
pub record DevPair : Type 0 where
  pub from_dev : String
  pub to_dev : String

abbrev pub touches : String → DevPair → Bool
touches id c = str_eq c.to_dev id || str_eq c.from_dev id

-- The loop over `connections`: those that are left
unfoldable pub other_connections : String → Obj DevPair → Obj DevPair
other_connections id [] = []
other_connections id ((link_id, c) ∷ cs) =
    let rest = other_connections id cs in if touches id c then rest else (link_id, c) ∷ rest

-- `clear_link_objects(link_id)` reads, and the loop then deletes, `map_data["tps"][link_id]`; none is a
-- TypeError, when there is no `map_data["tps"]`.
unfoldable pub drop_link : String → MapData → Option MapData
drop_link link_id m = elim (get "tps" m) [
  | none ↦ none
  | some tps ↦ some (set "tps" (delete link_id tps) m)
]

-- The loop over `connections`: the map that is left
unfoldable pub drop_tps : String → Obj DevPair → MapData → Option MapData
unfolding drop_link
drop_tps id [] m = some m
drop_tps id ((link_id, c) ∷ cs) m =
    (if touches id c then drop_link link_id m else some m) >>= λ m'. drop_tps id cs m'

-- How a call ends: with the connections and the state that it leaves, also when it throws.
pub data Ended : Type 0 where
  completed : Obj DevPair → State → Ended
  type_error : Obj DevPair → State → Ended

-- The last `delete` of `remove_from_map`
unfoldable pub drop_own_tps : String → Obj DevPair → State → Ended
drop_own_tps id cs s = elim (get "tps" s.page.map_data) [
  | none ↦ type_error cs s
  | some tps ↦ completed cs (change_map (drop_entry "tps" id) s)
]

-- From the loop on. It throws only at the first connection of the device, with nothing changed yet.
unfoldable pub cut_links : String → Obj DevPair → State → Ended
cut_links id cs s = elim (drop_tps id cs s.page.map_data) [
  | none ↦ type_error cs s
  | some m ↦
      drop_own_tps id (other_connections id cs)
        (send (some "tps") none none (with_page (with_map m s.page) s))
]

-- `remove_from_map`, with `connections`
unfoldable pub remove_from_map : String → Obj DevPair → State → Ended
remove_from_map id cs s = elim (get "loc" s.page.map_data) [
  | none ↦ type_error cs s
  | some locs ↦
      cut_links id cs (send (some "loc") (some id) none (change_map (drop_entry "loc" id) s))
]

-- `save_map(undefined, undefined, fk)`, of the button that copies the map to a file
unfoldable pub save_to : String → State → State
unfolding send
save_to fk s = send none none (some fk) s

-- All requests are served and answered.
abbrev pub answer_all : List Sent → MapPage → MapPage
answer_all [] p = p
answer_all (q ∷ qs) p = answer_all qs (answered q.fk p)

unfoldable pub all_answered : State → State
unfolding after
all_answered s = record {
  page = answer_all (s.served ++ s.pending) s.page;
  pending = [];
  served = [];
  files = after s.pending s.files;
}
