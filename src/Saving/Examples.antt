-- ===== src/Saving/Examples.antt =====
-- Two devices with a link, moved, copied and taken off the map.
use mapper.Prelude.{
  ◌≡◌, refl, ◌≢◌, String, none, some, Bool, true, false, ◌&&◌, [], ◌∷◌, ◌⊎◌, str_eq, inl, arith,
  eq_iff,
}
use mapper.Prelude.Obj.{Obj, get, set, delete}
use mapper.Saving.{
  MapData, Entries, MapPage, SaveRequest, Files, Sent, save_map_key_id, save_map_key,
  del_map_key_id, save_query, save_map, read_file, put_entry, drop_entry, whole_map, handle,
}
use mapper.Saving.Entries.{entry, Agree, AgreeOff}
use mapper.Saving.Requests.{Off, handle-save_query}
use mapper.Saving.Steps.{
  State, edit, serve, Reach, here, next, InSync, Untouched, send, with_map, after,
}
use mapper.Saving.Sync.{saved_lem}
use mapper.Saving.Operations.{
  DevPair, type_error, cut_links, drop_tps, drop_link, put_device, store_tps, remove_from_map,
  save_to, all_answered,
}
use mapper.Saving.Lost.{ShowsDefault, put_device-save_to_lost}

abbrev locs : Entries
locs = ("a", "at 1") ∷ ("b", "at 2") ∷ []

abbrev turns : Entries
turns = ("a-b", "turn") ∷ ("b-c", "other turn") ∷ []

abbrev two : MapData
two = ("tps", turns) ∷ ("loc", locs) ∷ ("colors", []) ∷ ("options", []) ∷ []

abbrev page_of : String → Bool → MapPage
page_of file default = record {
  map_data = two;
  file_key = file;
  default_map = default;
  enable_save = true;
  unsaved = false;
}

abbrev shown : State
shown = record { page = page_of "f" false; pending = []; served = []; files = ("f", two) ∷ [] }

abbrev default_shown : State
default_shown = record { page = page_of "" true; pending = []; served = []; files = [] }

abbrev cables : Obj DevPair
cables =
    ("a-b", record { from_dev = "a"; to_dev = "b" })
    ∷ ("b-c", record { from_dev = "b"; to_dev = "c" })
    ∷ []

moved_on_server :
    read_file "f" (all_answered (put_device "a" "at 3" shown)).files
    ≡ ("tps", turns)
      ∷ ("loc", ("a", "at 3") ∷ ("b", "at 2") ∷ [])
      ∷ ("colors", [])
      ∷ ("options", [])
      ∷ []
unfolding all_answered put_device put_entry send save_map save_query after handle read_file get set
moved_on_server = refl

last_turnpoint_removed :
    (store_tps "a-b" none shown).pending
    ≡ record { request = del_map_key_id "f" "tps" "a-b"; fk = none } ∷ []
unfolding store_tps drop_entry send save_map save_query get set delete
last_turnpoint_removed = refl

default_saved_whole :
    (all_answered (put_device "a" "at 3" default_shown)).files
    ≡ (
      "",
      ("tps", turns)
          ∷ ("loc", ("a", "at 3") ∷ ("b", "at 2") ∷ [])
          ∷ ("colors", [])
          ∷ ("options", [])
          ∷ [],
    )
      ∷ []
unfolding all_answered put_device put_entry send save_map save_query after handle read_file
    whole_map get set
default_saved_whole = refl

-- The server's copy before the turnpoints are saved
abbrev earlier : Files
earlier = ("f", ("tps", []) ∷ ("loc", locs) ∷ ("colors", []) ∷ ("options", []) ∷ []) ∷ []

abbrev save_turns : SaveRequest
save_turns = save_map_key "f" "tps" turns

earlier-Off : Off (some "tps") none (read_file "f" earlier) two
unfolding read_file get
earlier-Off key id h ne = ground (arith, eq_iff "tps" key)

save_turns_query : save_query (some "tps") none none none (page_of "f" false) ≡ some save_turns
unfolding save_query get
save_turns_query = refl

handle-save_query_example :
    Agree (read_file "f" (handle save_turns earlier)) two
    × ((g : String) → "f" ≢ g → read_file g (handle save_turns earlier) ≡ read_file g earlier)
handle-save_query_example =
    handle-save_query (some "tps") none none (page_of "f" false) earlier save_turns save_turns_query
      earlier-Off

-- A device is moved, and the server takes the request.
abbrev move_a : SaveRequest
move_a = save_map_key_id "f" "loc" "a" "at 3"

abbrev sent_a : Sent
sent_a = record { request = move_a; fk = none }

abbrev moved_map : MapData
moved_map =
    ("tps", turns)
    ∷ ("loc", ("a", "at 3") ∷ ("b", "at 2") ∷ [])
    ∷ ("colors", [])
    ∷ ("options", [])
    ∷ []

abbrev moved : State
moved = record {
  page = with_map moved_map (page_of "f" false);
  pending = [];
  served = sent_a ∷ [];
  files = handle move_a (("f", two) ∷ []);
}

moved-Off : AgreeOff "loc" "a" two moved_map
unfolding get
moved-Off key id h off = ground (arith, eq_iff "loc" key, eq_iff "a" id, off)

moved-Reach : Reach shown moved
unfolding save_query send save_map get
moved-Reach =
    next (next here (edit shown moved_map (some "loc") (some "a") move_a moved-Off refl)) (
      serve
        (record {
          page = with_map moved_map (page_of "f" false);
          pending = sent_a ∷ [];
          served = [];
          files = ("f", two) ∷ [];
        })
        sent_a [] refl)

shown-InSync : InSync shown
unfolding read_file after get
shown-InSync = (refl, inl (λ key id h. refl))

saved_lem_example :
    Agree (read_file "f" (handle move_a (("f", two) ∷ []))) moved_map ⊎ Untouched moved
unfolding moved-Reach
saved_lem_example = saved_lem moved-Reach ((tt, tt), tt) shown-InSync refl

default_shown-ShowsDefault : ShowsDefault default_shown
default_shown-ShowsDefault = record {
  default = refl;
  file = refl;
  enabled = refl;
  sent = refl;
  open_answers = refl;
}

abbrev other : String
other = "g"

other_file : other ≢ ""
other_file h = ground (arith, h, eq_iff other "")

-- The page shows "b" on the map, but the server's copy has no place for it.
put_device-save_to_lost_example :
    let t = all_answered (put_device "a" "at 3" (all_answered (save_to other default_shown))) in
    (t.page.unsaved ≡ false)
    × (t.page.default_map ≡ false)
    × (t.page.map_data ≡ put_entry "loc" "a" "at 3" two)
    × ((key i : String)
        → (str_eq "loc" key && str_eq "a" i) ≡ false
        → entry key i (read_file t.page.file_key t.files) ≡ entry key i (read_file "" []))
put_device-save_to_lost_example =
    put_device-save_to_lost default_shown other "a" "at 3" default_shown-ShowsDefault other_file

abbrev no_tps : State
no_tps = record shown { page = record (page_of "f" false) { map_data = ("loc", locs) ∷ [] } }

-- Without turnpoints in the map the function throws when the location is gone.
removal_throws :
    remove_from_map "a" cables no_tps
    ≡ type_error cables (record no_tps {
      page = record (page_of "f" false) { map_data = ("loc", ("b", "at 2") ∷ []) ∷ [] };
      pending = record { request = del_map_key_id "f" "loc" "a"; fk = none } ∷ [];
    })
unfolding remove_from_map cut_links drop_tps drop_link drop_entry send save_map save_query get set
    delete
removal_throws = refl
