-- ===== src/Saving/Lost.antt =====
-- A default map that is copied to another file: what is saved of it later.
use mapper.Prelude.{◌≡◌, refl, ◌≢◌, String, some, true, false, ◌&&◌, [], str_eq, eq_iff, arith}
use mapper.Prelude.Obj.{get, set, Obj, get-set_ne, get-set_self}
use mapper.Saving.{
  Files, entries_of, MapData, save_query, save_map, read_file, handle, put_entry, whole_map,
  new_file,
}
use mapper.Saving.Entries.{entry, entry-put_entry}
use mapper.Saving.Steps.{State, send, after}
use mapper.Saving.Operations.{put_device, save_to, all_answered}

-- Where the page shows a default map, with no request on its way
pub record ShowsDefault (s : State) : Type 0 where
  pub default : s.page.default_map ≡ true
  pub file : s.page.file_key ≡ ""
  pub enabled : s.page.enable_save ≡ true
  pub sent : s.pending ≡ []
  pub open_answers : s.served ≡ []

get-put_entry : (k i v : String) (m : MapData) → entry k i (put_entry k i v m) ≡ some v
get-put_entry k i v m = ground (arith, entry-put_entry k i k i v m, eq_iff k k, eq_iff i i)

-- The page after the copy was answered
copied_page :
    (s : State) (fk : String)
    → ShowsDefault s
    → fk ≢ ""
    → all_answered (save_to fk s) ≡ record s {
      page = record s.page { default_map = false };
      files = set fk (whole_map s.page.map_data new_file) s.files;
    }
unfolding all_answered save_to send save_map save_query after handle
copied_page s fk h ne =
    ground (arith, h.default, h.file, h.enabled, h.sent, h.open_answers, eq_iff fk "")

put_key :
    (id v : String) (m : MapData)
    → (o : Obj String) × (get "loc" (put_entry "loc" id v m) ≡ some o) × (get id o ≡ some v)
unfolding put_entry
put_key id v m =
    let o = set id v (entries_of (get "loc" m)) in
    (o, get-set_self "loc" o m, get-set_self id v (entries_of (get "loc" m)))

placed_page :
    (s : State) (id v : String)
    → s.page.default_map ≡ false
    → s.page.enable_save ≡ true
    → s.pending ≡ []
    → s.served ≡ []
    → all_answered (put_device id v s) ≡ record s {
      page = record s.page { map_data = put_entry "loc" id v s.page.map_data; unsaved = false };
      files =
          set s.page.file_key (put_entry "loc" id v (read_file s.page.file_key s.files)) s.files;
    }
unfolding all_answered put_device send save_map save_query after handle
placed_page s id v d on e f =
    let (o, p, q) = put_key id v s.page.map_data in ground (arith, d, on, e, f, p, q)

read_file-set_self : (f : String) (m : MapData) (fs : Files) → read_file f (set f m fs) ≡ m
unfolding read_file
read_file-set_self f m fs = rw (get-set_self f m fs) refl

read_file-set_ne :
    (f g : String) (m : MapData) (fs : Files) → f ≢ g → read_file g (set f m fs) ≡ read_file g fs
unfolding read_file
read_file-set_ne f g m fs ne = rw (get-set_ne g f m fs ne) refl

-- After a default map is copied to another file, and a device is then placed, with all requests
-- answered, the page counts as saved, but of all other entries the server's own copy of the page's
-- file still has what it had before the copy, not what the page shows.
pub put_device-save_to_lost :
    (s : State) (fk id v : String)
    → ShowsDefault s
    → fk ≢ ""
    → let t = all_answered (put_device id v (all_answered (save_to fk s))) in
      (t.page.unsaved ≡ false)
      × (t.page.default_map ≡ false)
      × (t.page.map_data ≡ put_entry "loc" id v s.page.map_data)
      × ((key i : String)
          → (str_eq "loc" key && str_eq id i) ≡ false
          → entry key i (read_file t.page.file_key t.files) ≡ entry key i (read_file "" s.files))
put_device-save_to_lost s fk id v h ne =
    let fs = set fk (whole_map s.page.map_data new_file) s.files in
    let u = record s { page = record s.page { default_map = false }; files = fs } in
    let m = put_entry "loc" id v (read_file s.page.file_key fs) in
    rw (copied_page s fk h ne) (
      rw (placed_page u id v refl h.enabled h.sent h.open_answers) (
        refl,
        refl,
        refl,
        λ key i off.
            rw
              (
                read_file-set_self s.page.file_key m fs,
                entry-put_entry "loc" id key i v (read_file s.page.file_key fs),
                off,
                h.file,
                read_file-set_ne fk "" (whole_map s.page.map_data new_file) s.files ne,
              )
              refl,
      ))
