-- ===== src/Saving/Requests.antt =====
-- What the server holds after a request of `save_map`, when it held the map but for what is saved.
use mapper.Prelude.{
  ◌≡◌, refl, ◌≢◌, String, Option, none, some, Bool, true, ◌&&◌, [], str_eq, eq_iff, arith,
  Option-cases, Bool-cases, inl, inr,
}
use mapper.Prelude.Obj.{get, set, get-set_self, get-set_ne}
use mapper.Saving.{
  MapData, Entries, MapPage, SaveRequest, Files, save_map_key_id, del_map_key_id, save_map_key,
  del_map_key, save_map_all, else_use, or_whole, part_request, key_request, id_request, save_query,
  new_file, read_file, put_entry, drop_entry, whole_map, handle,
}
use mapper.Saving.Entries.{
  in_part, entry, Agree, AgreeOffKey, AgreeOff, entry-set, entry-put_entry, entry-drop_entry,
}

-- The same entries, but for what `save_map(key, id)` saves
abbrev pub Off : Option String → Option String → MapData → MapData → Type 0
Off none id m n = Unit
Off (some k) none m n = AgreeOffKey k m n
Off (some k) (some i) m n = AgreeOff k i m n

-- The file that a request is for
abbrev pub file_of : SaveRequest → String
file_of (save_map_key_id file key id v) = file
file_of (del_map_key_id file key id) = file
file_of (save_map_key file key o) = file
file_of (del_map_key file key) = file
file_of (save_map_all file md) = file

-- What becomes of the file
abbrev pub change : SaveRequest → MapData → MapData
change (save_map_key_id file key id v) m = put_entry key id v m
change (del_map_key_id file key id) m = drop_entry key id m
change (save_map_key file key o) m = set key o m
change (del_map_key file key) m = set key [] m
change (save_map_all file md) m = whole_map md new_file

handle-change :
    (r : SaveRequest) (fs : Files)
    → handle r fs ≡ set (file_of r) (change r (read_file (file_of r) fs)) fs
unfolding handle
handle-change (save_map_key_id file key id v) fs = refl
handle-change (del_map_key_id file key id) fs = refl
handle-change (save_map_key file key o) fs = refl
handle-change (del_map_key file key) fs = refl
handle-change (save_map_all file md) fs = refl

pub read_file-handle :
    (r : SaveRequest) (fs : Files)
    → read_file (file_of r) (handle r fs) ≡ change r (read_file (file_of r) fs)
unfolding read_file
read_file-handle r fs =
    rw (handle-change r fs, get-set_self (file_of r) (change r (read_file (file_of r) fs)) fs)

pub read_file-handle_ne :
    (r : SaveRequest) (fs : Files) (g : String)
    → file_of r ≢ g
    → read_file g (handle r fs) ≡ read_file g fs
unfolding read_file
read_file-handle_ne r fs g h =
    rw (handle-change r fs, get-set_ne g (file_of r) (change r (read_file (file_of r) fs)) fs h)

in_part-else_use :
    (id : String) (o : Option Entries) → in_part id (some (else_use [] o)) ≡ in_part id o
unfolding get
in_part-else_use id none = refl
in_part-else_use id (some o) = refl

pub whole_map-Agree : (md : MapData) → Agree (whole_map md new_file) md
unfolding whole_map get
whole_map-Agree md key id h = ground (
  arith,
  eq_iff "tps" key,
  eq_iff "loc" key,
  eq_iff "colors" key,
  eq_iff "options" key,
  in_part-else_use id (get key md),
)

-- One request brings the server's copy up to date.
module _ (file : String) (md m : MapData) where
  id_request-Agree :
      (k i : String) → AgreeOff k i m md → Agree (change (id_request file k i (entry k i md)) m) md
  id_request-Agree k i off key id h = elim (Option-cases (entry k i md)) [
    | inl e ↦
        rw e (
          ground (arith, entry-drop_entry k i key id m, off key id h, eq_iff k key, eq_iff i id, e))
    | inr (v, e) ↦
        rw e (
          ground
            (arith, entry-put_entry k i key id v m, off key id h, eq_iff k key, eq_iff i id, e))
  ]

  key_request-Agree :
      (k : String) → AgreeOffKey k m md → Agree (change (key_request file k (get k md)) m) md
  unfolding get
  key_request-Agree k off key id h = elim (Option-cases (get k md)) [
    | inl e ↦ rw e (ground (arith, entry-set k key id [] m, off key id h, eq_iff k key, e))
    | inr (o, e) ↦ rw e (ground (arith, entry-set k key id o m, off key id h, eq_iff k key, e))
  ]

  abbrev UpToDate : SaveRequest → Type 0
  UpToDate r = (file_of r ≡ file) × Agree (change r m) md

  part_request-UpToDate :
      (key id : Option String) (r : SaveRequest)
      → part_request file md key id ≡ some r
      → Off key id m md
      → UpToDate r
  part_request-UpToDate none id r e off =
      let q : save_map_all file md ≡ r = ground (arith, e) in rw (← q) (refl, whole_map-Agree md)
  part_request-UpToDate (some k) none r e off =
      let q : key_request file k (get k md) ≡ r = ground (arith, e) in
      rw (← q) (file_of_key k, key_request-Agree k off)
    where
      file_of_key : (k : String) → file_of (key_request file k (get k md)) ≡ file
      file_of_key k = ground arith
  part_request-UpToDate (some k) (some i) r e off = elim (Option-cases (get k md)) [
    | inl p ↦ absurd (ground (arith, p, e))
    | inr (o, p) ↦
        let same : get i o ≡ entry k i md = rw p refl in
        let q : id_request file k i (entry k i md) ≡ r = ground (arith, p, e) in
        rw (← q) (file_of_id k i (entry k i md), id_request-Agree k i off)
  ]
    where
      file_of_id : (k i : String) (v : Option String) → file_of (id_request file k i v) ≡ file
      file_of_id k i none = refl
      file_of_id k i (some v) = refl

  pub or_whole-Whole :
      (part : Option SaveRequest) (r : SaveRequest)
      → or_whole true file md part ≡ some r
      → UpToDate r
  or_whole-Whole part r e = elim (Option-cases part) [
    | inl p ↦ absurd (ground (arith, p, e))
    | inr (r', p) ↦
        let q : save_map_all file md ≡ r = ground (arith, p, e) in
        rw (← q) (refl, whole_map-Agree md)
  ]

  pub or_whole-UpToDate :
      (whole : Bool) (key id : Option String) (r : SaveRequest)
      → or_whole whole file md (part_request file md key id) ≡ some r
      → Off key id m md
      → UpToDate r
  or_whole-UpToDate whole key id r e off = elim (Option-cases (part_request file md key id)) [
    | inl p ↦ absurd (ground (arith, p, e))
    | inr (r', p) ↦ elim (Bool-cases whole) [
      | inl w ↦
          let q : save_map_all file md ≡ r = ground (arith, p, e, w) in
          rw (← q) (refl, whole_map-Agree md)
      | inr w ↦
          let q : r' ≡ r = ground (arith, p, e, w) in
          rw (← q) (part_request-UpToDate key id r' p off)
    ]
  ]

-- When the server's copy of a file has the entries of the page's map, but for what `save_map(key, id)`
-- is called to save, the query that it makes is for this file, brings the copy up to date, and leaves
-- all other files alone.
pub handle-save_query :
    (key id fk : Option String) (p : MapPage) (fs : Files) (r : SaveRequest)
    → save_query key id fk none p ≡ some r
    → Off key id (read_file (else_use p.file_key fk) fs) p.map_data
    → Agree (read_file (else_use p.file_key fk) (handle r fs)) p.map_data
      × ((g : String) → else_use p.file_key fk ≢ g → read_file g (handle r fs) ≡ read_file g fs)
unfolding save_query
handle-save_query key id fk p fs r e off =
    let f : String = else_use p.file_key fk in
    let (to_file, agree) =
      or_whole-UpToDate f p.map_data (read_file f fs) (p.default_map && str_eq f "") key id r e
        off in
    (
      rw (← to_file, read_file-handle r fs) (rw to_file agree),
      λ g ne. read_file-handle_ne r fs g (rw to_file ne),
    )

-- A default map is saved as a whole, whatever the server has.
pub handle-save_query_default :
    (key id : Option String) (p : MapPage) (fs : Files) (r : SaveRequest)
    → save_query key id none none p ≡ some r
    → p.default_map ≡ true
    → p.file_key ≡ ""
    → Agree (read_file p.file_key (handle r fs)) p.map_data
unfolding save_query
handle-save_query_default key id p fs r e d f =
    let whole : (p.default_map && str_eq p.file_key "") ≡ true =
      ground (arith, d, f, eq_iff p.file_key "") in
    let (to_file, agree) =
      or_whole-Whole p.file_key p.map_data (read_file p.file_key fs)
        (part_request p.file_key p.map_data key id) r (rw whole at e) in
    rw (← to_file, read_file-handle r fs) (rw to_file agree)
