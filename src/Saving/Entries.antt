-- ===== src/Saving/Entries.antt =====
-- Maps by their entries: what each action of the server does to one.
use mapper.Prelude.{
  ◌≡◌, ◌≢◌, String, Option, none, some, Bool, true, false, ◌&&◌, ◌||◌, str_eq, eq_iff, arith,
  if◌then◌else◌, Option-cases, inl, inr,
}
use mapper.Prelude.Obj.{get, set, delete, get-set, get-delete}
use mapper.Saving.{Entries, MapData, entries_of, put_entry, drop_entry}

abbrev pub in_part : String → Option Entries → Option String
in_part id none = none
in_part id (some o) = get id o

-- `md[key][id]`, where nothing is there for what is not there
abbrev pub entry : String → String → MapData → Option String
entry key id m = in_part id (get key m)

abbrev pub is_map_key : String → Bool
is_map_key k = str_eq "tps" k || str_eq "loc" k || str_eq "colors" k || str_eq "options" k

-- Two maps have the same entries.
abbrev pub Agree : MapData → MapData → Type 0
Agree m n = (key id : String) → is_map_key key ≡ true → entry key id m ≡ entry key id n

-- The same entries, but for those of one key
abbrev pub AgreeOffKey : String → MapData → MapData → Type 0
AgreeOffKey k m n =
    (key id : String) → is_map_key key ≡ true → key ≢ k → entry key id m ≡ entry key id n

-- The same entries, but for one
abbrev pub AgreeOff : String → String → MapData → MapData → Type 0
AgreeOff k i m n =
    (key id : String)
    → is_map_key key ≡ true
    → (str_eq k key && str_eq i id) ≡ false
    → entry key id m ≡ entry key id n

pub entry-set :
    (k j id : String) (o : Entries) (m : MapData)
    → entry j id (set k o m) ≡ (if str_eq k j then get id o else entry j id m)
entry-set k j id o m = ground (arith, get-set j k o m)

pub entry-put_entry :
    (k i key id v : String) (m : MapData)
    → entry key id (put_entry k i v m)
      ≡ (if str_eq k key && str_eq i id then some v else entry key id m)
unfolding put_entry get
entry-put_entry k i key id v m = ground (
  arith,
  entry-set k key id (set i v (entries_of (get k m))) m,
  get-set id i v (entries_of (get k m)),
  eq_iff k key,
)

pub entry-drop_entry :
    (k i key id : String) (m : MapData)
    → entry key id (drop_entry k i m)
      ≡ (if str_eq k key && str_eq i id then none else entry key id m)
unfolding drop_entry
entry-drop_entry k i key id m = elim (Option-cases (get k m)) [
  | inl e ↦ rw e (ground (arith, e, eq_iff k key))
  | inr (o, e) ↦
      rw e (ground (arith, e, entry-set k key id (delete i o) m, get-delete id i o, eq_iff k key))
]
