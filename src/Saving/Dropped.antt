-- ===== src/Saving/Dropped.antt =====
-- What is left of a map when entries are dropped from it.
use mapper.Prelude.{
  ◌≢◌, ◌≡◌, refl, String, none, some, Bool, false, ◌&&◌, ◌||◌, [], ◌∷◌, str_eq, eq_iff, arith,
  if◌then◌else◌, Bool-cases, Option-cases, inl, inr,
}
use mapper.Prelude.Obj.{Obj, get, set, delete, get-set_self, get-set_ne}
use mapper.Saving.{MapData, Entries, drop_entry}
use mapper.Saving.Entries.{entry, entry-drop_entry}
use mapper.Saving.Operations.{drop_link, DevPair, touches, drop_tps}

-- Is the id of a connection of the device?
abbrev pub is_cut : String → String → Obj DevPair → Bool
is_cut id link_id [] = false
is_cut id link_id ((l, c) ∷ cs) = (touches id c && str_eq l link_id) || is_cut id link_id cs

-- The map without the turnpoints of the connections of the device
unfoldable pub without_tps : String → Obj DevPair → MapData → MapData
without_tps id [] m = m
without_tps id ((link_id, c) ∷ cs) m =
    without_tps id cs (if touches id c then drop_entry "tps" link_id m else m)

pub entry-without_tps :
    (id key link_id : String) (cs : Obj DevPair) (m : MapData)
    → entry key link_id (without_tps id cs m)
      ≡ (if str_eq "tps" key && is_cut id link_id cs then none else entry key link_id m)
unfolding without_tps
entry-without_tps id key link_id [] m = ground arith
entry-without_tps id key link_id ((l, c) ∷ cs) m = elim (Bool-cases (touches id c)) [
  | inl p ↦ rw p (
      ground (
        arith,
        entry-without_tps id key link_id cs (drop_entry "tps" l m),
        entry-drop_entry "tps" l key link_id m,
      ))
  | inr p ↦ rw p (entry-without_tps id key link_id cs m)
]

pub drop_entry-key :
    (k id : String) (m : MapData) (o : Entries)
    → get k m ≡ some o
    → (o' : Entries) × (get k (drop_entry k id m) ≡ some o')
unfolding drop_entry
drop_entry-key k id m o e = rw e (delete id o, get-set_self k (delete id o) m)

pub get-drop_entry_ne :
    (k j id : String) (m : MapData) → k ≢ j → get j (drop_entry k id m) ≡ get j m
unfolding drop_entry
get-drop_entry_ne k j id m ne = elim (Option-cases (get k m)) [
  | inl p ↦ rw p refl
  | inr (o, p) ↦ rw p (get-set_ne j k (delete id o) m ne)
]

delete-none : (k : String) (o : Obj String) → get k o ≡ none → delete k o ≡ o
unfolding get delete
delete-none k [] e = refl
delete-none k ((j, v) ∷ o) e = ground (arith, delete-none k o)

set-same : (k : String) (o : Entries) (m : MapData) → get k m ≡ some o → set k o m ≡ m
unfolding get set
set-same k o [] e = absurd (cc)
set-same k o ((j, p) ∷ m) e = ground (arith, eq_iff j k, set-same k o m)

-- Nothing is dropped where nothing is.
pub drop_entry-none : (k id : String) (m : MapData) → entry k id m ≡ none → drop_entry k id m ≡ m
unfolding drop_entry
drop_entry-none k id m e = elim (Option-cases (get k m)) [
  | inl p ↦ rw p refl
  | inr (o, p) ↦
      let gone : get id o ≡ none = rw p at e in rw (p, delete-none id o gone) (set-same k o m p)
]

pub drop_tps-some :
    (id : String) (cs : Obj DevPair) (m : MapData) (tps : Entries)
    → get "tps" m ≡ some tps
    → (drop_tps id cs m ≡ some (without_tps id cs m))
      × ((tps' : Entries) × (get "tps" (without_tps id cs m) ≡ some tps'))
unfolding drop_tps without_tps drop_link drop_entry
drop_tps-some id [] m tps e = (refl, (tps, e))
drop_tps-some id ((l, c) ∷ cs) m tps e = elim (Bool-cases (touches id c)) [
  | inl p ↦
      let there = get-set_self "tps" (delete l tps) m in
      rw (p, e, drop_link) (drop_tps-some id cs (set "tps" (delete l tps) m) (delete l tps) there)
  | inr p ↦ rw p (drop_tps-some id cs m tps e)
]
