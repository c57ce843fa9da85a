-- ===== src/Links.antt =====
-- The links between interfaces, `data["l2_links"]`, and the lists of them that the interfaces hold in
-- `data["devs"]`: what `wipe_l2_link` and `wipe_l2_link_by_dev_int` of map-broker/www/mapper.js do to
-- both.
pub mod Wipe
pub mod ByInterface
mod Examples
use mapper.Prelude.{
  ℕ, String, Option, none, some, Bool, true, false, ◌&&◌, ◌||◌, List, [], ◌∷◌, str_eq,
  if◌then◌else◌,
}
use mapper.Prelude.Obj.{Obj, get, set, delete}
use mapper.Turnpoints.{Endpoint}

-- `data["l2_links"][link_id]`, with the ends under 0 and 1.
pub record L2Link : Type 0 where
  pub first : Endpoint
  pub second : Endpoint
  pub status : ℕ

-- The field of an interface that these functions read and write.
pub record Interface : Type 0 where
  pub l2_links : Option (List String)

-- `data["devs"]`, each device with its `interfaces`.
abbrev pub Devs : Type 0
Devs = Obj (Obj Interface)

pub record Data : Type 0 where
  pub l2_links : Obj L2Link
  pub devs : Devs

-- `new_links`
unfoldable pub without : String → List String → List String
without id [] = []
without id (l ∷ ls) = let rest = without id ls in if str_eq l id then rest else l ∷ rest

abbrev pub or_none : Option (List String) → List String
or_none none = []
or_none (some ls) = ls

-- An empty list is deleted.
abbrev pub as_field : List String → Option (List String)
as_field [] = none
as_field (l ∷ ls) = some (l ∷ ls)

-- The body of the loop over the two ends: a device or an interface that is not there throws, which
-- is ignored.
unfoldable pub wipe_end : String → Endpoint → Devs → Devs
unfolding without
wipe_end id e devs = elim (get e.dev devs) [
  | none ↦ devs
  | some ints ↦ elim (get e.int ints) [
    | none ↦ devs
    | some i ↦
        set e.dev
          (set e.int (record i { l2_links = as_field (without id (or_none i.l2_links)) }) ints) devs
  ]
]

-- A link that is not there throws at once, which is ignored.
unfoldable pub wipe_l2_link : String → Data → Data
unfolding wipe_end
wipe_l2_link id s = elim (get id s.l2_links) [
  | none ↦ s
  | some l ↦ record {
    l2_links = delete id s.l2_links;
    devs = wipe_end id l.second (wipe_end id l.first s.devs);
  }
]

-- Is the interface one of the ends?
abbrev pub same_end : Endpoint → Endpoint → Bool
same_end e f = str_eq e.dev f.dev && str_eq e.int f.int

abbrev pub ends_at : Endpoint → L2Link → Bool
ends_at e l = same_end l.first e || same_end l.second e

-- One turn of the loop. A key that was deleted in the meantime is not visited.
unfoldable pub wipe_at : Endpoint → String → Data → Data
unfolding wipe_l2_link
wipe_at e id s = elim (get id s.l2_links) [
  | none ↦ s
  | some l ↦ if ends_at e l then wipe_l2_link id s else s
]

unfoldable pub wipe_keys : Endpoint → Obj L2Link → Data → Data
unfolding wipe_at
wipe_keys e [] s = s
wipe_keys e ((id, l) ∷ m) s = wipe_keys e m (wipe_at e id s)

-- The loop visits the keys that there are when it starts.
unfoldable pub wipe_l2_link_by_dev_int : Endpoint → Data → Data
unfolding wipe_keys
wipe_l2_link_by_dev_int e s = wipe_keys e s.l2_links s
