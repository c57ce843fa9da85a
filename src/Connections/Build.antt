-- ===== src/Connections/Build.antt =====
-- `build_connections` of map-broker/www/mapper.js on the site of L2 links: which links are connections
-- between devices on the page, and their legs.
use mapper.Prelude.{ℕ, String, Option, none, some, Bool, List, [], ◌∷◌, str_eq, if◌then◌else◌}
use mapper.Prelude.IntMap.{IntMap}
use mapper.Prelude.Obj.{Obj, get, set, is_defined}
use mapper.Turnpoints.{Endpoint, Turnpoint, Shape, Leg}
use mapper.Links.{L2Link, Data, Devs}
use mapper.Links.Wipe.{links_of}
use mapper.Connections.{build_tps}

-- `connections[link_id]`; `errors` are the turnpoints that are reported as invalid.
pub record Connection : Type 0 where
  pub from : Endpoint
  pub to : Endpoint
  pub status : ℕ
  pub legs : List Leg
  pub errors : List ℕ

-- What the function reads: the data, the turnpoints, and what is on the page.
pub record Page : Type 0 where
  pub net_data : Data
  pub tps : Obj (IntMap Turnpoint)
  -- `interfaces_sorted` of a device
  pub sorted : String → List String
  -- whether the device has an element on the page
  pub shown : String → Bool
  -- whether the interface has `_draw` 1, in `temp_data`
  pub drawn : Endpoint → Bool

-- An entry of `int_links`
pub record IntLink : Type 0 where
  pub link_id : String
  pub nei : Endpoint
  pub status : ℕ

abbrev pub other_end : Endpoint → L2Link → Endpoint
other_end e l = if str_eq l.first.dev e.dev then l.second else l.first

-- The tests of a link that the interface lists
unfoldable pub int_link : Page → Obj Connection → Endpoint → String → Option IntLink
int_link p cs e id = if is_defined (get id cs) then none else elim (get id p.net_data.l2_links) [
  | none ↦ none
  | some l ↦
      if str_eq l.first.dev l.second.dev
      then none
      else some (record { link_id = id; nei = other_end e l; status = l.status })
]

abbrev push_link : Option IntLink → List IntLink → List IntLink
push_link none ks = ks
push_link (some k) ks = k ∷ ks

-- `int_links`, from the connections that there were before
unfoldable pub int_links : Page → Obj Connection → Endpoint → List String → List IntLink
unfolding int_link
int_links p cs e [] = []
int_links p cs e (id ∷ ids) = push_link (int_link p cs e id) (int_links p cs e ids)

-- The legs, and the errors, of a link with or without turnpoints
unfoldable pub legs_built : Option (IntMap Turnpoint) → Endpoint → Endpoint → List Leg × List ℕ
legs_built none e nei = (Shape.devdev e nei ∷ [], [])
legs_built (some m) e nei = let b = build_tps e.dev nei.dev m in (b.legs, b.errors)

unfoldable pub connect : Page → Endpoint → IntLink → Connection
unfolding legs_built
connect p e k =
    let (legs, errors) = legs_built (get k.link_id p.tps) e k.nei in
    record { from = e; to = k.nei; status = k.status; legs = legs; errors = errors }

-- The loop over `int_links`
unfoldable pub connect_all : Page → Endpoint → List IntLink → Obj Connection → Obj Connection
unfolding connect
connect_all p e [] cs = cs
connect_all p e (k ∷ ks) cs =
    connect_all p e ks (if p.shown k.nei.dev then set k.link_id (connect p e k) cs else cs)

unfoldable pub build_int : Page → Endpoint → Obj Connection → Obj Connection
unfolding connect_all int_links
build_int p e cs =
    if p.drawn e then connect_all p e (int_links p cs e (links_of e p.net_data.devs)) cs else cs

unfoldable pub build_ints : Page → String → List String → Obj Connection → Obj Connection
unfolding build_int
build_ints p dev [] cs = cs
build_ints p dev (int ∷ ints) cs =
    build_ints p dev ints (build_int p (record { dev = dev; int = int }) cs)

unfoldable pub build_devs : Page → Devs → Obj Connection → Obj Connection
unfolding build_ints
build_devs p [] cs = cs
build_devs p ((dev, ints) ∷ ds) cs =
    build_devs p ds (if p.shown dev then build_ints p dev (p.sorted dev) cs else cs)

-- The connections that there are already stay as they are.
unfoldable pub build_connections : Page → Obj Connection → Obj Connection
unfolding build_devs
build_connections p cs = build_devs p p.net_data.devs cs
