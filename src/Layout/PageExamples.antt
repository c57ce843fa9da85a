-- ===== src/Layout/PageExamples.antt =====
-- Two switches on the page with a link, and its connection.
use mapper.Prelude.{
  String, ◌≡◌, refl, sym, ◌≢◌, some, true, [], ◌∷◌, Has, inl, inr, arith, eq_iff, str_eq,
  Bool-cases,
}
use mapper.Prelude.Obj.{Obj, get, set}
use mapper.Turnpoints.{Endpoint, Shape}
use mapper.Links.{L2Link, Interface, Data}
use mapper.Links.Wipe.{links_in, WellFormed}
use mapper.Connections.Build.{
  Connection, Page, legs_built, int_link, int_links, connect, connect_all, build_int, build_ints,
  build_devs, build_connections,
}
use mapper.Connections.Sound.{Sound, build_connections-Sound}
use mapper.Layout.Requests.{neighbour}
use mapper.Layout.Ends.{neighbour_lem}
use mapper.Connections.Kept.{Keeps}
use mapper.Connections.Found.{build_connections_complete}

abbrev port : String → Endpoint
port dev = record { dev = dev; int = "Gi1" }

abbrev ports : Obj Interface
ports = ("Gi1", record { l2_links = some ("l" ∷ []) }) ∷ []

abbrev cable : L2Link
cable = record { first = port "a"; second = port "b"; status = 1 }

abbrev pair : Data
pair = record { l2_links = ("l", cable) ∷ []; devs = ("a", ports) ∷ ("b", ports) ∷ [] }

abbrev page : Page
page = record {
  net_data = pair;
  tps = [];
  sorted = λ dev. "Gi1" ∷ [];
  shown = λ dev. true;
  drawn = λ e. true;
}

abbrev joined : Connection
joined = record {
  from = port "a";
  to = port "b";
  status = 1;
  legs = Shape.devdev (port "a") (port "b") ∷ [];
  errors = [];
}

connected : build_connections page [] ≡ ("l", joined) ∷ []
unfolding build_connections build_devs build_ints build_int int_links int_link connect_all connect
    legs_built get set
connected = refl

listed :
    (e : Endpoint) (id dev : String)
    → str_eq dev e.dev ≡ true
    → Has id (links_in e.int (some ports))
    → (port dev ≡ e) × ("l" ≡ id)
unfolding get
listed e id dev p h = elim (Bool-cases (str_eq "Gi1" e.int)) [
  | inl q ↦
      let x : dev ≡ e.dev = ground (arith, eq_iff dev e.dev) in
      let y : "Gi1" ≡ e.int = ground (arith, eq_iff "Gi1" e.int) in
      let k : Has id ("l" ∷ []) = rw q at h in (rw (x, y), only k)
  | inr q ↦ absurd (rw q at h)
]
  where
    only : Has id ("l" ∷ []) → "l" ≡ id
    only (inl z) = sym z
    only (inr z) = absurd z

pair-WellFormed : WellFormed pair
unfolding get
pair-WellFormed e id h = elim (Bool-cases (str_eq "a" e.dev)) [
  | inl p ↦ let (x, y) = listed e id "a" p (rw p at h) in rw (← x, ← y) (cable, refl, refl)
  | inr p ↦ elim (Bool-cases (str_eq "b" e.dev)) [
    | inl q ↦ let (x, y) = listed e id "b" q (rw (p, q) at h) in rw (← x, ← y) (cable, refl, refl)
    | inr q ↦ absurd (rw (p, q) at h)
  ]
]

build_connections-Sound_example : Sound page (build_connections page [])
unfolding get
build_connections-Sound_example =
    build_connections-Sound page pair-WellFormed [] (λ id c e. absurd (cc))

build_connections_complete_example :
    Keeps [] (build_connections page [])
    × (c : Connection) × (get "l" (build_connections page []) ≡ some c)
unfolding get
build_connections_complete_example =
    build_connections_complete page (port "b") "l" cable [] refl
      (λ e. ground (arith, eq_iff "a" "b")) (inl refl) (inl refl) refl refl refl

neighbour_lem_instance : (n : Endpoint) × (neighbour joined "b" "Gi1" ≡ some n) × ("b" ≢ n.dev)
unfolding get build_connections build_devs build_ints build_int int_links int_link connect_all
    connect legs_built set
neighbour_lem_instance =
    neighbour_lem page (build_connections page []) (port "b") "l" joined pair-WellFormed
      (build_connections-Sound page pair-WellFormed [] (λ id c e. absurd (cc))) (inl refl) refl
