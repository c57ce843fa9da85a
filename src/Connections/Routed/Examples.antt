-- ===== src/Connections/Routed/Examples.antt =====
-- Two routers with a network between them.
use mapper.Prelude.{
  ℕ, String, ◌≡◌, refl, some, none, true, [], ◌∷◌, inl, inr, arith, eq_iff, str_eq, if◌then◌else◌,
}
use mapper.Prelude.Int.{ℤ, sub_ℕ}
use mapper.Prelude.Obj.{Obj, get, set}
use mapper.Turnpoints.{Endpoint, Shape}
use mapper.Connections.Build.{Connection, Page, connect_all, connect, legs_built}
use mapper.Connections.Kept.{Keeps}
use mapper.Connections.Routed.{
  RoutedInterface, Routed, RoutedState, ip_link_id, routed_interface, status_of, other_address,
  far_interface, is_loopback, routed_neighbour, note_link, visit_ip, visit_ips, store_gathered,
  build_routed_int, build_routed_ints, build_routed_devs, build_routed,
}
use mapper.Connections.Routed.Joined.{IsJoined, IsSound}
use mapper.Connections.Routed.Sound.{build_routed-IsSound}
use mapper.Connections.Routed.Found.{IsTurned, build_routed_complete}

abbrev rank : String → ℕ
rank s = if str_eq s "r1" then 1 else if str_eq s "r2" then 2 else 0

abbrev by_rank : String → String → ℤ
by_rank s t = sub_ℕ (rank s) (rank t)

abbrev tunnel : String → Endpoint
tunnel dev = record { dev = dev; int = "Tu1" }

abbrev with_address : String → Obj RoutedInterface
with_address ip = ("Tu1", record { ips = some ((ip, "10.0.0.0/30") ∷ []); oper_status = 1 }) ∷ []

abbrev network : Obj Endpoint
network = ("10.0.0.1", tunnel "r1") ∷ ("10.0.0.2", tunnel "r2") ∷ []

abbrev routers : Routed
routers = record {
  devs = ("r1", with_address "10.0.0.1") ∷ ("r2", with_address "10.0.0.2") ∷ [];
  l3_links = ("10.0.0.0/30", network) ∷ [];
}

abbrev page : Page
page = record {
  net_data = record { l2_links = []; devs = [] };
  tps = [];
  sorted = λ dev. "Tu1" ∷ [];
  shown = λ dev. true;
  drawn = λ e. true;
}

abbrev empty : RoutedState
empty = record { connections = []; p2p_links = []; l3_lists = λ e. none }

abbrev built : RoutedState
built = build_routed by_rank page routers empty

one_connection :
    built.connections
    ≡ (
      "ip_r1@Tu1#r2@Tu1",
      record {
        from = tunnel "r1";
        to = tunnel "r2";
        status = 1;
        legs = Shape.devdev (tunnel "r1") (tunnel "r2") ∷ [];
        errors = [];
      },
    )
      ∷ []
unfolding build_routed build_routed_devs build_routed_ints build_routed_int visit_ips visit_ip
    store_gathered note_link routed_neighbour far_interface other_address is_loopback ip_link_id
    status_of routed_interface connect_all connect legs_built get set
one_connection = refl

-- The link is noted from either end, and keeps what was noted last.
seen_from_far :
    built.p2p_links
    ≡ ("ip_r1@Tu1#r2@Tu1", record { from = tunnel "r2"; to = tunnel "r1"; status = 1 }) ∷ []
unfolding build_routed build_routed_devs build_routed_ints build_routed_int visit_ips visit_ip
    store_gathered note_link routed_neighbour far_interface other_address is_loopback ip_link_id
    status_of routed_interface connect_all connect legs_built get set
seen_from_far = refl

by_rank-IsTurned : IsTurned by_rank
by_rank-IsTurned s t = ground arith

joined : IsJoined page routers (tunnel "r1") (tunnel "r2")
unfolding routed_interface is_loopback get
joined = record {
  interface = record { ips = some (("10.0.0.1", "10.0.0.0/30") ∷ []); oper_status = 1 };
  found = refl;
  ips = ("10.0.0.1", "10.0.0.0/30") ∷ [];
  has_ips = refl;
  ip = "10.0.0.1";
  ip_net = "10.0.0.0/30";
  lists = inl refl;
  no_loopback = refl;
  joined = record {
    net = network;
    stored = refl;
    addresses = omega arith;
    own = tunnel "r1";
    near = refl;
    same_dev = refl;
    far = ("10.0.0.2", (λ e. ground (arith, eq_iff "10.0.0.2" "10.0.0.1")), inr (inl refl));
    apart = λ e. ground (arith, eq_iff "r2" "r1");
    known = refl;
    to_drawn = refl;
  };
  from_drawn = refl;
}

build_routed-IsSound_example : IsSound by_rank page routers built
unfolding get
build_routed-IsSound_example = build_routed-IsSound by_rank page routers empty (record {
  routed = λ id c e. absurd (cc);
  links = λ id l e. absurd (cc);
  stored = λ e ids q. absurd (cc);
})

build_routed_complete_example :
    Keeps [] built.connections
    × ((c : Connection) × (get (ip_link_id by_rank (tunnel "r1") (tunnel "r2")) built.connections
          ≡ some c))
    × (ip_link_id by_rank (tunnel "r2") (tunnel "r1")
        ≡ ip_link_id by_rank (tunnel "r1") (tunnel "r2"))
build_routed_complete_example =
    build_routed_complete by_rank page routers (tunnel "r1") (tunnel "r2") empty by_rank-IsTurned
      (λ e. ground arith) joined refl refl (inl refl)
