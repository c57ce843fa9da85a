-- ===== src/Connections/Routed.antt =====
-- `build_connections` of map-broker/www/mapper.js on the site "l3", where two interfaces are linked
-- when their addresses are the only two in a network, and `ip_link_id`.
pub mod Neighbours
pub mod Joined
pub mod Sound
pub mod Kept
pub mod Found
mod Examples
use Prim.Native.String.{◌++◌ as str_append}
use mapper.Prelude.{
  ℕ, ◌==◌, String, Option, none, some, Bool, true, false, ◌&&◌, List, [], ◌∷◌, ◌++◌, str_eq,
  if◌then◌else◌, length,
}
use mapper.Prelude.Int.{ℤ, pos, negsuc}
use mapper.Prelude.Obj.{Obj, get, set, is_defined}
use mapper.Text.{Text, codes, ◌>>=◌}
use mapper.Turnpoints.{Endpoint}
use mapper.Links.{same_end}
use mapper.Connections.Build.{Connection, Page, IntLink, connect_all}

-- What this loop reads of an interface: `ips`, the network of each address, and `ifOperStatus`.
pub record RoutedInterface : Type 0 where
  pub ips : Option (Obj String)
  pub oper_status : ℕ

-- `data["devs"]` and `data["l3_links"]`: the addresses in each network, with their interfaces. Without
-- `l3_links` it is as when this object is empty.
pub record Routed : Type 0 where
  pub devs : Obj (Obj RoutedInterface)
  pub l3_links : Obj (Obj Endpoint)

-- `temp_data["p2p_links"][link_id]`
pub record P2pLink : Type 0 where
  pub from : Endpoint
  pub to : Endpoint
  pub status : ℕ

-- What the function changes; `l3_lists` are the lists `l3_links` of the interfaces in `temp_data`.
pub record RoutedState : Type 0 where
  pub connections : Obj Connection
  pub p2p_links : Obj P2pLink
  pub l3_lists : Endpoint → Option (List String)

-- `dc < 0`
abbrev pub below_zero : ℤ → Bool
below_zero (pos n) = false
below_zero (negsuc n) = true

-- `dc > 0`
abbrev pub above_zero : ℤ → Bool
above_zero (pos n) = if n == 0 then false else true
above_zero (negsuc n) = false

unfoldable pub id_of_ends : Endpoint → Endpoint → String
id_of_ends a b = str_append "ip_" (
    str_append a.dev (
      str_append "@" (str_append a.int (str_append "#" (str_append b.dev (str_append "@" b.int))))))

-- `localeCompare` is the parameter.
unfoldable pub ip_link_id : (String → String → ℤ) → Endpoint → Endpoint → String
unfolding id_of_ends
ip_link_id locale_compare a b =
    if below_zero (locale_compare a.dev b.dev)
    then id_of_ends a b
    else if above_zero (locale_compare a.dev b.dev)
    then id_of_ends b a
    else if below_zero (locale_compare a.int b.int)
    then id_of_ends a b
    else id_of_ends b a

unfoldable pub starts_with : Text → Text → Bool
starts_with [] cs = true
starts_with (d ∷ ds) [] = false
starts_with (d ∷ ds) (c ∷ cs) = (d == c) && starts_with ds cs

-- `String(ip).indexOf("127.") == 0`
unfoldable pub is_loopback : String → Bool
unfolding starts_with
is_loopback ip = starts_with (codes "127.") (codes ip)

unfoldable pub routed_interface : Endpoint → Routed → Option RoutedInterface
routed_interface e r = do ints ← get e.dev r.devs; get e.int ints

abbrev is_up : Option RoutedInterface → Bool
is_up none = false
is_up (some i) = i.oper_status == 1

unfoldable pub status_of : Routed → Endpoint → Endpoint → ℕ
unfolding routed_interface
status_of r e nei = if is_up (routed_interface e r) && is_up (routed_interface nei r) then 1 else 2

-- `net[nei_ip]`, the first with another address
unfoldable pub other_address : String → Obj Endpoint → Option Endpoint
other_address ip [] = none
other_address ip ((j, e) ∷ net) =
    let rest = other_address ip net in if str_eq j ip then rest else some e

-- Is the other interface on another device, known and drawn?
unfoldable pub far_interface : Page → Routed → Endpoint → Endpoint → Option Endpoint
unfolding routed_interface
far_interface p r e nei =
    if str_eq nei.dev e.dev
    then none
    else if is_defined (routed_interface nei r) && p.drawn nei
    then some nei
    else none

-- The interface at the other address of the network `ip_net`, if all tests are passed
unfoldable pub routed_neighbour : Page → Routed → Endpoint → String → String → Option Endpoint
unfolding far_interface other_address
routed_neighbour p r e ip ip_net = do
  net ← get ip_net r.l3_links
  own ← get ip net
  if str_eq own.dev e.dev && (length net == 2)
      then (other_address ip net >>= far_interface p r e)
      else none

-- What the loop over the addresses of an interface has put together
pub record Gathered : Type 0 where
  pub entries : List IntLink
  pub ids : List String
  pub p2p_links : Obj P2pLink

-- `link_id`, `nei_dev` and `nei_int`, `link_status` are noted.
unfoldable pub note_link :
    (String → String → ℤ) → Routed → Obj Connection → Endpoint → Endpoint → Gathered → Gathered
note_link locale_compare r cs e nei g =
    let id = ip_link_id locale_compare e nei in
    let status = status_of r e nei in
    let link : IntLink = record { link_id = id; nei = nei; status = status } in
    record {
      entries = if is_defined (get id cs) then g.entries else g.entries ++ link ∷ [];
      ids = g.ids ++ id ∷ [];
      p2p_links = set id (record { from = e; to = nei; status = status }) g.p2p_links;
    }

module _ (locale_compare : String → String → ℤ) (p : Page) (r : Routed) where
  -- One turn of the loop over the addresses
  unfoldable pub visit_ip : Obj Connection → Endpoint → String → String → Gathered → Gathered
  visit_ip cs e ip ip_net g =
      if is_loopback ip then g else elim (routed_neighbour p r e ip ip_net) [
        | none ↦ g
        | some nei ↦ note_link locale_compare r cs e nei g
      ]

  unfoldable pub visit_ips : Obj Connection → Endpoint → Obj String → Gathered → Gathered
  visit_ips cs e [] g = g
  visit_ips cs e ((ip, ip_net) ∷ ips) g = visit_ips cs e ips (visit_ip cs e ip ip_net g)

  -- The list of the interface is stored when its addresses were visited; nothing reads it before.
  unfoldable pub store_gathered : Endpoint → Gathered → RoutedState → RoutedState
  store_gathered e g s = record {
    connections = connect_all p e g.entries s.connections;
    p2p_links = g.p2p_links;
    l3_lists = λ d. if same_end d e then some g.ids else s.l3_lists d;
  }

  -- One turn of the loop over the interfaces
  unfoldable pub build_routed_int : Endpoint → RoutedState → RoutedState
  build_routed_int e s = elim (routed_interface e r >>= λ i. i.ips) [
    | none ↦ s
    | some ips ↦
        let none_yet : Gathered = record { entries = []; ids = []; p2p_links = s.p2p_links } in
        if p.drawn e then store_gathered e (visit_ips s.connections e ips none_yet) s else s
  ]

  unfoldable pub build_routed_ints : String → List String → RoutedState → RoutedState
  build_routed_ints dev [] s = s
  build_routed_ints dev (int ∷ ints) s =
      build_routed_ints dev ints (build_routed_int (record { dev = dev; int = int }) s)

  unfoldable pub build_routed_devs : Obj (Obj RoutedInterface) → RoutedState → RoutedState
  build_routed_devs [] s = s
  build_routed_devs ((dev, ints) ∷ ds) s =
      build_routed_devs ds (if p.shown dev then build_routed_ints dev (p.sorted dev) s else s)

  unfoldable pub build_routed : RoutedState → RoutedState
  build_routed s = build_routed_devs r.devs s
