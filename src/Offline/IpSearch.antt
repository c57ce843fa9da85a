-- ===== src/Offline/IpSearch.antt =====
-- `search_ip_info` of map-broker/www/mapper.js: the devices that have an IP address in their tables, the
-- interfaces that have it or are in its network, and the neighbours at it.
pub mod Networks
pub mod NoMacs
pub mod Interfaces
pub mod Listed
use mapper.Prelude.{
  ℕ, String, Option, none, some, Bool, true, false, ◌&&◌, ◌||◌, List, [], ◌∷◌, ◌++◌, str_eq,
  if◌then◌else◌, ◌==◌, ltb,
}
use mapper.Prelude.Obj.{Obj, get, is_defined}
use mapper.Text.{Text, codes, ◌>>=◌}
use mapper.Ipv4.{v4ip2long, ip4net}
use mapper.Offline.{Port, OfflineDevice, HeardOn, Neighbour, OfflineData, append_once}
use mapper.Offline.ForIn.{for_in}
use mapper.Offline.Rows.{Row, dev_row, Heard, heard}

-- The loops that fill `ret["ip_macs"]`: what is read at `OD["arp"][dev_id][ip]` is the table of the
-- interface of that name. Such a table is given by its device.
unfoldable pub macs_of :
    String → String → Obj (Obj String) → Obj (Obj String) → List String → List String
unfolding append_once
macs_of ip dev table [] macs = macs
macs_of ip dev table ((int, ips) ∷ ints) macs =
    macs_of ip dev table ints (if is_defined (get ip table) then append_once macs dev else macs)

unfoldable pub ip_macs : String → Obj (Obj (Obj String)) → List String → List String
unfolding macs_of
ip_macs ip [] macs = macs
ip_macs ip ((dev, ints) ∷ arp) macs = ip_macs ip arp (macs_of ip dev ints ints macs)

-- An interface in the network, with its address and the length of its mask
pub record NetIf : Type 0 where
  pub ip : String
  pub masklen : ℕ
  pub at : Row

pub record IpRows : Type 0 where
  pub ip_ifs : List Row
  pub ip_net_ifs : List NetIf
  pub ip_neigs : List Heard

-- `/^127\./`
abbrev pub is_local : Text → Bool
is_local (a ∷ b ∷ c ∷ d ∷ cs) = (a == 49) && (b == 50) && (c == 55) && (d == 46)
is_local cs = false

abbrev pub equal_nets : Option ℕ → Option ℕ → Bool
equal_nets (some a) (some b) = a == b
equal_nets a b = false

abbrev pub in_net : ℕ → ℕ → Option ℕ → Bool
in_net v4ip masklen none = false
in_net v4ip masklen (some u) = equal_nets (ip4net u masklen) (ip4net v4ip masklen)

-- Does the address of an interface pass the tests of the loop over `ips`?
unfoldable pub net_match : ℕ → String → ℕ → Bool
net_match v4ip if_ip masklen =
    if is_local (codes if_ip) || (masklen == 0) || ltb 32 masklen
    then false
    else in_net v4ip masklen (v4ip2long (codes if_ip))

abbrev pub net_if : String → OfflineDevice → String → String → ℕ → NetIf
net_if dev d int if_ip masklen = record { ip = if_ip; masklen = masklen; at = dev_row dev d int }

-- The body of the loop over `ips`
unfoldable pub net_step : ℕ → String → OfflineDevice → String → String → ℕ → IpRows → Option IpRows
unfolding net_match
net_step v4ip dev d int if_ip masklen s = some (
    if net_match v4ip if_ip masklen
    then record s { ip_net_ifs = s.ip_net_ifs ++ net_if dev d int if_ip masklen ∷ [] }
    else s)

-- The body of the loop over the interfaces
unfoldable pub int_step :
    String → ℕ → String → OfflineDevice → String → Port → IpRows → Option IpRows
unfolding for_in net_step
int_step ip v4ip dev d int p s = elim p.ips [
  | none ↦ some s
  | some ips ↦
      if is_defined (get ip ips)
      then some (record s { ip_ifs = s.ip_ifs ++ dev_row dev d int ∷ [] })
      else for_in (net_step v4ip dev d int) ips s
]

abbrev is_at : String → Option String → Bool
is_at ip none = false
is_at ip (some a) = str_eq a ip

unfoldable pub neigh_step :
    String
    → String
    → String
    → OfflineDevice
    → String
    → HeardOn
    → String
    → Neighbour
    → IpRows
    → Option IpRows
neigh_step ip source dev d port p idx n s = some (
    if is_at ip n.address
    then record s { ip_neigs = s.ip_neigs ++ heard source dev d port p idx n ∷ [] }
    else s)

-- The loops over the ports of one protocol
unfoldable pub port_step :
    String → String → String → OfflineDevice → String → HeardOn → IpRows → Option IpRows
unfolding for_in neigh_step
port_step ip source dev d port p = for_in (neigh_step ip source dev d port p) p.neighbours

-- The body of the loop over the devices
unfoldable pub dev_step : String → ℕ → String → OfflineDevice → IpRows → Option IpRows
unfolding for_in int_step port_step
dev_step ip v4ip dev d s = do
  a ← for_in (int_step ip v4ip dev d) d.interfaces s
  b ← for_in (port_step ip "LLDP" dev d) d.lldp_ports a
  for_in (port_step ip "CDP" dev d) d.cdp_ports b

pub record IpInfo : Type 0 where
  pub macs : List String
  pub rows : IpRows

abbrev pub no_rows : IpRows
no_rows = record { ip_ifs = []; ip_net_ifs = []; ip_neigs = [] }

-- None for a text that is no IPv4 address
unfoldable pub search_ip_info : OfflineData → String → Option IpInfo
unfolding for_in dev_step ip_macs
search_ip_info od ip = do
  v4ip ← v4ip2long (codes ip)
  rows ← for_in (dev_step ip v4ip) od.devs no_rows
  some (record { macs = ip_macs ip od.arp []; rows = rows })
