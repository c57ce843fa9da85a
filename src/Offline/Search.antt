-- ===== src/Offline/Search.antt =====
-- The action "search" of `offline_query` of map-broker/www/mapper.js. What a regular expression matches,
-- and whether a text is one, is an argument.
pub mod Keys
pub mod Found
use mapper.Prelude.{
  ℕ, String, Option, none, some, Bool, true, false, not, ◌&&◌, ◌||◌, List, [], ◌∷◌, ◌++◌, str_eq,
  if◌then◌else◌, ◌==◌,
}
use mapper.Prelude.Obj.{Obj, get, set}
use mapper.Text.{Text, codes, ◌>>=◌}
use mapper.Ipv4.{v4ip2long}
use mapper.Mac.{parse_mac}
use mapper.Offline.{Fields, Port, OfflineDevice, Neighbour, HeardOn, OfflineData, append_once}
use mapper.Offline.ForIn.{for_in}
use mapper.Offline.Rows.{Row, dev_row, Heard, heard}
use mapper.Offline.MacSearch.{MacInfo, search_mac_info}
use mapper.Offline.IpSearch.{IpInfo, search_ip_info}

abbrev pub dev_search_keys : List String
dev_search_keys =
    "short_name" ∷ "id" ∷ "model_short" ∷ "model_long" ∷ "sysDescr" ∷ "sysLocation" ∷ "sysObjectID"
    ∷ []

abbrev pub dev_inv_keys : List String
dev_inv_keys = "invEntModel" ∷ "invEntSerial" ∷ []

abbrev pub int_keys : List String
int_keys = "ifDescr" ∷ "ifAlias" ∷ "ifName" ∷ []

abbrev pub lldp_keys : List String
lldp_keys = "RemChassisId" ∷ "RemPortId" ∷ "RemPortDescr" ∷ "RemSysDescr" ∷ "RemSysName" ∷ []

abbrev pub cdp_keys : List String
cdp_keys = "cdpRemDevId" ∷ "cdpRemIfName" ∷ "cdpRemPlatform" ∷ "cdpRemSoftware" ∷ []

abbrev pub if_some : (String → Bool) → Option String → Bool
if_some test none = false
if_some test (some s) = test s

-- A field that is there and matches
unfoldable pub field_matches : (String → Bool) → Fields → List String → Bool
field_matches test fields [] = false
field_matches test fields (key ∷ keys) =
    if_some test (get key fields) || field_matches test fields keys

-- The loop over `sub_key`
unfoldable pub any_value : (String → Bool) → Fields → Bool
any_value test [] = false
any_value test ((k, s) ∷ fields) = test s || any_value test fields

abbrev pub values_match : (String → Bool) → Option Fields → Bool
values_match test none = false
values_match test (some fields) = any_value test fields

unfoldable pub inventory_matches : (String → Bool) → Obj Fields → List String → Bool
unfolding any_value
inventory_matches test inv [] = false
inventory_matches test inv (key ∷ keys) =
    values_match test (get key inv) || inventory_matches test inv keys

-- `dev_match`
unfoldable pub dev_matches : (String → Bool) → OfflineDevice → Bool
unfolding field_matches inventory_matches
dev_matches test d =
    field_matches test d.fields dev_search_keys || inventory_matches test d.inventory dev_inv_keys

-- The text of what `test` is called with: undefined becomes a text too.
abbrev pub as_text : Option String → String
as_text none = "undefined"
as_text (some s) = s

unfoldable pub text_matches : (String → Bool) → Fields → List String → Bool
text_matches test fields [] = false
text_matches test fields (key ∷ keys) =
    test (as_text (get key fields)) || text_matches test fields keys

pub record DevHit : Type 0 where
  pub dev_id : String
  pub short_name : Option String
  pub safe_dev_id : Option String
  pub overall_status : Option String

abbrev pub dev_hit : String → OfflineDevice → DevHit
dev_hit dev d = record {
  dev_id = dev;
  short_name = get "short_name" d.fields;
  safe_dev_id = get "safe_dev_id" d.fields;
  overall_status = get "overall_status" d.fields;
}

pub record NeighHit : Type 0 where
  pub at : Heard
  pub port : HeardOn

pub record Hits : Type 0 where
  pub devs : List DevHit
  pub ints : List Row
  pub neighs : List NeighHit

unfoldable pub int_hit :
    (String → Bool) → String → OfflineDevice → String → Port → Hits → Option Hits
unfolding text_matches
int_hit test dev d int p h = some (
    if text_matches test p.fields int_keys
    then record h { ints = h.ints ++ dev_row dev d int ∷ [] }
    else h)

unfoldable pub neigh_hit :
    (String → Bool)
    → List String
    → String
    → String
    → OfflineDevice
    → String
    → HeardOn
    → String
    → Neighbour
    → Hits
    → Option Hits
unfolding text_matches
neigh_hit test keys source dev d port p idx n h = some (
    if text_matches test n.fields keys
    then record h {
      neighs = h.neighs ++ record { at = heard source dev d port p idx n; port = p } ∷ [];
    }
    else h)

unfoldable pub port_hits :
    (String → Bool)
    → List String
    → String
    → String
    → OfflineDevice
    → String
    → HeardOn
    → Hits
    → Option Hits
unfolding for_in neigh_hit
port_hits test keys source dev d port p =
    for_in (neigh_hit test keys source dev d port p) p.neighbours

abbrev pub add_dev : (String → Bool) → String → OfflineDevice → Hits → Hits
add_dev test dev d h =
    if dev_matches test d then record h { devs = h.devs ++ dev_hit dev d ∷ [] } else h

-- The body of the loop over the devices
unfoldable pub dev_hits : (String → Bool) → String → OfflineDevice → Hits → Option Hits
unfolding for_in dev_matches int_hit port_hits
dev_hits test dev d h = do
  a ← for_in (int_hit test dev d) d.interfaces (add_dev test dev d h)
  b ← for_in (port_hits test lldp_keys "LLDP" dev d) d.lldp_ports a
  for_in (port_hits test cdp_keys "CDP" dev d) d.cdp_ports b

abbrev pub no_hits : Hits
no_hits = record { devs = []; ints = []; neighs = [] }

unfoldable pub search_free : (String → Bool) → OfflineData → Option Hits
unfolding for_in dev_hits
search_free test od = for_in (dev_hits test) od.devs no_hits
