-- ===== src/Offline/Examples.antt =====
-- Two switches of two sites, with a link, an address and what they hear.
use mapper.Prelude.{
  arith, eq_iff, ◌≡◌, refl, ◌≢◌, String, none, some, Bool, true, false, [], ◌∷◌, ◌↔◌, str_eq, Has,
}
use mapper.Prelude.Obj.{Obj, get, set}
use mapper.Text.{codes, group, literal, at_end, number}
use mapper.Ipv4.{v4ip2long, match_octets, v4oct2long}
use mapper.Offline.{
  LinkDevs, Port, OfflineDevice, OfflineData, Front, in_array, site_match, get_front, append_once,
}
use mapper.Offline.ForIn.{for_in, ForSome}
use mapper.Offline.Rows.{Row, dev_row, row_of}
use mapper.Offline.Select.{KeysDiffer}
use mapper.Offline.Shown.{
  InSite, InProj, IsIn, HasAddress, any_of_site, get_front_lem, get_front-nodata,
}
use mapper.Offline.MacSearch.{
  InArp, search_mac_info, mac_ports, mac_arps, arp_device, arp_port, arp_entry, mac_ifs, own_ifs,
}
use mapper.Offline.IpSearch.{IpInfo, NetIf, search_ip_info}
use mapper.Offline.IpSearch.Listed.{DeviceIn, DeviceAt, search_ip_info-lists}
use mapper.Offline.IpSearch.NoMacs.{NotNamed, search_ip_info-no_macs}
use mapper.Offline.Search.{Hits, DevHit, no_hits, search_free}
use mapper.Offline.Search.Found.{DevFound, DevInts, search_free_lem}
use mapper.Offline.Answer.{
  SearchResult, OriginType, finish_search, append_each, fill_ips, fill_macs, search_mac, fail,
  dialog, Compiled, invalid,
}
use mapper.Offline.Answer.Closure.{search_mac_lem}
use mapper.Offline.Answer.Actions.{offline_query, saves, offline_query-del_map_key_id}
use mapper.Saving.{MapPage, SaveRequest, save_query}

abbrev port : String → Port
port ip = record {
  fields = ("ifName", "Gi1") ∷ ("ifPhysAddr", "00aa") ∷ [];
  ips = some ((ip, 24) ∷ []);
}

abbrev switch : String → String → String → OfflineDevice
switch name site ip = record {
  fields = ("short_name", name) ∷ [];
  inventory = [];
  dev_sites = site ∷ [];
  dev_projects = "core" ∷ [];
  interfaces = ("Gi1", port ip) ∷ [];
  lldp_ports = [];
  cdp_ports = [];
}

abbrev table : String → Obj (Obj String)
table mac = ("Gi1", ("10.0.0.9", mac) ∷ []) ∷ []

abbrev office : OfflineData
office = record {
  devs = ("a", switch "A" "north" "10.0.0.1") ∷ ("b", switch "B" "south" "10.0.0.2") ∷ [];
  l2_links =
      ("a-b", record { first = "a"; second = "b" })
      ∷ ("a-a", record { first = "a"; second = "a" })
      ∷ [];
  l3_links = ("10.0.0.0/24", ("10.0.0.1", "a") ∷ ("10.0.0.2", "b") ∷ []) ∷ [];
  maps = [];
  arp = ("a", table "00aa") ∷ [];
  macs = [];
}

-- Only the link within the site is shown.
north_links :
    get_front "north" "all" office
    ≡ some (record {
      devs = ("a", switch "A" "north" "10.0.0.1") ∷ [];
      l2_links = ("a-a", record { first = "a"; second = "a" }) ∷ [];
      l3_links = ("10.0.0.0/24", ("10.0.0.1", "a") ∷ ("10.0.0.2", "b") ∷ []) ∷ [];
      map_json = "{\"tps\": {}, \"loc\": {}, \"colors\": {}, \"options\": {}}";
    })
unfolding get_front get set
north_links = refl

KeysDiffer-office : KeysDiffer office.devs × KeysDiffer office.l2_links × KeysDiffer office.l3_links
unfolding get
KeysDiffer-office = ((refl, (refl, tt)), (refl, (refl, tt)), (refl, tt))

get_front_lem_example :
    (f : Front) × (get_front "north" "core" office ≡ some f)
    × ((id : String) (d : OfflineDevice)
        → (get id f.devs ≡ some d)
          ↔ ((get id office.devs ≡ some d) × (InSite "north" d × InProj "core" d)))
    × ((id : String) (l : LinkDevs)
        → (get id f.l2_links ≡ some l)
          ↔ ((get id office.l2_links ≡ some l) × (IsIn f.devs l.first × IsIn f.devs l.second)))
    × ((id : String) (net : Obj String)
        → (get id f.l3_links ≡ some net)
          ↔ ((get id office.l3_links ≡ some net) × HasAddress f.devs net))
get_front_lem_example =
    get_front_lem "north" "core" office (λ e. ground (arith, e, eq_iff "core" "nodata"))
      KeysDiffer-office.0 KeysDiffer-office.1 KeysDiffer-office.2

north_there : any_of_site "north" office.devs ≡ true
unfolding site_match
north_there = refl

get_front-nodata_example : get_front "north" "nodata" office ≡ none
get_front-nodata_example = get_front-nodata "north" office north_there

address : v4ip2long (codes "10.0.0.7") ≡ some 167772167
unfolding v4ip2long match_octets group literal at_end number v4oct2long
address = refl

search_ip_info-lists_example :
    (info : IpInfo) × (search_ip_info office "10.0.0.7" ≡ some info)
    × ((x : NetIf)
        → Has x info.rows.ip_net_ifs ↔ ForSome (DeviceIn "10.0.0.7" 167772167) office.devs x)
    × ((x : Row) → Has x info.rows.ip_ifs ↔ ForSome (DeviceAt "10.0.0.7") office.devs x)
search_ip_info-lists_example = search_ip_info-lists office "10.0.0.7" 167772167 address

search_free_lem_example :
    (h : Hits) × (search_free (λ s. str_eq s "undefined") office ≡ some h)
    × ((x : DevHit) → Has x h.devs ↔ ForSome (DevFound (λ s. str_eq s "undefined")) office.devs x)
    × ((x : Row) → Has x h.ints ↔ ForSome (DevInts (λ s. str_eq s "undefined")) office.devs x)
search_free_lem_example = search_free_lem (λ s. str_eq s "undefined") office

known_address : v4ip2long (codes "10.0.0.9") ≡ some 167772169
unfolding v4ip2long match_octets group literal at_end number v4oct2long
known_address = refl

abbrev known_info : IpInfo
known_info = (search_ip_info-lists office "10.0.0.9" 167772169 known_address).0

no_such_name : NotNamed "10.0.0.9" office.arp
unfolding get
no_such_name = (refl, tt)

-- The table of "a" has a MAC address for it.
search_ip_info-no_macs_example : known_info.macs ≡ []
search_ip_info-no_macs_example =
    search_ip_info-no_macs office "10.0.0.9" known_info no_such_name
      (search_ip_info-lists office "10.0.0.9" 167772169 known_address).1

abbrev row_a : Row
row_a = dev_row "a" (switch "A" "north" "10.0.0.1") "Gi1"

abbrev own_mac : String
own_mac = "00bb"

abbrev table_only : OfflineData
table_only = record office { arp = ("a", table own_mac) ∷ [] }

abbrev mac_found : SearchResult
mac_found = record {
  origin = own_mac;
  origin_type = OriginType.mac;
  ips = ("10.0.0.9", search_ip_info table_only "10.0.0.9") ∷ [];
  macs =
      (
        own_mac,
        record {
          ports = [];
          arps = record { rows = ("10.0.0.9", row_a) ∷ []; ips = "10.0.0.9" ∷ [] };
          ifs = [];
        },
      )
      ∷ [];
  hits = no_hits;
}

mac_run : search_mac table_only own_mac ≡ some mac_found
unfolding search_mac search_mac_info mac_ports mac_arps arp_device arp_port arp_entry row_of
    append_once in_array mac_ifs own_ifs finish_search append_each fill_ips fill_macs for_in get set
mac_run = refl

search_mac_lem_example :
    (get own_mac mac_found.macs ≡ search_mac_info table_only own_mac)
    × ((ip : String)
        → InArp table_only.arp own_mac ip
        → get ip mac_found.ips ≡ some (search_ip_info table_only ip))
    × ((ip : String) → get ip mac_found.ips ≢ none → InArp table_only.arp own_mac ip)
search_mac_lem_example = search_mac_lem table_only own_mac mac_found mac_run

-- The map after the first save, with no location for "b"
abbrev saved_page : MapPage
saved_page = record {
  map_data = ("tps", []) ∷ ("loc", ("a", "at 1") ∷ []) ∷ [];
  file_key = "";
  default_map = false;
  enable_save = true;
  unsaved = false;
}

abbrev no_regex : Bool → String → Compiled
no_regex raw s = invalid s

abbrev unimplemented : String → String
unimplemented action = action

placed : get "loc" saved_page.map_data ≡ some (("a", "at 1") ∷ [])
unfolding get
placed = refl

abbrev one_place : Obj String
one_place = ("a", "at 1") ∷ []

not_placed : get "b" one_place ≡ none
unfolding get
not_placed = refl

offline_query-del_map_key_id_example :
    (r : SaveRequest) × (save_query (some "loc") (some "b") none none saved_page ≡ some r)
    × (offline_query no_regex unimplemented office (saves r) ≡ fail (dialog "del_map_key_id"))
offline_query-del_map_key_id_example =
    offline_query-del_map_key_id no_regex unimplemented office saved_page "loc" "b" one_place refl
      placed not_placed
