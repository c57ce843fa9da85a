-- ===== src/Offline/Answer.antt =====
-- The answers of `offline_query` of map-broker/www/mapper.js, action by action: what the search for an
-- address, a MAC address or a text puts together, and which actions there are.
pub mod Closure
pub mod Actions
use Prim.Native.Char.{Char}
use mapper.Prelude.{
  ℕ, ◌-◌, ◌+◌, String, Option, none, some, Bool, true, false, not, ◌&&◌, ◌||◌, List, [], ◌∷◌, ◌++◌,
  str_eq, if◌then◌else◌, ◌==◌,
}
use mapper.Prelude.Obj.{Obj, get, set, is_defined}
use mapper.Text.{Text, codes, ◌>>=◌}
use mapper.Ipv4.{v4ip2long}
use mapper.Mac.{parse_mac}
use mapper.Offline.{OfflineDevice, Port, OfflineData, Front, StoredMap, append_once, get_front}
use mapper.Offline.Rows.{Row}
use mapper.Offline.MacSearch.{MacInfo, search_mac_info}
use mapper.Offline.IpSearch.{IpInfo, search_ip_info}
use mapper.Offline.Search.{Hits, no_hits, search_free}

-- The digits that `parse_mac` leaves
abbrev hex_digits : List (ℕ × Char)
hex_digits =
    (48, "0")
    ∷ (49, "1")
    ∷ (50, "2")
    ∷ (51, "3")
    ∷ (52, "4")
    ∷ (53, "5")
    ∷ (54, "6")
    ∷ (55, "7")
    ∷ (56, "8")
    ∷ (57, "9")
    ∷ (97, "a")
    ∷ (98, "b")
    ∷ (99, "c")
    ∷ (100, "d")
    ∷ (101, "e")
    ∷ []

hex_char : List (ℕ × Char) → ℕ → Char
hex_char [] c = "f"
hex_char ((d, s) ∷ ds) c = if d == c then s else hex_char ds c

-- A text of such digits as a string
unfoldable pub hex_string : Text → String
unfolding hex_char
hex_string [] = ""
hex_string (c ∷ cs) = Prim.Native.String.◌∷◌ (hex_char hex_digits c) (hex_string cs)

unfoldable pub append_each : List String → List String → List String
unfolding append_once
append_each list [] = list
append_each list (x ∷ xs) = append_each (append_once list x) xs

-- `for(let ip of ips_list) if(ips[ip] === undefined) ips[ip] = search_ip_info(ip);`
abbrev pub known_ip : Option (Option IpInfo) → Bool
known_ip none = false
known_ip (some none) = false
known_ip (some (some info)) = true

unfoldable pub fill_ips : OfflineData → List String → Obj (Option IpInfo) → Obj (Option IpInfo)
unfolding search_ip_info
fill_ips od [] ips = ips
fill_ips od (ip ∷ list) ips =
    fill_ips od list (if known_ip (get ip ips) then ips else set ip (search_ip_info od ip) ips)

-- The same for the MAC addresses; their search may end with a TypeError.
unfoldable pub fill_macs : OfflineData → List String → Obj MacInfo → Option (Obj MacInfo)
unfolding search_mac_info
fill_macs od [] macs = some macs
fill_macs od (mac ∷ list) macs =
    let old = fill_macs od list macs in
    let new = search_mac_info od mac >>= λ info. fill_macs od list (set mac info macs) in
    if is_defined (get mac macs) then old else new

pub data OriginType : Type 0 where
  ip mac free : OriginType

-- The answer; what is empty there is left out.
pub record SearchResult : Type 0 where
  pub origin : String
  pub origin_type : OriginType
  pub ips : Obj (Option IpInfo)
  pub macs : Obj MacInfo
  pub hits : Hits

-- What ends a query without an answer
pub data Failure : Type 0 where
  -- A TypeError
  thrown : Failure
  -- `error_dialog`, with the text
  dialog : String → Failure

pub data QueryResult {ℓ} (A : Type ℓ) : Type ℓ where
  ok : A → QueryResult A
  fail : Failure → QueryResult A

abbrev pub or_thrown {ℓ} : {A : Type ℓ} → Option A → QueryResult A
or_thrown none = fail thrown
or_thrown (some a) = ok a

-- The two loops at the end of the search
unfoldable pub finish_search :
    OfflineData
    → String
    → OriginType
    → List String
    → List String
    → Obj (Option IpInfo)
    → Obj MacInfo
    → Hits
    → Option SearchResult
unfolding fill_ips fill_macs
finish_search od origin type ips_list macs_list ips macs hits =
    fill_macs od macs_list macs >>= λ all_macs. some (record {
      origin = origin;
      origin_type = type;
      ips = fill_ips od ips_list ips;
      macs = all_macs;
      hits = hits;
    })

-- A table as a text: what is listed for an address are objects.
abbrev table_texts : List String → List String
table_texts [] = []
table_texts (dev ∷ devs) = "[object Object]" ∷ table_texts devs

abbrev macs_listed : Option IpInfo → List String
macs_listed none = []
macs_listed (some info) = append_each [] (table_texts info.macs)

unfoldable pub search_ip : OfflineData → String → Option SearchResult
unfolding finish_search append_each search_ip_info
search_ip od for =
    let info = search_ip_info od for in
    finish_search od for ip (for ∷ []) (macs_listed info) ((for, info) ∷ []) [] no_hits

unfoldable pub search_mac : OfflineData → String → Option SearchResult
unfolding finish_search append_each search_mac_info
search_mac od m = search_mac_info od m >>= λ info.
    finish_search od m mac (append_each [] info.arps.ips) (m ∷ []) [] ((m, info) ∷ []) no_hits

unfoldable pub search_text : OfflineData → String → (String → Bool) → Option SearchResult
unfolding finish_search search_free
search_text od for test = search_free test od >>= λ hits. finish_search od for free [] [] [] [] hits

-- `RegExp(...)`: what the expression matches, or the text of what it throws
pub data Compiled : Type 0 where
  regex : (String → Bool) → Compiled
  invalid : String → Compiled

abbrev pub with_regex : OfflineData → String → Compiled → QueryResult SearchResult
with_regex od for (regex test) = or_thrown (search_text od for test)
with_regex od for (invalid e) = fail (dialog e)

abbrev pub by_mac : OfflineData → String → Compiled → Option Text → QueryResult SearchResult
by_mac od for compiled none = with_regex od for compiled
by_mac od for compiled (some m) = or_thrown (search_mac od (hex_string m))

abbrev pub by_ip : OfflineData → String → Compiled → Option ℕ → QueryResult SearchResult
by_ip od for compiled none = by_mac od for compiled (parse_mac (codes for))
by_ip od for compiled (some n) = or_thrown (search_ip od for)

-- The action "search"; `compile` makes the expression, of the text itself or of the escaped text.
unfoldable pub search :
    (Bool → String → Compiled) → OfflineData → Bool → String → QueryResult SearchResult
unfolding search_ip search_mac search_text hex_string
search compile od reg_search for =
    if reg_search
    then with_regex od for (compile true for)
    else by_ip od for (compile false for) (v4ip2long (codes for))
