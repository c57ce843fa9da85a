-- ===== src/Offline/MacSearch.antt =====
-- `search_mac_info` of map-broker/www/mapper.js: where a MAC address was seen, the addresses that it has
-- in the ARP tables, and the interfaces whose own it is.
use mapper.Prelude.{
  ◌≡◌, ◌↔◌, ◌⊎◌, inl, inr, String, Option, none, some, Bool, true, false, List, [], ◌∷◌, ◌++◌,
  str_eq, eq_iff, arith, if◌then◌else◌, Has, Has-append, Has-append_left, Has-append_right,
  Bool-cases, Option-cases,
}
use mapper.Prelude.Obj.{Obj, get}
use mapper.Text.{◌>>=◌}
use mapper.Offline.{Port, OfflineDevice, OfflineData, in_array, append_once}
use mapper.Offline.ForIn.{for_in, for_in-Grows, ForSome, Grows}
use mapper.Offline.Rows.{Row, dev_row, row_of}

-- `ret["ports"]`, each with its VLAN
abbrev pub Seen : Type 0
Seen = List (String × Row)

unfoldable pub seen_on :
    OfflineData → String → String → String → String → List String → Seen → Option Seen
unfolding row_of in_array
seen_on od mac dev int vlan list rows =
    if in_array list mac
    then (row_of od dev int >>= λ r. some (rows ++ (vlan, r) ∷ []))
    else some rows

unfoldable pub mac_ports : OfflineData → String → Option Seen
unfolding for_in seen_on
mac_ports od mac =
    for_in (λ dev ints. for_in (λ int vlans. for_in (seen_on od mac dev int) vlans) ints) od.macs []

-- `ret["mac_arps"]` with the addresses, and `ret["mac_ips"]`
pub record Arps : Type 0 where
  pub rows : List (String × Row)
  pub ips : List String

abbrev pub add_arp : String → Arps → Row → Arps
add_arp ip a r = record { rows = a.rows ++ (ip, r) ∷ []; ips = append_once a.ips ip }

unfoldable pub arp_entry :
    OfflineData → String → String → String → String → String → Arps → Option Arps
unfolding row_of append_once
arp_entry od mac dev int ip m a =
    if str_eq m mac then (row_of od dev int >>= λ r. some (add_arp ip a r)) else some a

unfoldable pub arp_port : OfflineData → String → String → String → Obj String → Arps → Option Arps
unfolding for_in arp_entry
arp_port od mac dev int ips = for_in (arp_entry od mac dev int) ips

unfoldable pub arp_device : OfflineData → String → String → Obj (Obj String) → Arps → Option Arps
unfolding for_in arp_port
arp_device od mac dev ints = for_in (arp_port od mac dev) ints

unfoldable pub mac_arps : OfflineData → String → Option Arps
unfolding for_in arp_device
mac_arps od mac = for_in (arp_device od mac) od.arp (record { rows = []; ips = [] })

abbrev is_own : String → Option String → Bool
is_own mac none = false
is_own mac (some m) = str_eq m mac

-- `ret["mac_ifs"]`
unfoldable pub own_ifs : String → String → OfflineDevice → Obj Port → List Row → List Row
own_ifs mac dev d [] rows = rows
own_ifs mac dev d ((int, p) ∷ ints) rows =
    own_ifs mac dev d ints
      (if is_own mac (get "ifPhysAddr" p.fields) then rows ++ dev_row dev d int ∷ [] else rows)

unfoldable pub mac_ifs : String → Obj OfflineDevice → List Row → List Row
unfolding own_ifs
mac_ifs mac [] rows = rows
mac_ifs mac ((dev, d) ∷ devs) rows = mac_ifs mac devs (own_ifs mac dev d d.interfaces rows)

pub record MacInfo : Type 0 where
  pub ports : Seen
  pub arps : Arps
  pub ifs : List Row

unfoldable pub search_mac_info : OfflineData → String → Option MacInfo
unfolding mac_ports mac_arps mac_ifs
search_mac_info od mac = do
  ports ← mac_ports od mac
  arps ← mac_arps od mac
  some (record { ports = ports; arps = arps; ifs = mac_ifs mac od.devs [] })

-- `append_once` adds what is not there.
pub in_array-Has : (x : String) (xs : List String) → in_array xs x ≡ true → Has x xs
unfolding in_array
in_array-Has x [] h = absurd (cc)
in_array-Has x (y ∷ xs) h = elim (Bool-cases (str_eq y x)) [
  | inl p ↦ inl (ground (arith, p, eq_iff y x))
  | inr p ↦ inr (in_array-Has x xs (rw p at h))
]

pub in_array-true : (x : String) (xs : List String) → Has x xs → in_array xs x ≡ true
unfolding in_array
in_array-true x [] h = absurd h
in_array-true x (y ∷ xs) (inl e) = ground (arith, e, eq_iff y x)
in_array-true x (y ∷ xs) (inr h) = ground (arith, in_array-true x xs h)

pub Has-append_once :
    (x v : String) (xs : List String) → Has x (append_once xs v) ↔ (Has x xs ⊎ (x ≡ v))
unfolding append_once
Has-append_once x v xs = elim (Bool-cases (in_array xs v)) [
  | inl p ↦ rw p (λ h. inl h, λ h. elim h [ inl a ↦ a | inr e ↦ rw e (in_array-Has v xs p) ])
  | inr p ↦ rw p (
    λ h. elim (Has-append x xs (v ∷ []) h) [
      | inl a ↦ inl a
      | inr b ↦ elim b [ inl e ↦ inr e | inr c ↦ absurd c ]
    ],
    λ h. elim h [
      | inl a ↦ Has-append_left x xs (v ∷ []) a
      | inr e ↦ Has-append_right x xs (v ∷ []) (inl e)
    ],
  )
]

-- The table of a port has the address for the MAC address.
abbrev pub InTable : String → String → String → String → Type 0
InTable mac ip m x = (m ≡ mac) × (x ≡ ip)

abbrev ips_of : Arps → List String
ips_of a = a.ips

arp_entry-Grows :
    (od : OfflineData) (mac dev int ip m : String) (a a' : Arps)
    → arp_entry od mac dev int ip m a ≡ some a'
    → Grows ips_of a a' (InTable mac ip m)
unfolding arp_entry
arp_entry-Grows od mac dev int ip m a a' e x = elim (Bool-cases (str_eq m mac)) [
  | inl p ↦ elim (Option-cases (row_of od dev int)) [
    | inl q ↦ absurd (ground (arith, p, q, e))
    | inr (r, q) ↦
        let same : add_arp ip a r ≡ a' = ground (arith, p, q, e) in
        let mine : m ≡ mac = (eq_iff m mac).0 p in
        let (there, back) = Has-append_once x ip a.ips in
        rw (← same) (
          λ h. elim (there h) [ inl b ↦ inl b | inr i ↦ inr (mine, i) ],
          λ h. elim h [ inl b ↦ back (inl b) | inr t ↦ back (inr t.1) ],
        )
  ]
  | inr p ↦
      let same : a ≡ a' = ground (arith, p, e) in
      rw (← same) (
        λ h. inl h,
        λ h. elim h [ inl b ↦ b | inr t ↦ absurd (ground (arith, p, t.0, eq_iff m mac)) ],
      )
]

-- Some device, on some port, has the address for the MAC address.
abbrev pub InArp : Obj (Obj (Obj String)) → String → String → Type 0
InArp arp mac =
    ForSome (λ dev ints. ForSome (λ int ips. ForSome (λ ip m. InTable mac ip m) ips) ints) arp

arp_port-Grows :
    (od : OfflineData) (mac dev int : String) (ips : Obj String) (a a' : Arps)
    → arp_port od mac dev int ips a ≡ some a'
    → Grows ips_of a a' (ForSome (λ ip m. InTable mac ip m) ips)
unfolding arp_port
arp_port-Grows od mac dev int =
    for_in-Grows ips_of (arp_entry od mac dev int) (λ ip m. InTable mac ip m)
      (λ ip m. arp_entry-Grows od mac dev int ip m)

arp_device-Grows :
    (od : OfflineData) (mac dev : String) (ints : Obj (Obj String)) (a a' : Arps)
    → arp_device od mac dev ints a ≡ some a'
    → Grows ips_of a a' (ForSome (λ int ips. ForSome (λ ip m. InTable mac ip m) ips) ints)
unfolding arp_device
arp_device-Grows od mac dev =
    for_in-Grows ips_of (arp_port od mac dev) (λ int ips. ForSome (λ ip m. InTable mac ip m) ips)
      (λ int. arp_port-Grows od mac dev int)

mac_arps-Grows :
    (od : OfflineData) (mac : String) (a : Arps)
    → mac_arps od mac ≡ some a
    → Grows ips_of (record { rows = []; ips = [] }) a (InArp od.arp mac)
unfolding mac_arps
mac_arps-Grows od mac a e =
    for_in-Grows ips_of (arp_device od mac)
      (λ dev ints. ForSome (λ int ips. ForSome (λ ip m. InTable mac ip m) ips) ints)
      (λ dev. arp_device-Grows od mac dev) od.arp (record { rows = []; ips = [] }) a e

-- The addresses that are found for a MAC address are exactly those that some device has for it in its
-- ARP table.
pub mac_ips_lem :
    (od : OfflineData) (mac : String) (info : MacInfo)
    → search_mac_info od mac ≡ some info
    → (ip : String) → Has ip info.arps.ips ↔ InArp od.arp mac ip
unfolding search_mac_info
mac_ips_lem od mac info e ip = elim (Option-cases (mac_ports od mac)) [
  | inl p ↦ absurd (ground (arith, p, e))
  | inr (ports, p) ↦ elim (Option-cases (mac_arps od mac)) [
    | inl q ↦ absurd (ground (arith, p, q, e))
    | inr (arps, q) ↦
        let same : info.arps ≡ arps = ground (arith, p, q, e) in
        let (there, back) = mac_arps-Grows od mac arps q ip in
        rw same (λ h. elim (there h) [ inl b ↦ absurd b | inr t ↦ t ], λ t. back (inr t))
  ]
]
