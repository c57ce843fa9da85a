-- ===== src/Offline/IpSearch/NoMacs.antt =====
-- The MAC addresses that `search_ip_info` looks for.
use mapper.Prelude.{◌≡◌, refl, String, none, some, List, [], ◌∷◌, arith, Option-cases, inl, inr}
use mapper.Prelude.Obj.{Obj, get}
use mapper.Text.{codes}
use mapper.Ipv4.{v4ip2long}
use mapper.Offline.{OfflineData}
use mapper.Offline.ForIn.{for_in}
use mapper.Offline.IpSearch.{IpInfo, macs_of, ip_macs, dev_step, no_rows, search_ip_info}

-- No interface has the address for its name.
abbrev pub NotNamed : String → Obj (Obj (Obj String)) → Type 0
NotNamed ip [] = Unit
NotNamed ip ((dev, ints) ∷ arp) = (get ip ints ≡ none) × NotNamed ip arp

macs_of-none :
    (ip dev : String) (table ints : Obj (Obj String)) (macs : List String)
    → get ip table ≡ none
    → macs_of ip dev table ints macs ≡ macs
unfolding macs_of
macs_of-none ip dev table [] macs h = refl
macs_of-none ip dev table ((int, ips) ∷ ints) macs h = rw h (macs_of-none ip dev table ints macs h)

ip_macs-none :
    (ip : String) (arp : Obj (Obj (Obj String))) (macs : List String)
    → NotNamed ip arp
    → ip_macs ip arp macs ≡ macs
unfolding ip_macs
ip_macs-none ip [] macs h = refl
ip_macs-none ip ((dev, ints) ∷ arp) macs h =
    rw (macs_of-none ip dev ints ints macs h.0) (ip_macs-none ip arp macs h.1)

-- Whatever the ARP tables say of an address, no MAC address is found for it, unless an interface has
-- the address for its name.
pub search_ip_info-no_macs :
    (od : OfflineData) (ip : String) (info : IpInfo)
    → NotNamed ip od.arp
    → search_ip_info od ip ≡ some info
    → info.macs ≡ []
unfolding search_ip_info
search_ip_info-no_macs od ip info h e = elim (Option-cases (v4ip2long (codes ip))) [
  | inl p ↦ absurd (ground (arith, p, e))
  | inr (v, p) ↦ elim (Option-cases (for_in (dev_step ip v) od.devs no_rows)) [
    | inl q ↦ absurd (ground (arith, p, q, e))
    | inr (rows, q) ↦
        let same : record { macs = ip_macs ip od.arp []; rows = rows } ≡ info =
          ground (arith, p, q, e) in
        rw (← same) (ip_macs-none ip od.arp [] h)
  ]
]
