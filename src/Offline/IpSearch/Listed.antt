-- ===== src/Offline/IpSearch/Listed.antt =====
-- What `search_ip_info` lists, over all devices.
use mapper.Prelude.{
  ℕ, ◌^◌, ◌<◌, ◌≡◌, refl, ap, ◌∙◌, ◌↔◌, inl, inr, String, some, List, [], arith, Has, Option-cases,
  Bool-cases,
}
use mapper.Prelude.Obj.{Obj, get, is_defined}
use mapper.Text.{codes}
use mapper.Ipv4.{v4ip2long}
use mapper.Ipv4.Dotted.{v4ip2long-lt}
use mapper.Offline.{Port, OfflineDevice, HeardOn, Neighbour, OfflineData}
use mapper.Offline.ForIn.{for_in, for_in-Grows, for_in-keeps, for_in-total, ForSome, Grows}
use mapper.Offline.Rows.{Row}
use mapper.Offline.IpSearch.{
  IpRows, IpInfo, NetIf, net_step, int_step, neigh_step, port_step, dev_step, no_rows,
  search_ip_info, ip_macs,
}
use mapper.Offline.IpSearch.Interfaces.{nets_of, ifs_of, PortIn, PortAt, int_step-Grows}

abbrev both_of : IpRows → List NetIf × List Row
both_of s = (s.ip_net_ifs, s.ip_ifs)

neigh_step-keeps :
    (ip source dev : String) (d : OfflineDevice) (port : String) (p : HeardOn) (idx : String)
    (n : Neighbour) (s s' : IpRows)
    → neigh_step ip source dev d port p idx n s ≡ some s'
    → both_of s' ≡ both_of s
unfolding neigh_step
neigh_step-keeps ip source dev d port p idx n s s' e = ground (arith, e)

ports-keep :
    (ip source dev : String) (d : OfflineDevice) (ports : Obj HeardOn) (s s' : IpRows)
    → for_in (port_step ip source dev d) ports s ≡ some s'
    → both_of s' ≡ both_of s
unfolding port_step
ports-keep ip source dev d = for_in-keeps both_of (port_step ip source dev d) (λ port p.
    for_in-keeps both_of (neigh_step ip source dev d port p)
      (neigh_step-keeps ip source dev d port p) p.neighbours)

-- A device with a port in the network, and one with a port that has the address
abbrev pub DeviceIn : String → ℕ → String → OfflineDevice → NetIf → Type 0
DeviceIn ip v4ip dev d = ForSome (λ int p. PortIn ip v4ip dev d int p.ips) d.interfaces

abbrev pub DeviceAt : String → String → OfflineDevice → Row → Type 0
DeviceAt ip dev d = ForSome (λ int p. PortAt ip dev d int p.ips) d.interfaces

dev_step-Grows :
    (ip : String) (v4ip : ℕ) (dev : String) (d : OfflineDevice) (s s' : IpRows)
    → v4ip < 2 ^ 32
    → dev_step ip v4ip dev d s ≡ some s'
    → Grows nets_of s s' (DeviceIn ip v4ip dev d) × Grows ifs_of s s' (DeviceAt ip dev d)
unfolding dev_step
dev_step-Grows ip v4ip dev d s s' h e =
    elim (Option-cases (for_in (int_step ip v4ip dev d) d.interfaces s)) [
      | inl p ↦ absurd (ground (arith, p, e))
      | inr (a, p) ↦ elim (Option-cases (for_in (port_step ip "LLDP" dev d) d.lldp_ports a)) [
        | inl q ↦ absurd (ground (arith, p, q, e))
        | inr (b, q) ↦
            let r : for_in (port_step ip "CDP" dev d) d.cdp_ports b ≡ some s' =
              ground (arith, p, q, e) in
            let kept : both_of s' ≡ both_of a =
              ports-keep ip "CDP" dev d d.cdp_ports b s' r
              ∙ ports-keep ip "LLDP" dev d d.lldp_ports a b q in
            let nets : s'.ip_net_ifs ≡ a.ip_net_ifs = ap (λ v. v.0) kept in
            let ifs : s'.ip_ifs ≡ a.ip_ifs = ap (λ v. v.1) kept in
            (
              λ x. rw nets (
                  for_in-Grows nets_of (int_step ip v4ip dev d)
                    (λ int p. PortIn ip v4ip dev d int p.ips)
                    (λ int p r r' k. (int_step-Grows ip v4ip dev d int p r r' h k).0) d.interfaces s
                    a p x),
              λ x. rw ifs (
                  for_in-Grows ifs_of (int_step ip v4ip dev d) (λ int p. PortAt ip dev d int p.ips)
                    (λ int p r r' k. (int_step-Grows ip v4ip dev d int p r r' h k).1) d.interfaces s
                    a p x),
            )
      ]
    ]

-- No turn fails.
int_step-total :
    (ip : String) (v4ip : ℕ) (dev : String) (d : OfflineDevice) (int : String) (p : Port)
    (s : IpRows)
    → (s' : IpRows) × (int_step ip v4ip dev d int p s ≡ some s')
unfolding int_step net_step
int_step-total ip v4ip dev d int p s = elim (Option-cases p.ips) [
  | inl q ↦ (s, rw q refl)
  | inr (ips, q) ↦ elim (Bool-cases (is_defined (get ip ips))) [
    | inl here ↦ rw (q, here) (_, refl)
    | inr away ↦
        rw (q, away) (for_in-total (net_step v4ip dev d int) (λ if_ip len r. (_, refl)) ips s)
  ]
]

ports-total :
    (ip source dev : String) (d : OfflineDevice) (ports : Obj HeardOn) (s : IpRows)
    → (s' : IpRows) × (for_in (port_step ip source dev d) ports s ≡ some s')
unfolding port_step neigh_step
ports-total ip source dev d =
    for_in-total (port_step ip source dev d) (λ port p.
      for_in-total (neigh_step ip source dev d port p) (λ idx n r. (_, refl)) p.neighbours)

dev_step-total :
    (ip : String) (v4ip : ℕ) (dev : String) (d : OfflineDevice) (s : IpRows)
    → (s' : IpRows) × (dev_step ip v4ip dev d s ≡ some s')
unfolding dev_step
dev_step-total ip v4ip dev d s =
    let (a, p) =
      for_in-total (int_step ip v4ip dev d) (int_step-total ip v4ip dev d) d.interfaces s in
    let (b, q) = ports-total ip "LLDP" dev d d.lldp_ports a in
    let (c, r) = ports-total ip "CDP" dev d d.cdp_ports b in (c, rw (p, q) r)

-- A search for an IPv4 address returns a result. The interfaces that it lists for the network are
-- exactly those without the address itself that have another one, not of the loopback network, whose
-- first bits, as many as its mask is long, are those of the address; and the interfaces that it lists
-- for the address are exactly those that have it.
pub search_ip_info-lists :
    (od : OfflineData) (ip : String) (v4ip : ℕ)
    → v4ip2long (codes ip) ≡ some v4ip
    → (info : IpInfo) × (search_ip_info od ip ≡ some info)
      × ((x : NetIf) → Has x info.rows.ip_net_ifs ↔ ForSome (DeviceIn ip v4ip) od.devs x)
      × ((x : Row) → Has x info.rows.ip_ifs ↔ ForSome (DeviceAt ip) od.devs x)
unfolding search_ip_info
search_ip_info-lists od ip v4ip v =
    let h : v4ip < 2 ^ 32 = v4ip2long-lt (codes ip) v4ip v in
    let (rows, p) = for_in-total (dev_step ip v4ip) (dev_step-total ip v4ip) od.devs no_rows in
    let nets =
      for_in-Grows nets_of (dev_step ip v4ip) (DeviceIn ip v4ip)
        (λ dev d r r' k. (dev_step-Grows ip v4ip dev d r r' h k).0) od.devs no_rows rows p in
    let ifs =
      for_in-Grows ifs_of (dev_step ip v4ip) (DeviceAt ip)
        (λ dev d r r' k. (dev_step-Grows ip v4ip dev d r r' h k).1) od.devs no_rows rows p in
    (
      record { macs = ip_macs ip od.arp []; rows = rows },
      rw (v, p) refl,
      λ x. (λ k. elim ((nets x).0 k) [ inl a ↦ absurd a | inr b ↦ b ], λ b. (nets x).1 (inr b)),
      λ x. (λ k. elim ((ifs x).0 k) [ inl a ↦ absurd a | inr b ↦ b ], λ b. (ifs x).1 (inr b)),
    )
