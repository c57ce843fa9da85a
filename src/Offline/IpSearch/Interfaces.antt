-- ===== src/Offline/IpSearch/Interfaces.antt =====
-- The lists of interfaces that `search_ip_info` returns.
use mapper.Prelude.{
  ℕ, ◌^◌, ◌<◌, ◌≡◌, inl, inr, String, Option, none, some, true, false, List, [], ◌∷◌, ◌++◌, arith,
  Bool-cases, Option-cases,
}
use mapper.Prelude.Obj.{Obj, get, is_defined}
use mapper.Offline.{Port, OfflineDevice}
use mapper.Offline.ForIn.{
  append-Grows, same-Grows, for_in, for_in-Grows, for_in-keeps, ForSome, Grows,
}
use mapper.Offline.Rows.{Row, dev_row}
use mapper.Offline.IpSearch.{IpRows, NetIf, net_match, net_if, net_step, int_step}
use mapper.Offline.IpSearch.Networks.{InNetwork, net_match-InNetwork}

abbrev pub nets_of : IpRows → List NetIf
nets_of s = s.ip_net_ifs

abbrev pub ifs_of : IpRows → List Row
ifs_of s = s.ip_ifs

-- An address of a port that is in the network
abbrev pub AddressIn : ℕ → String → OfflineDevice → String → String → ℕ → NetIf → Type 0
AddressIn v4ip dev d int if_ip len x = InNetwork v4ip if_ip len × (x ≡ net_if dev d int if_ip len)

-- A port that does not have the address itself, but one in its network
abbrev pub PortIn : String → ℕ → String → OfflineDevice → String → Option (Obj ℕ) → NetIf → Type 0
PortIn ip v4ip dev d int none x = ⊥
PortIn ip v4ip dev d int (some ips) x =
    (is_defined (get ip ips) ≡ false) × ForSome (AddressIn v4ip dev d int) ips x

-- A port that has the address
abbrev pub PortAt : String → String → OfflineDevice → String → Option (Obj ℕ) → Row → Type 0
PortAt ip dev d int none x = ⊥
PortAt ip dev d int (some ips) x = (is_defined (get ip ips) ≡ true) × (x ≡ dev_row dev d int)

net_step-Grows :
    (v4ip : ℕ) (dev : String) (d : OfflineDevice) (int if_ip : String) (len : ℕ) (s s' : IpRows)
    → v4ip < 2 ^ 32
    → net_step v4ip dev d int if_ip len s ≡ some s'
    → Grows nets_of s s' (AddressIn v4ip dev d int if_ip len)
unfolding net_step
net_step-Grows v4ip dev d int if_ip len s s' h e =
    let (there, back) = net_match-InNetwork v4ip if_ip len h in
    elim (Bool-cases (net_match v4ip if_ip len)) [
      | inl p ↦
          let y = net_if dev d int if_ip len in
          let same : record s { ip_net_ifs = s.ip_net_ifs ++ y ∷ [] } ≡ s' = ground (arith, p, e) in
          rw (← same) (
            append-Grows s.ip_net_ifs y (AddressIn v4ip dev d int if_ip len)
              (λ x. (λ t. t.1, λ q. (there p, q))))
      | inr p ↦
          let same : s ≡ s' = ground (arith, p, e) in
          rw (← same) (λ x.
            same-Grows s.ip_net_ifs (AddressIn v4ip dev d int if_ip len) x
              (λ t. absurd (ground (arith, p, back t.0))))
    ]

net_step-keeps :
    (v4ip : ℕ) (dev : String) (d : OfflineDevice) (int if_ip : String) (len : ℕ) (s s' : IpRows)
    → net_step v4ip dev d int if_ip len s ≡ some s'
    → ifs_of s' ≡ ifs_of s
unfolding net_step
net_step-keeps v4ip dev d int if_ip len s s' e = ground (arith, e)

pub int_step-Grows :
    (ip : String) (v4ip : ℕ) (dev : String) (d : OfflineDevice) (int : String) (p : Port)
    (s s' : IpRows)
    → v4ip < 2 ^ 32
    → int_step ip v4ip dev d int p s ≡ some s'
    → Grows nets_of s s' (PortIn ip v4ip dev d int p.ips)
      × Grows ifs_of s s' (PortAt ip dev d int p.ips)
unfolding int_step
int_step-Grows ip v4ip dev d int p s s' h e = elim (Option-cases p.ips) [
  | inl q ↦
      let same : s ≡ s' = ground (arith, q, e) in
      rw (q, ← same)
        (
          λ x. same-Grows (nets_of s) (PortIn ip v4ip dev d int none) x (λ t. t),
          λ x. same-Grows (ifs_of s) (PortAt ip dev d int none) x (λ t. t),
        )
  | inr (ips, q) ↦ elim (Bool-cases (is_defined (get ip ips))) [
    | inl here ↦
        let y = dev_row dev d int in
        let same : record s { ip_ifs = s.ip_ifs ++ y ∷ [] } ≡ s' = ground (arith, q, here, e) in
        rw (q, ← same)
          (
            λ x.
                same-Grows s.ip_net_ifs (PortIn ip v4ip dev d int (some ips)) x
                  (λ t. ground (arith, here, t.0)),
            append-Grows s.ip_ifs y (PortAt ip dev d int (some ips))
                (λ x. (λ t. t.1, λ q. (here, q))),
          )
    | inr away ↦
        let loop : for_in (net_step v4ip dev d int) ips s ≡ some s' = ground (arith, q, away, e) in
        let kept : ifs_of s' ≡ ifs_of s =
          for_in-keeps ifs_of (net_step v4ip dev d int) (net_step-keeps v4ip dev d int) ips s s'
            loop in
        let grown =
          for_in-Grows nets_of (net_step v4ip dev d int) (AddressIn v4ip dev d int)
            (λ if_ip len r r' k. net_step-Grows v4ip dev d int if_ip len r r' h k) ips s s' loop in
        rw q (
          λ x. (
            λ k. elim ((grown x).0 k) [ inl a ↦ inl a | inr b ↦ inr (away, b) ],
            λ k. elim k [ inl a ↦ (grown x).1 (inl a) | inr b ↦ (grown x).1 (inr b.1) ],
          ),
          λ x. rw kept (
              same-Grows (ifs_of s) (PortAt ip dev d int (some ips)) x
                (λ t. ground (arith, away, t.0))),
        )
  ]
]
