-- ===== src/Offline/IpSearch/Networks.antt =====
-- The interfaces that `search_ip_info` finds in the network of an address.
use native.Mathlib.Nat.{mul-div_cancel}
use mapper.Prelude.{
  ℕ, ◌-◌, ◌*◌, ◌/◌, ◌%◌, ◌^◌, ◌≤◌, ◌<◌, ◌≡◌, refl, sym, ◌∙◌, ap, ◌↔◌, inl, inr, String, some, true,
  false, arith, Option-cases, leb, ◌==◌, ==_iff,
}
use mapper.Text.{codes}
use mapper.Ipv4.{v4ip2long, ip4net}
use mapper.Ipv4.Dotted.{v4ip2long-lt}
use mapper.Ipv4.Networks.{ip4net_lem}
use mapper.Ipv4.Masks.{host_width, low_cleared}
use mapper.Offline.IpSearch.{is_local, equal_nets, net_match}

same_prefix : (a b w : ℕ) → 0 < w → a - a % w ≡ b - b % w → a / w ≡ b / w
same_prefix a b w h e =
    sym (mul-div_cancel (a / w) h)
    ∙ ap (λ x. x / w) (low_cleared a w ∙ e ∙ sym (low_cleared b w))
    ∙ mul-div_cancel (b / w) h

same_net : (a b w : ℕ) → a / w ≡ b / w → a - a % w ≡ b - b % w
same_net a b w e = sym (low_cleared a w) ∙ ap (λ x. x * w) e ∙ low_cleared b w

-- The first `len` bits of two addresses are the same.
abbrev pub SamePrefix : ℕ → ℕ → ℕ → Type 0
SamePrefix len a b = a / 2 ^ (32 - len) ≡ b / 2 ^ (32 - len)

-- What makes the address of an interface one of the network of `v4ip`
abbrev pub InNetwork : ℕ → String → ℕ → Type 0
InNetwork v4ip if_ip len =
    (is_local (codes if_ip) ≡ false)
    × (1 ≤ len)
    × (len ≤ 32)
    × ((u : ℕ) × (v4ip2long (codes if_ip) ≡ some u) × SamePrefix len u v4ip)

equal_nets_lem :
    (a b len : ℕ)
    → a < 2 ^ 32
    → b < 2 ^ 32
    → len ≤ 32
    → (equal_nets (ip4net a len) (ip4net b len) ≡ true) ↔ SamePrefix len a b
equal_nets_lem a b len h k le =
    let small : leb len 32 ≡ true = ground arith in
    let w : ℕ = 2 ^ (32 - len) in
    let nets : equal_nets (ip4net a len) (ip4net b len) ≡ ((a - a % w) == (b - b % w)) =
      rw (ip4net_lem a len h, ip4net_lem b len k, small) refl in
    (
      λ e.
          same_prefix a b w (host_width len le) ((==_iff (a - a % w) (b - b % w)).0 (sym nets ∙ e)),
      λ e. nets ∙ (==_iff (a - a % w) (b - b % w)).1 (same_net a b w e),
    )

-- The tests of the loop pass exactly the addresses of the network.
pub net_match-InNetwork :
    (v4ip : ℕ) (if_ip : String) (len : ℕ)
    → v4ip < 2 ^ 32
    → (net_match v4ip if_ip len ≡ true) ↔ InNetwork v4ip if_ip len
unfolding net_match
net_match-InNetwork v4ip if_ip len h = elim (Option-cases (v4ip2long (codes if_ip))) [
  | inl p ↦ (λ e. absurd (ground (arith, p, e)), λ t. absurd (ground (arith, p, t.3.1)))
  | inr (u, p) ↦
      let below : u < 2 ^ 32 = v4ip2long-lt (codes if_ip) u p in
      (
        λ e.
            let le : len ≤ 32 = ground (arith, e) in
            let same : equal_nets (ip4net u len) (ip4net v4ip len) ≡ true = ground (arith, e, p) in
            (
              ground (arith, e),
              ground (arith, e),
              le,
              (u, p, (equal_nets_lem u v4ip len below h le).0 same),
            ),
        λ t.
            let (far, one, le, (u', q, same)) = t in
            let e : u' ≡ u = ground (arith, p, q) in
            let nets : equal_nets (ip4net u len) (ip4net v4ip len) ≡ true =
              (equal_nets_lem u v4ip len below h le).1 (rw e at same) in
            ground (arith, far, one, le, p, nets),
      )
]
