-- ===== src/Ipv4/Networks.antt =====
-- Networks: which texts are valid ones, and which network an address is in.
use native.Mathlib.Nat.{mod-le, mod-lt, mul-mod_left}
use mapper.Prelude.{
  ℕ, ◌+◌, ◌-◌, ◌/◌, ◌%◌, ◌^◌, ◌≤◌, ◌<◌, ◌≡◌, refl, ◌∙◌, ap, arith, true, false, leb, ◌&&◌, none,
  some, ◌==◌, Bool-cases, inl, inr, leb→le, if◌then◌else◌, [], ◌∷◌, ◌++◌, append_assoc, append-nil,
}
use mapper.Text.{Text, decimal, literal, at_end}
use mapper.Text.Decimal.{number-decimal}
use mapper.Text.Groups.{group_two}
use mapper.Ipv4.{Octets, ip4octets, too_large, v4long2ip, match_cidr, cidr_valid, ip4net}
use mapper.Ipv4.Dotted.{dotted, match_octets-dotted, v4oct2long-ip4octets}
use mapper.Ipv4.Masks.{get_elem?-v4len2mask, no_mask, bit_and-mask, low_cleared, host_width}

-- An address with the length of a mask
abbrev pub slashed : ℕ → ℕ → Text
slashed net len = v4long2ip net ++ b'/' ∷ decimal len

slashed-dotted : (net len : ℕ) → slashed net len ≡ dotted (ip4octets net) (b'/' ∷ decimal len)
unfolding v4long2ip
slashed-dotted net len = simp append_assoc

match_cidr-slashed :
    (net len : ℕ)
    → net < 2 ^ 32
    → len < 100
    → match_cidr (slashed net len) ≡ some (ip4octets net, len)
unfolding match_cidr literal at_end
match_cidr-slashed net len h l =
    let (p3, p2, p1, p0, e) = v4oct2long-ip4octets net h in
    rw (slashed-dotted net len) (
      rw
        (match_octets-dotted (ip4octets net) (b'/' ∷ decimal len) (omega arith) (omega arith)
          (omega arith) (omega arith) refl)
        (rw (rw append-nil at (group_two len [] l tt)) (simp number-decimal)))

too_large-false :
    (o : Octets) → o.o3 ≤ 255 → o.o2 ≤ 255 → o.o1 ≤ 255 → o.o0 ≤ 255 → too_large o ≡ false
too_large-false o p3 p2 p1 p0 = ground arith

-- An address is equal to itself without its low bits exactly when these are zero.
same_cleared : (n r : ℕ) → r ≤ n → (n == (n - r)) ≡ (r == 0)
same_cleared n r h = ground arith

-- The text `a.b.c.d/len` of an address below 2 ^ 32 and a length below 100 is accepted by
-- `cidr_valid` exactly when `len` is at most 32 and the last `32 - len` bits of the address are
-- zero.
pub cidr_valid-slashed :
    (net len : ℕ)
    → net < 2 ^ 32
    → len < 100
    → cidr_valid (slashed net len) ≡ (leb len 32 && (net % 2 ^ (32 - len) == 0))
unfolding cidr_valid
cidr_valid-slashed net len h l =
    let (p3, p2, p1, p0, e) = v4oct2long-ip4octets net h in
    rw (match_cidr-slashed net len h l, cidr_valid)
      (rw (too_large-false (ip4octets net) p3 p2 p1 p0) (elim (Bool-cases (leb len 32)) [
        | inl small ↦
            let le : len ≤ 32 = leb→le len 32 small in
            rw (e, get_elem?-v4len2mask len le)
              (rw (bit_and-mask net len h le) (
                rw (same_cleared net (net % 2 ^ (32 - len)) (mod-le net (2 ^ (32 - len))))
                  (ground arith)))
        | inr large ↦ ground arith
      ]))

-- For an address below 2 ^ 32, `ip4net` clears the last `32 - len` bits, and throws exactly when
-- `len` is more than 32.
pub ip4net_lem :
    (ip len : ℕ)
    → ip < 2 ^ 32
    → ip4net ip len ≡ (if leb len 32 then some (ip - ip % 2 ^ (32 - len)) else none)
unfolding ip4net
ip4net_lem ip len h = elim (Bool-cases (leb len 32)) [
  | inl small ↦
      let le : len ≤ 32 = leb→le len 32 small in
      rw small (rw (get_elem?-v4len2mask len le) (rw (bit_and-mask ip len h le)))
  | inr large ↦ rw large (rw (no_mask len (ground arith)))
]

sub_mod : (n m : ℕ) → (n - n % m) % m ≡ 0
sub_mod n m = rw (← low_cleared n m) (mul-mod_left (n / m) m)

-- For an address below 2 ^ 32, the network that `ip4net` returns holds the address, is its own
-- network, and is accepted by `cidr_valid` when it is printed with the length of the mask.
pub ip4net_network :
    (ip len net : ℕ)
    → ip < 2 ^ 32
    → ip4net ip len ≡ some net
    → (net ≤ ip)
      × (ip < net + 2 ^ (32 - len))
      × (ip4net net len ≡ some net)
      × (cidr_valid (slashed net len) ≡ true)
ip4net_network ip len net h e = elim (Bool-cases (leb len 32)) [
  | inl small ↦
      let le : len ≤ 32 = leb→le len 32 small in
      let w : ℕ = 2 ^ (32 - len) in
      let is_net : net ≡ ip - ip % w = ground (arith, ip4net_lem ip len h) in
      let aligned : net % w ≡ 0 = rw is_net (sub_mod ip w) in
      let below : net ≤ ip = omega arith in
      (
        below,
        omega (arith, mod-lt ip (host_width len le), mod-le ip w),
        ip4net_lem net len (omega arith) ∙ rw small (rw aligned (ap some (omega arith))),
        cidr_valid-slashed net len (omega arith) (omega arith) ∙ rw small (rw aligned),
      )
  | inr large ↦ absurd (ground (arith, ip4net_lem ip len h))
]
