-- ===== src/Ipv4/Dotted.antt =====
-- An address is read back as it was written.
use mapper.Prelude.{
  ℕ, ◌^◌, ◌≤◌, ◌<◌, ◌≡◌, refl, true, false, Bool, not, ◌&&◌, Option, none, some, [], ◌∷◌, ◌++◌,
  append-nil, arith,
}
use mapper.Text.{Text, decimal, literal, at_end, ◌>>=◌}
use mapper.Text.Decimal.{number-decimal}
use mapper.Text.Groups.{Stops, group_three}
use mapper.Ipv4.{
  Octets, v4oct2long, match_octets, too_large, checked, v4ip2long, ip4octets, v4long2ip,
}

-- The octets of a number are bytes, and make up the number.
pub v4oct2long-ip4octets :
    (net : ℕ)
    → net < 2 ^ 32
    → ((ip4octets net).o3 ≤ 255)
      × ((ip4octets net).o2 ≤ 255)
      × ((ip4octets net).o1 ≤ 255)
      × ((ip4octets net).o0 ≤ 255)
      × (v4oct2long (ip4octets net).o3 (ip4octets net).o2 (ip4octets net).o1 (ip4octets net).o0
          ≡ net)
unfolding v4oct2long ip4octets
v4oct2long-ip4octets net h = omega arith

pub v4oct2long-lt : (a b c d : ℕ) → v4oct2long a b c d < 2 ^ 32
unfolding v4oct2long
v4oct2long-lt a b c d = omega arith

-- Four numbers up to 255 come back by `ip4octets` from the number that `v4oct2long` makes of them.
pub ip4octets-v4oct2long :
    (a b c d : ℕ)
    → a ≤ 255
    → b ≤ 255
    → c ≤ 255
    → d ≤ 255
    → ip4octets (v4oct2long a b c d) ≡ record { o3 = a; o2 = b; o1 = c; o0 = d }
unfolding v4oct2long ip4octets
ip4octets-v4oct2long a b c d p q r s = ground arith

-- The text of four numbers below 1000, with what follows.
abbrev pub dotted : Octets → Text → Text
dotted o rest =
    decimal o.o3 ++ b'.' ∷ (decimal o.o2 ++ b'.' ∷ (decimal o.o1 ++ b'.' ∷ (decimal o.o0 ++ rest)))

pub match_octets-dotted :
    (o : Octets) (rest : Text)
    → o.o3 < 1000
    → o.o2 < 1000
    → o.o1 < 1000
    → o.o0 < 1000
    → Stops rest
    → match_octets (dotted o rest) ≡ some (o, rest)
unfolding match_octets literal
match_octets-dotted o rest p3 p2 p1 p0 s = rw (group_three o.o3 _ p3 refl) (
    rw (group_three o.o2 _ p2 refl)
      (rw (group_three o.o1 _ p1 refl) (rw (group_three o.o0 rest p0 s) (simp number-decimal))))

v4long2ip-dotted : (net : ℕ) → v4long2ip net ≡ dotted (ip4octets net) []
unfolding v4long2ip
v4long2ip-dotted net = rw append-nil

-- An address, that is a number below 2 ^ 32, comes back when it is printed by `v4long2ip` and parsed
-- by `v4ip2long`.
pub v4ip2long-v4long2ip : (net : ℕ) → net < 2 ^ 32 → v4ip2long (v4long2ip net) ≡ some net
unfolding v4ip2long at_end
v4ip2long-v4long2ip net h =
    let (p3, p2, p1, p0, e) = v4oct2long-ip4octets net h in
    let o = ip4octets net in
    rw (v4long2ip-dotted net) (
      rw (match_octets-dotted o [] (omega arith) (omega arith) (omega arith) (omega arith) tt)
        (ground (arith, e)))

checked_lt : (b : Bool) (m : Octets) (n : ℕ) → checked b m ≡ some n → n < 2 ^ 32
checked_lt true m n h = ground (arith, v4oct2long-lt m.o3 m.o2 m.o1 m.o0)
checked_lt false m n h = ground arith

pub v4ip2long-lt : (ip : Text) (n : ℕ) → v4ip2long ip ≡ some n → n < 2 ^ 32
unfolding v4ip2long
v4ip2long-lt ip n h = go (match_octets ip) refl
  where
    go : (o : Option (Octets × Text)) → match_octets ip ≡ o → n < 2 ^ 32
    go none e = ground (arith, e)
    go (some (m, rest)) e = checked_lt (at_end rest && not (too_large m)) m n (rw (e, ◌>>=◌) at h)

-- When `v4ip2long` accepts a text with the number `n`, `n` is below 2 ^ 32, and the text that
-- `v4long2ip` prints for `n` is accepted with `n` too.
pub v4ip2long_normalises :
    (ip : Text) (n : ℕ) → v4ip2long ip ≡ some n → (n < 2 ^ 32) × (v4ip2long (v4long2ip n) ≡ some n)
v4ip2long_normalises ip n h = (v4ip2long-lt ip n h, v4ip2long-v4long2ip n (v4ip2long-lt ip n h))
