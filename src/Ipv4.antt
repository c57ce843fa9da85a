-- ===== src/Ipv4.antt =====
-- IPv4 addresses and networks of map-broker/www/mapper.js, as numbers below 2 ^ 32.
pub mod Dotted
pub mod Bits
pub mod Masks
pub mod Networks
mod Examples
use Prim.Native.Nat.{bit_and}
use mapper.Prelude.{
  ℕ, suc, ◌+◌, ◌-◌, ◌*◌, ◌/◌, ◌%◌, ◌^◌, Option, none, some, Bool, true, false, not, ◌&&◌, ◌||◌,
  List, [], ◌∷◌, ◌++◌, get_elem?, ltb, ◌==◌, if◌then◌else◌,
}
use mapper.Text.{Text, codes, ◌>>=◌, decimal, number, group, literal, at_end}

-- `const v4len2mask` (and `v4len2maskN`, the same numbers as `BigInt`)
abbrev pub v4len2mask : List ℕ
v4len2mask =
    0 ∷ 2147483648 ∷ 3221225472 ∷ 3758096384 ∷ 4026531840 ∷ 4160749568 ∷ 4227858432 ∷ 4261412864
    ∷ 4278190080 ∷ 4286578688 ∷ 4290772992 ∷ 4292870144 ∷ 4293918720 ∷ 4294443008 ∷ 4294705152
    ∷ 4294836224 ∷ 4294901760 ∷ 4294934528 ∷ 4294950912 ∷ 4294959104 ∷ 4294963200 ∷ 4294965248
    ∷ 4294966272 ∷ 4294966784 ∷ 4294967040 ∷ 4294967168 ∷ 4294967232 ∷ 4294967264 ∷ 4294967280
    ∷ 4294967288 ∷ 4294967292 ∷ 4294967294 ∷ 4294967295 ∷ []

-- The four groups of an address, and what follows them.
pub record Octets : Type 0 where
  pub o3 : ℕ
  pub o2 : ℕ
  pub o1 : ℕ
  pub o0 : ℕ

-- `>>> 0` is the remainder by 2 ^ 32.
unfoldable pub v4oct2long : ℕ → ℕ → ℕ → ℕ → ℕ
v4oct2long i3 i2 i1 i0 = (i3 * 16777216 + i2 * 65536 + i1 * 256 + i0) % 2 ^ 32

-- `(\d{1,3})\.(\d{1,3})\.(\d{1,3})\.(\d{1,3})`
unfoldable pub match_octets : Text → Option (Octets × Text)
match_octets cs = do
  (m1, cs1) ← group 3 cs
  cs2 ← literal b'.' cs1
  (m2, cs3) ← group 3 cs2
  cs4 ← literal b'.' cs3
  (m3, cs5) ← group 3 cs4
  cs6 ← literal b'.' cs5
  (m4, cs7) ← group 3 cs6
  some (record { o3 = number m1; o2 = number m2; o1 = number m3; o0 = number m4 }, cs7)

abbrev pub too_large : Octets → Bool
too_large m = ltb 255 m.o3 || ltb 255 m.o2 || ltb 255 m.o1 || ltb 255 m.o0

abbrev checked : Bool → Octets → Option ℕ
checked true m = some (v4oct2long m.o3 m.o2 m.o1 m.o0)
checked false m = none

-- `none` is `false`.
unfoldable pub v4ip2long : Text → Option ℕ
v4ip2long ip = do (m, rest) ← match_octets ip; checked (at_end rest && not (too_large m)) m

-- `net & 0xFFFFFF` and the like take the low bits.
unfoldable pub ip4octets : ℕ → Octets
ip4octets net = record {
  o3 = net / 16777216;
  o2 = net % 2 ^ 24 / 65536;
  o1 = net % 2 ^ 16 / 256;
  o0 = net % 2 ^ 8;
}

unfoldable pub v4long2ip : ℕ → Text
unfolding ip4octets
v4long2ip net =
    let o = ip4octets net in
    decimal o.o3 ++ b'.' ∷ (decimal o.o2 ++ b'.' ∷ (decimal o.o1 ++ b'.' ∷ decimal o.o0))

-- The address and the length of `a.b.c.d/len`
unfoldable pub match_cidr : Text → Option (Octets × ℕ)
match_cidr cidr = do
  (m, cs1) ← match_octets cidr
  cs2 ← literal b'/' cs1
  (m5, cs3) ← group 2 cs2
  if at_end cs3 then some (m, number m5) else none

-- `(ip & mask) >>> 0` with both below 2 ^ 32; an undefined mask counts as 0 there.
abbrev masked : ℕ → Option ℕ → ℕ
masked ip none = 0
masked ip (some mask) = bit_and ip mask

unfoldable pub cidr_valid : Text → Bool
cidr_valid cidr = elim (match_cidr cidr) [
  | none ↦ false
  | some (m, len) ↦
      if too_large m || ltb 32 len
      then false
      else let ip = v4oct2long m.o3 m.o2 m.o1 m.o0 in ip == masked ip (get_elem? v4len2mask len)
]

-- `none`: a mask that is not in the table is undefined, and `&` throws.
unfoldable pub ip4net : ℕ → ℕ → Option ℕ
ip4net ip masklen = do mask ← get_elem? v4len2mask masklen; some (bit_and ip mask)

-- `(~mask) >>> 0`
unfoldable pub wildcard : ℕ → ℕ
wildcard mask = 2 ^ 32 - 1 - mask

-- `v4long2ip` of an undefined mask is "NaN.0.0.0", and its complement is all ones.
unfoldable pub net_mask_wc : ℕ → ℕ → Text
net_mask_wc net masklen =
    v4long2ip net
    ++ (b'/'
        ∷ (decimal masklen ++ (b' ' ∷ b'(' ∷ (masks (get_elem? v4len2mask masklen) ++ b')' ∷ []))))
  where
    masks : Option ℕ → Text
    masks none = codes "NaN.0.0.0 255.255.255.255"
    masks (some mask) = v4long2ip mask ++ (b' ' ∷ v4long2ip (wildcard mask))

-- `Number("0x" + hex)` is the parameter `value`.
unfoldable pub hex2ip : (Text → ℕ) → Text → Text
hex2ip value hex = v4long2ip (value hex)
