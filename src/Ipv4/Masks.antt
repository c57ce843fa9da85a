-- ===== src/Ipv4/Masks.antt =====
-- What the table of masks holds, and what a mask does to an address.
use Prim.Native.Nat.{bit_and}
use native.Mathlib.Nat.{mod-eq-sub-div-mul, div-mul-le_self, div-lt_iff_lt-mul}
use mapper.Prelude.{
  ℕ, zero, suc, ◌+◌, ℕ_discrete, ◌-◌, ◌*◌, ◌/◌, ◌%◌, ◌^◌, ◌≤◌, ◌<◌, ◌≡◌, refl, ◌∙◌, ap, arith, Bool,
  true, false, ◌&&◌, Option, none, some, get_elem?, ◌==◌, ==_iff, ltb, ltb→lt, get_elem?_past,
}
use mapper.Ipv4.{v4len2mask}
use mapper.Ipv4.Bits.{bit_and-shift, bit_and-ones}

-- `len` ones in front of `32 - len` zeros
abbrev pub mask : ℕ → ℕ
mask len = (2 ^ len - 1) * 2 ^ (32 - len)

-- A test of the lengths from `len` on, `left` of them
each_len : (ℕ → Bool) → ℕ → ℕ → Bool
each_len test zero len = true
each_len test (suc left) len = test len && each_len test left (len + 1)

passed :
    (test : ℕ → Bool) (left start len : ℕ)
    → each_len test left start ≡ true
    → start ≤ len
    → len < start + left
    → test len ≡ true
unfolding each_len
passed test zero start len e above below = absurd (omega arith)
passed test (suc left) start len e above below = elim (ℕ_discrete start len) [
  | yes p ↦ ground (arith, p, e)
  | no p ↦ passed test left (start + 1) len (ground (arith, e)) (omega arith) (omega arith)
]

every_mask : (test : ℕ → Bool) (len : ℕ) → each_len test 33 0 ≡ true → len ≤ 32 → test len ≡ true
every_mask test len e h = passed test 33 0 len e (omega arith) (omega arith)

abbrev holds : Option ℕ → ℕ → Bool
holds none n = false
holds (some m) n = m == n

holds-eq : (o : Option ℕ) (n : ℕ) → holds o n ≡ true → o ≡ some n
holds-eq none n h = cc
holds-eq (some m) n h = ap some ((==_iff m n).0 h)

table : each_len (λ len. holds (get_elem? v4len2mask len) (mask len)) 33 0 ≡ true
unfolding each_len
table = refl

-- The table has the mask of every length up to 32.
pub get_elem?-v4len2mask : (len : ℕ) → len ≤ 32 → get_elem? v4len2mask len ≡ some (mask len)
get_elem?-v4len2mask len h =
    holds-eq _ _ (every_mask (λ len. holds (get_elem? v4len2mask len) (mask len)) len table h)

-- It has no other masks.
pub no_mask : (len : ℕ) → 32 < len → get_elem? v4len2mask len ≡ none
no_mask len h = get_elem?_past v4len2mask len (omega arith)

powers : each_len (λ len. 2 ^ len * 2 ^ (32 - len) == 2 ^ 32) 33 0 ≡ true
unfolding each_len
powers = refl

split_width : (len : ℕ) → len ≤ 32 → 2 ^ len * 2 ^ (32 - len) ≡ 2 ^ 32
split_width len h =
    (==_iff _ _).0 (every_mask (λ len. 2 ^ len * 2 ^ (32 - len) == 2 ^ 32) len powers h)

positive : each_len (λ len. ltb 0 (2 ^ (32 - len))) 33 0 ≡ true
unfolding each_len
positive = refl

pub host_width : (len : ℕ) → len ≤ 32 → 0 < 2 ^ (32 - len)
host_width len h = ltb→lt _ _ (every_mask (λ len. ltb 0 (2 ^ (32 - len))) len positive h)

pub low_cleared : (n m : ℕ) → n / m * m ≡ n - n % m
low_cleared n m = omega (arith, mod-eq-sub-div-mul n m, div-mul-le_self n m)

-- A mask of `len` ones clears the `32 - len` low bits of an address.
pub bit_and-mask :
    (ip len : ℕ) → ip < 2 ^ 32 → len ≤ 32 → bit_and ip (mask len) ≡ ip - ip % 2 ^ (32 - len)
bit_and-mask ip len h l =
    let w : ℕ = 2 ^ (32 - len) in
    let small : ip / w < 2 ^ len =
      (div-lt_iff_lt-mul (host_width len l)).1 (rw (split_width len l) h) in
    bit_and-shift (32 - len) ip (2 ^ len - 1)
    ∙ rw (bit_and-ones len (ip / w) small) (low_cleared ip w)
