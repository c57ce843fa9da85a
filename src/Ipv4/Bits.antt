-- ===== src/Ipv4/Bits.antt =====
-- `&` with a mask of leading ones clears the low bits.
use Prim.Native.Nat.{min, bit_and, digits, bit_and-bitwise}
use native.Mathlib.Nat.{pow-suc, div-div-eq-div-mul, mul_comm}
use mapper.Prelude.{
  ℕ, zero, suc, ◌+◌, ◌-◌, ◌*◌, ◌/◌, ◌%◌, ◌^◌, ◌≤◌, ◌<◌, ◌≡◌, refl, ◌∙◌, ap, sym, arith,
}

-- What `&` computes by definition, bit by bit, for as long as `left` lasts.
abbrev bits : ℕ → ℕ → ℕ → ℕ
bits left x y = digits (λ d. zero) min left x y

-- More steps than `x` has bits change nothing.
bits_spare : (left more x y : ℕ) → x ≤ left → left ≤ more → bits more x y ≡ bits left x y
bits_spare zero more x y h k = let none : x ≡ 0 = omega arith in rw none (run_out more)
  where
    run_out : (n : ℕ) → bits n 0 y ≡ bits 0 0 y
    run_out zero = refl
    run_out (suc n) = refl
bits_spare (suc left) zero x y h k = absurd (omega arith)
bits_spare (suc left) (suc more) zero y h k = refl
bits_spare (suc left) (suc more) (suc x) y h k =
    let half : suc x / 2 ≤ left = omega arith in
    omega (arith, bits_spare left more (suc x / 2) (y / 2) half (omega arith))

bit_and-bits : (left x y : ℕ) → x ≤ left → bit_and x y ≡ bits left x y
bit_and-bits left x y h = bit_and-bitwise x y ∙ sym (bits_spare x left x y (omega arith) h)

-- The bits above the lowest, and the lowest
bit_and_halves : (x y : ℕ) → bit_and x y ≡ bit_and (x / 2) (y / 2) * 2 + min (x % 2) (y % 2)
bit_and_halves x y =
    let here : bit_and x y ≡ bits (suc x) x y = bit_and-bits (suc x) x y (omega arith) in
    let above : bit_and (x / 2) (y / 2) ≡ bits x (x / 2) (y / 2) =
      bit_and-bits x (x / 2) (y / 2) (omega arith) in
    rw (here, above) (split x)
  where
    split : (z : ℕ) → bits (suc z) z y ≡ bits z (z / 2) (y / 2) * 2 + min (z % 2) (y % 2)
    split zero = omega arith
    split (suc z) = omega arith

-- An even operand
bit_and-even : (x y : ℕ) → bit_and x (y * 2) ≡ bit_and (x / 2) y * 2
bit_and-even x y =
    let half : y * 2 / 2 ≡ y = omega arith in rw bit_and_halves (rw half (omega arith))

pub bit_and-shift : (j x y : ℕ) → bit_and x (y * 2 ^ j) ≡ bit_and (x / 2 ^ j) y * 2 ^ j
bit_and-shift zero x y =
    let e : y * 2 ^ 0 ≡ y = omega arith in
    let f : x / 2 ^ 0 ≡ x = omega arith in rw (e, f) (omega arith)
bit_and-shift (suc j) x y =
    let e : y * 2 ^ suc j ≡ y * 2 ^ j * 2 = omega (arith, ap (λ (t : ℕ). y * t) (pow-suc 2 j)) in
    let f : x / 2 ^ suc j ≡ x / 2 / 2 ^ j =
      ap (λ (t : ℕ). x / t) (pow-suc 2 j ∙ mul_comm (2 ^ j) 2)
      ∙ sym (div-div-eq-div-mul x 2 (2 ^ j)) in
    rw (e, f)
      (bit_and-even x (y * 2 ^ j)
        ∙ omega (
          arith,
          bit_and-shift j (x / 2) y,
          ap (λ (t : ℕ). bit_and (x / 2 / 2 ^ j) y * t) (pow-suc 2 j),
        ))

pub bit_and-ones : (k x : ℕ) → x < 2 ^ k → bit_and x (2 ^ k - 1) ≡ x
bit_and-ones zero x h = let e : x ≡ 0 = omega arith in rw e
bit_and-ones (suc k) x h =
    let half : (2 ^ suc k - 1) / 2 ≡ 2 ^ k - 1 = omega (arith, pow-suc 2 k) in
    bit_and_halves x (2 ^ suc k - 1)
    ∙ rw half (omega (arith, pow-suc 2 k, bit_and-ones k (x / 2) (omega (arith, pow-suc 2 k))))
