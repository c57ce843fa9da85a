-- ===== src/Text/Decimal.antt =====
-- A decimal number is read back as it was written, and has as many digits as it should.
use mapper.Prelude.{
  ℕ, zero, suc, ◌+◌, ◌-◌, ◌*◌, ◌/◌, ◌%◌, ◌≤◌, ◌<◌, ◌≡◌, ◌∙◌, true, [], ◌∷◌, All, arith, length, ltb,
  Bool-cases, inl, inr,
}
use mapper.Text.{Text, is_digit, digits_of, decimal, value_from, number}

value_from-digits_of :
    (fuel n : ℕ) (acc : Text) → n < fuel → value_from 0 (digits_of fuel n acc) ≡ value_from n acc
unfolding digits_of value_from
value_from-digits_of zero n acc h = absurd (omega arith)
value_from-digits_of (suc fuel) n acc h = elim (Bool-cases (ltb n 10)) [
  | inl small ↦ rw small (value_at (0 * 10 + (48 + n - 48)) n (ground arith) acc)
  | inr large ↦ rw large (
      value_from-digits_of fuel (n / 10) ((48 + n % 10) ∷ acc) (ground arith)
      ∙ value_at (n / 10 * 10 + (48 + n % 10 - 48)) n (omega arith) acc)
]
  where
    value_at : (a b : ℕ) → a ≡ b → (cs : Text) → value_from a cs ≡ value_from b cs
    value_at a b e cs = rw e

pub number-decimal : (n : ℕ) → number (decimal n) ≡ n
unfolding number decimal
number-decimal n = value_from-digits_of (suc n) n [] (omega arith)

abbrev pub IsNumeral : Text → Type 0
IsNumeral = All (λ c. is_digit c ≡ true)

digits_of-IsNumeral : (fuel n : ℕ) (acc : Text) → IsNumeral acc → IsNumeral (digits_of fuel n acc)
unfolding digits_of
digits_of-IsNumeral zero n acc h = h
digits_of-IsNumeral (suc fuel) n acc h = elim (Bool-cases (ltb n 10)) [
  | inl small ↦ rw small (ground arith, h)
  | inr large ↦ rw large (digits_of-IsNumeral fuel (n / 10) _ (ground arith, h))
]

pub decimal-IsNumeral : (n : ℕ) → IsNumeral (decimal n)
unfolding decimal
decimal-IsNumeral n = digits_of-IsNumeral (suc n) n [] tt

digits_of-ne-nil : (fuel n : ℕ) (acc : Text) → 0 < fuel → 0 < length (digits_of fuel n acc)
unfolding digits_of
digits_of-ne-nil zero n acc h = absurd (omega arith)
digits_of-ne-nil (suc fuel) n acc h = elim (Bool-cases (ltb n 10)) [
  | inl small ↦ rw small (omega arith)
  | inr large ↦ rw large (more fuel (n / 10) ((48 + n % 10) ∷ acc) (omega arith))
]
  where
    more : (fuel n : ℕ) (acc : Text) → 0 < length acc → 0 < length (digits_of fuel n acc)
    more zero n acc h = h
    more (suc fuel) n acc h = elim (Bool-cases (ltb n 10)) [
      | inl small ↦ rw small (omega arith)
      | inr large ↦ rw large (more fuel (n / 10) ((48 + n % 10) ∷ acc) (omega arith))
    ]

pub decimal-pos : (n : ℕ) → 0 < length (decimal n)
unfolding decimal
decimal-pos n = digits_of-ne-nil (suc n) n [] (omega arith)

-- One, two and three digits
length_one : (fuel n : ℕ) (acc : Text) → n < 10 → length (digits_of fuel n acc) ≤ length acc + 1
unfolding digits_of
length_one zero n acc h = omega arith
length_one (suc fuel) n acc h = ground arith

length_two : (fuel n : ℕ) (acc : Text) → n < 100 → length (digits_of fuel n acc) ≤ length acc + 2
unfolding digits_of
length_two zero n acc h = omega arith
length_two (suc fuel) n acc h = ground (arith, length_one fuel (n / 10) ((48 + n % 10) ∷ acc))

length_three : (fuel n : ℕ) (acc : Text) → n < 1000 → length (digits_of fuel n acc) ≤ length acc + 3
unfolding digits_of
length_three zero n acc h = omega arith
length_three (suc fuel) n acc h = ground (arith, length_two fuel (n / 10) ((48 + n % 10) ∷ acc))

pub length-decimal_two : (n : ℕ) → n < 100 → length (decimal n) ≤ 2
unfolding decimal
length-decimal_two n h = omega (arith, length_two (suc n) n [] h)

pub length-decimal_three : (n : ℕ) → n < 1000 → length (decimal n) ≤ 3
unfolding decimal
length-decimal_three n h = omega (arith, length_three (suc n) n [] h)
