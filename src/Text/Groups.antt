-- ===== src/Text/Groups.antt =====
-- A group of digits is matched where it was written.
use mapper.Prelude.{ℕ, zero, suc, ◌≤◌, ◌<◌, ◌≡◌, refl, false, some, [], ◌∷◌, ◌++◌, arith, length}
use mapper.Text.{Text, is_digit, span_digits, group, literal, decimal}
use mapper.Text.Decimal.{
  IsNumeral, decimal-IsNumeral, decimal-pos, length-decimal_two, length-decimal_three,
}

-- What follows a group of digits does not begin with one.
abbrev pub Stops : Text → Type 0
Stops [] = Unit
Stops (c ∷ cs) = is_digit c ≡ false

span_digits-append :
    (k : ℕ) (ds rest : Text)
    → IsNumeral ds
    → Stops rest
    → length ds ≤ k
    → span_digits k (ds ++ rest) ≡ (ds, rest)
unfolding span_digits
span_digits-append zero [] rest h s l = refl
span_digits-append zero (d ∷ ds) rest h s l = absurd (omega arith)
span_digits-append (suc k) [] [] h s l = refl
span_digits-append (suc k) [] (c ∷ rest) h s l = rw s
span_digits-append (suc k) (d ∷ ds) rest h s l =
    rw h.0 (rw (span_digits-append k ds rest h.1 s (omega arith)))

pub group-append :
    (k : ℕ) (ds rest : Text)
    → IsNumeral ds
    → Stops rest
    → length ds ≤ k
    → 0 < length ds
    → group k (ds ++ rest) ≡ some (ds, rest)
unfolding group
group-append k [] rest h s l p = absurd (omega arith)
group-append k (d ∷ ds) rest h s l p = rw (span_digits-append k (d ∷ ds) rest h s l)

pub group_three :
    (n : ℕ) (rest : Text)
    → n < 1000
    → Stops rest
    → group 3 (decimal n ++ rest) ≡ some (decimal n, rest)
group_three n rest h s =
    group-append 3 (decimal n) rest (decimal-IsNumeral n) s (length-decimal_three n h)
      (decimal-pos n)

pub group_two :
    (n : ℕ) (rest : Text)
    → n < 100
    → Stops rest
    → group 2 (decimal n ++ rest) ≡ some (decimal n, rest)
group_two n rest h s =
    group-append 2 (decimal n) rest (decimal-IsNumeral n) s (length-decimal_two n h) (decimal-pos n)

pub literal_self : (c : ℕ) (rest : Text) → literal c (c ∷ rest) ≡ some rest
unfolding literal
literal_self c rest = ground arith
