-- ===== src/Text.antt =====
-- Texts as lists of character codes, decimal numbers, and the pieces of the regular expressions of
-- map-broker/www/mapper.js. JavaScript's own `String(n)`, `Number(s)` and matching are modelled as
-- far as the program uses them: on natural numbers and on groups of decimal digits.
pub mod Decimal
pub mod Groups
use Prim.Native.Char.{code}
use mapper.Prelude.{
  ℕ, zero, suc, ◌+◌, ◌-◌, ◌*◌, ◌/◌, ◌%◌, String, Option, none, some, Bool, ◌&&◌, List, [], ◌∷◌, ltb,
  leb, ◌==◌, if◌then◌else◌,
}

abbrev pub Text : Type 0
Text = List ℕ

abbrev pub codes : String → Text
codes Prim.Native.String.[] = []
codes (Prim.Native.String.◌∷◌ c s) = code c ∷ codes s

infixl 5 ◌>>=◌
abbrev pub ◌>>=◌ {ℓ κ} : {A : Type ℓ} {B : Type κ} → Option A → (A → Option B) → Option B
none >>= f = none
some a >>= f = f a

-- `\d`
abbrev pub is_digit : ℕ → Bool
is_digit c = leb 48 c && leb c 57

-- `String(n)` of a natural number, with the digits that follow; the fuel is more than there are
-- digits.
digits_of : ℕ → ℕ → Text → Text
digits_of zero n acc = acc
digits_of (suc fuel) n acc =
    let rest = digits_of fuel (n / 10) ((48 + n % 10) ∷ acc) in
    if ltb n 10 then (48 + n) ∷ acc else rest

unfoldable pub decimal : ℕ → Text
unfolding digits_of
decimal n = digits_of (suc n) n []

value_from : ℕ → Text → ℕ
value_from acc [] = acc
value_from acc (c ∷ cs) = value_from (acc * 10 + (c - 48)) cs

-- `Number(s)` of a text of digits
unfoldable pub number : Text → ℕ
unfolding value_from
number cs = value_from 0 cs

abbrev cons_digit : ℕ → Text × Text → Text × Text
cons_digit c (ds, rest) = (c ∷ ds, rest)

-- At most `k` digits, as many as there are, and what follows them.
unfoldable pub span_digits : ℕ → Text → Text × Text
span_digits zero cs = ([], cs)
span_digits (suc k) [] = ([], [])
span_digits (suc k) (c ∷ cs) = if is_digit c then cons_digit c (span_digits k cs) else ([], c ∷ cs)

abbrev nonempty : Text × Text → Option (Text × Text)
nonempty ([], rest) = none
nonempty (c ∷ ds, rest) = some (c ∷ ds, rest)

-- The group `(\d{1,k})`. What follows it in the program's expressions is no digit or the end, so
-- taking the most digits is what the matcher does too.
unfoldable pub group : ℕ → Text → Option (Text × Text)
unfolding span_digits
group k cs = nonempty (span_digits k cs)

-- One given character
unfoldable pub literal : ℕ → Text → Option Text
literal c [] = none
literal c (d ∷ cs) = if d == c then some cs else none

-- The end, `$`
unfoldable pub at_end : Text → Bool
at_end [] = mathlib.Core.Bool.true
at_end (c ∷ cs) = mathlib.Core.Bool.false
