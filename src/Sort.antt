-- ===== src/Sort.antt =====
-- The order of texts with numbers in them, `num_compare` of map-broker/www/mapper.js: names of
-- interfaces and devices are sorted by it.
pub mod Order
mod Examples
use mapper.Prelude.{
  ℕ, zero, suc, ◌+◌, Option, none, some, Bool, true, false, not, ◌&&◌, ◌||◌, List, [], ◌∷◌, ◌++◌,
  leb, ltb, ◌==◌, if◌then◌else◌, length,
}
use mapper.Prelude.Int.{ℤ, pos, negsuc}
use mapper.Text.{Text, codes, is_digit, number, at_end}

-- The value of a text aa a number: what is no number, what is one, and what is infinite.
pub data Value : Type 0 where
  nan : Value
  below : Value
  finite : ℕ → Value
  above : Value

-- What `Number` skips at both ends of a text
abbrev is_white : ℕ → Bool
is_white c =
    (leb 9 c && leb c 13)
    || (c == 32)
    || (c == 160)
    || (c == 5760)
    || (leb 8192 c && leb c 8202)
    || (c == 8232)
    || (c == 8233)
    || (c == 8239)
    || (c == 8287)
    || (c == 12288)
    || (c == 65279)

trim_left : Text → Text
trim_left [] = []
trim_left (c ∷ cs) = let rest = trim_left cs in if is_white c then rest else c ∷ cs

trim_right : Text → Text
trim_right [] = []
trim_right (c ∷ cs) = let rest = trim_right cs in if is_white c && at_end rest then [] else c ∷ rest

unfoldable pub same_text : Text → Text → Bool
same_text [] [] = true
same_text [] (d ∷ ds) = false
same_text (c ∷ cs) [] = false
same_text (c ∷ cs) (d ∷ ds) = (c == d) && same_text cs ds

-- `Number(s)` of a text without digits
value_of_trimmed : Text → Value
unfolding same_text
value_of_trimmed cs =
    if at_end cs
    then Value.finite 0
    else if same_text cs (codes "Infinity") || same_text cs (codes "+Infinity")
    then Value.above
    else if same_text cs (codes "-Infinity")
    then Value.below
    else Value.nan

-- A token of `split(/(\d+)/)`: texts without digits and groups of digits take turns.
pub data Token : Type 0 where
  letters : Text → Token
  digits : Text → Token

-- `Number(av)`, exact for groups of digits below 2 ^ 53
unfoldable pub value : Token → Value
unfolding value_of_trimmed trim_left trim_right
value (Token.letters cs) = value_of_trimmed (trim_left (trim_right cs))
value (Token.digits cs) = Value.finite (number cs)

abbrev pub text_of : Token → Text
text_of (Token.letters cs) = cs
text_of (Token.digits cs) = cs

-- The token at the front gets the next character when it is of the same kind.
unfoldable pub add_char : ℕ → List Token → List Token
add_char c [] = []
add_char c (Token.letters cs ∷ ts) =
    if is_digit c
    then Token.digits (c ∷ []) ∷ Token.letters cs ∷ ts
    else Token.letters (c ∷ cs) ∷ ts
add_char c (Token.digits cs ∷ ts) =
    if is_digit c then Token.digits (c ∷ cs) ∷ ts else Token.letters (c ∷ []) ∷ Token.digits cs ∷ ts

unfoldable pub tokens : Text → List Token
unfolding add_char
tokens [] = Token.letters [] ∷ []
tokens (c ∷ cs) = add_char c (tokens cs)

-- The list begins with a text, maybe an empty one.
abbrev with_first : List Token → List Token
with_first [] = []
with_first (Token.letters cs ∷ ts) = Token.letters cs ∷ ts
with_first (Token.digits cs ∷ ts) = Token.letters [] ∷ Token.digits cs ∷ ts

-- `split(/(\d+)/)`
unfoldable pub split_digits : Text → List Token
unfolding tokens
split_digits cs = with_first (tokens cs)

abbrev pub is_nan : Value → Bool
is_nan Value.nan = true
is_nan Value.below = false
is_nan (Value.finite n) = false
is_nan Value.above = false

-- `Number(av) < Number(bv)`
abbrev pub less : Value → Value → Bool
less Value.below (Value.finite n) = true
less Value.below Value.above = true
less (Value.finite m) (Value.finite n) = ltb m n
less (Value.finite m) Value.above = true
less _ _ = false

abbrev pub is_zero : ℤ → Bool
is_zero (pos n) = n == 0
is_zero (negsuc n) = false

-- The body of the loop, with the values of the tokens and the result of `localeCompare`; 0 goes on.
unfoldable pub by_value : Value → Value → ℤ → ℤ
by_value av bv cres =
    if is_nan av && not (is_nan bv)
    then pos 1
    else if is_nan bv && not (is_nan av)
    then negsuc 0
    else if is_nan av && is_nan bv
    then cres
    else if less bv av
    then pos 1
    else if less av bv
    then negsuc 0
    else pos 0

module _ (locale_compare : Text → Text → ℤ) where
  unfoldable pub compare_tokens : Token → Token → ℤ
  unfolding by_value
  compare_tokens a b = by_value (value a) (value b) (locale_compare (text_of a) (text_of b))

  unfoldable pub compare_lists : List Token → List Token → ℤ
  compare_lists [] [] = pos 0
  compare_lists (a ∷ aa) [] = pos 1
  compare_lists [] (b ∷ ba) = negsuc 0
  compare_lists (a ∷ aa) (b ∷ ba) =
      let c = compare_tokens a b in let rest = compare_lists aa ba in if is_zero c then rest else c

  unfoldable pub num_compare : Text → Text → ℤ
  unfolding compare_lists
  num_compare a b = compare_lists (split_digits a) (split_digits b)
