-- ===== src/Mac.antt =====
-- Hardware addresses: `parse_mac` and `format_mac` of map-broker/www/mapper.js.
pub mod Groups
pub mod Formats
mod Examples
use mapper.Prelude.{
  ℕ, zero, suc, ◌+◌, ◌-◌, Option, none, some, Bool, true, false, ◌&&◌, ◌||◌, List, [], ◌∷◌, ◌++◌,
  leb, ◌==◌, if◌then◌else◌, map,
}
use mapper.Text.{Text, codes, ◌>>=◌, is_digit, at_end}

-- `[0-9a-fA-F]`
abbrev pub is_hex : ℕ → Bool
is_hex c = is_digit c || (leb 97 c && leb c 102) || (leb 65 c && leb c 70)

-- `[:\.\-]`
abbrev pub is_separator : ℕ → Bool
is_separator c = (c == b':') || (c == b'.') || (c == b'-')

-- `toLowerCase()` and `toUpperCase()` of what `is_hex` accepts
unfoldable pub lower : ℕ → ℕ
lower c = if leb 65 c && leb c 70 then c + 32 else c

unfoldable pub upper : ℕ → ℕ
upper c = if leb 97 c && leb c 102 then c - 32 else c

-- `([0-9a-fA-F]{2})`, and what follows
unfoldable pub hex_pair : Text → Option ((ℕ × ℕ) × Text)
hex_pair [] = none
hex_pair (a ∷ []) = none
hex_pair (a ∷ b ∷ cs) = if is_hex a && is_hex b then some ((a, b), cs) else none

-- `[:\.\-]?`: no separator is a digit, so there is only one way to match.
unfoldable pub skip_separator : Text → Text
skip_separator [] = []
skip_separator (c ∷ cs) = if is_separator c then cs else c ∷ cs

-- Before the last `n` groups there is a separator, before the end there is none.
unfoldable pub between : ℕ → Text → Text
unfolding skip_separator
between zero cs = cs
between (suc n) cs = skip_separator cs

unfoldable pub match_groups : ℕ → Text → Option (List (ℕ × ℕ))
unfolding between hex_pair
match_groups zero cs = if at_end cs then some [] else none
match_groups (suc n) cs = do
  (g, rest) ← hex_pair cs
  gs ← match_groups n (between n rest)
  some (g ∷ gs)

-- The six groups of the expression in both functions
unfoldable pub match_mac : Text → Option (List (ℕ × ℕ))
unfolding match_groups
match_mac mac = match_groups 6 mac

-- The groups in lower or upper case, with something after each but the last
unfoldable pub glue : (ℕ → ℕ) → List Text → List (ℕ × ℕ) → Text
glue case seps [] = []
glue case seps ((a, b) ∷ []) = case a ∷ case b ∷ []
glue case [] ((a, b) ∷ g ∷ gs) = case a ∷ case b ∷ glue case [] (g ∷ gs)
glue case (s ∷ seps) ((a, b) ∷ g ∷ gs) = case a ∷ case b ∷ (s ++ glue case seps (g ∷ gs))

-- `none` is `false`.
unfoldable pub parse_mac : Text → Option Text
unfolding glue lower
parse_mac mac = do gs ← match_mac mac; some (glue lower [] gs)

-- The argument `view`; `other` is any text that the function does not know.
pub data View : Type 0 where
  canonic u6c snr l6h cisco l3d huawei l3h other : View

abbrev each : ℕ → List Text
each c = (c ∷ []) ∷ (c ∷ []) ∷ (c ∷ []) ∷ (c ∷ []) ∷ (c ∷ []) ∷ []

abbrev every_second : ℕ → List Text
every_second c = [] ∷ (c ∷ []) ∷ [] ∷ (c ∷ []) ∷ [] ∷ []

unfoldable pub show_groups : View → Text → List (ℕ × ℕ) → Text
unfolding glue lower upper
show_groups View.canonic mac gs = glue upper (each b':') gs
show_groups View.u6c mac gs = glue upper (each b':') gs
show_groups View.snr mac gs = glue lower (each b'-') gs
show_groups View.l6h mac gs = glue lower (each b'-') gs
show_groups View.cisco mac gs = glue lower (every_second b'.') gs
show_groups View.l3d mac gs = glue lower (every_second b'.') gs
show_groups View.huawei mac gs = glue lower (every_second b'-') gs
show_groups View.l3h mac gs = glue lower (every_second b'-') gs
show_groups View.other mac gs = mac

unfoldable pub format_mac : View → Text → Text
unfolding show_groups
format_mac view mac = elim (match_mac mac) [ none ↦ mac | some gs ↦ show_groups view mac gs ]
