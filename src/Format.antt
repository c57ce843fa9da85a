-- ===== src/Format.antt =====
-- What is shown as text: `escapeHtml`, `ellipsed`, `wdhm`, `time_diff` and `lz` of
-- map-broker/www/mapper.js.
pub mod Escape
pub mod Times
mod Examples
use mapper.Prelude.{
  ℕ, zero, suc, ◌+◌, ◌-◌, ◌*◌, ◌/◌, Bool, true, false, ◌&&◌, ◌||◌, List, [], ◌∷◌, ◌++◌, length, ltb,
  ◌==◌, if◌then◌else◌,
}
use mapper.Text.{Text, codes, decimal}

-- `replace(/c/g, text)` of one character
unfoldable pub replace_all : ℕ → Text → Text → Text
replace_all c by [] = []
replace_all c by (d ∷ cs) =
    let rest = replace_all c by cs in if d == c then by ++ rest else d ∷ rest

unfoldable pub escape_html : Text → Text
unfolding replace_all
escape_html cs = replace_all 39 (codes "&#039;") (
    replace_all 34 (codes "&quot;") (
      replace_all 62 (codes "&gt;")
        (replace_all 60 (codes "&lt;") (replace_all 38 (codes "&amp;") cs))))

-- `substring(0, n)`
unfoldable pub take_chars : ℕ → Text → Text
take_chars zero cs = []
take_chars (suc n) [] = []
take_chars (suc n) (c ∷ cs) = c ∷ take_chars n cs

-- With `chars` below 3, `chars-3` is negative: every text is longer, and `substring` takes nothing.
unfoldable pub ellipsed : Text → ℕ → Text
unfolding take_chars
ellipsed cs chars =
    if ltb chars 3 || ltb (chars - 3) (length cs)
    then take_chars (chars - 3) cs ++ codes "..."
    else cs

-- The weeks, days, hours, minutes and seconds of `wdhm`
pub record Wdhm : Type 0 where
  pub w : ℕ
  pub d : ℕ
  pub h : ℕ
  pub m : ℕ
  pub s : ℕ

unfoldable pub wdhm_parts : ℕ → Wdhm
wdhm_parts time =
    let w = time / 604800 in
    let time1 = time - w * 604800 in
    let d = time1 / 86400 in
    let time2 = time1 - d * 86400 in
    let h = time2 / 3600 in
    let time3 = time2 - h * 3600 in
    let m = time3 / 60 in record { w = w; d = d; h = h; m = m; s = time3 - m * 60 }

abbrev shown_if : Bool → ℕ → Text → Text
shown_if b n unit = if b then decimal n ++ unit else []

-- A part is shown when it or a larger one is not zero; the seconds always are.
unfoldable pub wdhm : ℕ → Text
unfolding wdhm_parts
wdhm time =
    let p = wdhm_parts time in
    let w = ltb 0 p.w in
    let d = ltb 0 p.d || w in
    let h = ltb 0 p.h || d in
    let m = ltb 0 p.m || h in
    shown_if w p.w (codes " н. ")
    ++ (shown_if d p.d (codes " д. ")
        ++ (shown_if h p.h (codes " ч. ")
            ++ (shown_if m p.m (codes " м. ") ++ (decimal p.s ++ codes " с."))))

unfoldable pub time_diff : ℕ → Text
time_diff seconds =
    if ltb seconds 120
    then decimal seconds ++ codes " secs"
    else if ltb seconds 7200
    then decimal (seconds / 60) ++ codes " mins"
    else if ltb seconds 172800
    then decimal (seconds / 3600) ++ codes " hours"
    else decimal (seconds / 86400) ++ codes " days"

-- `slice(-2)`
unfoldable pub last_two : Text → Text
last_two [] = []
last_two (a ∷ []) = a ∷ []
last_two (a ∷ b ∷ []) = a ∷ b ∷ []
last_two (a ∷ b ∷ c ∷ cs) = last_two (b ∷ c ∷ cs)

unfoldable pub lz : ℕ → Text
unfolding last_two
lz a = last_two (b'0' ∷ decimal a)
