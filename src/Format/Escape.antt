-- ===== src/Format/Escape.antt =====
-- What `escapeHtml` makes of a text has no character that means something in HTML but in entities.
use mapper.Prelude.{
  ℕ, zero, suc, ◌+◌, ◌-◌, ◌≤◌, ◌≡◌, refl, sym, ◌∙◌, ℕ_discrete, eq_false_of_ne, false, ◌||◌, [],
  ◌∷◌, ◌++◌, append_assoc, length, length-append, ltb, ◌==◌, All, All-append, arith, Bool-cases,
  inl, inr, if◌then◌else◌,
}
use mapper.Text.{Text, codes}
use mapper.Format.{replace_all, escape_html, take_chars, ellipsed}

-- What stands for one character
pub entity : ℕ → Text
entity c =
    if c == 38
    then codes "&amp;"
    else if c == 60
    then codes "&lt;"
    else if c == 62
    then codes "&gt;"
    else if c == 34
    then codes "&quot;"
    else if c == 39
    then codes "&#039;"
    else c ∷ []

pub by_char : Text → Text
by_char [] = []
by_char (c ∷ cs) = entity c ++ by_char cs

replace_all-append :
    (c : ℕ) (by xs ys : Text)
    → replace_all c by (xs ++ ys) ≡ replace_all c by xs ++ replace_all c by ys
unfolding replace_all
replace_all-append c by [] ys = refl
replace_all-append c by (x ∷ xs) ys = elim (Bool-cases (x == c)) [
  | inl p ↦
      rw (p, replace_all-append c by xs ys)
        (sym (append_assoc by (replace_all c by xs) (replace_all c by ys)))
  | inr p ↦ rw (p, replace_all-append c by xs ys) refl
]

escape_html-append : (xs ys : Text) → escape_html (xs ++ ys) ≡ escape_html xs ++ escape_html ys
unfolding escape_html
escape_html-append xs ys = simp replace_all-append

escape_one : (c : ℕ) → escape_html (c ∷ []) ≡ entity c
unfolding escape_html entity replace_all
escape_one c = elim (ℕ_discrete c 38) [
  | yes p ↦ rw p refl
  | no a ↦ elim (ℕ_discrete c 60) [
    | yes p ↦ rw p refl
    | no b ↦ elim (ℕ_discrete c 62) [
      | yes p ↦ rw p refl
      | no d ↦ elim (ℕ_discrete c 34) [
        | yes p ↦ rw p refl
        | no e ↦ elim (ℕ_discrete c 39) [
          | yes p ↦ rw p refl
          | no f ↦
              rw
                (
                  eq_false_of_ne c 38 a,
                  eq_false_of_ne c 60 b,
                  eq_false_of_ne c 62 d,
                  eq_false_of_ne c 34 e,
                  eq_false_of_ne c 39 f,
                )
                refl
        ]
      ]
    ]
  ]
]

escape_empty : escape_html [] ≡ []
unfolding escape_html replace_all
escape_empty = refl

-- Replacing one kind of character after the other, as `escapeHtml` does, is replacing every character
-- of the text by its entity.
pub escape_html-by_char : (cs : Text) → escape_html cs ≡ by_char cs
unfolding by_char
escape_html-by_char [] = escape_empty
escape_html-by_char (c ∷ cs) =
    escape_html-append (c ∷ []) cs ∙ rw (escape_one c, escape_html-by_char cs) refl

-- No `<`, `>` or quote
abbrev pub Harmless : ℕ → Type 0
Harmless c = ((c == 60) || (c == 62) || (c == 34) || (c == 39)) ≡ false

entity-Harmless : (c : ℕ) → All Harmless (entity c)
unfolding entity
entity-Harmless c = elim (ℕ_discrete c 38) [
  | yes p ↦ rw p (refl, (refl, (refl, (refl, (refl, tt)))))
  | no a ↦ elim (ℕ_discrete c 60) [
    | yes p ↦ rw p (refl, (refl, (refl, (refl, tt))))
    | no b ↦ elim (ℕ_discrete c 62) [
      | yes p ↦ rw p (refl, (refl, (refl, (refl, tt))))
      | no d ↦ elim (ℕ_discrete c 34) [
        | yes p ↦ rw p (refl, (refl, (refl, (refl, (refl, (refl, tt))))))
        | no e ↦ elim (ℕ_discrete c 39) [
          | yes p ↦ rw p (refl, (refl, (refl, (refl, (refl, (refl, tt))))))
          | no f ↦
              rw
                (
                  eq_false_of_ne c 38 a,
                  eq_false_of_ne c 60 b,
                  eq_false_of_ne c 62 d,
                  eq_false_of_ne c 34 e,
                  eq_false_of_ne c 39 f,
                )
                (ground arith, tt)
        ]
      ]
    ]
  ]
]

by_char-Harmless : (cs : Text) → All Harmless (by_char cs)
unfolding by_char
by_char-Harmless [] = tt
by_char-Harmless (c ∷ cs) =
    All-append Harmless (entity c) (by_char cs) (entity-Harmless c) (by_char-Harmless cs)

-- An escaped text has no `<`, `>` or quote.
pub escape_html-Harmless : (cs : Text) → All Harmless (escape_html cs)
escape_html-Harmless cs = rw (escape_html-by_char cs) (by_char-Harmless cs)

take_chars-le : (n : ℕ) (cs : Text) → length (take_chars n cs) ≤ n
unfolding take_chars
take_chars-le zero cs = omega arith
take_chars-le (suc n) [] = omega arith
take_chars-le (suc n) (c ∷ cs) = omega (arith, take_chars-le n cs)

-- When at least 3 characters are wanted, a text that is shortened has at most as many, the dots
-- included, and a text with at least 3 fewer stays as it is.
pub ellipsed-le :
    (cs : Text) (chars : ℕ)
    → 3 ≤ chars
    → (length (ellipsed cs chars) ≤ chars) × (length cs + 3 ≤ chars → ellipsed cs chars ≡ cs)
unfolding ellipsed
ellipsed-le cs chars h =
    let low : ltb chars 3 ≡ false = ground (arith, h) in
    elim (Bool-cases (ltb (chars - 3) (length cs))) [
      | inl p ↦
          let n = take_chars (chars - 3) cs in
          (
            rw (low, p)
                (omega (arith, length-append n (codes "..."), take_chars-le (chars - 3) cs)),
            λ k. absurd (ground (arith, p, k)),
          )
      | inr p ↦ (rw (low, p) (ground (arith, p, h)), λ k. rw (low, p) refl)
    ]
