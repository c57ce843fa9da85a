-- ===== src/Mac/Groups.antt =====
-- The groups of an address are found again where they were written.
use mapper.Prelude.{
  ℕ, zero, suc, ◌≡◌, refl, none, some, Bool, true, ◌&&◌, List, [], ◌∷◌, ◌++◌, length, map, ap,
  arith, Option-cases, All, Bool-cases, inl, inr,
}
use mapper.Text.{Text, ◌>>=◌, at_end}
use mapper.Mac.{is_hex, is_separator, hex_pair, skip_separator, between, match_groups, glue}

abbrev pub HexPair : (ℕ × ℕ) → Type 0
HexPair g = (is_hex g.0 ≡ true) × (is_hex g.1 ≡ true)

-- Nothing, or one separator
abbrev pub Separator : Text → Type 0
Separator [] = Unit
Separator (c ∷ []) = is_separator c ≡ true
Separator (c ∷ d ∷ cs) = ⊥

abbrev pub both : (ℕ → ℕ) → (ℕ × ℕ) → ℕ × ℕ
both case g = (case g.0, case g.1)

hex_pair_two :
    (a b : ℕ) (cs : Text)
    → is_hex a ≡ true
    → is_hex b ≡ true
    → hex_pair (a ∷ b ∷ cs) ≡ some ((a, b), cs)
unfolding hex_pair
hex_pair_two a b cs p q = rw (p, q)

skip_hex : (c : ℕ) (cs : Text) → is_hex c ≡ true → skip_separator (c ∷ cs) ≡ c ∷ cs
unfolding skip_separator
skip_hex c cs h = ground arith

skip_one : (d : ℕ) (cs : Text) → is_separator d ≡ true → skip_separator (d ∷ cs) ≡ cs
unfolding skip_separator
skip_one d cs h = rw h

skip_between :
    (s : Text) (c : ℕ) (cs : Text)
    → Separator s
    → is_hex c ≡ true
    → skip_separator (s ++ c ∷ cs) ≡ c ∷ cs
skip_between [] c cs h k = skip_hex c cs k
skip_between (d ∷ []) c cs h k = skip_one d (c ∷ cs) h
skip_between (d ∷ e ∷ s) c cs h k = absurd h

-- What is written begins with the first digit.
glue_first :
    (case : ℕ → ℕ) (seps : List Text) (g : ℕ × ℕ) (gs : List (ℕ × ℕ))
    → (rest : Text) × (glue case seps (g ∷ gs) ≡ case g.0 ∷ rest)
unfolding glue
glue_first case seps g [] = (_, refl)
glue_first case [] g (h ∷ gs) = (_, refl)
glue_first case (s ∷ seps) g (h ∷ gs) = (_, refl)

module _ (case : ℕ → ℕ) (hex : (c : ℕ) → is_hex c ≡ true → is_hex (case c) ≡ true) where
  -- The groups behind the first, where a separator may come before them
  behind :
      (n : ℕ) (s : Text) (seps : List Text) (g : ℕ × ℕ) (gs : List (ℕ × ℕ))
      → Separator s
      → HexPair g
      → between (suc n) (s ++ glue case seps (g ∷ gs)) ≡ glue case seps (g ∷ gs)
  unfolding between
  behind n s seps g gs h k =
      let (rest, e) = glue_first case seps g gs in
      rw e (skip_between s (case g.0) rest h (hex g.0 k.0))

  first_group :
      (n : ℕ) (g : ℕ × ℕ) (cs : Text) (gs : List (ℕ × ℕ))
      → HexPair g
      → match_groups n (between n cs) ≡ some gs
      → match_groups (suc n) (case g.0 ∷ case g.1 ∷ cs) ≡ some (both case g ∷ gs)
  unfolding match_groups
  first_group n g cs gs h e =
      rw (hex_pair_two (case g.0) (case g.1) cs (hex g.0 h.0) (hex g.1 h.1)) (rw e)

  -- Groups that are written with separators between them are matched as they were written.
  pub match_groups-glue :
      (seps : List Text) (gs : List (ℕ × ℕ))
      → All Separator seps
      → All HexPair gs
      → match_groups (length gs) (glue case seps gs) ≡ some (map (both case) gs)
  unfolding match_groups glue between at_end
  match_groups-glue seps [] s h = refl
  match_groups-glue seps (g ∷ []) s h = first_group 0 g [] [] h.0 refl
  match_groups-glue [] (g ∷ k ∷ gs) s h =
      first_group (suc (length gs)) g (glue case [] (k ∷ gs)) (map (both case) (k ∷ gs)) h.0
        (rw (behind (length gs) [] [] k gs tt h.1.0) (match_groups-glue [] (k ∷ gs) tt h.1))
  match_groups-glue (p ∷ seps) (g ∷ k ∷ gs) s h =
      first_group (suc (length gs)) g (p ++ glue case seps (k ∷ gs)) (map (both case) (k ∷ gs)) h.0
        (rw (behind (length gs) p seps k gs s.0 h.1.0) (match_groups-glue seps (k ∷ gs) s.1 h.1))

hex_pair-HexPair : (cs rest : Text) (g : ℕ × ℕ) → hex_pair cs ≡ some (g, rest) → HexPair g
unfolding hex_pair
hex_pair-HexPair [] rest g h = absurd (cc)
hex_pair-HexPair (a ∷ []) rest g h = absurd (cc)
hex_pair-HexPair (a ∷ b ∷ cs) rest g h = elim (Bool-cases (is_hex a && is_hex b)) [
  | inl p ↦
      let e : some ((a, b), cs) ≡ some (g, rest) = rw p at h in
      let same : (a, b) ≡ g = cc (e) in rw (← same) (and_parts (is_hex a) (is_hex b) p)
  | inr p ↦ absurd (let e : none ≡ some (g, rest) = rw p at h in cc (e))
]
  where
    and_parts : (p q : Bool) → (p && q) ≡ true → (p ≡ true) × (q ≡ true)
    and_parts p q h = ground arith

-- What is matched are as many groups as wanted, of two digits each.
pub match_groups-HexPair :
    (n : ℕ) (cs : Text) (gs : List (ℕ × ℕ))
    → match_groups n cs ≡ some gs
    → (length gs ≡ n) × All HexPair gs
unfolding match_groups
match_groups-HexPair zero cs gs h = let e : gs ≡ [] = ground arith in rw e (refl, tt)
match_groups-HexPair (suc n) cs gs h = elim (Option-cases (hex_pair cs)) [
  | inl p ↦ absurd (let e : none ≡ some gs = rw (p, ◌>>=◌) at h in cc (e))
  | inr ((g, rest), p) ↦ elim (Option-cases (match_groups n (between n rest))) [
    | inl q ↦ absurd (let e : none ≡ some gs = rw (p, ◌>>=◌, q, ◌>>=◌) at h in cc (e))
    | inr (ks, q) ↦
        let e : some (g ∷ ks) ≡ some gs = rw (p, ◌>>=◌, q, ◌>>=◌) at h in
        let same : g ∷ ks ≡ gs = cc (e) in
        let (len, all) = match_groups-HexPair n (between n rest) ks q in
        rw (← same) (ap suc len, (hex_pair-HexPair cs rest g p, all))
  ]
]
