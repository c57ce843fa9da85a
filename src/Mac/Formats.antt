-- ===== src/Mac/Formats.antt =====
-- All forms of an address are read as the same address.
use mapper.Prelude.{
  ℕ, ◌≡◌, refl, sym, ◌∙◌, ◌≢◌, ap, none, some, true, List, [], ◌∷◌, length, map, arith, All,
  Option-cases, inl, inr,
}
use mapper.Text.{Text}
use mapper.Mac.{is_hex, lower, upper, match_mac, glue, parse_mac, View, show_groups, format_mac}
use mapper.Mac.Groups.{HexPair, Separator, both, match_groups-glue, match_groups-HexPair}

-- The same digit, but for its case
abbrev Alike : ℕ → ℕ → Type 0
Alike a b = (lower a ≡ lower b) × (upper a ≡ upper b)

abbrev AlikeAll : List (ℕ × ℕ) → List (ℕ × ℕ) → Type 0
AlikeAll [] [] = Unit
AlikeAll [] (h ∷ hs) = ⊥
AlikeAll (g ∷ gs) [] = ⊥
AlikeAll (g ∷ gs) (h ∷ hs) = Alike g.0 h.0 × Alike g.1 h.1 × AlikeAll gs hs

lower-hex : (c : ℕ) → is_hex c ≡ true → (is_hex (lower c) ≡ true) × Alike (lower c) c
unfolding lower upper
lower-hex c h = ground arith

upper-hex : (c : ℕ) → is_hex c ≡ true → (is_hex (upper c) ≡ true) × Alike (upper c) c
unfolding lower upper
upper-hex c h = ground arith

AlikeAll-refl : (gs : List (ℕ × ℕ)) → AlikeAll gs gs
AlikeAll-refl [] = tt
AlikeAll-refl (g ∷ gs) = ((refl, refl), (refl, refl), AlikeAll-refl gs)

AlikeAll-map :
    (case : ℕ → ℕ) (gs : List (ℕ × ℕ))
    → ((c : ℕ) → is_hex c ≡ true → Alike (case c) c)
    → All HexPair gs
    → AlikeAll (map (both case) gs) gs
AlikeAll-map case [] f h = tt
AlikeAll-map case (g ∷ gs) f h = (f g.0 h.0.0, f g.1 h.0.1, AlikeAll-map case gs f h.1)

-- Alike groups are written alike.
glue-Alike :
    (case : ℕ → ℕ) (seps : List Text) (gs hs : List (ℕ × ℕ))
    → ((a b : ℕ) → Alike a b → case a ≡ case b)
    → AlikeAll gs hs
    → glue case seps gs ≡ glue case seps hs
unfolding glue
glue-Alike case seps [] [] f h = refl
glue-Alike case seps [] (k ∷ hs) f h = absurd h
glue-Alike case seps (g ∷ gs) [] f h = absurd h
glue-Alike case seps (g ∷ []) (k ∷ []) f h = rw (f g.0 k.0 h.0, f g.1 k.1 h.1) refl
glue-Alike case seps (g ∷ []) (k ∷ l ∷ hs) f h = absurd h.2
glue-Alike case seps (g ∷ i ∷ gs) (k ∷ []) f h = absurd h.2
glue-Alike case [] (g ∷ i ∷ gs) (k ∷ l ∷ hs) f h =
    rw (f g.0 k.0 h.0, f g.1 k.1 h.1, glue-Alike case [] (i ∷ gs) (l ∷ hs) f h.2) refl
glue-Alike case (s ∷ seps) (g ∷ i ∷ gs) (k ∷ l ∷ hs) f h =
    rw (f g.0 k.0 h.0, f g.1 k.1 h.1, glue-Alike case seps (i ∷ gs) (l ∷ hs) f h.2) refl

glue-lower :
    (seps : List Text) (gs hs : List (ℕ × ℕ))
    → AlikeAll gs hs
    → glue lower seps gs ≡ glue lower seps hs
glue-lower seps gs hs h = glue-Alike lower seps gs hs (λ a b k. k.0) h

glue-upper :
    (seps : List Text) (gs hs : List (ℕ × ℕ))
    → AlikeAll gs hs
    → glue upper seps gs ≡ glue upper seps hs
glue-upper seps gs hs h = glue-Alike upper seps gs hs (λ a b k. k.1) h

show_groups-Alike :
    (v : View) (mac mac' : Text) (gs hs : List (ℕ × ℕ))
    → v ≢ View.other
    → AlikeAll gs hs
    → show_groups v mac gs ≡ show_groups v mac' hs
unfolding show_groups
show_groups-Alike View.canonic mac mac' gs hs ne h = glue-upper _ gs hs h
show_groups-Alike View.u6c mac mac' gs hs ne h = glue-upper _ gs hs h
show_groups-Alike View.snr mac mac' gs hs ne h = glue-lower _ gs hs h
show_groups-Alike View.l6h mac mac' gs hs ne h = glue-lower _ gs hs h
show_groups-Alike View.cisco mac mac' gs hs ne h = glue-lower _ gs hs h
show_groups-Alike View.l3d mac mac' gs hs ne h = glue-lower _ gs hs h
show_groups-Alike View.huawei mac mac' gs hs ne h = glue-lower _ gs hs h
show_groups-Alike View.l3h mac mac' gs hs ne h = glue-lower _ gs hs h
show_groups-Alike View.other mac mac' gs hs ne h = absurd (ne refl)

-- What an address is read as
Reads : List (ℕ × ℕ) → Text → Type 0
Reads gs mac = (hs : List (ℕ × ℕ)) × (match_mac mac ≡ some hs) × AlikeAll hs gs

reads :
    (case : ℕ → ℕ) (seps : List Text) (gs : List (ℕ × ℕ))
    → ((c : ℕ) → is_hex c ≡ true → (is_hex (case c) ≡ true) × Alike (case c) c)
    → All Separator seps
    → length gs ≡ 6
    → All HexPair gs
    → Reads gs (glue case seps gs)
unfolding Reads match_mac
reads case seps gs f s len h = (
  map (both case) gs,
  rw len at (match_groups-glue case (λ c k. (f c k).0) seps gs s h),
  AlikeAll-map case gs (λ c k. (f c k).1) h,
)

match_mac-HexPair :
    (mac : Text) (gs : List (ℕ × ℕ)) → match_mac mac ≡ some gs → (length gs ≡ 6) × All HexPair gs
unfolding match_mac
match_mac-HexPair mac gs e = match_groups-HexPair 6 mac gs e

show_groups-Reads :
    (v : View) (mac : Text) (gs : List (ℕ × ℕ))
    → match_mac mac ≡ some gs
    → Reads gs (show_groups v mac gs)
unfolding show_groups Reads
show_groups-Reads v mac gs e = let (len, all) = match_mac-HexPair mac gs e in go v len all
  where
    go : (v : View) → length gs ≡ 6 → All HexPair gs → Reads gs (show_groups v mac gs)
    go View.canonic len h =
        reads upper _ gs upper-hex (refl, (refl, (refl, (refl, (refl, tt))))) len h
    go View.u6c len h = reads upper _ gs upper-hex (refl, (refl, (refl, (refl, (refl, tt))))) len h
    go View.snr len h = reads lower _ gs lower-hex (refl, (refl, (refl, (refl, (refl, tt))))) len h
    go View.l6h len h = reads lower _ gs lower-hex (refl, (refl, (refl, (refl, (refl, tt))))) len h
    go View.cisco len h = reads lower _ gs lower-hex (tt, (refl, (tt, (refl, (tt, tt))))) len h
    go View.l3d len h = reads lower _ gs lower-hex (tt, (refl, (tt, (refl, (tt, tt))))) len h
    go View.huawei len h = reads lower _ gs lower-hex (tt, (refl, (tt, (refl, (tt, tt))))) len h
    go View.l3h len h = reads lower _ gs lower-hex (tt, (refl, (tt, (refl, (tt, tt))))) len h
    go View.other len h = (gs, e, AlikeAll-refl gs)

parse_mac_reads :
    (mac : Text) (gs : List (ℕ × ℕ))
    → match_mac mac ≡ some gs
    → parse_mac mac ≡ some (glue lower [] gs)
unfolding parse_mac
parse_mac_reads mac gs e = rw e refl

format_mac_reads :
    (v : View) (mac : Text) (gs : List (ℕ × ℕ))
    → match_mac mac ≡ some gs
    → format_mac v mac ≡ show_groups v mac gs
unfolding format_mac
format_mac_reads v mac gs e = rw (e, format_mac) refl

-- What is no address is left as it is.
format_mac_rejects : (v : View) (mac : Text) → match_mac mac ≡ none → format_mac v mac ≡ mac
unfolding format_mac
format_mac_rejects v mac e = rw (e, format_mac) refl

-- `parse_mac` reads whatever `format_mac` makes of a text as it reads the text itself, in every view,
-- and rejects it exactly when it rejects the text.
pub parse_mac-format_mac : (v : View) (mac : Text) → parse_mac (format_mac v mac) ≡ parse_mac mac
unfolding Reads
parse_mac-format_mac v mac = elim (Option-cases (match_mac mac)) [
  | inl e ↦ ap parse_mac (format_mac_rejects v mac e)
  | inr (gs, e) ↦
      let (hs, f, alike) = show_groups-Reads v mac gs e in
      rw (format_mac_reads v mac gs e) (
        parse_mac_reads (show_groups v mac gs) hs f
        ∙ ap some (glue-lower [] hs gs alike)
        ∙ sym (parse_mac_reads mac gs e))
]

-- In every view that `format_mac` knows, formatting a text that was formatted before, in any view, is
-- formatting the text itself.
pub format_mac-format_mac :
    (v w : View) (mac : Text) → v ≢ View.other → format_mac v (format_mac w mac) ≡ format_mac v mac
unfolding Reads
format_mac-format_mac v w mac ne = elim (Option-cases (match_mac mac)) [
  | inl e ↦ ap (format_mac v) (format_mac_rejects w mac e)
  | inr (gs, e) ↦
      let (hs, f, alike) = show_groups-Reads w mac gs e in
      rw (format_mac_reads w mac gs e) (
        format_mac_reads v (show_groups w mac gs) hs f
        ∙ show_groups-Alike v _ mac hs gs ne alike
        ∙ sym (format_mac_reads v mac gs e))
]
