-- ===== src/Layout/Distinct.antt =====
-- No two slots of a device are the same cell, so interfaces with different slots have different cells.
use mapper.Prelude.{
  ℕ, zero, suc, ◌+◌, ◌≤◌, ◌≡◌, refl, sym, ◌∙◌, ap, ◌≢◌, String, some, true, ◌&&◌, List, [], ◌∷◌,
  ◌++◌, length, length-append, get_elem?, ltb, ◌==◌, ℕ_discrete, arith, Bool-cases, inl, inr,
}
use mapper.Prelude.Obj.{get}
use mapper.Grid.{Slot, row_slots, slots_from, all_slots, next_col}
use mapper.Grid.Slots.{count_cell, count_cell-all_slots}
use mapper.Arrange.Occupy.{count_free}
use mapper.Layout.{Layout}
use mapper.Layout.Step.{Owned, IsGiven}

-- Slots with the same column and row are the same one.
abbrev pub Unique : List Slot → Type 0
Unique ss =
    (k l : ℕ) (t u : Slot)
    → get_elem? ss k ≡ some t
    → get_elem? ss l ≡ some u
    → t.col ≡ u.col
    → t.row ≡ u.row
    → k ≡ l

-- A slot that is given away stays where it is.
given_at :
    (int : String) (s s' : Layout) (k : ℕ) (t : Slot)
    → IsGiven int s s'
    → get_elem? s'.slots k ≡ some t
    → (t0 : Slot) × (get_elem? s.slots k ≡ some t0) × (t0.col ≡ t.col) × (t0.row ≡ t.row)
given_at int s s' k t g e = elim (ℕ_discrete g.index k) [
  | yes p ↦
      let q : get_elem? s'.slots g.index ≡ some t = rw (sym p) at e in
      let same : record g.slot { by = some (int, g.func) } ≡ t = cc (q, g.now) in
      (g.slot, rw p at g.was, ap (λ (x : Slot). x.col) same, ap (λ (x : Slot). x.row) same)
  | no ne ↦ (t, sym (g.others k ne) ∙ e, refl, refl)
]

pub Unique-keeps :
    (int : String) (s s' : Layout) → IsGiven int s s' → Unique s.slots → Unique s'.slots
Unique-keeps int s s' g un k l t u e f p q =
    let (t0, e0, a, b) = given_at int s s' k t g e in
    let (u0, f0, c, d) = given_at int s s' l u g f in
    un k l t0 u0 e0 f0 (a ∙ p ∙ sym c) (b ∙ q ∙ sym d)

-- Two interfaces with slots have different cells.
pub cells_differ :
    (i j : String) (s : Layout)
    → Unique s.slots
    → Owned i s
    → Owned j s
    → i ≢ j
    → get i s.cells ≢ get j s.cells
cells_differ i j s un o v ne e =
    let cells : some (record { col = o.slot.col; row = o.slot.row })
        ≡ some (record { col = v.slot.col; row = v.slot.row }) =
      sym o.cell ∙ e ∙ v.cell in
    let col : o.slot.col ≡ v.slot.col = cc (cells) in
    let row : o.slot.row ≡ v.slot.row = cc (cells) in
    let index : o.index ≡ v.index = un o.index v.index o.slot v.slot o.there v.there col row in
    let slot : o.slot ≡ v.slot = cc (index, o.there, v.there) in
    let owner : some (i, o.func) ≡ some (j, v.func) =
      sym o.taken ∙ ap (λ (x : Slot). x.by) slot ∙ v.taken in
    let same : i ≡ j = cc (owner) in ne same

refl_cell : (c r : ℕ) → ((c == c) && (r == r)) ≡ true
refl_cell c r = ground arith

count_one :
    (ss : List Slot) (k : ℕ) (t : Slot) → get_elem? ss k ≡ some t → 1 ≤ count_cell t.col t.row ss
unfolding count_cell
count_one [] k t e = absurd (cc)
count_one (s ∷ ss) zero t e = let same : s ≡ t = cc (e) in rw same (ground arith)
count_one (s ∷ ss) (suc k) t e = omega (arith, count_one ss k t e)

same_cell : (s t : Slot) → s ≡ t → (s.col == t.col && s.row == t.row) ≡ true
same_cell s t e = rw e (refl_cell t.col t.row)

count_two :
    (ss : List Slot) (k l : ℕ) (t u : Slot)
    → get_elem? ss k ≡ some t
    → get_elem? ss l ≡ some u
    → t.col ≡ u.col
    → t.row ≡ u.row
    → k ≢ l
    → 2 ≤ count_cell t.col t.row ss
unfolding count_cell
count_two [] k l t u e f p q ne = absurd (cc)
count_two (s ∷ ss) zero zero t u e f p q ne = absurd (ne refl)
count_two (s ∷ ss) zero (suc l) t u e f p q ne =
    let rest : 1 ≤ count_cell t.col t.row ss = rw (sym p, sym q) at (count_one ss l u f) in
    let here : (s.col == t.col && s.row == t.row) ≡ true = same_cell s t (cc (e)) in
    rw here (omega (arith, rest))
count_two (s ∷ ss) (suc k) zero t u e f p q ne =
    let rest : 1 ≤ count_cell t.col t.row ss = count_one ss k t e in
    let same : s ≡ u = cc (f) in
    let here : (s.col == t.col && s.row == t.row) ≡ true =
      rw same (rw (p, q) (refl_cell u.col u.row)) in
    rw here (omega (arith, rest))
count_two (s ∷ ss) (suc k) (suc l) t u e f p q ne =
    omega (arith, count_two ss k l t u e f p q (λ x. ne (ap suc x)))

pub all_slots-Unique : (rows cols : ℕ) → 2 ≤ cols → Unique (all_slots rows cols)
all_slots-Unique rows cols h k l t u e f p q = elim (ℕ_discrete k l) [
  | yes same ↦ same
  | no ne ↦
      let twice = count_two (all_slots rows cols) k l t u e f p q ne in
      let once = count_cell-all_slots t.col t.row rows cols h in
      absurd (ground (arith, twice, once))
]

-- At first all slots are free.
count_free-append : (xs ys : List Slot) → count_free (xs ++ ys) ≡ count_free xs + count_free ys
unfolding count_free
count_free-append [] ys = omega arith
count_free-append (x ∷ xs) ys = omega (arith, count_free-append xs ys)

count_free_row :
    (fuel rows cols r c : ℕ)
    → count_free (row_slots fuel rows cols r c) ≡ length (row_slots fuel rows cols r c)
unfolding count_free row_slots
count_free_row zero rows cols r c = refl
count_free_row (suc fuel) rows cols r c = elim (Bool-cases (ltb c cols)) [
  | inl p ↦
      rw (p, row_slots) (omega (arith, count_free_row fuel rows cols r (next_col rows cols r c)))
  | inr p ↦ rw (p, row_slots) refl
]

count_free_from :
    (left rows cols r : ℕ)
    → count_free (slots_from left rows cols r) ≡ length (slots_from left rows cols r)
unfolding slots_from count_free
count_free_from zero rows cols r = refl
count_free_from (suc left) rows cols r =
    let row = row_slots cols rows cols r 0 in
    let rest = slots_from left rows cols (r + 1) in
    omega (
      arith,
      count_free-append row rest,
      count_free_row cols rows cols r 0,
      count_free_from left rows cols (r + 1),
      length-append row rest,
    )

pub count_free-all_slots :
    (rows cols : ℕ) → count_free (all_slots rows cols) ≡ length (all_slots rows cols)
unfolding all_slots
count_free-all_slots rows cols = count_free_from rows rows cols 0
