-- ===== src/Arrange/Occupy.antt =====
-- An interface gets a slot of its own, as long as there is a free one.
use mapper.Prelude.{
  ℕ, zero, suc, ◌+◌, ◌≡◌, refl, ◌≢◌, String, none, some, true, false, List, [], ◌∷◌, get_elem?, set,
  ap, ◌⊎◌, arith, inl, inr, if◌then◌else◌,
}
use mapper.Prelude.Int.{ℤ}
use mapper.Grid.{Slot, SlotFunc}
use mapper.Arrange.{is_free, occupy, Placed, place}
use mapper.Arrange.Nearest.{IsNearest, nearest_lem}

unfoldable pub count_free : List Slot → ℕ
count_free [] = 0
count_free (s ∷ ss) = (if is_free s then 1 else 0) + count_free ss

pub count_free-set :
    (ss : List Slot) (i : ℕ) (s t : Slot)
    → get_elem? ss i ≡ some s
    → is_free s ≡ true
    → is_free t ≡ false
    → count_free (set ss i t) + 1 ≡ count_free ss
unfolding count_free
count_free-set [] i s t e f g = absurd (cc)
count_free-set (x ∷ ss) zero s t e f g = ground arith
count_free-set (x ∷ ss) (suc i) s t e f g = omega (arith, count_free-set ss i s t e f g)

-- What is wanted of a choice: the slot was free and is the interface's now, no free slot was nearer,
-- the other slots are as they were, and there is one free slot less.
pub record IsPlaced (dist : Slot → ℤ) (int : String) (func : SlotFunc) (ss : List Slot) (p : Placed)
    : Type 0 where
  pub slot : Slot
  pub chosen : IsNearest dist ss p.index slot
  pub column : p.col ≡ slot.col
  pub row : p.row ≡ slot.row
  pub taken : get_elem? p.slots p.index ≡ some (record slot { by = some (int, func) })
  pub others : (k : ℕ) → p.index ≢ k → get_elem? p.slots k ≡ get_elem? ss k
  pub one_less : count_free p.slots + 1 ≡ count_free ss

pub get_elem?-set_self :
    (ss : List Slot) (i : ℕ) (s t : Slot)
    → get_elem? ss i ≡ some s
    → get_elem? (set ss i t) i ≡ some t
get_elem?-set_self [] i s t e = absurd (cc)
get_elem?-set_self (x ∷ ss) zero s t e = refl
get_elem?-set_self (x ∷ ss) (suc i) s t e = get_elem?-set_self ss i s t e

pub get_elem?-set_ne :
    (ss : List Slot) (i k : ℕ) (t : Slot) → i ≢ k → get_elem? (set ss i t) k ≡ get_elem? ss k
get_elem?-set_ne [] i k t h = refl
get_elem?-set_ne (x ∷ ss) zero zero t h = absurd (h refl)
get_elem?-set_ne (x ∷ ss) zero (suc k) t h = refl
get_elem?-set_ne (x ∷ ss) (suc i) zero t h = refl
get_elem?-set_ne (x ∷ ss) (suc i) (suc k) t h = get_elem?-set_ne ss i k t (λ e. h (ap suc e))

no_free :
    (ss : List Slot)
    → ((k : ℕ) (s : Slot) → get_elem? ss k ≡ some s → is_free s ≡ false)
    → count_free ss ≡ 0
unfolding count_free
no_free [] h = refl
no_free (s ∷ ss) h = ground (arith, h 0 s refl, no_free ss (λ k t e. h (suc k) t e))

-- Either no slot is free, and `place` reports "no slots!", or `place` gives the interface a slot that
-- was free, with no free slot nearer, marks it as the interface's, leaves the other slots, and there
-- is one free slot less.
pub place_lem :
    (dist : Slot → ℤ) (int : String) (func : SlotFunc) (ss : List Slot)
    → ((count_free ss ≡ 0) × (place dist int func ss ≡ none))
      ⊎ ((p : Placed) × (place dist int func ss ≡ some p) × IsPlaced dist int func ss p)
unfolding place occupy
place_lem dist int func ss = elim (nearest_lem dist ss) [
  | inl (e, h) ↦ inl (no_free ss h, rw (e, place))
  | inr (j, s, e, h) ↦
      let t : Slot = record s { by = some (int, func) } in
      let o : occupy j int func ss ≡ set ss j t = occupied j s h.at_index in
      inr (
        record { index = j; col = s.col; row = s.row; slots = set ss j t },
        rw (e, place) (rw h.at_index (rw o)),
        record {
          slot = s;
          chosen = h;
          column = refl;
          row = refl;
          taken = get_elem?-set_self ss j s t h.at_index;
          others = λ k n. get_elem?-set_ne ss j k t n;
          one_less = count_free-set ss j s t h.at_index h.free refl;
        },
      )
]
  where
    occupied :
        (j : ℕ) (s : Slot)
        → get_elem? ss j ≡ some s
        → occupy j int func ss ≡ set ss j (record s { by = some (int, func) })
    occupied j s e = rw (e, occupy)
