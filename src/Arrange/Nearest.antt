-- ===== src/Arrange/Nearest.antt =====
-- The slot that is chosen is free, and no free slot is nearer.
use mapper.Prelude.{
  ℕ, suc, ◌+◌, ◌<◌, ◌≡◌, refl, Option, none, some, true, false, ◌&&◌, List, [], ◌∷◌, get_elem?,
  lt-length_of_get_elem?, length, ℕ_discrete, arith, Bool-cases, inl, inr, ◌⊎◌,
}
use native.Mathlib.Nat.{add-zero, zero-add}
use mapper.Prelude.Int.{ℤ, ◌≤ℤ◌, ltb_ℤ}
use mapper.Grid.{Slot}
use mapper.Arrange.{is_free, Found, better, nearest, nearest_from}

-- What the search has found among the slots before `i`, which are `get`.
record Best (dist : Slot → ℤ) (get : ℕ → Option Slot) (i j : ℕ) (d : ℤ) : Type 0 where
  index : j < i
  here : (s : Slot) × (get j ≡ some s) × (is_free s ≡ true) × (dist s ≡ d)
  least : (k : ℕ) (s : Slot) → k < i → get k ≡ some s → is_free s ≡ true → d ≤ℤ dist s

-- The choice of `nearest`.
pub record IsNearest (dist : Slot → ℤ) (ss : List Slot) (j : ℕ) (s : Slot) : Type 0 where
  pub at_index : get_elem? ss j ≡ some s
  pub free : is_free s ≡ true
  pub least : (k : ℕ) (t : Slot) → get_elem? ss k ≡ some t → is_free t ≡ true → dist s ≤ℤ dist t

abbrev NoneFree : (ℕ → Option Slot) → ℕ → Type 0
NoneFree get i = (k : ℕ) (s : Slot) → k < i → get k ≡ some s → is_free s ≡ false

-- The state of the loop before the slot `i`
abbrev Invariant : (Slot → ℤ) → (ℕ → Option Slot) → ℕ → Found → Type 0
Invariant dist get i none = NoneFree get i
Invariant dist get i (some (j, d)) = Best dist get i j d

module _ (dist : Slot → ℤ) (get : ℕ → Option Slot) where
  -- The slot `i` is not taken: it is occupied, or no nearer than what was found.
  keep :
      (i : ℕ) (s : Slot) (found : Found)
      → get i ≡ some s
      → (is_free s && better found (dist s)) ≡ false
      → Invariant dist get i found
      → Invariant dist get (i + 1) found
  keep i s none e f inv = λ k t l g. elim (ℕ_discrete k i) [
    | yes x ↦ let same : s ≡ t = cc (x, e, g) in rw (← same) (ground arith)
    | no x ↦ inv k t (omega arith) g
  ]
  keep i s (some (j, d)) e f inv = record {
    index = omega (arith, inv.index);
    here = inv.here;
    least = λ k t l g h. elim (ℕ_discrete k i) [
      | yes x ↦ let same : s ≡ t = cc (x, e, g) in rw (← same) (not_nearer (rw (← same) at h))
      | no x ↦ inv.least k t (omega arith) g h
    ];
  }
    where
      not_nearer : is_free s ≡ true → d ≤ℤ dist s
      not_nearer h = far (rw h at f)
        where
          far : ltb_ℤ (dist s) d ≡ false → d ≤ℤ dist s
          far q = ground arith

  -- The slot `i` is taken.
  change :
      (i : ℕ) (s : Slot) (found : Found)
      → get i ≡ some s
      → (is_free s && better found (dist s)) ≡ true
      → Invariant dist get i found
      → Best dist get (i + 1) i (dist s)
  change i s found e f inv = record {
    index = omega arith;
    here = (s, e, ground arith, refl);
    least = λ k t l g h. elim (ℕ_discrete k i) [
      | yes x ↦ let same : s ≡ t = cc (x, e, g) in rw (← same) (omega arith)
      | no x ↦ below found f inv k t (omega arith) g h
    ];
  }
    where
      below :
          (found : Found)
          → (is_free s && better found (dist s)) ≡ true
          → Invariant dist get i found
          → (k : ℕ) (t : Slot) → k < i
          → get k ≡ some t
          → is_free t ≡ true
          → dist s ≤ℤ dist t
      below none f inv k t l g h = absurd (ground (arith, inv k t l g, h))
      below (some (j, d)) f inv k t l g h = trans (inv.least k t l g h) (near f)
        where
          near : (is_free s && ltb_ℤ (dist s) d) ≡ true → dist s ≤ℤ d
          near q = ground arith

          trans : d ≤ℤ dist t → dist s ≤ℤ d → dist s ≤ℤ dist t
          trans a b = omega arith

  nearest_from_lem :
      (found : Found) (i : ℕ) (ss : List Slot)
      → ((k : ℕ) → get (i + k) ≡ get_elem? ss k)
      → Invariant dist get i found
      → Invariant dist get (i + length ss) (nearest_from dist found i ss)
  unfolding nearest_from
  nearest_from_lem found i [] h inv = rw add-zero inv
  nearest_from_lem found i (s ∷ ss) h inv =
      let e : get i ≡ some s = rw add-zero at (h 0) in
      let next : i + 1 + length ss ≡ i + length (s ∷ ss) = omega arith in
      let tail : (k : ℕ) → get (i + 1 + k) ≡ get_elem? ss k =
        λ k. let f : i + 1 + k ≡ i + suc k = omega arith in rw f (h (suc k)) in
      elim (Bool-cases (is_free s && better found (dist s))) [
        | inl taken ↦ rw taken (
            rw next at
              (nearest_from_lem (some (i, dist s)) (i + 1) ss tail (change i s found e taken inv)))
        | inr left ↦
            rw left
              (rw next at (nearest_from_lem found (i + 1) ss tail (keep i s found e left inv)))
      ]

-- The search finds nothing exactly when no slot is free, and else a free slot than which no other
-- free slot is nearer.
pub nearest_lem :
    (dist : Slot → ℤ) (ss : List Slot)
    → ((nearest dist ss ≡ none)
        × ((k : ℕ) (s : Slot) → get_elem? ss k ≡ some s → is_free s ≡ false))
      ⊎ ((j : ℕ) × (s : Slot) × (nearest dist ss ≡ some (j, dist s)) × IsNearest dist ss j s)
unfolding nearest
nearest_lem dist ss = go (nearest_from dist none 0 ss) refl (
    nearest_from_lem dist (get_elem? ss) none 0 ss (λ k. rw zero-add)
      (λ k s l g. absurd (omega arith)))
  where
    in_range : (k : ℕ) (s : Slot) → get_elem? ss k ≡ some s → k < 0 + length ss
    in_range k s g = omega (arith, lt-length_of_get_elem? ss k g)

    go :
        (found : Found)
        → nearest_from dist none 0 ss ≡ found
        → Invariant dist (get_elem? ss) (0 + length ss) found
        → ((nearest_from dist none 0 ss ≡ none)
            × ((k : ℕ) (s : Slot) → get_elem? ss k ≡ some s → is_free s ≡ false))
          ⊎ ((j : ℕ) × (s : Slot) × (nearest_from dist none 0 ss ≡ some (j, dist s))
              × IsNearest dist ss j s)
    go none e inv = inl (e, λ k s g. inv k s (in_range k s g) g)
    go (some (j, d)) e inv =
        let (s, g, f, same) = inv.here in
        inr (
          j,
          s,
          rw same e,
          record {
            at_index = g;
            free = f;
            least = λ k t h q. rw same (inv.least k t (in_range k t h) h q);
          },
        )
