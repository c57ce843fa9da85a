-- ===== src/Layout/Loop.antt =====
-- The loop over the interfaces of a device gives a slot to each one that wants one.
use mapper.Prelude.{
  ℕ, ◌+◌, ◌≤◌, ◌≡◌, refl, sym, String, Bool, true, false, ◌&&◌, List, [], ◌∷◌, Has, arith, inl, inr,
  if◌then◌else◌, Bool-cases,
}
use mapper.Arrange.Occupy.{count_free}
use mapper.Layout.{Layout, Result, each_drawn}

module _ (drawn : String → Bool) (wants : String → Bool) where
  -- How many slots the interfaces take
  abbrev pub demand : List String → ℕ
  demand [] = 0
  demand (int ∷ ints) = (if drawn int && wants int then 1 else 0) + demand ints

  demand_skip :
      (int : String) (ints : List String)
      → (drawn int && wants int) ≡ false
      → demand (int ∷ ints) ≡ demand ints
  demand_skip int ints h = rw h (omega arith)

  demand_take :
      (int : String) (ints : List String)
      → drawn int ≡ true
      → wants int ≡ true
      → demand (int ∷ ints) ≡ 1 + demand ints
  demand_take int ints p q = rw (p, q) refl

-- What a turn of the loop does: an interface that wants a slot gets one when one is free, and has
-- `R` then, and whoever had `R` keeps it; one that wants none changes nothing.
pub record IsTurn (drawn wants : String → Bool) (f : String → Layout → Result) (P : Layout → Type 0)
    (R : String → Layout → Type 0) : Type 0 where
  pub gives :
      (int : String) (s : Layout)
      → drawn int ≡ true
      → wants int ≡ true
      → P s
      → 1 ≤ count_free s.slots
      → (s' : Layout) × (f int s ≡ (true, s'))
        × P s'
        × R int s'
        × ((j : String) → R j s → R j s')
        × (count_free s'.slots + 1 ≡ count_free s.slots)
  pub rests :
      (int : String) (s : Layout) → drawn int ≡ true → wants int ≡ false → P s → f int s ≡ (true, s)

-- What the loop comes to
pub record IsRun (drawn wants : String → Bool) (P : Layout → Type 0) (R : String → Layout → Type 0)
    (ints : List String) (s s' : Layout) : Type 0 where
  pub holds : P s'
  pub given : (j : String) → Has j ints → drawn j ≡ true → wants j ≡ true → R j s'
  pub kept : (j : String) → R j s → R j s'
  pub free : count_free s'.slots + demand drawn wants ints ≡ count_free s.slots

module _ (drawn wants : String → Bool) (f : String → Layout → Result) (P : Layout → Type 0)
    (R : String → Layout → Type 0) (turn : IsTurn drawn wants f P R) where
  skip :
      (int : String) (ints : List String) (s s' : Layout)
      → (drawn int && wants int) ≡ false
      → IsRun drawn wants P R ints s s'
      → IsRun drawn wants P R (int ∷ ints) s s'
  skip int ints s s' h r = record {
    holds = r.holds;
    given = λ j has p q. elim has [ inl e ↦ absurd (wanted j e p q) | inr k ↦ r.given j k p q ];
    kept = r.kept;
    free = omega (arith, demand_skip drawn wants int ints h, r.free);
  }
    where
      wanted : (j : String) → j ≡ int → drawn j ≡ true → wants j ≡ true → ⊥
      wanted j e p q =
          let p1 : drawn int ≡ true = rw e at p in
          let q1 : wants int ≡ true = rw e at q in ground (arith, p1, q1)

  -- With enough free slots the loop runs through.
  pub each_drawn-IsRun :
      (ints : List String) (s : Layout)
      → P s
      → demand drawn wants ints ≤ count_free s.slots
      → (s' : Layout) × (each_drawn drawn f ints s ≡ (true, s')) × IsRun drawn wants P R ints s s'
  unfolding each_drawn
  each_drawn-IsRun [] s p h = (
    s,
    refl,
    record { holds = p; given = λ j has. absurd has; kept = λ j r. r; free = omega arith },
  )
  each_drawn-IsRun (int ∷ ints) s p h = elim (Bool-cases (drawn int)) [
    | inr no_draw ↦
        let (s', e, r) =
          each_drawn-IsRun ints s p
            (omega (arith, demand_skip drawn wants int ints (rw no_draw))) in
        (s', rw no_draw e, skip int ints s s' (rw no_draw) r)
    | inl draw ↦ elim (Bool-cases (wants int)) [
      | inr rest ↦
          let (s', e, r) =
            each_drawn-IsRun ints s p
              (omega (arith, demand_skip drawn wants int ints (rw (draw, rest)))) in
          (
            s',
            rw draw (rw (turn.rests int s draw rest p) e),
            skip int ints s s' (rw (draw, rest)) r,
          )
      | inl want ↦
          let (t, e, q, own, keep, less) =
            turn.gives int s draw want p
              (omega (arith, demand_take drawn wants int ints draw want)) in
          let (s', e', r) =
            each_drawn-IsRun ints t q
              (omega (arith, less, demand_take drawn wants int ints draw want)) in
          (
            s',
            rw draw (rw e e'),
            record {
              holds = r.holds;
              given = λ j has dr wa. elim has [
                | inl x ↦ r.kept j (rw (sym x) at own)
                | inr k ↦ r.given j k dr wa
              ];
              kept = λ j x. r.kept j (keep j x);
              free = omega (arith, r.free, less, demand_take drawn wants int ints draw want);
            },
          )
    ]
  ]
