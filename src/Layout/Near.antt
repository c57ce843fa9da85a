-- ===== src/Layout/Near.antt =====
-- The loops over the interfaces with links: each one with a request gets a slot.
use mapper.Prelude.{
  ℕ, ◌+◌, ◌≤◌, ◌≡◌, refl, ◌≢◌, String, Bool, true, false, str_eq, eq_iff, arith, Bool-cases, inl,
  inr,
}
use mapper.Prelude.Obj
use mapper.Prelude.Obj.{Obj, get, is_defined, get-set, get-set_self}
use mapper.Grid.{SlotFunc}
use mapper.Arrange.Occupy.{count_free}
use mapper.Layout.Requests.{Device, Request}
use mapper.Layout.{Layout, arrange_int}
use mapper.Layout.Step.{Owned, IsGiven, IsGiven-Owned, Owned-keeps, place-IsGiven}
use mapper.Layout.Loop.{IsTurn}
use mapper.Layout.Distinct.{Unique, Unique-keeps}

abbrev pub is_near : Request → Bool
is_near Request.fail = false
is_near Request.idle = false
is_near (Request.near c) = true

-- Which interfaces were relocated
abbrev pub Marked : String → Layout → Type 0
Marked j s = is_defined (get j s.relocated) ≡ true

-- Whoever was relocated has a slot, and no two slots are the same cell.
pub record Good (s : Layout) : Type 0 where
  pub owned : (j : String) → Marked j s → Owned j s
  pub unique : Unique s.slots

-- Has a slot, and was relocated
abbrev pub Settled : String → Layout → Type 0
Settled j s = Owned j s × Marked j s

Marked-set :
    (int j : String) (s s' : Layout)
    → s'.relocated ≡ Obj.set int 1 s.relocated
    → Marked j s
    → Marked j s'
Marked-set int j s s' e h = rw e (rw (get-set j int 1 s.relocated) (ground (arith, h)))

Marked-new :
    (int : String) (s s' : Layout) → s'.relocated ≡ Obj.set int 1 s.relocated → Marked int s'
Marked-new int s s' e = rw e (rw (get-set_self int 1 s.relocated) refl)

Marked-old :
    (int j : String) (s s' : Layout)
    → s'.relocated ≡ Obj.set int 1 s.relocated
    → int ≢ j
    → Marked j s'
    → Marked j s
Marked-old int j s s' e ne h =
    let k : is_defined (get j (Obj.set int 1 s.relocated)) ≡ true = rw e at h in
    rw (Obj.get-set_ne j int 1 s.relocated ne) at k

Good-given :
    (int : String) (s s' : Layout)
    → IsGiven int s s'
    → s'.relocated ≡ Obj.set int 1 s.relocated
    → Good s
    → Good s'
Good-given int s s' g e p = record {
  owned = λ j h. elim (Bool-cases (str_eq int j)) [
    | inl x ↦ let y : int ≡ j = ground (arith, eq_iff int j) in rw (← y) (IsGiven-Owned int s s' g)
    | inr x ↦
        Owned-keeps int j s s' g
          (p.owned j (Marked-old int j s s' e (λ y. ground (arith, eq_iff int j)) h))
  ];
  unique = Unique-keeps int s s' g p.unique;
}

module _ (d : Device) (shown : (int : String) → d.drawn int ≡ true → d.shown int ≡ true) where
  -- Both loops over the requests
  pub near-IsTurn :
      (func : SlotFunc) (shift : ℕ) (moved : Bool) (req : String → Request)
      → ((int : String) → d.drawn int ≡ true → req int ≢ Request.fail)
      → IsTurn d.drawn (λ int. is_near (req int)) (arrange_int d func shift moved req) Good Settled
  unfolding arrange_int
  near-IsTurn func shift moved req fit = record {
    gives = λ int s dr want p h. gives int s (req int) refl dr want p h;
    rests = λ int s dr rest p. rests int s (req int) refl dr rest;
  }
    where
      gives :
          (int : String) (s : Layout) (r : Request)
          → req int ≡ r
          → d.drawn int ≡ true
          → is_near (req int) ≡ true
          → Good s
          → 1 ≤ count_free s.slots
          → (s' : Layout) × (arrange_int d func shift moved req int s ≡ (true, s'))
            × Good s'
            × Settled int s'
            × ((j : String) → Settled j s → Settled j s')
            × (count_free s'.slots + 1 ≡ count_free s.slots)
      gives int s Request.fail e dr want p h = absurd (fit int dr e)
      gives int s Request.idle e dr want p h =
          absurd (let x : false ≡ true = rw e at want in cc (x))
      gives int s (Request.near c) e dr want p h =
          let (s', f, g, m) = place-IsGiven d func shift moved int c s (shown int dr) h in
          (
            s',
            rw (e, arrange_int) f,
            Good-given int s s' g m p,
            (IsGiven-Owned int s s' g, Marked-new int s s' m),
            λ j x. (Owned-keeps int j s s' g x.0, Marked-set int j s s' m x.1),
            g.one_less,
          )

      rests :
          (int : String) (s : Layout) (r : Request)
          → req int ≡ r
          → d.drawn int ≡ true
          → is_near (req int) ≡ false
          → arrange_int d func shift moved req int s ≡ (true, s)
      rests int s Request.fail e dr rest = absurd (fit int dr e)
      rests int s Request.idle e dr rest = rw (e, arrange_int) refl
      rests int s (Request.near c) e dr rest =
          absurd (let x : true ≡ false = rw e at rest in cc (x))
