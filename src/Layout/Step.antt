-- ===== src/Layout/Step.antt =====
-- What it is for one interface to get a slot, and that both functions do that.
use mapper.Prelude.{
  ℕ, suc, ◌+◌, ◌≤◌, ◌≡◌, refl, ◌∙◌, ap, ◌≢◌, String, none, some, Bool, true, false, List, [], ◌∷◌,
  get_elem?, set, str_eq, eq_iff, arith, ◌⊎◌, inl, inr, Bool-cases,
}
use mapper.Prelude.Int.{ℤ}
use mapper.Prelude.Obj
use mapper.Prelude.Obj.{Obj, get, is_defined, get-set, get-set_self, get-set_ne}
use mapper.Grid.{Slot, SlotFunc}
use mapper.Arrange.{is_free, slot_point, distance, occupy, Candidate}
use mapper.Arrange.Occupy.{
  count_free, count_free-set, get_elem?-set_self, get_elem?-set_ne, place_lem,
}
use mapper.Layout.Requests.{Device}
use mapper.Layout.{Layout, settle, take_slot, free_slot, relocate_int}

-- The interface has a slot, and its cell is that of the slot.
pub record Owned (int : String) (s : Layout) : Type 0 where
  pub slot : Slot
  pub index : ℕ
  pub func : SlotFunc
  pub there : get_elem? s.slots index ≡ some slot
  pub taken : slot.by ≡ some (int, func)
  pub cell : get int s.cells ≡ some (record { col = slot.col; row = slot.row })

-- The free slot `i` was given to the interface, and its cell says so. `others` are the interfaces'
-- cells that are left.
pub record IsGiven (int : String) (s s' : Layout) : Type 0 where
  pub index : ℕ
  pub slot : Slot
  pub func : SlotFunc
  pub was : get_elem? s.slots index ≡ some slot
  pub free : is_free slot ≡ true
  pub now : get_elem? s'.slots index ≡ some (record slot { by = some (int, func) })
  pub others : (k : ℕ) → index ≢ k → get_elem? s'.slots k ≡ get_elem? s.slots k
  pub one_less : count_free s'.slots + 1 ≡ count_free s.slots
  pub cell : get int s'.cells ≡ some (record { col = slot.col; row = slot.row })
  pub cells : (j : String) → int ≢ j → get j s'.cells ≡ get j s.cells

pub IsGiven-Owned : (int : String) (s s' : Layout) → IsGiven int s s' → Owned int s'
IsGiven-Owned int s s' g = record {
  slot = record g.slot { by = some (int, g.func) };
  index = g.index;
  func = g.func;
  there = g.now;
  taken = refl;
  cell = g.cell;
}

-- Whoever has a slot keeps it, or gets another one.
pub Owned-keeps : (int j : String) (s s' : Layout) → IsGiven int s s' → Owned j s → Owned j s'
Owned-keeps int j s s' g o = elim (Bool-cases (str_eq int j)) [
  | inl p ↦ let q : int ≡ j = ground (arith, eq_iff int j) in rw (← q) (IsGiven-Owned int s s' g)
  | inr p ↦ record {
    slot = o.slot;
    index = o.index;
    func = o.func;
    there = g.others o.index (λ e. taken_free g.slot o.slot e) ∙ o.there;
    taken = o.taken;
    cell = g.cells j (λ e. ground (arith, eq_iff int j)) ∙ o.cell;
  }
]
  where
    taken_free : (f t : Slot) → g.index ≡ o.index → ⊥
    taken_free f t e =
        let same : g.slot ≡ o.slot = cc (e, g.was, o.there) in
        let free : is_free o.slot ≡ true = rw same at g.free in ground (arith, free, o.taken)

pub place-IsGiven :
    (d : Device) (func : SlotFunc) (shift : ℕ) (moved : Bool) (int : String) (c : Candidate)
    (s : Layout)
    → d.shown int ≡ true
    → 1 ≤ count_free s.slots
    → (s' : Layout) × (take_slot d func shift moved int c s ≡ (true, s'))
      × IsGiven int s s'
      × (s'.relocated ≡ Obj.set int 1 s.relocated)
unfolding take_slot settle
place-IsGiven d func shift moved int c s shown h =
    let dist : Slot → ℤ =
      λ sl. distance (slot_point d.int_size shift d.box.corner sl) (record { x = c.x; y = c.y }) in
    elim (place_lem dist int func s.slots) [
      | inl (e, _) ↦ absurd (omega arith)
      | inr (p, e, g) ↦ (
        settle moved int c p s,
        rw (e, take_slot) (rw shown refl),
        record {
          index = p.index;
          slot = g.slot;
          func = func;
          was = g.chosen.at_index;
          free = g.chosen.free;
          now = g.taken;
          others = g.others;
          one_less = g.one_less;
          cell = rw (g.column, g.row) (get-set_self int _ s.cells);
          cells = λ j ne. get-set_ne j int _ s.cells ne;
        },
        refl,
      )
    ]

free_slot_lem :
    (start : ℕ) (ss : List Slot)
    → ((count_free ss ≡ 0) × (free_slot start ss ≡ none))
      ⊎ ((i : ℕ) × (sl : Slot) × (free_slot start ss ≡ some (start + i, sl))
          × (get_elem? ss i ≡ some sl)
          × (is_free sl ≡ true))
unfolding free_slot count_free
free_slot_lem start [] = inl (refl, refl)
free_slot_lem start (s ∷ ss) = elim (Bool-cases (is_free s)) [
  | inl p ↦ inr (0, s, rw p (ap some (ap (λ (n : ℕ). (n, s)) (omega arith))), refl, p)
  | inr p ↦ elim (free_slot_lem (start + 1) ss) [
    | inl (e, f) ↦ inl (rw p (omega (arith, e)), rw p f)
    | inr (i, sl, e, f, g) ↦
        let shift : start + 1 + i ≡ start + suc i = omega arith in
        inr (suc i, sl, rw p (rw (← shift) e), f, g)
  ]
]

occupy_at :
    (i : ℕ) (int : String) (func : SlotFunc) (ss : List Slot) (s : Slot)
    → get_elem? ss i ≡ some s
    → occupy i int func ss ≡ set ss i (record s { by = some (int, func) })
unfolding occupy
occupy_at i int func ss s e = rw (e, occupy) refl

-- An interface without a slot gets one, when there is one that is free.
pub relocate_int-IsGiven :
    (d : Device) (int : String) (s : Layout)
    → d.shown int ≡ true
    → is_defined (get int s.relocated) ≡ false
    → 1 ≤ count_free s.slots
    → (s' : Layout) × (relocate_int d int s ≡ (true, s'))
      × IsGiven int s s'
      × (s'.relocated ≡ s.relocated)
unfolding relocate_int
relocate_int-IsGiven d int s shown new h = elim (free_slot_lem 0 s.slots) [
  | inl (e, _) ↦ absurd (omega arith)
  | inr (i, sl, e, f, g) ↦
      let zero_i : 0 + i ≡ i = omega arith in
      let e' : free_slot 0 s.slots ≡ some (i, sl) = rw zero_i at e in
      let t : Slot = record sl { by = some (int, SlotFunc.dev2dev_reloc) } in
      let o = occupy_at i int SlotFunc.dev2dev_reloc s.slots sl f in
      (
        record s {
          slots = set s.slots i t;
          cells = Obj.set int (record { col = sl.col; row = sl.row }) s.cells;
        },
        rw (new, relocate_int) (rw e' (rw (shown, o) refl)),
        record {
          index = i;
          slot = sl;
          func = SlotFunc.dev2dev_reloc;
          was = f;
          free = g;
          now = get_elem?-set_self s.slots i sl t f;
          others = λ k ne. get_elem?-set_ne s.slots i k t ne;
          one_less = count_free-set s.slots i sl t f g refl;
          cell = get-set_self int _ s.cells;
          cells = λ j ne. get-set_ne j int _ s.cells ne;
        },
        refl,
      )
]
