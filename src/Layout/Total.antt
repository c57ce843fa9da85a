-- ===== src/Layout/Total.antt =====
-- The arrangement of a device gives every interface that is drawn a cell of its own.
use mapper.Prelude.{
  ℕ, ◌+◌, ◌≤◌, ◌≡◌, refl, ◌∙◌, ◌≢◌, String, Bool, true, false, not, ◌&&◌, List, [], ◌∷◌, Has,
  length, arith, Bool-cases, inl, inr,
}
use mapper.Prelude.Obj.{Obj, get, is_defined}
use mapper.Grid.{SlotFunc, all_slots}
use mapper.Arrange.Occupy.{count_free}
use mapper.Layout.Requests.{Device, Request, request_tp, request_dev}
use mapper.Layout.{
  Layout, and_then, relocate_int, arrange_interfaces_dev2tp, arrange_interfaces_dev2dev,
}
use mapper.Layout.Step.{Owned, IsGiven-Owned, Owned-keeps, relocate_int-IsGiven}
use mapper.Layout.Loop.{demand, IsTurn, each_drawn-IsRun}
use mapper.Layout.Distinct.{
  Unique, Unique-keeps, cells_differ, all_slots-Unique, count_free-all_slots,
}
use mapper.Layout.Near.{is_near, Good, Settled, near-IsTurn}

-- The state of the loop over the rest: who was relocated does not change any more.
record Rest (marks : Obj ℕ) (s : Layout) : Type 0 where
  marked : s.relocated ≡ marks
  unique : Unique s.slots

abbrev pub unmarked : Obj ℕ → String → Bool
unmarked marks int = not (is_defined (get int marks))

demand_mono :
    (drawn v w : String → Bool) (ints : List String)
    → ((j : String) → Has j ints → drawn j ≡ true → v j ≡ true → w j ≡ true)
    → demand drawn v ints ≤ demand drawn w ints
demand_mono drawn v w [] h = omega arith
demand_mono drawn v w (int ∷ ints) h =
    let rest = demand_mono drawn v w ints (λ j has. h j (inr has)) in
    let here = h int (inl refl) in ground (arith, rest, here)

module _ (d : Device) (shown : (int : String) → d.drawn int ≡ true → d.shown int ≡ true) where
  relocate_int-IsTurn :
      (marks : Obj ℕ) → IsTurn d.drawn (unmarked marks) (relocate_int d) (Rest marks) Owned
  unfolding relocate_int
  relocate_int-IsTurn marks = record {
    gives = λ int s dr want p h.
        let new : is_defined (get int s.relocated) ≡ false = rw p.marked (ground (arith, want)) in
        let (s', e, g, m) = relocate_int-IsGiven d int s (shown int dr) new h in
        (
          s',
          e,
          record { marked = m ∙ p.marked; unique = Unique-keeps int s s' g p.unique },
          IsGiven-Owned int s s' g,
          λ j x. Owned-keeps int j s s' g x,
          g.one_less,
        );
    rests = λ int s dr rest p.
        let old : is_defined (get int s.relocated) ≡ true = rw p.marked (ground (arith, rest)) in
        rw (old, relocate_int) refl;
  }

-- The slots that an interface may take: one for each of the two loops over the links in which it has
-- a request, and one when it has none.
abbrev pub near_tps : Device → String → Bool
near_tps d int = is_near (request_tp d int)

abbrev pub near_devs : Device → String → Bool
near_devs d int = is_near (request_dev d int)

abbrev pub apart : Device → String → Bool
apart d int = not (near_tps d int) && not (near_devs d int)

abbrev pub all_demands : Device → ℕ
all_demands d =
    demand d.drawn (near_tps d) d.ints
    + demand d.drawn (near_devs d) d.ints
    + demand d.drawn (apart d) d.ints

-- What the functions need of the device: the interfaces are on the page, and no link is at odds with
-- the interface or lacks its turnpoint.
pub record Fits (d : Device) : Type 0 where
  pub shown : (int : String) → d.drawn int ≡ true → d.shown int ≡ true
  pub tps : (int : String) → d.drawn int ≡ true → request_tp d int ≢ Request.fail
  pub devs : (int : String) → d.drawn int ≡ true → request_dev d int ≢ Request.fail

-- Every interface that is drawn has a cell of a slot that it occupies, and no two the same.
pub record IsArranged (d : Device) (s : Layout) : Type 0 where
  pub owned : (int : String) → Has int d.ints → d.drawn int ≡ true → Owned int s
  pub distinct :
      (i j : String)
      → Has i d.ints
      → Has j d.ints
      → d.drawn i ≡ true
      → d.drawn j ≡ true
      → i ≢ j
      → get i s.cells ≢ get j s.cells

-- The local `nei_devs` is nothing to the slots.
Owned-local : (int : String) (s : Layout) → Owned int s → Owned int (record s { nei_devs = [] })
Owned-local int s o = record {
  slot = o.slot;
  index = o.index;
  func = o.func;
  there = o.there;
  taken = o.taken;
  cell = o.cell;
}

none_marked : (j : String) → is_defined (get {V = ℕ} j []) ≡ true → ⊥
unfolding get
none_marked j h = cc

-- Who is not marked had no request in either loop.
unmarked_apart :
    (a b : Bool) (o : Bool)
    → (a ≡ true → o ≡ true)
    → (b ≡ true → o ≡ true)
    → not o ≡ true
    → (not a && not b) ≡ true
unmarked_apart a b o f g h = ground (arith, f, g, h)

-- The second function, after the first
dev2dev-IsArranged :
    (d : Device) (moved : Bool) (s : Layout)
    → Fits d
    → Good s
    → ((j : String) → Has j d.ints → d.drawn j ≡ true → near_tps d j ≡ true → Settled j s)
    → demand d.drawn (near_devs d) d.ints + demand d.drawn (apart d) d.ints ≤ count_free s.slots
    → (s' : Layout) × (arrange_interfaces_dev2dev d moved s ≡ (true, s')) × IsArranged d s'
unfolding arrange_interfaces_dev2dev
dev2dev-IsArranged d moved s fits good settled enough =
    let t : Layout = record s { nei_devs = [] } in
    let good_t : Good t = record {
      owned = λ j h. Owned-local j s (good.owned j h);
      unique = good.unique;
    } in
    let turn =
      near-IsTurn d fits.shown SlotFunc.dev2dev_dev d.int_half moved (request_dev d) fits.devs in
    let (s2, e2, r2) =
      each_drawn-IsRun d.drawn (near_devs d) _ Good Settled turn d.ints t good_t (omega arith) in
    let marks = s2.relocated in
    let less : demand d.drawn (unmarked marks) d.ints ≤ demand d.drawn (apart d) d.ints =
      demand_mono d.drawn (unmarked marks) (apart d) d.ints (λ j has dr un.
        unmarked_apart (near_tps d j) (near_devs d j) (is_defined (get j marks))
          (λ x. let y = settled j has dr x in (r2.kept j (Owned-local j s y.0, y.1)).1)
          (λ x. (r2.given j has dr x).1) un) in
    let (s3, e3, r3) =
      each_drawn-IsRun d.drawn (unmarked marks) _ (Rest marks) Owned
        (relocate_int-IsTurn d fits.shown marks) d.ints s2
        (record { marked = refl; unique = r2.holds.unique }) (omega (arith, r2.free, less)) in
    let owned : (int : String) → Has int d.ints → d.drawn int ≡ true → Owned int s3 = λ int has dr.
      elim (Bool-cases (is_defined (get int marks))) [
        | inl old ↦ r3.kept int (r2.holds.owned int old)
        | inr new ↦ r3.given int has dr (rw new refl)
      ] in
    (
      s3,
      rw e2 e3,
      record {
        owned = owned;
        distinct = λ i j hi hj di dj ne.
            cells_differ i j s3 r3.holds.unique (owned i hi di) (owned j hj dj) ne;
      },
    )

-- When the interfaces of a device are on the page and its links are in order, its box has at least
-- two columns, and it has a slot for each request of an interface to a turnpoint, each to a device,
-- and each interface without any, `arrange_interfaces_dev2tp` and then `arrange_interfaces_dev2dev`
-- run through, and then every interface that is drawn has the cell of a slot that it occupies, and
-- no two have the same cell.
pub arrange_interfaces-IsArranged :
    (d : Device) (moved moved' : Bool) (s : Layout)
    → Fits d
    → 2 ≤ d.cols
    → all_demands d ≤ length (all_slots d.rows d.cols)
    → (s' : Layout) × (and_then
          (arrange_interfaces_dev2tp d moved s)
          (arrange_interfaces_dev2dev d moved')
        ≡ (true, s'))
      × IsArranged d s'
unfolding arrange_interfaces_dev2tp
arrange_interfaces-IsArranged d moved moved' s fits cols enough =
    let s0 : Layout = record s { slots = all_slots d.rows d.cols; relocated = [] } in
    let free = count_free-all_slots d.rows d.cols in
    let good : Good s0 = record {
      owned = λ j h. absurd (none_marked j h);
      unique = all_slots-Unique d.rows d.cols cols;
    } in
    let turn = near-IsTurn d fits.shown SlotFunc.dev2tp 0 moved (request_tp d) fits.tps in
    let (s1, e1, r1) =
      each_drawn-IsRun d.drawn (near_tps d) _ Good Settled turn d.ints s0 good
        (omega (arith, free)) in
    let (s2, e2, r2) =
      dev2dev-IsArranged d moved' s1 fits r1.holds r1.given (omega (arith, free, r1.free)) in
    (s2, rw e1 e2, r2)
