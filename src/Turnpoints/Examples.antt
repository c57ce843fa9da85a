-- ===== src/Turnpoints/Examples.antt =====
-- The theorems on turnpoints at concrete links, and runs of the two handlers.
use mapper.Prelude.{ℕ, ◌≡◌, refl, ◌≢◌, inl, Option, some, [], ◌∷◌, arith, eq_iff}
use mapper.Prelude.Int.{pos}
use mapper.Prelude.IntMap.{get, set, delete, first_free, IsFree}
use mapper.Turnpoints.{Endpoint, Turnpoint, Shape, done, invalid, corrupted, insert_tp, erase_tp}
use mapper.Turnpoints.Chain.{Tps}
use mapper.Turnpoints.Route.{Stores}
use mapper.Turnpoints.Insert.{insert_tp-Stores}
use mapper.Turnpoints.Erase.{erase_tp-Stores}

abbrev left : Endpoint
left = record { dev = "sw1"; int = "Gi0/1" }

abbrev right : Endpoint
right = record { dev = "sw2"; int = "Gi0/2" }

left_ne_right : left.dev ≢ right.dev
left_ne_right = ground (arith, eq_iff "sw1" "sw2")

abbrev at_x : ℕ → Shape → Turnpoint
at_x x s = record { x = pos x; y = pos 8; shape = s }

abbrev one_tp : Tps
one_tp = (0, at_x 24 (Shape.devdev left right)) ∷ []

abbrev two_tps : Tps
two_tps = (0, at_x 24 (Shape.devtp right 1)) ∷ (1, at_x 8 (Shape.devtp left 0)) ∷ []

-- A second turnpoint on the segment beside the first device.
insert_beside : insert_tp (pos 8) (pos 8) (Shape.devtp left 0) (some one_tp) ≡ (done, some two_tps)
unfolding insert_tp get set first_free
insert_beside = refl

erase_second :
    erase_tp 1 (some two_tps) ≡ (done, some ((0, at_x 24 (Shape.devdev right left)) ∷ []))
unfolding erase_tp get set delete
erase_second = refl

-- A leg of a link with turnpoints is never of type `devdev`.
insert_refused :
    insert_tp (pos 0) (pos 0) (Shape.devdev left right) (some one_tp) ≡ (invalid, some one_tp)
unfolding insert_tp
insert_refused = refl

erase_corrupted :
    erase_tp 0 (some ((0, at_x 0 (Shape.devtp left 1)) ∷ (1, at_x 8 (Shape.devtp right 2)) ∷ []))
    ≡ (corrupted, some ((0, at_x 0 (Shape.devtp left 1)) ∷ (1, at_x 8 (Shape.devtp right 2)) ∷ []))
unfolding erase_tp get
erase_corrupted = refl

one_tp-Stores : Stores (some one_tp) left (0 ∷ []) right
unfolding get
one_tp-Stores = (
  record {
    left = tt;
    right = (at_x 24 (Shape.devdev left right), refl, inl refl, tt);
    left_distinct = tt;
    right_distinct = (tt, tt);
    disjoint = tt;
    two_devices = left_ne_right;
    only = λ k p q. ground arith;
  },
  λ e. cc,
)

insert_tp-Stores_example :
    (n : ℕ) × (m' : Tps) × (t : Turnpoint) × (insert_tp
        (pos 8)
        (pos 8)
        (Shape.devtp left 0)
        (some one_tp)
      ≡ (done, some m'))
    × IsFree 0 n one_tp
    × (get n m' ≡ some t)
    × (t.x ≡ pos 8)
    × (t.y ≡ pos 8)
    × Stores (some m') left (n ∷ 0 ∷ []) right
insert_tp-Stores_example =
    insert_tp-Stores (pos 8) (pos 8) left right [] (0 ∷ []) (Shape.devtp left 0) (some one_tp)
      one_tp-Stores (inl refl)

erase_tp-Stores_example :
    (tps' : Option Tps) × (erase_tp 0 (some one_tp) ≡ (done, tps')) × Stores tps' left [] right
erase_tp-Stores_example = erase_tp-Stores left right [] 0 [] (some one_tp) one_tp-Stores
