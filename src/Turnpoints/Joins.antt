-- ===== src/Turnpoints/Joins.antt =====
-- A turnpoint joins its two neighbours, in either order. What each change of a shape does to them.
use mapper.Prelude.{ℕ, ◌≡◌, ◌≢◌, ◌⊎◌, inl, inr, some, arith, ◌==◌, eq_iff, Bool-cases}
use mapper.Turnpoints.{Endpoint, Shape, Leg, detach, retarget, attach, redirect}

-- What a segment of a link may end at.
pub data Node : Type 0 where
  device : Endpoint → Node
  point : ℕ → Node

abbrev pub ends : Shape → Node × Node
ends (Shape.devdev f t) = (device f, device t)
ends (Shape.devtp f t) = (device f, point t)
ends (Shape.tptp f t) = (point f, point t)

abbrev pub Joins : Shape → Node → Node → Type 0
Joins s p q = (ends s ≡ (p, q)) ⊎ (ends s ≡ (q, p))

pub Joins-symm : (s : Shape) (p q : Node) → Joins s p q → Joins s q p
Joins-symm s p q (inl e) = inr e
Joins-symm s p q (inr e) = inl e

-- A leg lies between two nodes.
abbrev pub Spans : Leg → Node → Node → Type 0
Spans leg p q = Joins leg p q

-- Two ends of a link are on two devices.
abbrev pub Apart : Endpoint → Node → Type 0
Apart e (device f) = f.dev ≢ e.dev
Apart e (point i) = Unit

pub detach-Joins :
    (s : Shape) (e : Endpoint) (n : ℕ) (q : Node)
    → Apart e q
    → Joins s (device e) q
    → Joins (detach s e n) (point n) q
unfolding detach
detach-Joins (Shape.devdev f t) e n (device g) a j = ground (arith, eq_iff f.dev e.dev)
detach-Joins (Shape.devdev f t) e n (point k) a (inl j) = cc
detach-Joins (Shape.devdev f t) e n (point k) a (inr j) = cc
detach-Joins (Shape.devtp f t) e n q a j = ground arith
detach-Joins (Shape.tptp f t) e n q a (inl j) = cc
detach-Joins (Shape.tptp f t) e n q a (inr j) = cc

pub retarget-Joins :
    (s : Shape) (old n : ℕ) (q : Node)
    → Joins s (point old) q
    → Joins (retarget s old n) (point n) q
unfolding retarget
retarget-Joins (Shape.devdev f t) old n q (inl j) = cc
retarget-Joins (Shape.devdev f t) old n q (inr j) = cc
retarget-Joins (Shape.devtp f t) old n q j = ground arith
retarget-Joins (Shape.tptp f t) old n q j = ground arith

pub attach-Joins :
    (s : Shape) (i : ℕ) (e : Endpoint) (q : Node)
    → Joins s (point i) q
    → (s' : Shape) × (attach s i e ≡ some s') × Joins s' (device e) q
unfolding attach
attach-Joins (Shape.devdev f t) i e q (inl j) = absurd (cc)
attach-Joins (Shape.devdev f t) i e q (inr j) = absurd (cc)
attach-Joins (Shape.devtp f t) i e q j = (Shape.devdev f e, ground arith, ground arith)
attach-Joins (Shape.tptp f t) i e q (inl j) = (Shape.devtp e t, ground arith, ground arith)
attach-Joins (Shape.tptp f t) i e q (inr j) = elim (Bool-cases (f == i)) [
  | inl same ↦ (Shape.devtp e t, ground arith, ground arith)
  | inr other ↦ (Shape.devtp e f, ground arith, ground arith)
]

pub redirect-Joins :
    (s : Shape) (i j : ℕ) (q : Node)
    → Joins s (point i) q
    → (s' : Shape) × (redirect s i j ≡ some s') × Joins s' (point j) q
unfolding redirect
redirect-Joins (Shape.devdev f t) i j q (inl h) = absurd (cc)
redirect-Joins (Shape.devdev f t) i j q (inr h) = absurd (cc)
redirect-Joins (Shape.devtp f t) i j q h = (Shape.devtp f j, ground arith, ground arith)
redirect-Joins (Shape.tptp f t) i j q (inl h) = (Shape.tptp j t, ground arith, ground arith)
redirect-Joins (Shape.tptp f t) i j q (inr h) = elim (Bool-cases (f == i)) [
  | inl same ↦ (Shape.tptp j t, ground arith, ground arith)
  | inr other ↦ (Shape.tptp f j, ground arith, ground arith)
]

-- The type of a leg follows from its ends.
pub Spans-device_point :
    (leg : Leg) (e : Endpoint) (i : ℕ) → Spans leg (device e) (point i) → leg ≡ Shape.devtp e i
Spans-device_point (Shape.devdev f t) e i (inl h) = cc
Spans-device_point (Shape.devdev f t) e i (inr h) = cc
Spans-device_point (Shape.devtp f t) e i (inl h) = cc
Spans-device_point (Shape.devtp f t) e i (inr h) = cc
Spans-device_point (Shape.tptp f t) e i (inl h) = cc
Spans-device_point (Shape.tptp f t) e i (inr h) = cc

pub Spans-devices :
    (leg : Leg) (e f : Endpoint)
    → Spans leg (device e) (device f)
    → (leg ≡ Shape.devdev e f) ⊎ (leg ≡ Shape.devdev f e)
Spans-devices (Shape.devdev f t) i j (inl h) = inl (cc)
Spans-devices (Shape.devdev f t) i j (inr h) = inr (cc)
Spans-devices (Shape.devtp f t) i j (inl h) = inl (cc)
Spans-devices (Shape.devtp f t) i j (inr h) = inl (cc)
Spans-devices (Shape.tptp f t) i j (inl h) = inl (cc)
Spans-devices (Shape.tptp f t) i j (inr h) = inl (cc)

pub Spans-points :
    (leg : Leg) (i j : ℕ)
    → Spans leg (point i) (point j)
    → (leg ≡ Shape.tptp i j) ⊎ (leg ≡ Shape.tptp j i)
Spans-points (Shape.devdev f t) i j (inl h) = inl (cc)
Spans-points (Shape.devdev f t) i j (inr h) = inl (cc)
Spans-points (Shape.devtp f t) i j (inl h) = inl (cc)
Spans-points (Shape.devtp f t) i j (inr h) = inl (cc)
Spans-points (Shape.tptp f t) i j (inl h) = inl (cc)
Spans-points (Shape.tptp f t) i j (inr h) = inr (cc)
