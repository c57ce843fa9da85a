-- ===== src/Turnpoints/Insert.antt =====
-- `new_tp` puts the new turnpoint between the two ends of the leg that was double-clicked.
use mapper.Prelude.{ℕ, ◌≡◌, refl, Option, none, some, List, [], ◌∷◌, inl, inr, true}
use mapper.Prelude.Int.{ℤ}
use mapper.Prelude.IntMap.{get, IsFree, first_free_total}
use mapper.Turnpoints.{Endpoint, Turnpoint, Leg, done, fits_leg, or_empty, insert_tp}
use mapper.Turnpoints.Joins.{
  device, Joins-symm, Spans, Spans-device_point, Spans-points, Spans-devices,
}
use mapper.Turnpoints.Split.{split_leg-IsRoute}
use mapper.Turnpoints.Route.{Stores, Stores-IsRoute, path_of-eq-nil, path_of-ne-nil}
use mapper.Turnpoints.Chain.{Tps, first, path_of, IsRoute-Represents}

-- The type of the leg agrees with what is stored.
fits :
    (tps : Option Tps) (a b : Endpoint) (ls ys : List ℕ) (leg : Leg)
    → Stores tps a (path_of ls ys) b
    → Spans leg (first ls (device a)) (first ys (device b))
    → fits_leg tps leg ≡ true
unfolding fits_leg
fits none a b [] [] leg h j = elim (Spans-devices leg a b j) [ inl e ↦ rw e | inr e ↦ rw e ]
fits none a b (l ∷ ls) ys leg h j = let (e, _) = path_of-eq-nil (l ∷ ls) ys h.0 in cc
fits none a b [] (y ∷ ys) leg h j = let (_, e) = path_of-eq-nil [] (y ∷ ys) h.0 in cc
fits (some m) a b [] [] leg h j = absurd (h.1 refl)
fits (some m) a b [] (y ∷ ys) leg h j = rw (Spans-device_point leg a y j)
fits (some m) a b (l ∷ ls) [] leg h j = rw (Spans-device_point leg b l (Joins-symm _ _ _ j))
fits (some m) a b (l ∷ ls) (y ∷ ys) leg h j = elim (Spans-points leg l y j) [
  | inl e ↦ rw e
  | inr e ↦ rw e
]

-- When the turnpoints stored for a link between `a` and `b` are the route of `ls` backwards and `ys`,
-- and the leg lies between the two parts, `new_tp` runs through; the new turnpoint has the given
-- coordinates and the least number that was not taken, and what is stored is the route of before
-- with the new turnpoint between `ls` and `ys`.
pub insert_tp-Stores :
    (cx cy : ℤ) (a b : Endpoint) (ls ys : List ℕ) (leg : Leg) (tps : Option Tps)
    → Stores tps a (path_of ls ys) b
    → Spans leg (first ls (device a)) (first ys (device b))
    → (n : ℕ) × (m' : Tps) × (t : Turnpoint) × (insert_tp cx cy leg tps ≡ (done, some m'))
      × IsFree 0 n (or_empty tps)
      × (get n m' ≡ some t)
      × (t.x ≡ cx)
      × (t.y ≡ cy)
      × Stores (some m') a (path_of ls (n ∷ ys)) b
unfolding insert_tp
insert_tp-Stores cx cy a b ls ys leg tps h j =
    let m = or_empty tps in
    let (n, found, free) = first_free_total m in
    let new : Turnpoint = record { x = cx; y = cy; shape = leg } in
    let (m', e, at, r) =
      split_leg-IsRoute m n new free.absent a b ls ys leg refl (Stores-IsRoute tps a b ls ys h) j in
    (
      n,
      m',
      new,
      rw (fits tps a b ls ys leg h j, found) (rw e),
      free,
      at,
      refl,
      refl,
      (IsRoute-Represents ls (n ∷ ys) r, path_of-ne-nil ls (n ∷ ys) (λ z. cc)),
    )
