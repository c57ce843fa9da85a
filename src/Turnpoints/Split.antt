-- ===== src/Turnpoints/Split.antt =====
-- The neighbours' part of `new_tp` puts the new turnpoint between the two ends of the leg that was double-clicked.
use mapper.Prelude.{ℕ, ◌≡◌, refl, ◌≢◌, ◌∙◌, sym, none, some, List, [], ◌∷◌, inl, inr}
use mapper.Prelude.IntMap.{get, set, get-set_self, get-set_ne, ne_of_get}
use mapper.Turnpoints.{
  Endpoint, Turnpoint, Shape, Leg, done, split_leg, split_far, detach, retarget,
}
use mapper.Turnpoints.Joins.{
  Node, device, point, Joins, Joins-symm, Spans, Apart, detach-Joins, retarget-Joins,
  Spans-device_point, Spans-points,
}
use mapper.Turnpoints.Route.{IsRoute-mirror, Chain-relink}
use mapper.Turnpoints.Chain.{
  Tps, first, Chain, NotIn, IsRoute, Agree-set, Chain-Agree, NotIn-of_absent, NotIn-All, All-NotIn,
  IsRoute-back,
}

-- What the neighbours' part of `new_tp` has to establish, the new turnpoint `n` being stored.
abbrev pub Inserted : Tps → ℕ → Turnpoint → Endpoint → List ℕ → List ℕ → Endpoint → Leg → Type 0
Inserted m n new a ls ys b leg =
    (m' : Tps) × (split_leg leg n (set n new m) ≡ (done, m'))
    × (get n m' ≡ some new)
    × IsRoute m' a ls (n ∷ ys) b

module _ (m : Tps) (n : ℕ) (new : Turnpoint) (absent : get n m ≡ none) where
  -- From the two halves of the route to the route through the new turnpoint.
  inserted :
      (m' : Tps) (a b : Endpoint) (ls ys : List ℕ)
      → IsRoute m a ls ys b
      → get n m' ≡ some new
      → Joins new.shape (first ls (device a)) (first ys (device b))
      → Chain m' (point n) ls (device a)
      → Chain m' (point n) ys (device b)
      → ((k : ℕ) → NotIn k ls → NotIn k ys → n ≢ k → get k m' ≡ none)
      → IsRoute m' a ls (n ∷ ys) b
  inserted m' a b ls ys r e j left right only = record {
    left = left;
    right = (new, e, j, right);
    left_distinct = r.left_distinct;
    right_distinct = (NotIn-of_absent m n _ ys _ absent r.right, r.right_distinct);
    disjoint = All-NotIn n ys ls (NotIn-of_absent m n _ ls _ absent r.left) r.disjoint;
    two_devices = r.two_devices;
    only = λ k p q. only k p q.1 (λ z. q.0 (sym z));
  }

  keep : (p : Node) (is : List ℕ) (q : Node) → Chain m p is q → Chain (set n new m) p is q
  keep p is q c =
      Chain-Agree m _ p is q (Agree-set m n new is (NotIn-of_absent m n p is q absent c)) c

  mirrored :
      (a b : Endpoint) (ls ys : List ℕ) (leg : Leg)
      → Inserted m n new b ys ls a leg
      → Inserted m n new a ls ys b leg
  mirrored a b ls ys leg (m', e, h, r) =
      (m', e, h, IsRoute-back ls n ys (IsRoute-mirror ys (n ∷ ls) r))

  -- Between the two devices of a link with no turnpoint.
  between_devices :
      (a b : Endpoint) (leg : Leg)
      → leg ≡ new.shape
      → IsRoute m a [] [] b
      → Spans leg (device a) (device b)
      → Inserted m n new a [] [] b leg
  unfolding split_leg
  between_devices a b leg s r j = (
    set n new m,
    only_devdev leg j,
    get-set_self n new m,
    inserted (set n new m) a b [] [] r (get-set_self n new m) (rw s at j) tt tt
        λ k p q h. get-set_ne k n new m h ∙ r.only k tt tt,
  )
    where
      only_devdev :
          (l : Leg)
          → Spans l (device a) (device b)
          → split_leg l n (set n new m) ≡ (done, set n new m)
      only_devdev (Shape.devdev f t) j = refl
      only_devdev (Shape.devtp f t) (inl j) = cc
      only_devdev (Shape.devtp f t) (inr j) = cc
      only_devdev (Shape.tptp f t) (inl j) = cc
      only_devdev (Shape.tptp f t) (inr j) = cc

  -- Between the first device and the turnpoint beside it.
  beside_device :
      (a b : Endpoint) (y : ℕ) (ys : List ℕ) (leg : Leg)
      → leg ≡ new.shape
      → IsRoute m a [] (y ∷ ys) b
      → Spans leg (device a) (point y)
      → Inserted m n new a [] (y ∷ ys) b leg
  unfolding split_leg
  beside_device a b y ys leg s r j =
      let (t, e, join, c) = r.right in
      let e1 : get y (set n new m) ≡ some t =
        get-set_ne y n new m (ne_of_get y n t m e absent) ∙ e in
      let u : Turnpoint = record t { shape = detach t.shape a n } in
      let m' : Tps = set y u (set n new m) in
      let new_is : get n m' ≡ some new =
        get-set_ne n y u (set n new m) (λ z. ne_of_get y n t m e absent (sym z))
        ∙ get-set_self n new m in
      (
        m',
        rw (Spans-device_point leg a y j) (rw (e1, split_leg)),
        new_is,
        inserted m' a b [] (y ∷ ys) r new_is (rw s at j) tt
            (Chain-relink (set n new m) (point n) y ys (device b) t _ r.right_distinct.0
              (detach-Joins t.shape a n (first ys (device b)) (apart ys) join) (keep _ ys _ c))
            λ k p q h.
              get-set_ne k y u _ (λ z. q.0 (sym z)) ∙ get-set_ne k n new m h ∙ r.only k tt q,
      )
    where
      apart : (ys : List ℕ) → Apart a (first ys (device b))
      apart [] = λ z. r.two_devices (sym z)
      apart (_ ∷ _) = tt

  -- Between two turnpoints, the leg being read from `l` to `y`.
  between_points_ordered :
      (a b : Endpoint) (l : ℕ) (ls : List ℕ) (y : ℕ) (ys : List ℕ)
      → Joins new.shape (point l) (point y)
      → IsRoute m a (l ∷ ls) (y ∷ ys) b
      → Inserted m n new a (l ∷ ls) (y ∷ ys) b (Shape.tptp l y)
  unfolding split_leg
  between_points_ordered a b l ls y ys j r =
      let (t, e, join, c) = r.right in
      let (v, d, join', c') = r.left in
      let ne : l ≢ y = r.disjoint.0.0 in
      let nl : n ≢ l = ne_of_get l n v m d absent in
      let ny : n ≢ y = ne_of_get y n t m e absent in
      let m1 : Tps = set n new m in
      let u : Turnpoint = record v { shape = retarget v.shape y n } in
      let w : Turnpoint = record t { shape = retarget t.shape l n } in
      let m2 : Tps = set l u m1 in
      let m' : Tps = set y w m2 in
      let d1 : get l m1 ≡ some v = get-set_ne l n new m nl ∙ d in
      let e2 : get y m2 ≡ some t = get-set_ne y l u m1 ne ∙ (get-set_ne y n new m ny ∙ e) in
      let new_is : get n m' ≡ some new =
        get-set_ne n y w m2 (λ z. ny (sym z))
        ∙ (get-set_ne n l u m1 (λ z. nl (sym z)) ∙ get-set_self n new m) in
      (
        m',
        rw (d1, split_leg) (rw (e2, split_far)),
        new_is,
        inserted m' a b (l ∷ ls) (y ∷ ys) r new_is j
            (Chain-Agree m2 m' (point n) (l ∷ ls) (device a)
              (Agree-set m2 y w (l ∷ ls) ((λ z. ne (sym z)), (NotIn-All y ys ls r.disjoint.1).0))
              (Chain-relink m1 (point n) l ls (device a) v _ r.left_distinct.0
                (retarget-Joins v.shape y n _ join') (keep _ ls _ c')))
            (Chain-relink m2 (point n) y ys (device b) t _ r.right_distinct.0
              (retarget-Joins t.shape l n _ join)
              (Chain-Agree m1 m2 _ ys _ (Agree-set m1 l u ys r.disjoint.0.1) (keep _ ys _ c)))
            λ k p q h.
              get-set_ne k y w m2 (λ z. q.0 (sym z))
              ∙ (get-set_ne k l u m1 (λ z. p.0 (sym z)) ∙ (get-set_ne k n new m h ∙ r.only k p q)),
      )

  between_points :
      (a b : Endpoint) (l : ℕ) (ls : List ℕ) (y : ℕ) (ys : List ℕ) (leg : Leg)
      → leg ≡ new.shape
      → IsRoute m a (l ∷ ls) (y ∷ ys) b
      → Spans leg (point l) (point y)
      → Inserted m n new a (l ∷ ls) (y ∷ ys) b leg
  between_points a b l ls y ys leg s r j = elim (Spans-points leg l y j) [
    | inl e ↦ rw e (between_points_ordered a b l ls y ys (rw s at j) r)
    | inr e ↦ rw e (
        mirrored a b (l ∷ ls) (y ∷ ys) (Shape.tptp y l) (
          between_points_ordered b a y ys l ls (Joins-symm _ _ _ (rw s at j))
            (IsRoute-mirror (l ∷ ls) (y ∷ ys) r)))
  ]

  -- At any place of the route.
  pub split_leg-IsRoute :
      (a b : Endpoint) (ls ys : List ℕ) (leg : Leg)
      → leg ≡ new.shape
      → IsRoute m a ls ys b
      → Spans leg (first ls (device a)) (first ys (device b))
      → Inserted m n new a ls ys b leg
  split_leg-IsRoute a b [] [] leg s r j = between_devices a b leg s r j
  split_leg-IsRoute a b [] (y ∷ ys) leg s r j = beside_device a b y ys leg s r j
  split_leg-IsRoute a b (l ∷ ls) [] leg s r j =
      mirrored a b (l ∷ ls) [] leg
        (beside_device b a l ls leg s (IsRoute-mirror (l ∷ ls) [] r) (Joins-symm _ _ _ j))
  split_leg-IsRoute a b (l ∷ ls) (y ∷ ys) leg s r j = between_points a b l ls y ys leg s r j
