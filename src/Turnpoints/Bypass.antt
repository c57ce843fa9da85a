-- ===== src/Turnpoints/Bypass.antt =====
-- The neighbours' part of `remove_tp` closes the gap that the removed turnpoint leaves.
use mapper.Prelude.{
  ℕ, ◌≡◌, ◌≢◌, ◌∙◌, sym, Option, none, some, List, [], ◌∷◌, arith, inl, inr, ℕ_discrete,
}
use mapper.Prelude.IntMap.{get, set, delete, get-set_ne, get-delete_self, get-delete_ne}
use mapper.Turnpoints.{Endpoint, Turnpoint, Shape, done, attach, redirect, rewire, bypass}
use mapper.Turnpoints.Joins.{
  device, point, Joins, Joins-symm, attach-Joins, redirect-Joins, Spans-device_point, Spans-points,
  Spans-devices,
}
use mapper.Turnpoints.Route.{IsRoute-mirror, Chain-relink}
use mapper.Turnpoints.Chain.{
  Tps, first, Chain, NotIn, IsRoute, Agree-set, Agree-delete, Chain-Agree, NotIn-All,
  IsRoute-forward,
}

rewire_done :
    (k : ℕ) (f : Shape → Option Shape) (m : Tps) (t : Turnpoint) (s : Shape)
    → get k m ≡ some t
    → f t.shape ≡ some s
    → rewire k f m ≡ (done, set k (record t { shape = s }) m)
unfolding rewire
rewire_done k f m t s e h = ground arith

-- What the neighbours' part of `remove_tp` has to establish.
abbrev pub Bypassed : Tps → ℕ → Shape → Endpoint → List ℕ → List ℕ → Endpoint → Type 0
Bypassed m i s a ls ys b =
    (m' : Tps) × (bypass s i m ≡ (done, m')) × IsRoute (delete i m') a ls ys b

module _ (m : Tps) (i : ℕ) where
  -- From the two halves of the route to the route without `i`.
  bypassed :
      (m' : Tps) (a b : Endpoint) (ls ys : List ℕ)
      → IsRoute m a ls (i ∷ ys) b
      → Chain m' (first ys (device b)) ls (device a)
      → Chain m' (first ls (device a)) ys (device b)
      → ((k : ℕ) → NotIn k ls → NotIn k ys → i ≢ k → get k m' ≡ none)
      → IsRoute (delete i m') a ls ys b
  bypassed m' a b ls ys r left right only =
      let (n, d) = NotIn-All i ys ls r.disjoint in
      record {
        left = Chain-Agree m' _ _ ls _ (Agree-delete m' i ls n) left;
        right = Chain-Agree m' _ _ ys _ (Agree-delete m' i ys r.right_distinct.0) right;
        left_distinct = r.left_distinct;
        right_distinct = r.right_distinct.1;
        disjoint = d;
        two_devices = r.two_devices;
        only = λ k p q. elim (ℕ_discrete i k) [
          | yes e ↦ rw (← e) (get-delete_self i m')
          | no ne ↦ get-delete_ne k i m' ne ∙ only k p q ne
        ];
      }

  mirrored :
      (a b : Endpoint) (ls ys : List ℕ) (s : Shape)
      → Bypassed m i s b ys ls a
      → Bypassed m i s a ls ys b
  mirrored a b ls ys s (m', e, r) = (m', e, IsRoute-mirror ys ls r)

  between_devices :
      (a b : Endpoint) (s : Shape)
      → IsRoute m a [] (i ∷ []) b
      → Joins s (device a) (device b)
      → Bypassed m i s a [] [] b
  unfolding bypass
  between_devices a b s r j = (
    m,
    elim (Spans-devices s a b j) [ inl e ↦ rw e | inr e ↦ rw e ],
    bypassed m a b [] [] r tt tt λ k p q ne. r.only k tt ((λ z. ne (sym z)), tt),
  )

  beside_device :
      (a b : Endpoint) (y : ℕ) (ys : List ℕ) (s : Shape)
      → IsRoute m a [] (i ∷ y ∷ ys) b
      → Joins s (device a) (point y)
      → Bypassed m i s a [] (y ∷ ys) b
  unfolding bypass
  beside_device a b y ys s r j =
      let (v, d, join', (t, e, join, c)) = r.right in
      let (s', h, k) = attach-Joins t.shape i a _ join in
      (
        set y (record t { shape = s' }) m,
        rw (Spans-device_point s a y j) (rewire_done y (λ u. attach u i a) m t s' e h),
        bypassed (set y (record t { shape = s' }) m) a b [] (y ∷ ys) r tt
            (Chain-relink m (device a) y ys (device b) t s' r.right_distinct.1.0 k c)
            λ l p q ne. get-set_ne l y _ m (λ z. q.0 (sym z)) ∙ r.only l tt ((λ z. ne (sym z)), q),
      )

  between_points_ordered :
      (a b : Endpoint) (l : ℕ) (ls : List ℕ) (y : ℕ) (ys : List ℕ)
      → IsRoute m a (l ∷ ls) (i ∷ y ∷ ys) b
      → Bypassed m i (Shape.tptp l y) a (l ∷ ls) (y ∷ ys) b
  unfolding bypass
  between_points_ordered a b l ls y ys r =
      let (_, _, _, (t, e, join, c)) = r.right in
      let (v, d, join', c') = r.left in
      let ne : l ≢ y = r.disjoint.0.1.0 in
      let (s, h, k) = redirect-Joins v.shape i y _ join' in
      let (s', h', k') = redirect-Joins t.shape i l _ join in
      let m1 : Tps = set l (record v { shape = s }) m in
      let m' : Tps = set y (record t { shape = s' }) m1 in
      let e1 : get y m1 ≡ some t = get-set_ne y l _ m ne ∙ e in
      (
        m',
        rw (rewire_done l (λ u. redirect u i y) m v s d h)
            (rewire_done y (λ u. redirect u i l) m1 t s' e1 h'),
        bypassed m' a b (l ∷ ls) (y ∷ ys) r
            (Chain-Agree m1 m' (point y) (l ∷ ls) (device a)
              (Agree-set m1 y _ (l ∷ ls)
                ((λ z. ne (sym z)), (NotIn-All y ys ls (NotIn-All i (y ∷ ys) ls r.disjoint.1).1).0))
              (Chain-relink m (point y) l ls (device a) v s r.left_distinct.0 k c'))
            (Chain-relink m1 (point l) y ys (device b) t s' r.right_distinct.1.0 k'
              (Chain-Agree m m1 _ ys _ (Agree-set m l _ ys r.disjoint.0.1.1) c))
            λ n p q z.
              get-set_ne n y _ m1 (λ x. q.0 (sym x))
              ∙ (get-set_ne n l _ m (λ x. p.0 (sym x)) ∙ r.only n p ((λ x. z (sym x)), q)),
      )

  between_points :
      (a b : Endpoint) (l : ℕ) (ls : List ℕ) (y : ℕ) (ys : List ℕ) (s : Shape)
      → IsRoute m a (l ∷ ls) (i ∷ y ∷ ys) b
      → Joins s (point l) (point y)
      → Bypassed m i s a (l ∷ ls) (y ∷ ys) b
  between_points a b l ls y ys s r j = elim (Spans-points s l y j) [
    | inl e ↦ rw e (between_points_ordered a b l ls y ys r)
    | inr e ↦ rw e (
        mirrored a b (l ∷ ls) (y ∷ ys) (Shape.tptp y l)
          (between_points_ordered b a y ys l ls (turned (l ∷ ls) (y ∷ ys) r)))
  ]
    where
      turned : (ls ys : List ℕ) → IsRoute m a ls (i ∷ ys) b → IsRoute m b ys (i ∷ ls) a
      turned ls ys r = IsRoute-mirror (i ∷ ls) ys (IsRoute-forward ls i ys r)

  -- At any place of the route.
  pub bypass-IsRoute :
      (a b : Endpoint) (ls ys : List ℕ) (t : Turnpoint)
      → get i m ≡ some t
      → IsRoute m a ls (i ∷ ys) b
      → Bypassed m i t.shape a ls ys b
  bypass-IsRoute a b ls ys t e r = place ls ys r (joined r.right)
    where
      joined :
          Chain m (first ls (device a)) (i ∷ ys) (device b)
          → Joins t.shape (first ls (device a)) (first ys (device b))
      joined (v, d, j, _) = let same : v ≡ t = cc (d, e) in rw same at j

      place :
          (ls ys : List ℕ)
          → IsRoute m a ls (i ∷ ys) b
          → Joins t.shape (first ls (device a)) (first ys (device b))
          → Bypassed m i t.shape a ls ys b
      place [] [] r j = between_devices a b t.shape r j
      place [] (y ∷ ys) r j = beside_device a b y ys t.shape r j
      place (l ∷ ls) [] r j = mirrored a b (l ∷ ls) [] t.shape (
          beside_device b a l ls t.shape
            (IsRoute-mirror (i ∷ l ∷ ls) [] (IsRoute-forward (l ∷ ls) i [] r)) (Joins-symm _ _ _ j))
      place (l ∷ ls) (y ∷ ys) r j = between_points a b l ls y ys t.shape r j
