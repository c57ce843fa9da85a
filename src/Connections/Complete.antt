-- ===== src/Connections/Complete.antt =====
-- Every segment of a route has its leg, and those between two turnpoints have two.
use mapper.Prelude.{ℕ, String, ◌≡◌, refl, ◌≢◌, inl, inr, some, true, List, [], ◌∷◌, arith, Has}
use mapper.Prelude.IntMap.{get}
use mapper.Turnpoints.{Endpoint, Turnpoint, Shape, Leg}
use mapper.Turnpoints.Joins.{Node, device, point, Joins, Joins-symm, Spans}
use mapper.Turnpoints.Chain.{Tps, first, Represents, Represents-IsRoute, path_of}
use mapper.Connections.Segments.{Has-all_legs}
use mapper.Connections.{build_tps}
use mapper.Connections.Legs.{at_link, legs_of, legs-build_tps}

-- The devices at a turnpoint are those of the link.
abbrev Belongs : String → String → Node → Type 0
Belongs dev nei (device e) = at_link dev nei e ≡ true
Belongs dev nei (point i) = Unit

-- A turnpoint's own leg to a neighbouring turnpoint, and to a device.
Has-tptp :
    (dev nei : String) (i j : ℕ) (s : Shape) (p : Node)
    → Belongs dev nei p
    → Joins s p (point j)
    → Has (Shape.tptp i j) (legs_of dev nei i s)
Has-tptp dev nei i j (Shape.devdev f t) p h (inl k) = absurd (cc)
Has-tptp dev nei i j (Shape.devdev f t) p h (inr k) = absurd (cc)
Has-tptp dev nei i j (Shape.devtp f t) (device e) h k = ground arith
Has-tptp dev nei i j (Shape.devtp f t) (point l) h (inl k) = absurd (cc)
Has-tptp dev nei i j (Shape.devtp f t) (point l) h (inr k) = absurd (cc)
Has-tptp dev nei i j (Shape.tptp f t) p h k = ground arith

Has-devtp :
    (dev nei : String) (i : ℕ) (e : Endpoint) (s : Shape) (q : Node)
    → Belongs dev nei q
    → at_link dev nei e ≡ true
    → Joins s (device e) q
    → Has (Shape.devtp e i) (legs_of dev nei i s)
Has-devtp dev nei i e (Shape.devdev f t) (device g) b h k = ground arith
Has-devtp dev nei i e (Shape.devdev f t) (point l) b h (inl k) = absurd (cc)
Has-devtp dev nei i e (Shape.devdev f t) (point l) b h (inr k) = absurd (cc)
Has-devtp dev nei i e (Shape.devtp f t) q b h k = ground arith
Has-devtp dev nei i e (Shape.tptp f t) q b h (inl k) = absurd (cc)
Has-devtp dev nei i e (Shape.tptp f t) q b h (inr k) = absurd (cc)

module _ (dev nei : String) (m : Tps) (a b : Endpoint) (at_a : at_link dev nei a ≡ true)
    (at_b : at_link dev nei b ≡ true) where
  Belongs-first_left : (ls : List ℕ) → Belongs dev nei (first ls (device a))
  Belongs-first_left [] = at_a
  Belongs-first_left (l ∷ ls) = tt

  Belongs-first_right : (ys : List ℕ) → Belongs dev nei (first ys (device b))
  Belongs-first_right [] = at_b
  Belongs-first_right (y ∷ ys) = tt

  -- When the turnpoints of a link are a route between `a` and `b`, which are interfaces of the
  -- link's two devices, two legs are built between any two neighbouring turnpoints `i` and `j`, one
  -- each way.
  pub build_tps_twice :
      (ls : List ℕ) (i j : ℕ) (ys : List ℕ)
      → Represents m a (path_of ls (i ∷ j ∷ ys)) b
      → Has (Shape.tptp i j) (build_tps dev nei m).legs
        × Has (Shape.tptp j i) (build_tps dev nei m).legs
  build_tps_twice ls i j ys r =
      let r1 = Represents-IsRoute ls (i ∷ j ∷ ys) r in
      let (t, e, k, (u, f, l, _)) = r1.right in
      rw legs-build_tps (
        Has-all_legs dev nei i t _ m e (Has-tptp dev nei i j t.shape _ (Belongs-first_left ls) k),
        Has-all_legs dev nei j u _ m f
            (Has-tptp dev nei j i u.shape _ (Belongs-first_right ys) (Joins-symm u.shape _ _ l)),
      )

  -- When the turnpoints of a link are a route between `a` and `b`, which are interfaces of the
  -- link's two devices, and there is a turnpoint, every segment of the route has a leg.
  pub build_tps_complete :
      (ls ys : List ℕ)
      → Represents m a (path_of ls ys) b
      → path_of ls ys ≢ []
      → (leg : Leg) × Has leg (build_tps dev nei m).legs
        × Spans leg (first ls (device a)) (first ys (device b))
  build_tps_complete [] [] r h = absurd (h refl)
  build_tps_complete [] (y ∷ ys) r h =
      let (t, e, k, _) = r.right in
      (
        Shape.devtp a y,
        rw legs-build_tps (
            Has-all_legs dev nei y t _ m e
              (Has-devtp dev nei y a t.shape _ (Belongs-first_right ys) at_a k)),
        inl refl,
      )
  build_tps_complete (l ∷ ls) ys r h =
      let r1 = Represents-IsRoute (l ∷ ls) ys r in let (t, e, k, _) = r1.left in last ls ys t e k
    where
      last :
          (ls ys : List ℕ) (t : Turnpoint)
          → get l m ≡ some t
          → Joins t.shape (first ys (device b)) (first ls (device a))
          → (leg : Leg) × Has leg (build_tps dev nei m).legs
            × Spans leg (point l) (first ys (device b))
      last ls [] t e k = (
        Shape.devtp b l,
        rw legs-build_tps (
            Has-all_legs dev nei l t _ m e
              (Has-devtp dev nei l b t.shape _ (Belongs-first_left ls) at_b k)),
        inr refl,
      )
      last ls (y ∷ ys) t e k = (
        Shape.tptp l y,
        rw legs-build_tps (
            Has-all_legs dev nei l t _ m e
              (Has-tptp dev nei l y t.shape _ (Belongs-first_left ls) (Joins-symm t.shape _ _ k))),
        inl refl,
      )
