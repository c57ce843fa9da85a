-- ===== src/Connections/Legs.antt =====
-- Which legs a link has.
use mapper.Prelude.{
  ℕ, String, ◌≡◌, refl, ◌∙◌, sym, ◌≢◌, ℕ_discrete, Option, none, some, Bool, true, not, ◌&&◌, ◌||◌,
  List, [], ◌∷◌, ◌++◌, append_assoc, append-nil, str_eq, if◌then◌else◌, arith, ◌==◌,
}
use mapper.Prelude.IntMap.{IntMap, get, set, get-set, get-set_self, get-set_ne}
use mapper.Turnpoints.{Endpoint, Turnpoint, Shape, Leg}
use mapper.Connections.{
  Connected, Built, touch, unconnected, mark_one, mark, join, build_tp, build_from, build_tps,
}

abbrev pub at_link : String → String → Endpoint → Bool
at_link dev nei e = str_eq e.dev dev || str_eq e.dev nei

-- All segments that end at the turnpoint `i`, unless its devices are not those of the link.
abbrev pub legs_of : String → String → ℕ → Shape → List Leg
legs_of dev nei i (Shape.devdev f t) =
    if at_link dev nei f && at_link dev nei t then Shape.devtp f i ∷ Shape.devtp t i ∷ [] else []
legs_of dev nei i (Shape.devtp f t) =
    if at_link dev nei f then Shape.devtp f i ∷ Shape.tptp i t ∷ [] else []
legs_of dev nei i (Shape.tptp f t) =
    if f == t then Shape.tptp i f ∷ [] else Shape.tptp i f ∷ Shape.tptp i t ∷ []

abbrev pub all_legs : String → String → IntMap Turnpoint → List Leg
all_legs dev nei [] = []
all_legs dev nei ((i, t) ∷ m) = legs_of dev nei i t.shape ++ all_legs dev nei m

-- A turnpoint that was just made anew is connected to nothing.
unconnected-touch :
    (i j : ℕ) (tps : IntMap Connected) → get i tps ≡ some none → get i (touch j tps) ≡ some none
unfolding touch
unconnected-touch i j tps h = ground (arith, get-set i j none tps)

unconnected_fresh :
    (i j : ℕ) (tps : IntMap Connected) → get i tps ≡ some none → unconnected i j tps ≡ true
unfolding unconnected
unconnected_fresh i j tps h = ground arith

get-mark_one_ne :
    (i j k : ℕ) (tps : IntMap Connected) → j ≢ i → get i (mark_one j k tps) ≡ get i tps
unfolding mark_one
get-mark_one_ne i j k tps h = go (get j tps) refl
  where
    go : (o : Option Connected) → get j tps ≡ o → get i (mark_one j k tps) ≡ get i tps
    go none e = rw (e, mark_one) (get-set_ne i j _ tps h)
    go (some none) e = rw (e, mark_one) (get-set_ne i j _ tps h)
    go (some (some c)) e = rw (e, mark_one) (get-set_ne i j _ tps h)

get-mark_one_new :
    (i j : ℕ) (tps : IntMap Connected)
    → get i tps ≡ some none
    → get i (mark_one i j tps) ≡ some (some (set j 1 []))
unfolding mark_one
get-mark_one_new i j tps e = rw (e, mark_one) (get-set_self i _ tps)

get-mark_one_old :
    (i j : ℕ) (c : IntMap ℕ) (tps : IntMap Connected)
    → get i tps ≡ some (some c)
    → get i (mark_one i j tps) ≡ some (some (set j 1 c))
unfolding mark_one
get-mark_one_old i j c tps e = rw (e, mark_one) (get-set_self i _ tps)

-- A turnpoint that was connected to nothing is connected to `j` alone, once it was marked.
unconnected-mark :
    (i j k : ℕ) (tps : IntMap Connected)
    → get i tps ≡ some none
    → unconnected i k (mark i j tps) ≡ not (j == k)
unfolding unconnected mark get set
unconnected-mark i j k tps h = elim (ℕ_discrete j i) [
  | yes e ↦
      let first : get i (mark_one i i tps) ≡ some (some (set i 1 [])) =
        get-mark_one_new i i tps h in
      rw e (rw (get-mark_one_old i i _ _ first, unconnected) (ground arith))
  | no ne ↦
      let first : get i (mark_one j i tps) ≡ some none = get-mark_one_ne i j i tps ne ∙ h in
      rw (get-mark_one_new i j _ first, unconnected) (ground arith)
]

-- From a turnpoint that is connected to nothing the leg is drawn.
legs-join :
    (i j : ℕ) (b : Built)
    → get i b.tps ≡ some none
    → (join i j b).legs ≡ b.legs ++ Shape.tptp i j ∷ []
unfolding join
legs-join i j b h = rw (unconnected_fresh i j b.tps h)

legs-join-join :
    (i j k : ℕ) (b : Built)
    → get i b.tps ≡ some none
    → (join i k (join i j b)).legs
      ≡ b.legs ++ (if j == k then Shape.tptp i j ∷ [] else Shape.tptp i j ∷ Shape.tptp i k ∷ [])
unfolding join
legs-join-join i j k b h = rw (unconnected_fresh i j b.tps h) (
    rw (unconnected-mark i j k b.tps h)
      (ground (arith, append_assoc b.legs (Shape.tptp i j ∷ []) (Shape.tptp i k ∷ []))))

-- The legs of one turn of the loop: nothing is held back, since a turnpoint is made anew first.
legs-build_tp :
    (dev nei : String) (i : ℕ) (s : Shape) (b : Built)
    → (build_tp dev nei i s b).legs ≡ b.legs ++ legs_of dev nei i s
unfolding build_tp
legs-build_tp dev nei i (Shape.devdev f t) b =
    ground
      (arith, append-nil b.legs, append_assoc b.legs (Shape.devtp f i ∷ []) (Shape.devtp t i ∷ []))
legs-build_tp dev nei i (Shape.devtp f t) b =
    let tps : IntMap Connected = set i none b.tps in
    let b1 : Built = record b { tps = touch t tps; legs = b.legs ++ Shape.devtp f i ∷ [] } in
    ground (
      arith,
      append-nil b.legs,
      append_assoc b.legs (Shape.devtp f i ∷ []) (Shape.tptp i t ∷ []),
      legs-join i t b1 (unconnected-touch i t tps (get-set_self i none b.tps)),
    )
legs-build_tp dev nei i (Shape.tptp f t) b =
    let tps : IntMap Connected = set i none b.tps in
    legs-join-join i f t (record b { tps = touch t (touch f tps) })
      (unconnected-touch i t (touch f tps) (unconnected-touch i f tps (get-set_self i none b.tps)))

legs-build_from :
    (dev nei : String) (b : Built) (m : IntMap Turnpoint)
    → (build_from dev nei b m).legs ≡ b.legs ++ all_legs dev nei m
unfolding build_from
legs-build_from dev nei b [] = sym (append-nil b.legs)
legs-build_from dev nei b ((i, t) ∷ m) =
    rw (legs-build_from dev nei (build_tp dev nei i t.shape b) m, legs-build_tp)
      (append_assoc b.legs (legs_of dev nei i t.shape) (all_legs dev nei m))

-- The legs that are built for a link are, turnpoint by turnpoint, all the segments at it that
-- `legs_of` lists: the test for a pair of turnpoints that is connected already never holds one back,
-- but for a turnpoint that names one neighbour twice.
pub legs-build_tps :
    (dev nei : String) (m : IntMap Turnpoint) → (build_tps dev nei m).legs ≡ all_legs dev nei m
unfolding build_tps
legs-build_tps dev nei m = legs-build_from dev nei (record { tps = []; legs = []; errors = [] }) m
