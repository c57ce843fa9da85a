-- ===== src/Turnpoints/Route.antt =====
-- A link read from its other device, and what is stored for a link with or without turnpoints.
use mapper.Prelude.{ℕ, ◌≡◌, refl, ◌≢◌, sym, Option, none, some, List, [], ◌∷◌, All}
use mapper.Prelude.IntMap.{get, set, get-set_self}
use mapper.Turnpoints.{Endpoint, Turnpoint, Shape, or_empty}
use mapper.Turnpoints.Joins.{Node, point, Joins}
use mapper.Turnpoints.Chain.{
  Tps, first, Chain, NotIn, IsRoute, Agree-set, Chain-Agree, All-NotIn, path_of, Represents,
  Represents-IsRoute,
}

All-NotIn-nil : (ys : List ℕ) → All (λ i. NotIn i []) ys
All-NotIn-nil [] = tt
All-NotIn-nil (i ∷ ys) = (tt, All-NotIn-nil ys)

transpose : (ls ys : List ℕ) → All (λ i. NotIn i ys) ls → All (λ i. NotIn i ls) ys
transpose [] ys h = All-NotIn-nil ys
transpose (l ∷ ls) ys h = All-NotIn l ls ys h.0 (transpose ls ys h.1)

-- The link read from its other device.
pub IsRoute-mirror :
    {m : Tps} {a b : Endpoint} (ls ys : List ℕ) → IsRoute m a ls ys b → IsRoute m b ys ls a
IsRoute-mirror ls ys r = record {
  left = r.right;
  right = r.left;
  left_distinct = r.right_distinct;
  right_distinct = r.left_distinct;
  disjoint = transpose ls ys r.disjoint;
  two_devices = λ e. r.two_devices (sym e);
  only = λ k p q. r.only k q p;
}

-- A turnpoint at the head of a chain is given another neighbour in front.
pub Chain-relink :
    (m : Tps) (p : Node) (y : ℕ) (ys : List ℕ) (q : Node) (t : Turnpoint) (s : Shape)
    → NotIn y ys
    → Joins s p (first ys q)
    → Chain m (point y) ys q
    → Chain (set y (record t { shape = s }) m) p (y ∷ ys) q
Chain-relink m p y ys q t s n j c = (
  record t { shape = s },
  get-set_self y (record t { shape = s }) m,
  j,
  Chain-Agree m _ (point y) ys q (Agree-set m y _ ys n) c,
)

-- What is stored for a link whose turnpoints are `is`: nothing, if it has none.
abbrev pub Stores : Option Tps → Endpoint → List ℕ → Endpoint → Type 0
Stores none a is b = (is ≡ []) × (a.dev ≢ b.dev)
Stores (some m) a is b = Represents m a is b × (is ≢ [])

pub path_of-ne-nil : (ls ys : List ℕ) → ys ≢ [] → path_of ls ys ≢ []
path_of-ne-nil [] ys h = h
path_of-ne-nil (l ∷ ls) ys h = path_of-ne-nil ls (l ∷ ys) (λ e. cc)

pub path_of-eq-nil : (ls ys : List ℕ) → path_of ls ys ≡ [] → (ls ≡ []) × (ys ≡ [])
path_of-eq-nil [] ys h = (refl, h)
path_of-eq-nil (l ∷ ls) ys h = absurd (path_of-ne-nil ls (l ∷ ys) (λ e. cc) h)

no_turnpoint : (a b : Endpoint) → a.dev ≢ b.dev → IsRoute [] a [] [] b
unfolding get
no_turnpoint a b h = record {
  left = tt;
  right = tt;
  left_distinct = tt;
  right_distinct = tt;
  disjoint = tt;
  two_devices = h;
  only = λ k p q. refl;
}

pub Stores-IsRoute :
    (tps : Option Tps) (a b : Endpoint) (ls ys : List ℕ)
    → Stores tps a (path_of ls ys) b
    → IsRoute (or_empty tps) a ls ys b
Stores-IsRoute none a b ls ys h =
    let (e, f) = path_of-eq-nil ls ys h.0 in rw (e, f) (no_turnpoint a b h.1)
Stores-IsRoute (some m) a b ls ys h = Represents-IsRoute ls ys h.0
