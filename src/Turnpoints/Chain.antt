-- ===== src/Turnpoints/Chain.antt =====
-- A link as a path of turnpoints between two devices, with a focus on one of its segments: the
-- turnpoints before the focus, nearest first, and those behind it.
use mapper.Prelude.{ℕ, ◌≡◌, ◌≢◌, ◌∙◌, sym, none, some, List, [], ◌∷◌, All, arith}
use mapper.Prelude.IntMap.{IntMap, get, set, delete, get-set_ne, get-delete_ne}
use mapper.Turnpoints.{Endpoint, Turnpoint}
use mapper.Turnpoints.Joins.{Node, device, point, Joins, Joins-symm}

abbrev pub Tps : Type 0
Tps = IntMap Turnpoint

abbrev pub first : List ℕ → Node → Node
first [] q = q
first (i ∷ is) q = point i

-- From `p` over the turnpoints `is` to `q`, each joins the one before it and the one behind it.
abbrev pub Chain : Tps → Node → List ℕ → Node → Type 0
Chain m p [] q = Unit {0}
Chain m p (i ∷ is) q =
    (t : Turnpoint) × (get i m ≡ some t) × Joins t.shape p (first is q) × Chain m (point i) is q

abbrev pub NotIn : ℕ → List ℕ → Type 0
NotIn i = All (λ j. i ≢ j)

abbrev pub Distinct : List ℕ → Type 0
Distinct [] = Unit {0}
Distinct (i ∷ is) = NotIn i is × Distinct is

-- The route from `a` over `ls` backwards and `ys` to `b`.
pub record IsRoute (m : Tps) (a : Endpoint) (ls ys : List ℕ) (b : Endpoint) : Type 0 where
  pub left : Chain m (first ys (device b)) ls (device a)
  pub right : Chain m (first ls (device a)) ys (device b)
  pub left_distinct : Distinct ls
  pub right_distinct : Distinct ys
  pub disjoint : All (λ i. NotIn i ys) ls
  pub two_devices : a.dev ≢ b.dev
  -- no other turnpoints are stored
  pub only : (i : ℕ) → NotIn i ls → NotIn i ys → get i m ≡ none

abbrev pub Agree : Tps → Tps → List ℕ → Type 0
Agree m m' = All (λ i. get i m' ≡ get i m)

pub Agree-set :
    (m : Tps) (k : ℕ) (t : Turnpoint) (is : List ℕ) → NotIn k is → Agree m (set k t m) is
Agree-set m k t [] h = tt
Agree-set m k t (i ∷ is) h = (get-set_ne i k t m h.0, Agree-set m k t is h.1)

pub Agree-delete : (m : Tps) (k : ℕ) (is : List ℕ) → NotIn k is → Agree m (delete k m) is
Agree-delete m k [] h = tt
Agree-delete m k (i ∷ is) h = (get-delete_ne i k m h.0, Agree-delete m k is h.1)

pub Agree-trans : (m m' m'' : Tps) (is : List ℕ) → Agree m m' is → Agree m' m'' is → Agree m m'' is
Agree-trans m m' m'' [] h k = tt
Agree-trans m m' m'' (i ∷ is) h k = (k.0 ∙ h.0, Agree-trans m m' m'' is h.1 k.1)

-- A chain depends on its own turnpoints alone.
pub Chain-Agree :
    (m m' : Tps) (p : Node) (is : List ℕ) (q : Node)
    → Agree m m' is
    → Chain m p is q
    → Chain m' p is q
Chain-Agree m m' p [] q h c = tt
Chain-Agree m m' p (i ∷ is) q h (t, e, j, c) =
    (t, h.0 ∙ e, j, Chain-Agree m m' (point i) is q h.1 c)

-- A key that is not stored is none of a chain's.
pub NotIn-of_absent :
    (m : Tps) (k : ℕ) (p : Node) (is : List ℕ) (q : Node)
    → get k m ≡ none
    → Chain m p is q
    → NotIn k is
NotIn-of_absent m k p [] q h c = tt
NotIn-of_absent m k p (i ∷ is) q h (t, e, j, c) =
    ((λ s. ground (arith, h, e)), NotIn-of_absent m k (point i) is q h c)

pub NotIn-All :
    (i : ℕ) (ys ls : List ℕ)
    → All (λ l. NotIn l (i ∷ ys)) ls
    → NotIn i ls × All (λ l. NotIn l ys) ls
NotIn-All i ys [] h = (tt, tt)
NotIn-All i ys (l ∷ ls) h =
    let (n, r) = NotIn-All i ys ls h.1 in ((((λ e. h.0.0 (sym e)), n)), (h.0.1, r))

pub All-NotIn :
    (i : ℕ) (ys ls : List ℕ)
    → NotIn i ls
    → All (λ l. NotIn l ys) ls
    → All (λ l. NotIn l (i ∷ ys)) ls
All-NotIn i ys [] n r = tt
All-NotIn i ys (l ∷ ls) n r = (((λ e. n.0 (sym e)), r.0), All-NotIn i ys ls n.1 r.1)

-- The focus may move over a turnpoint.
pub IsRoute-forward :
    {m : Tps} {a b : Endpoint} (ls : List ℕ) (i : ℕ) (ys : List ℕ)
    → IsRoute m a ls (i ∷ ys) b
    → IsRoute m a (i ∷ ls) ys b
IsRoute-forward ls i ys r =
    let (t, e, j, c) = r.right in
    let (n, d) = NotIn-All i ys ls r.disjoint in
    record {
      left = (t, e, Joins-symm t.shape _ _ j, r.left);
      right = c;
      left_distinct = (n, r.left_distinct);
      right_distinct = r.right_distinct.1;
      disjoint = (r.right_distinct.0, d);
      two_devices = r.two_devices;
      only = λ k p q. r.only k p.1 (p.0, q);
    }

pub IsRoute-back :
    {m : Tps} {a b : Endpoint} (ls : List ℕ) (i : ℕ) (ys : List ℕ)
    → IsRoute m a (i ∷ ls) ys b
    → IsRoute m a ls (i ∷ ys) b
IsRoute-back ls i ys r =
    let (t, e, j, c) = r.left in
    record {
      left = c;
      right = (t, e, Joins-symm t.shape _ _ j, r.right);
      left_distinct = r.left_distinct.1;
      right_distinct = (r.disjoint.0, r.right_distinct);
      disjoint = All-NotIn i ys ls r.left_distinct.0 r.disjoint.1;
      two_devices = r.two_devices;
      only = λ k p q. r.only k (q.0, p) q.1;
    }

-- All turnpoints of a route, from `a` to `b`.
abbrev pub path_of : List ℕ → List ℕ → List ℕ
path_of [] ys = ys
path_of (i ∷ ls) ys = path_of ls (i ∷ ys)

-- The turnpoints of a link, in the order from `a` to `b`.
abbrev pub Represents : Tps → Endpoint → List ℕ → Endpoint → Type 0
Represents m a is b = IsRoute m a [] is b

pub Represents-IsRoute :
    {m : Tps} {a b : Endpoint} (ls ys : List ℕ)
    → Represents m a (path_of ls ys) b
    → IsRoute m a ls ys b
Represents-IsRoute [] ys r = r
Represents-IsRoute (i ∷ ls) ys r = IsRoute-forward ls i ys (Represents-IsRoute ls (i ∷ ys) r)

pub IsRoute-Represents :
    {m : Tps} {a b : Endpoint} (ls ys : List ℕ)
    → IsRoute m a ls ys b
    → Represents m a (path_of ls ys) b
IsRoute-Represents [] ys r = r
IsRoute-Represents (i ∷ ls) ys r = IsRoute-Represents ls (i ∷ ys) (IsRoute-back ls i ys r)
