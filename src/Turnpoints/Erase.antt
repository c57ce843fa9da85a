-- ===== src/Turnpoints/Erase.antt =====
-- `remove_tp` takes the turnpoint that was double-clicked out of its link.
use mapper.Prelude.{ℕ, ◌≡◌, refl, Option, none, some, List, [], ◌∷◌, arith}
use mapper.Prelude.IntMap.{get, delete}
use mapper.Turnpoints.{Endpoint, Turnpoint, done, forget, nonempty, erase_tp}
use mapper.Turnpoints.Route.{Stores, path_of-ne-nil}
use mapper.Turnpoints.Bypass.{bypass-IsRoute}
use mapper.Turnpoints.Chain.{
  Tps, IsRoute, path_of, Represents, Represents-IsRoute, IsRoute-Represents,
}

-- An object with no turnpoint is deleted, and one with a turnpoint is not.
nonempty-Stores :
    (m : Tps) (a b : Endpoint) (is : List ℕ) → Represents m a is b → Stores (nonempty m) a is b
unfolding get
nonempty-Stores [] a b [] r = (refl, r.two_devices)
nonempty-Stores [] a b (i ∷ is) r = let (t, e, _, _) = r.right in absurd (cc)
nonempty-Stores ((k, t) ∷ m) a b [] r = (r, λ _. ground (arith, r.only k tt tt))
nonempty-Stores ((k, t) ∷ m) a b (i ∷ is) r = (r, λ e. cc)

stored_at :
    {m : Tps} {a b : Endpoint} (ls : List ℕ) (i : ℕ) (ys : List ℕ)
    → IsRoute m a ls (i ∷ ys) b
    → (t : Turnpoint) × (get i m ≡ some t)
stored_at ls i ys r = let (t, e, _, _) = r.right in (t, e)

-- When the turnpoints stored for a link between `a` and `b` are the route of `ls` backwards, `i` and
-- `ys`, `remove_tp` of `i` runs through, and what is stored is the route of before without `i`: no
-- object at all when `i` was the only turnpoint.
pub erase_tp-Stores :
    (a b : Endpoint) (ls : List ℕ) (i : ℕ) (ys : List ℕ) (tps : Option Tps)
    → Stores tps a (path_of ls (i ∷ ys)) b
    → (tps' : Option Tps) × (erase_tp i tps ≡ (done, tps')) × Stores tps' a (path_of ls ys) b
unfolding erase_tp forget
erase_tp-Stores a b ls i ys none h = absurd (path_of-ne-nil ls (i ∷ ys) (λ e. cc) h.0)
erase_tp-Stores a b ls i ys (some m) h =
    let r = Represents-IsRoute ls (i ∷ ys) h.0 in
    let (t, e) = stored_at ls i ys r in
    let (m', f, r') = bypass-IsRoute m i a b ls ys t e r in
    (
      nonempty (delete i m'),
      rw (e, erase_tp) (rw f),
      nonempty-Stores (delete i m') a b (path_of ls ys) (IsRoute-Represents ls ys r'),
    )
