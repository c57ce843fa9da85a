-- ===== src/Offline/ForIn.antt =====
-- `for(let k in obj) ...`: a loop over the keys of an object with a state, that a TypeError ends.
use mapper.Prelude.{
  ap, ◌∙◌, ◌≡◌, refl, ◌↔◌, ◌⊎◌, inl, inr, String, Option, some, List, [], ◌∷◌, ◌++◌, arith, Has,
  Has-append, Has-append_left, Has-append_right, Option-cases,
}
use mapper.Prelude.Obj.{Obj}
use mapper.Text.{◌>>=◌}

-- `Q k v x` for one of the entries
abbrev pub ForSome : {V A : Type 0} → (String → V → A → Type 0) → Obj V → A → Type 0
ForSome Q [] x = ⊥
ForSome Q ((k, v) ∷ obj) x = Q k v x ⊎ ForSome Q obj x

-- The list that a state holds grows by what is meant, and by nothing else.
abbrev pub Grows : {R A : Type 0} → (R → List A) → R → R → (A → Type 0) → Type 0
Grows {R} {A} view r r' P = (x : A) → Has x (view r') ↔ (Has x (view r) ⊎ P x)

-- One more element, and none
pub append-Grows :
    {A : Type 0} (xs : List A) (y : A) (P : A → Type 0)
    → ((x : A) → P x ↔ (x ≡ y))
    → (x : A) → Has x (xs ++ y ∷ []) ↔ (Has x xs ⊎ P x)
append-Grows xs y P h x = (
  λ k. elim (Has-append x xs (y ∷ []) k) [
    | inl a ↦ inl a
    | inr b ↦ elim b [ inl e ↦ inr ((h x).1 e) | inr c ↦ absurd c ]
  ],
  λ k. elim k [
    | inl a ↦ Has-append_left x xs (y ∷ []) a
    | inr p ↦ Has-append_right x xs (y ∷ []) (inl ((h x).0 p))
  ],
)

pub same-Grows :
    {A : Type 0} (xs : List A) (P : A → Type 0) (x : A) → (P x → ⊥) → Has x xs ↔ (Has x xs ⊎ P x)
same-Grows xs P x h = (λ k. inl k, λ k. elim k [ inl a ↦ a | inr p ↦ absurd (h p) ])

module _ {V R : Type 0} where
  unfoldable pub for_in : (String → V → R → Option R) → Obj V → R → Option R
  for_in body [] r = some r
  for_in body ((k, v) ∷ obj) r = body k v r >>= for_in body obj

  pub for_in-Grows :
      {A : Type 0} (view : R → List A) (body : String → V → R → Option R)
      (Q : String → V → A → Type 0)
      → ((k : String) (v : V) (r r' : R) → body k v r ≡ some r' → Grows view r r' (Q k v))
      → (obj : Obj V) (r r' : R) → for_in body obj r ≡ some r'
      → Grows view r r' (ForSome Q obj)
  unfolding for_in
  for_in-Grows view body Q step [] r r' e x =
      let q : r ≡ r' = ground (arith, e) in
      rw (← q) (λ h. inl h, λ h. elim h [ inl a ↦ a | inr b ↦ absurd b ])
  for_in-Grows view body Q step ((k, v) ∷ obj) r r' e x = elim (Option-cases (body k v r)) [
    | inl p ↦ absurd (ground (arith, p, e))
    | inr (m, p) ↦
        let rest : for_in body obj m ≡ some r' = rw p at e in
        let (there, back) = for_in-Grows view body Q step obj m r' rest x in
        let (one, eno) = step k v r m p x in
        (
          λ h. elim (there h) [
            | inl a ↦ elim (one a) [ inl b ↦ inl b | inr q ↦ inr (inl q) ]
            | inr s ↦ inr (inr s)
          ],
          λ h. elim h [
            | inl b ↦ back (inl (eno (inl b)))
            | inr s ↦ elim s [ inl q ↦ back (inl (eno (inr q))) | inr t ↦ back (inr t) ]
          ],
        )
  ]

  -- A loop whose body never fails runs through.
  pub for_in-total :
      (body : String → V → R → Option R)
      → ((k : String) (v : V) (r : R) → (r' : R) × (body k v r ≡ some r'))
      → (obj : Obj V) (r : R) → (r' : R) × (for_in body obj r ≡ some r')
  unfolding for_in
  for_in-total body step [] r = (r, refl)
  for_in-total body step ((k, v) ∷ obj) r =
      let (m, p) = step k v r in let (r', q) = for_in-total body step obj m in (r', rw p q)

  -- What no turn changes, the loop does not change.
  pub for_in-keeps :
      {A : Type 0} (view : R → A) (body : String → V → R → Option R)
      → ((k : String) (v : V) (r r' : R) → body k v r ≡ some r' → view r' ≡ view r)
      → (obj : Obj V) (r r' : R) → for_in body obj r ≡ some r'
      → view r' ≡ view r
  unfolding for_in
  for_in-keeps view body step [] r r' e = let q : r' ≡ r = ground (arith, e) in ap view q
  for_in-keeps view body step ((k, v) ∷ obj) r r' e = elim (Option-cases (body k v r)) [
    | inl p ↦ absurd (ground (arith, p, e))
    | inr (m, p) ↦ for_in-keeps view body step obj m r' (rw p at e) ∙ step k v r m p
  ]
