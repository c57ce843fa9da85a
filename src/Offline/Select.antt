-- ===== src/Offline/Select.antt =====
-- Loops that copy the entries of an object that pass a test.
use mapper.Prelude.{
  ◌≡◌, ◌↔◌, refl, true, false, Option-cases, String, Option, none, some, Bool, [], ◌∷◌, str_eq,
  eq_iff, arith, if◌then◌else◌, Bool-cases, inl, inr,
}
use mapper.Prelude.Obj.{Obj, get, set, get-set}
use mapper.Offline.{select}

-- No key stands twice, as in every object.
abbrev pub KeysDiffer : {V : Type 0} → Obj V → Type 0
KeysDiffer [] = Unit
KeysDiffer ((k, v) ∷ obj) = (get k obj ≡ none) × KeysDiffer obj

-- An entry that passes the test, and else what was there before
abbrev pub passed {ℓ} : {V : Type ℓ} → (V → Bool) → Option V → Option V → Option V
passed test none before = before
passed test (some v) before = if test v then some v else before

module _ {V : Type 0} (test : V → Bool) where
  pub get-select :
      (j : String) (ret obj : Obj V)
      → KeysDiffer obj
      → get j (select test ret obj) ≡ passed test (get j obj) (get j ret)
  unfolding select get
  get-select j ret [] d = refl
  get-select j ret ((k, v) ∷ obj) d = elim (Bool-cases (str_eq k j)) [
    | inl p ↦
        let q : k ≡ j = (eq_iff k j).0 p in
        let gone : get j obj ≡ none = rw q at d.0 in
        ground (
          arith,
          p,
          gone,
          get-select j (if test v then set k v ret else ret) obj d.1,
          get-set j k v ret,
        )
    | inr p ↦
        ground
          (arith, p, get-select j (if test v then set k v ret else ret) obj d.1, get-set j k v ret)
  ]

  -- What is copied, by what the test means
  pub select_exactly :
      {P : Type 0} (j : String) (v : V) (obj : Obj V)
      → KeysDiffer obj
      → ((test v ≡ true) ↔ P)
      → (get j (select test [] obj) ≡ some v) ↔ ((get j obj ≡ some v) × P)
  unfolding get
  select_exactly j v obj d p = rw (get-select j [] obj d) (elim (Option-cases (get j obj)) [
    | inl n ↦ rw n (λ h. absurd (cc (h)), λ h. absurd (cc (h.0)))
    | inr (w, n) ↦ elim (Bool-cases (test w)) [
      | inl t ↦ rw (n, t) (λ h. let e : w ≡ v = cc (h) in (h, p.0 (rw e at t)), λ h. h.0)
      | inr t ↦
          rw (n, t)
            (
              λ h. absurd (cc (h)),
              λ h.
                  let e : w ≡ v = cc (h.0) in
                  let y : test v ≡ true = p.1 h.1 in
                  let z : test v ≡ false = rw e at t in absurd (cc (y, z)),
            )
    ]
  ])
