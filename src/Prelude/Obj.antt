-- ===== src/Prelude/Obj.antt =====
-- A JavaScript object with string keys that are no array indices, as an association list in the
-- order of insertion: that is the order in which `for(let k in obj)` visits such keys.
use mapper.Prelude.{
  String, ◌≡◌, refl, ◌≢◌, Bool, true, false, ◌||◌, Option, none, some, List, [], ◌∷◌, arith, str_eq,
  eq_iff, if◌then◌else◌, Bool-cases, inl, inr,
}

abbrev pub Obj {ℓ} : Type ℓ → Type ℓ
Obj V = List (String × V)

module _ {ℓ} {V : Type ℓ} where
  unfoldable pub get : String → Obj V → Option V
  get k [] = none
  get k ((j, v) ∷ m) = if str_eq j k then some v else get k m

  -- `obj[k] = v`
  unfoldable pub set : String → V → Obj V → Obj V
  set k v [] = (k, v) ∷ []
  set k v ((j, w) ∷ m) = if str_eq j k then (k, v) ∷ m else (j, w) ∷ set k v m

  -- `delete obj[k]`
  unfoldable pub delete : String → Obj V → Obj V
  delete k [] = []
  delete k ((j, w) ∷ m) = let rest = delete k m in if str_eq j k then rest else (j, w) ∷ rest

  pub get-set :
      (j k : String) (v : V) (m : Obj V)
      → get j (set k v m) ≡ (if str_eq k j then some v else get j m)
  unfolding get set
  get-set j k v [] = refl
  get-set j k v ((i, w) ∷ m) = ground (arith, eq_iff k j, eq_iff i k, eq_iff i j, get-set j k v m)

  pub get-delete :
      (j k : String) (m : Obj V) → get j (delete k m) ≡ (if str_eq k j then none else get j m)
  unfolding get delete
  get-delete j k [] = ground arith
  get-delete j k ((i, w) ∷ m) = ground (arith, eq_iff k j, eq_iff i k, eq_iff i j, get-delete j k m)

  pub get-set_self : (k : String) (v : V) (m : Obj V) → get k (set k v m) ≡ some v
  get-set_self k v m = ground (arith, get-set k k v m, eq_iff k k)

  pub get-set_ne : (j k : String) (v : V) (m : Obj V) → k ≢ j → get j (set k v m) ≡ get j m
  get-set_ne j k v m h = ground (arith, get-set j k v m, eq_iff k j)

  pub get-delete_self : (k : String) (m : Obj V) → get k (delete k m) ≡ none
  get-delete_self k m = ground (arith, get-delete k k m, eq_iff k k)

  pub get-delete_ne : (j k : String) (m : Obj V) → k ≢ j → get j (delete k m) ≡ get j m
  get-delete_ne j k m h = ground (arith, get-delete j k m, eq_iff k j)

  abbrev pub is_defined : Option V → Bool
  is_defined none = false
  is_defined (some v) = true

  pub is_defined-get-set :
      (j k : String) (v : V) (m : Obj V)
      → is_defined (get j (set k v m)) ≡ (str_eq k j || is_defined (get j m))
  is_defined-get-set j k v m = ground (arith, get-set j k v m)

module _ {V : Type 0} where
  -- What holds for every entry
  abbrev pub Each : (String → V → Type 0) → Obj V → Type 0
  Each P m = (k : String) (v : V) → get k m ≡ some v → P k v

  pub Each-set :
      (P : String → V → Type 0) (k : String) (v : V) (m : Obj V)
      → P k v
      → Each P m
      → Each P (set k v m)
  Each-set P k v m h s j w e = elim (Bool-cases (str_eq k j)) [
    | inl same ↦
        let q : k ≡ j = ground (arith, eq_iff k j) in
        let x : some v ≡ some w = rw same at (rw (get-set j k v m) at e) in
        let y : v ≡ w = cc (x) in rw (← q, ← y) h
    | inr other ↦ s j w (rw other at (rw (get-set j k v m) at e))
  ]
