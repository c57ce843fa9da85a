-- ===== src/Prelude/IntMap.antt =====
-- A JavaScript object whose keys are array indices, as an association list in ascending order of
-- the keys: that is the order in which `for(let k in obj)` visits such keys.
use mapper.Prelude.{
  ℕ, zero, suc, ◌+◌, ◌≤◌, ◌<◌, ◌≡◌, refl, ◌≢◌, Option, none, some, List, [], ◌∷◌, arith, ltb, leb,
  ◌==◌, if◌then◌else◌, length, Option-cases, inl, inr, Bool-cases, ==_iff, ltb→lt,
}

abbrev pub IntMap {ℓ} : Type ℓ → Type ℓ
IntMap V = List (ℕ × V)

module _ {ℓ} {V : Type ℓ} where
  unfoldable pub get : ℕ → IntMap V → Option V
  get k [] = none
  get k ((j, v) ∷ m) = if j == k then some v else get k m

  -- `obj[k] = v`
  unfoldable pub set : ℕ → V → IntMap V → IntMap V
  set k v [] = (k, v) ∷ []
  set k v ((j, w) ∷ m) =
      if k == j then (k, v) ∷ m else if ltb k j then (k, v) ∷ (j, w) ∷ m else (j, w) ∷ set k v m

  -- `delete obj[k]`
  unfoldable pub delete : ℕ → IntMap V → IntMap V
  delete k [] = []
  delete k ((j, w) ∷ m) = let rest = delete k m in if j == k then rest else (j, w) ∷ rest

  pub get-set :
      (j k : ℕ) (v : V) (m : IntMap V) → get j (set k v m) ≡ (if k == j then some v else get j m)
  unfolding get set
  get-set j k v [] = ground arith
  get-set j k v ((i, w) ∷ m) = ground (arith, get-set j k v m)

  pub get-delete :
      (j k : ℕ) (m : IntMap V) → get j (delete k m) ≡ (if k == j then none else get j m)
  unfolding get delete
  get-delete j k [] = ground arith
  get-delete j k ((i, w) ∷ m) = ground (arith, get-delete j k m)

  pub get-set_self : (k : ℕ) (v : V) (m : IntMap V) → get k (set k v m) ≡ some v
  get-set_self k v m = ground (arith, get-set k k v m)

  pub get-set_ne : (j k : ℕ) (v : V) (m : IntMap V) → k ≢ j → get j (set k v m) ≡ get j m
  get-set_ne j k v m h = ground (arith, get-set j k v m)

  pub get-delete_self : (k : ℕ) (m : IntMap V) → get k (delete k m) ≡ none
  get-delete_self k m = ground (arith, get-delete k k m)

  pub get-delete_ne : (j k : ℕ) (m : IntMap V) → k ≢ j → get j (delete k m) ≡ get j m
  get-delete_ne j k m h = ground (arith, get-delete j k m)

  pub ne_of_get : (j k : ℕ) (v : V) (m : IntMap V) → get j m ≡ some v → get k m ≡ none → k ≢ j
  ne_of_get j k v m h e p = ground arith

  -- How many of the keys are at least `k`.
  count_from : ℕ → IntMap V → ℕ
  count_from k [] = 0
  count_from k ((j, v) ∷ m) = (if leb k j then 1 else 0) + count_from k m

  count_from_le : (k : ℕ) (m : IntMap V) → count_from (k + 1) m ≤ count_from k m
  unfolding count_from
  count_from_le k [] = omega arith
  count_from_le k ((j, v) ∷ m) = ground (arith, count_from_le k m)

  -- A key that is there is counted by `count_from k` and not by `count_from (k + 1)`.
  count_from_lt :
      (k : ℕ) (v : V) (m : IntMap V) → get k m ≡ some v → count_from (k + 1) m < count_from k m
  unfolding count_from get
  count_from_lt k v [] h = ground arith
  count_from_lt k v ((j, w) ∷ m) h = ground (arith, count_from_le k m, count_from_lt k v m)

  count_from-le-length : (k : ℕ) (m : IntMap V) → count_from k m ≤ length m
  unfolding count_from
  count_from-le-length k [] = omega arith
  count_from-le-length k ((j, v) ∷ m) = ground (arith, count_from-le-length k m)

  -- `while(obj[k] != undefined) k++;`
  unfoldable pub first_free : ℕ → ℕ → IntMap V → Option ℕ
  first_free zero k m = none
  first_free (suc fuel) k m = elim (get k m) [ none ↦ some k | some _ ↦ first_free fuel (k + 1) m ]

  -- The search ends at the least key from `k` on that is not taken.
  pub record IsFree (k n : ℕ) (m : IntMap V) : Type ℓ where
    pub absent : get n m ≡ none
    pub reached : k ≤ n
    pub least : (j : ℕ) → k ≤ j → j < n → get j m ≢ none

  first_free_fuel :
      (fuel k : ℕ) (m : IntMap V)
      → count_from k m < fuel
      → (n : ℕ) × (first_free fuel k m ≡ some n) × IsFree k n m
  unfolding first_free
  first_free_fuel zero k m h = absurd (omega arith)
  first_free_fuel (suc fuel) k m h = go (get k m) refl (first_free_fuel fuel (k + 1) m)
    where
      go :
          (o : Option V)
          → get k m ≡ o
          → (count_from (k + 1) m < fuel
              → (n : ℕ) × (first_free fuel (k + 1) m ≡ some n) × IsFree (k + 1) n m)
          → (n : ℕ) × (first_free (suc fuel) k m ≡ some n) × IsFree k n m
      go none e ih = (
        k,
        rw (e, first_free),
        record { absent = e; reached = omega arith; least = λ j p q. absurd (omega arith) },
      )
      go (some v) e ih =
          let (n, found, free) = ih (omega (arith, count_from_lt k v m e)) in
          (
            n,
            rw (e, first_free) found,
            record {
              absent = free.absent;
              reached = omega (arith, free.reached);
              least = λ j p q z. elim (Option-cases (get j m)) [
                | inl gone ↦ ground (arith, free.least j, e)
                | inr _ ↦ ground (arith, free.least j, e)
              ];
            },
          )

  -- One more round than there are keys is enough.
  pub first_free_total :
      (m : IntMap V) → (n : ℕ) × (first_free (suc (length m)) 0 m ≡ some n) × IsFree 0 n m
  first_free_total m =
      first_free_fuel (suc (length m)) 0 m (omega (arith, count_from-le-length 0 m))

module _ {ℓ} {V : Type ℓ} where
  abbrev pub Above : ℕ → IntMap V → Type 0
  Above k [] = Unit {0}
  Above k ((j, v) ∷ m) = (k < j) × Above k m

  -- The keys ascend.
  abbrev pub Ascending : IntMap V → Type 0
  Ascending [] = Unit {0}
  Ascending ((k, v) ∷ m) = Above k m × Ascending m

  Above-trans : (k j : ℕ) (m : IntMap V) → k < j → Above j m → Above k m
  Above-trans k j [] h a = tt
  Above-trans k j ((i, v) ∷ m) h a = (omega arith, Above-trans k j m h a.1)

  Above-set : (k j : ℕ) (v : V) (m : IntMap V) → k < j → Above k m → Above k (set j v m)
  unfolding set
  Above-set k j v [] h a = (h, tt)
  Above-set k j v ((i, w) ∷ m) h a = elim (Bool-cases (j == i)) [
    | inl e ↦ rw e (h, a.1)
    | inr e ↦ rw e (elim (Bool-cases (ltb j i)) [
      | inl l ↦ rw l (h, a)
      | inr l ↦ rw l (a.0, Above-set k j v m h a.1)
    ])
  ]

  Above-delete : (k j : ℕ) (m : IntMap V) → Above k m → Above k (delete j m)
  unfolding delete
  Above-delete k j [] a = tt
  Above-delete k j ((i, w) ∷ m) a = elim (Bool-cases (i == j)) [
    | inl e ↦ rw e (Above-delete k j m a.1)
    | inr e ↦ rw e (a.0, Above-delete k j m a.1)
  ]

  -- `set` and `delete` keep the order in which the object is iterated.
  pub set-Ascending : (k : ℕ) (v : V) (m : IntMap V) → Ascending m → Ascending (set k v m)
  unfolding set
  set-Ascending k v [] a = (tt, tt)
  set-Ascending k v ((j, w) ∷ m) a = elim (Bool-cases (k == j)) [
    | inl e ↦ rw e (rw ((==_iff k j).0 e) a.0, a.1)
    | inr e ↦ rw e (elim (Bool-cases (ltb k j)) [
      | inl l ↦ rw l ((ltb→lt k j l, Above-trans k j m (ltb→lt k j l) a.0), a)
      | inr l ↦ rw l (Above-set j k v m (ground arith) a.0, set-Ascending k v m a.1)
    ])
  ]

  pub delete-Ascending : (k : ℕ) (m : IntMap V) → Ascending m → Ascending (delete k m)
  unfolding delete
  delete-Ascending k [] a = tt
  delete-Ascending k ((j, w) ∷ m) a = elim (Bool-cases (j == k)) [
    | inl e ↦ rw e (delete-Ascending k m a.1)
    | inr e ↦ rw e (Above-delete j k m a.0, delete-Ascending k m a.1)
  ]

  pub get-Above : (k : ℕ) (m : IntMap V) → Above k m → get k m ≡ none
  unfolding get
  get-Above k [] a = refl
  get-Above k ((j, v) ∷ m) a = ground (arith, get-Above k m a.1)
