-- ===== src/Tags/Paths.antt =====
-- `get_tag_path` finds a tag exactly when the tree has it, and what it finds is a path to it.
use Prim.Native.Nat.{max}
use mapper.Prelude.{
  ℕ, ◌+◌, ◌≤◌, ◌≡◌, refl, ap, ◌⊎◌, inl, inr, String, Option, none, some, false, List, [], ◌∷◌, ltb,
  str_eq, eq_iff, arith, Bool-cases,
}
use mapper.Tags.{
  TagInfo, Tag, tag, Tags, leaf, node, PathResult, below, get_tag_path, children_path,
}

unfoldable mutual
  pub depth : Tag → ℕ
  depth (tag i cs) = 1 + depth_below cs

  pub depth_below : Tags → ℕ
  depth_below leaf = 0
  depth_below (node t ts) = max (depth t) (depth_below ts)

-- The tree has a tag with this id.
mutual
  pub HasTag : String → Tag → Type 0
  HasTag id (tag i cs) = (i.id ≡ id) ⊎ HasBelow id cs

  pub HasBelow : String → Tags → Type 0
  HasBelow id leaf = ⊥
  HasBelow id (node t ts) = HasTag id t ⊎ HasBelow id ts

-- A path from the root down to one of the tags
mutual
  pub IsPath : Tag → List TagInfo → Type 0
  IsPath t [] = ⊥
  IsPath (tag i cs) (j ∷ []) = i ≡ j
  IsPath (tag i cs) (j ∷ k ∷ p) = (i ≡ j) × PathBelow cs (k ∷ p)

  pub PathBelow : Tags → List TagInfo → Type 0
  PathBelow leaf p = ⊥
  PathBelow (node t ts) p = IsPath t p ⊎ PathBelow ts p

abbrev pub last_id : List TagInfo → Option String
last_id [] = none
last_id (i ∷ []) = some i.id
last_id (i ∷ j ∷ p) = last_id (j ∷ p)

abbrev pub Searched : Tag → String → PathResult → Type 0
Searched t id r =
    ((r ≡ PathResult.missing) × (HasTag id t → ⊥))
    ⊎ ((i : TagInfo) × (p : List TagInfo) × (r ≡ PathResult.found (i ∷ p))
        × IsPath t (i ∷ p)
        × (last_id (i ∷ p) ≡ some id))

abbrev SearchedBelow : TagInfo → Tags → String → PathResult → Type 0
SearchedBelow j ts id r =
    ((r ≡ PathResult.missing) × (HasBelow id ts → ⊥))
    ⊎ ((i : TagInfo) × (p : List TagInfo) × (r ≡ PathResult.found (j ∷ i ∷ p))
        × PathBelow ts (i ∷ p)
        × (last_id (i ∷ p) ≡ some id))

mutual
  unfolding depth get_tag_path HasTag IsPath below

  search_tag :
      (t : Tag) (id : String) (counter : ℕ)
      → counter + depth t ≤ 101
      → Searched t id (get_tag_path t id counter)
  search_tag (tag i cs) id counter h =
      let test : ltb 100 counter ≡ false = ground (arith, h) in
      elim (Bool-cases (str_eq i.id id)) [
        | inl p ↦ inr (i, [], rw (test, p) refl, refl, ap some ((eq_iff i.id id).0 p))
        | inr p ↦ elim (search_below i cs id (counter + 1) (omega (arith, h))) [
          | inl (e, n) ↦ inl (
            rw (test, p) e,
            λ x. elim x [ inl y ↦ ground (arith, p, y, eq_iff i.id id) | inr z ↦ n z ],
          )
          | inr (k, q, e, path, l) ↦ inr (i, k ∷ q, rw (test, p) e, (refl, path), l)
        ]
      ]

  search_below :
      (j : TagInfo) (ts : Tags) (id : String) (counter : ℕ)
      → counter + depth_below ts ≤ 101
      → SearchedBelow j ts id (children_path j ts id counter)
  search_below j leaf id counter h = inl (refl, λ x. x)
  search_below j (node t ts) id counter h = elim (search_tag t id counter (omega (arith, h))) [
    | inl (e, n) ↦ elim (search_below j ts id counter (omega (arith, h))) [
      | inl (f, m) ↦ inl (rw e f, λ x. elim x [ inl y ↦ n y | inr z ↦ m z ])
      | inr (k, q, f, path, l) ↦ inr (k, q, rw e f, inr path, l)
    ]
    | inr (k, q, e, path, l) ↦ inr (k, q, rw e refl, inl path, l)
  ]

-- In a tree of at most 101 levels, `get_tag_path` returns null when no tag has the id, and else a path
-- from the root down to a tag that has it.
pub get_tag_path_lem : (t : Tag) (id : String) → depth t ≤ 101 → Searched t id (get_tag_path t id 0)
get_tag_path_lem t id h = search_tag t id 0 (omega (arith, h))
