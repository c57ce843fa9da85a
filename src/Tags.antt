-- ===== src/Tags.antt =====
-- The tree of tags of map-broker/www/mapper.js: the path to a tag, and the order by which the tags of
-- a site are sorted.
pub mod Paths
pub mod Compare
mod Examples
use Prim.Native.Nat.{bit_and}
use mapper.Prelude.{
  ℕ, zero, suc, ◌+◌, ◌/◌, ◌%◌, String, Option, none, some, Bool, true, false, not, ◌&&◌, ◌||◌, List,
  [], ◌∷◌, length, ltb, ◌==◌, str_eq, if◌then◌else◌,
}
use mapper.Prelude.Int.{ℤ, pos, negsuc, sub_ℕ}
use mapper.Text.{Text}
use mapper.Sort.{num_compare, same_text}

-- The fields of a tag that a path holds; `flags` may be undefined.
pub record TagInfo : Type 0 where
  pub id : String
  pub text : Text
  pub flags : Option ℕ

mutual
  pub data Tag : Type 0 where
    tag : TagInfo → Tags → Tag

  pub data Tags : Type 0 where
    leaf : Tags
    node : Tag → Tags → Tags

-- What `get_tag_path` returns: null, undefined or a path. A result that is undefined makes the
-- caller throw, since it has no `slice`.
pub data PathResult : Type 0 where
  missing undefined thrown : PathResult
  found : List TagInfo → PathResult

-- What the caller makes of a child's result, `rest` when it is null
unfoldable pub below : TagInfo → PathResult → PathResult → PathResult
below i PathResult.missing rest = rest
below i PathResult.undefined rest = PathResult.thrown
below i PathResult.thrown rest = PathResult.thrown
below i (PathResult.found p) rest = PathResult.found (i ∷ p)

unfoldable mutual
  pub get_tag_path : Tag → String → ℕ → PathResult
  get_tag_path (tag i cs) id counter =
      let rest = children_path i cs id (counter + 1) in
      if ltb 100 counter
      then PathResult.undefined
      else if str_eq i.id id
      then PathResult.found (i ∷ [])
      else rest

  -- The loop over `children`
  pub children_path : TagInfo → Tags → String → ℕ → PathResult
  children_path i leaf id counter = PathResult.missing
  children_path i (node t ts) id counter =
      below i (get_tag_path t id counter) (children_path i ts id counter)

-- `if_undef(path[path.length - 1]["text"], "")`; `none` is a throw.
abbrev last_text : List TagInfo → Text
last_text [] = []
last_text (i ∷ []) = i.text
last_text (i ∷ j ∷ p) = last_text (j ∷ p)

unfoldable pub get_tag_name : Tag → String → Option Text
unfolding get_tag_path
get_tag_name t id = elim (get_tag_path t id 0) [
  | PathResult.missing ↦ some []
  | PathResult.undefined ↦ none
  | PathResult.thrown ↦ none
  | PathResult.found p ↦ some (last_text p)
]

-- The constant `flag` is F_IN_LABEL, which the server sends.
in_label : ℕ → String → TagInfo → Bool
in_label flag id i = elim i.flags [
  | none ↦ false
  | some f ↦ ltb 0 (bit_and f flag) || str_eq i.id id
]

-- `a_labels`
unfoldable pub labels : ℕ → String → List TagInfo → List Text
unfolding in_label
labels flag id [] = []
labels flag id (i ∷ p) =
    let rest = labels flag id p in if in_label flag id i then i.text ∷ rest else rest

module _ (locale_compare : Text → Text → ℤ) where
  -- The first labels that differ are compared, or else the numbers of labels.
  unfoldable pub compare_labels : List Text → List Text → ℤ
  compare_labels [] bs = sub_ℕ 0 (length bs)
  compare_labels (a ∷ ls) [] = sub_ℕ (length (a ∷ ls)) 0
  compare_labels (a ∷ ls) (b ∷ ms) =
      let rest = compare_labels ls ms in
      if same_text a b then rest else num_compare locale_compare a b

  abbrev pub reserved : String → String → Option ℤ → Option ℤ
  reserved a b rest =
      if str_eq a b
      then some (pos 0)
      else if str_eq a "all"
      then some (negsuc 0)
      else if str_eq b "all"
      then some (pos 1)
      else if str_eq a "nodata"
      then some (negsuc 0)
      else if str_eq b "nodata"
      then some (pos 1)
      else if str_eq a "l3"
      then some (negsuc 0)
      else if str_eq b "l3"
      then some (pos 1)
      else rest

  -- A path that is undefined has no labels; `none` is a throw.
  unfoldable pub compare_paths : ℕ → String → String → PathResult → PathResult → Option ℤ
  unfolding labels compare_labels
  compare_paths flag a b PathResult.thrown q = none
  compare_paths flag a b p PathResult.thrown = none
  compare_paths flag a b PathResult.missing q = some (negsuc 0)
  compare_paths flag a b p PathResult.missing = some (pos 1)
  compare_paths flag a b PathResult.undefined PathResult.undefined = some (compare_labels [] [])
  compare_paths flag a b PathResult.undefined (PathResult.found q) =
      some (compare_labels [] (labels flag b q))
  compare_paths flag a b (PathResult.found p) PathResult.undefined =
      some (compare_labels (labels flag a p) [])
  compare_paths flag a b (PathResult.found p) (PathResult.found q) =
      some (compare_labels (labels flag a p) (labels flag b q))

  unfoldable pub tag_compare : ℕ → Tag → String → String → Option ℤ
  unfolding compare_paths
  tag_compare flag base a b =
      reserved a b (compare_paths flag a b (get_tag_path base a 0) (get_tag_path base b 0))
