-- ===== src/Tags/Compare.antt =====
-- Two tags are compared the same way from both sides.
use mapper.Prelude.{
  ℕ, ◌≡◌, ◌⊎◌, refl, String, Option, some, true, false, List, [], ◌∷◌, str_eq, eq_iff, arith,
  Bool-cases, inl, inr, if◌then◌else◌,
}
use mapper.Prelude.Int.{ℤ, pos, negsuc}
use mapper.Text.{Text}
use mapper.Sort.{same_text}
use mapper.Sort.Order.{sign, flip, IsOrder, num_compare-IsOrder}
use mapper.Tags.{
  TagInfo, Tag, PathResult, get_tag_path, labels, compare_labels, reserved, compare_paths,
  tag_compare,
}

same_text_symm : (a b : Text) → same_text a b ≡ same_text b a
unfolding same_text
same_text_symm [] [] = refl
same_text_symm [] (d ∷ b) = refl
same_text_symm (c ∷ a) [] = refl
same_text_symm (c ∷ a) (d ∷ b) = ground (arith, same_text_symm a b)

-- The results of both ways to compare
abbrev pub Turned : Option ℤ → Option ℤ → Type 0
Turned x y = (r : ℤ) × (s : ℤ) × (x ≡ some r) × (y ≡ some s) × (sign s ≡ flip (sign r))

-- Is one of the two a word with a meaning of its own?
abbrev pub EitherWord : String → String → Type 0
EitherWord a b =
    ((a ≡ "all") ⊎ (b ≡ "all")) ⊎ ((a ≡ "nodata") ⊎ (b ≡ "nodata")) ⊎ ((a ≡ "l3") ⊎ (b ≡ "l3"))

-- Both are in the tree, or one is such a word.
abbrev pub Comparable : Tag → String → String → Type 0
Comparable base a b =
    ((p : List TagInfo) × (q : List TagInfo) × (get_tag_path base a 0 ≡ PathResult.found p)
      × (get_tag_path base b 0 ≡ PathResult.found q))
    ⊎ EitherWord a b

module _ (cmp : Text → Text → ℤ) (o : IsOrder cmp) where
  compare_labels_turned :
      (ls ms : List Text) → sign (compare_labels cmp ms ls) ≡ flip (sign (compare_labels cmp ls ms))
  unfolding compare_labels
  compare_labels_turned [] [] = refl
  compare_labels_turned [] (b ∷ ms) = ground arith
  compare_labels_turned (a ∷ ls) [] = ground arith
  compare_labels_turned (a ∷ ls) (b ∷ ms) = elim (Bool-cases (same_text a b)) [
    | inl p ↦ rw (same_text_symm b a, p) (compare_labels_turned ls ms)
    | inr p ↦ rw (same_text_symm b a, p) ((num_compare-IsOrder cmp o).turned a b)
  ]

  -- A word that comes before all tags
  word-Turned :
      (w a b : String) (x y : Option ℤ)
      → str_eq a b ≡ false
      → Turned x y
      → Turned
          (if str_eq a w then some (negsuc 0) else if str_eq b w then some (pos 1) else x)
          (if str_eq b w then some (negsuc 0) else if str_eq a w then some (pos 1) else y)
  word-Turned w a b x y ne h = elim (Bool-cases (str_eq a w)) [
    | inl p ↦ elim (Bool-cases (str_eq b w)) [
      | inl q ↦ absurd (ground (arith, p, q, ne, eq_iff a w, eq_iff b w, eq_iff a b))
      | inr q ↦ rw (p, q) (negsuc 0, pos 1, refl, refl, refl)
    ]
    | inr p ↦ elim (Bool-cases (str_eq b w)) [
      | inl q ↦ rw (p, q) (pos 1, negsuc 0, refl, refl, refl)
      | inr q ↦ rw (p, q) h
    ]
  ]

  same-Turned :
      (a b : String) (x y : Option ℤ)
      → str_eq a b ≡ true
      → Turned (reserved cmp a b x) (reserved cmp b a y)
  same-Turned a b x y p =
      let q : str_eq b a ≡ true = ground (arith, p, eq_iff a b, eq_iff b a) in
      rw (p, q) (pos 0, pos 0, refl, refl, refl)

  reserved-Turned :
      (a b : String) (x y : Option ℤ)
      → Turned x y
      → Turned (reserved cmp a b x) (reserved cmp b a y)
  reserved-Turned a b x y h = elim (Bool-cases (str_eq a b)) [
    | inl p ↦ same-Turned a b x y p
    | inr p ↦
        let q : str_eq b a ≡ false = ground (arith, p, eq_iff a b, eq_iff b a) in
        rw (p, q)
          (word-Turned "all" a b _ _ p
            (word-Turned "nodata" a b _ _ p (word-Turned "l3" a b x y p h)))
  ]

  -- One of the two is the word.
  decided-Turned :
      (w a b : String) (x y : Option ℤ)
      → str_eq a b ≡ false
      → (a ≡ w) ⊎ (b ≡ w)
      → Turned
          (if str_eq a w then some (negsuc 0) else if str_eq b w then some (pos 1) else x)
          (if str_eq b w then some (negsuc 0) else if str_eq a w then some (pos 1) else y)
  decided-Turned w a b x y ne (inl e) =
      let p : str_eq a w ≡ true = ground (arith, e, eq_iff a w) in
      let q : str_eq b w ≡ false = ground (arith, e, ne, eq_iff b w, eq_iff a b) in
      rw (p, q) (negsuc 0, pos 1, refl, refl, refl)
  decided-Turned w a b x y ne (inr e) =
      let p : str_eq b w ≡ true = ground (arith, e, eq_iff b w) in
      let q : str_eq a w ≡ false = ground (arith, e, ne, eq_iff a w, eq_iff a b) in
      rw (p, q) (pos 1, negsuc 0, refl, refl, refl)

  words-Turned :
      (a b : String) (x y : Option ℤ)
      → EitherWord a b
      → Turned (reserved cmp a b x) (reserved cmp b a y)
  words-Turned a b x y h = elim (Bool-cases (str_eq a b)) [
    | inl p ↦ same-Turned a b x y p
    | inr p ↦
        let q : str_eq b a ≡ false = ground (arith, p, eq_iff a b, eq_iff b a) in
        rw (p, q)
          (elim h [
            | inl e ↦ decided-Turned "all" a b _ _ p e
            | inr (inl e) ↦ word-Turned "all" a b _ _ p (decided-Turned "nodata" a b _ _ p e)
            | inr (inr e) ↦
                word-Turned "all" a b _ _ p
                  (word-Turned "nodata" a b _ _ p (decided-Turned "l3" a b x y p e))
          ])
  ]

  -- When `localeCompare` is an order of texts, and the paths of both tags are found in the tree, or
  -- one of the two is a word with a meaning of its own, "all", "nodata" or "l3", in the tree or not,
  -- `tag_compare` returns, and the other way round it returns the opposite.
  pub tag_compare-Turned :
      (flag : ℕ) (base : Tag) (a b : String)
      → Comparable base a b
      → Turned (tag_compare cmp flag base a b) (tag_compare cmp flag base b a)
  unfolding tag_compare compare_paths
  tag_compare-Turned flag base a b (inl (p, q, e, f)) =
      rw (e, f)
        (reserved-Turned a b _ _ (
          compare_labels cmp (labels flag a p) (labels flag b q),
          compare_labels cmp (labels flag b q) (labels flag a p),
          refl,
          refl,
          compare_labels_turned (labels flag a p) (labels flag b q),
        ))
  tag_compare-Turned flag base a b (inr h) = words-Turned a b _ _ h
