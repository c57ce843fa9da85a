-- ===== src/Tags/Examples.antt =====
-- A small tree of tags.
use mapper.Prelude.{ℕ, ◌≡◌, refl, inl, inr, String, some, [], ◌∷◌, arith}
use mapper.Prelude.Int.{ℤ, pos, negsuc}
use mapper.Text.{Text, codes, at_end, number}
use mapper.Sort.{
  num_compare, split_digits, tokens, add_char, compare_lists, compare_tokens, by_value, value,
  same_text,
}
use mapper.Sort.Order.{IsOrder}
use mapper.Tags.{
  TagInfo, Tag, tag, leaf, node, PathResult, below, get_tag_path, labels, compare_labels,
  compare_paths, tag_compare,
}
use mapper.Tags.Paths.{Searched, depth, get_tag_path_lem}
use mapper.Tags.Compare.{Turned, tag_compare-Turned}

abbrev info : String → ℕ → TagInfo
info name flags = record { id = name; text = codes name; flags = some flags }

abbrev tree : Tag
tree = tag (info "root" 0) (
    node (tag (info "site2" 1) (node (tag (info "room" 1) leaf) leaf))
      (node (tag (info "site10" 1) leaf) leaf))

room_path :
    get_tag_path tree "room" 0
    ≡ PathResult.found (info "root" 0 ∷ info "site2" 1 ∷ info "room" 1 ∷ [])
unfolding get_tag_path below
room_path = refl

site_path : get_tag_path tree "site10" 0 ≡ PathResult.found (info "root" 0 ∷ info "site10" 1 ∷ [])
unfolding get_tag_path below
site_path = refl

get_tag_path_lem_example : Searched tree "room" (get_tag_path tree "room" 0)
unfolding depth
get_tag_path_lem_example = get_tag_path_lem tree "room" (omega arith)

-- All texts are the same, which is an order.
abbrev no_locale : Text → Text → ℤ
no_locale a b = pos 0

no_locale-IsOrder : IsOrder no_locale
no_locale-IsOrder = record { itself = λ a. refl; turned = λ a b. refl; step = λ a b c p q. tt }

tag_compare-Turned_example :
    Turned
      (tag_compare no_locale 1 tree "room" "site10")
      (tag_compare no_locale 1 tree "site10" "room")
tag_compare-Turned_example = tag_compare-Turned no_locale no_locale-IsOrder 1 tree "room" "site10" (
    inl (
      info "root" 0 ∷ info "site2" 1 ∷ info "room" 1 ∷ [],
      info "root" 0 ∷ info "site10" 1 ∷ [],
      room_path,
      site_path,
    ))

-- A word that is no tag of the tree
all_first :
    Turned (tag_compare no_locale 1 tree "all" "room") (tag_compare no_locale 1 tree "room" "all")
all_first =
    tag_compare-Turned no_locale no_locale-IsOrder 1 tree "all" "room" (inr (inl (inl refl)))

-- The sites are compared by their numbers.
by_number : tag_compare no_locale 1 tree "room" "site10" ≡ some (negsuc 0)
unfolding tag_compare compare_paths compare_labels labels get_tag_path below num_compare
    split_digits tokens add_char compare_lists compare_tokens by_value value same_text number at_end
by_number = refl
