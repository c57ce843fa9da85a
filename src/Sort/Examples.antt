-- ===== src/Sort/Examples.antt =====
-- `num_compare` with texts that are compared code by code.
use mapper.Prelude.{◌≡◌, refl, [], ◌∷◌, arith, ltb, ◌==◌, if◌then◌else◌}
use mapper.Prelude.Int.{ℤ, pos, negsuc}
use mapper.Text.{Text, codes, number, at_end}
use mapper.Sort.{
  num_compare, split_digits, tokens, add_char, compare_lists, compare_tokens, by_value, value,
}
use mapper.Sort.Order.{same, sign, flip, IsLe, IsOrder, num_compare-IsOrder}

by_codes : Text → Text → ℤ
by_codes [] [] = pos 0
by_codes [] (d ∷ ds) = negsuc 0
by_codes (c ∷ cs) [] = pos 1
by_codes (c ∷ cs) (d ∷ ds) =
    let rest = by_codes cs ds in if c == d then rest else if ltb c d then negsuc 0 else pos 1

by_codes_itself : (a : Text) → sign (by_codes a a) ≡ same
unfolding by_codes
by_codes_itself [] = refl
by_codes_itself (c ∷ cs) = ground (arith, by_codes_itself cs)

by_codes_turned : (a b : Text) → sign (by_codes b a) ≡ flip (sign (by_codes a b))
unfolding by_codes
by_codes_turned [] [] = refl
by_codes_turned [] (d ∷ ds) = refl
by_codes_turned (c ∷ cs) [] = refl
by_codes_turned (c ∷ cs) (d ∷ ds) = ground (arith, by_codes_turned cs ds)

by_codes_step :
    (a b c : Text)
    → IsLe (sign (by_codes a b))
    → IsLe (sign (by_codes b c))
    → IsLe (sign (by_codes a c))
unfolding by_codes
by_codes_step [] b [] p q = tt
by_codes_step [] b (e ∷ es) p q = tt
by_codes_step (c ∷ cs) [] es p q = absurd p
by_codes_step (c ∷ cs) (d ∷ ds) [] p q = absurd q
by_codes_step (c ∷ cs) (d ∷ ds) (e ∷ es) p q = ground (arith, by_codes_step cs ds es)

by_codes-IsOrder : IsOrder by_codes
by_codes-IsOrder = record {
  itself = by_codes_itself;
  turned = by_codes_turned;
  step = by_codes_step;
}

-- Interfaces are in the order of their numbers.
two_ten : num_compare by_codes (codes "Gi0/2") (codes "Gi0/10") ≡ negsuc 0
unfolding num_compare split_digits tokens add_char compare_lists compare_tokens by_value value
    by_codes number at_end
two_ten = refl

num_compare-IsOrder_example : IsOrder (num_compare by_codes)
num_compare-IsOrder_example = num_compare-IsOrder by_codes by_codes-IsOrder
