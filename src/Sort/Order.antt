-- ===== src/Sort/Order.antt =====
-- `num_compare` is an order, so that sorting by it is well defined.
use mapper.Prelude.{zero, suc, ◌≡◌, refl, List, [], ◌∷◌, arith}
use mapper.Prelude.Int.{ℤ, pos, negsuc}
use mapper.Text.{Text}
use mapper.Sort.{
  Value, Token, value, text_of, by_value, compare_tokens, compare_lists, split_digits, num_compare,
}

-- What a comparison says
pub data Sign : Type 0 where
  before same behind : Sign

abbrev pub sign : ℤ → Sign
sign (pos zero) = same
sign (pos (suc n)) = behind
sign (negsuc n) = before

abbrev pub flip : Sign → Sign
flip before = behind
flip same = same
flip behind = before

abbrev pub IsLe : Sign → Type 0
IsLe before = Unit
IsLe same = Unit
IsLe behind = ⊥

-- What is asked of a comparison: every element is the same as itself, the two ways to compare agree,
-- and the order is transitive.
pub record IsOrder {A : Type 0} (f : A → A → ℤ) : Type 0 where
  pub itself : (a : A) → sign (f a a) ≡ same
  pub turned : (a b : A) → sign (f b a) ≡ flip (sign (f a b))
  pub step : (a b c : A) → IsLe (sign (f a b)) → IsLe (sign (f b c)) → IsLe (sign (f a c))

by_value_itself : (u : Value) (s : ℤ) → sign s ≡ same → sign (by_value u u s) ≡ same
unfolding by_value
by_value_itself u s h = ground arith

by_value_turned :
    (u v : Value) (s t : ℤ)
    → sign t ≡ flip (sign s)
    → sign (by_value v u t) ≡ flip (sign (by_value u v s))
unfolding by_value
by_value_turned u v s t h = ground arith

by_value_step :
    (u v w : Value) (s t r : ℤ)
    → (IsLe (sign s) → IsLe (sign t) → IsLe (sign r))
    → IsLe (sign (by_value u v s))
    → IsLe (sign (by_value v w t))
    → IsLe (sign (by_value u w r))
unfolding by_value
by_value_step u v w s t r h p q = ground arith

module _ (cmp : Text → Text → ℤ) (o : IsOrder cmp) where
  tokens-IsOrder : IsOrder (compare_tokens cmp)
  unfolding compare_tokens
  tokens-IsOrder = record {
    itself = λ a. by_value_itself (value a) (cmp (text_of a) (text_of a)) (o.itself (text_of a));
    turned = λ a b. by_value_turned (value a) (value b) _ _ (o.turned (text_of a) (text_of b));
    step = λ a b c p q.
        by_value_step (value a) (value b) (value c) _ _ _
          (o.step (text_of a) (text_of b) (text_of c)) p q;
  }

  compare_lists_turned :
      (ts us : List Token) → sign (compare_lists cmp us ts) ≡ flip (sign (compare_lists cmp ts us))
  unfolding compare_lists
  compare_lists_turned [] [] = refl
  compare_lists_turned [] (u ∷ us) = refl
  compare_lists_turned (t ∷ ts) [] = refl
  compare_lists_turned (t ∷ ts) (u ∷ us) =
      ground (arith, tokens-IsOrder.turned t u, compare_lists_turned ts us)

  compare_lists_itself : (ts : List Token) → sign (compare_lists cmp ts ts) ≡ same
  unfolding compare_lists
  compare_lists_itself [] = refl
  compare_lists_itself (t ∷ ts) = ground (arith, tokens-IsOrder.itself t, compare_lists_itself ts)

  compare_lists_step :
      (ts us vs : List Token)
      → IsLe (sign (compare_lists cmp ts us))
      → IsLe (sign (compare_lists cmp us vs))
      → IsLe (sign (compare_lists cmp ts vs))
  unfolding compare_lists
  compare_lists_step [] us [] p q = tt
  compare_lists_step [] us (v ∷ vs) p q = tt
  compare_lists_step (t ∷ ts) [] vs p q = absurd p
  compare_lists_step (t ∷ ts) (u ∷ us) [] p q = absurd q
  compare_lists_step (t ∷ ts) (u ∷ us) (v ∷ vs) p q = ground (
    arith,
    tokens-IsOrder.turned t u,
    tokens-IsOrder.turned u v,
    tokens-IsOrder.turned t v,
    tokens-IsOrder.step t u v,
    tokens-IsOrder.step v t u,
    tokens-IsOrder.step u v t,
    compare_lists_step ts us vs,
  )

  -- When `localeCompare` is an order of texts, so is `num_compare`: every text is the same as itself,
  -- the two ways to compare two texts agree, and the order is transitive.
  pub num_compare-IsOrder : IsOrder (num_compare cmp)
  unfolding num_compare
  num_compare-IsOrder = record {
    itself = λ a. compare_lists_itself (split_digits a);
    turned = λ a b. compare_lists_turned (split_digits a) (split_digits b);
    step = λ a b c p q. compare_lists_step (split_digits a) (split_digits b) (split_digits c) p q;
  }
