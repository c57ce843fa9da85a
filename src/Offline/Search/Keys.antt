-- ===== src/Offline/Search/Keys.antt =====
-- When a device or a text of a search matches, in terms of the fields that are there.
use mapper.Prelude.{
  ◌≡◌, refl, ◌↔◌, ◌⊎◌, inl, inr, String, Option, none, some, Bool, true, false, ◌||◌, List, [], ◌∷◌,
}
use mapper.Prelude.Obj.{Obj, get}
use mapper.Offline.{Fields, OfflineDevice}
use mapper.Offline.Search.{
  if_some, values_match, field_matches, any_value, inventory_matches, text_matches, dev_matches,
  as_text, dev_search_keys, dev_inv_keys,
}

or_lem : (a b : Bool) → ((a || b) ≡ true) ↔ ((a ≡ true) ⊎ (b ≡ true))
or_lem true b = (λ e. inl refl, λ h. refl)
or_lem false b = (λ e. inr e, λ h. elim h [ inl e ↦ absurd (cc) | inr e ↦ e ])

-- One of two tests, each with its meaning
either : {P Q : Type 0} (a b : Bool) → (a ≡ true) ↔ P → (b ≡ true) ↔ Q → ((a || b) ≡ true) ↔ (P ⊎ Q)
either a b p q =
    let (there, back) = or_lem a b in
    (
      λ e. elim (there e) [ inl h ↦ inl (p.0 h) | inr h ↦ inr (q.0 h) ],
      λ h. elim h [ inl x ↦ back (inl (p.1 x)) | inr y ↦ back (inr (q.1 y)) ],
    )

module _ (test : String → Bool) where
  -- A text that is there and matches
  abbrev pub Matches : Option String → Type 0
  Matches none = ⊥
  Matches (some s) = test s ≡ true

  -- One of the fields is there and matches.
  abbrev pub FieldMatch : Fields → List String → Type 0
  FieldMatch fields [] = ⊥
  FieldMatch fields (key ∷ keys) = Matches (get key fields) ⊎ FieldMatch fields keys

  abbrev pub ValueMatch : Fields → Type 0
  ValueMatch [] = ⊥
  ValueMatch ((k, s) ∷ fields) = (test s ≡ true) ⊎ ValueMatch fields

  abbrev pub PartMatch : Option Fields → Type 0
  PartMatch none = ⊥
  PartMatch (some fields) = ValueMatch fields

  -- One of the parts that are there has a text that matches.
  abbrev pub InventoryMatch : Obj Fields → List String → Type 0
  InventoryMatch inv [] = ⊥
  InventoryMatch inv (key ∷ keys) = PartMatch (get key inv) ⊎ InventoryMatch inv keys

  abbrev pub DeviceMatch : OfflineDevice → Type 0
  DeviceMatch d = FieldMatch d.fields dev_search_keys ⊎ InventoryMatch d.inventory dev_inv_keys

  -- One of the fields matches, by its text or by the text "undefined".
  abbrev pub TextMatch : Fields → List String → Type 0
  TextMatch fields [] = ⊥
  TextMatch fields (key ∷ keys) = (test (as_text (get key fields)) ≡ true) ⊎ TextMatch fields keys

  never : {P : Type 0} → (P → ⊥) → (false ≡ true) ↔ P
  never h = (λ e. absurd (cc), λ p. absurd (h p))

  if_some-Matches : (o : Option String) → (if_some test o ≡ true) ↔ Matches o
  if_some-Matches none = never (λ h. h)
  if_some-Matches (some s) = (λ e. e, λ e. e)

  field_matches-FieldMatch :
      (fields : Fields) (keys : List String)
      → (field_matches test fields keys ≡ true) ↔ FieldMatch fields keys
  unfolding field_matches
  field_matches-FieldMatch fields [] = never (λ h. h)
  field_matches-FieldMatch fields (key ∷ keys) =
      either _ _ (if_some-Matches (get key fields)) (field_matches-FieldMatch fields keys)

  any_value-ValueMatch : (fields : Fields) → (any_value test fields ≡ true) ↔ ValueMatch fields
  unfolding any_value
  any_value-ValueMatch [] = never (λ h. h)
  any_value-ValueMatch ((k, s) ∷ fields) = either _ _ (λ e. e, λ e. e) (any_value-ValueMatch fields)

  values_match-PartMatch : (o : Option Fields) → (values_match test o ≡ true) ↔ PartMatch o
  values_match-PartMatch none = never (λ h. h)
  values_match-PartMatch (some fields) = any_value-ValueMatch fields

  inventory_matches-InventoryMatch :
      (inv : Obj Fields) (keys : List String)
      → (inventory_matches test inv keys ≡ true) ↔ InventoryMatch inv keys
  unfolding inventory_matches
  inventory_matches-InventoryMatch inv [] = never (λ h. h)
  inventory_matches-InventoryMatch inv (key ∷ keys) =
      either _ _ (values_match-PartMatch (get key inv)) (inventory_matches-InventoryMatch inv keys)

  pub dev_matches-DeviceMatch : (d : OfflineDevice) → (dev_matches test d ≡ true) ↔ DeviceMatch d
  unfolding dev_matches
  dev_matches-DeviceMatch d =
      either _ _ (field_matches-FieldMatch d.fields dev_search_keys)
        (inventory_matches-InventoryMatch d.inventory dev_inv_keys)

  pub text_matches-TextMatch :
      (fields : Fields) (keys : List String)
      → (text_matches test fields keys ≡ true) ↔ TextMatch fields keys
  unfolding text_matches
  text_matches-TextMatch fields [] = never (λ h. h)
  text_matches-TextMatch fields (key ∷ keys) =
      either _ _ (λ e. e, λ e. e) (text_matches-TextMatch fields keys)
