-- ===== src/Selecting/Toggle.antt =====
-- What a click on a device does to the selection.
use mapper.Prelude.{
  ◌≡◌, refl, String, some, true, not, ◌&&◌, [], ◌∷◌, ◌++◌, str_eq, eq_iff, arith, Bool-cases, inl,
  inr, if◌then◌else◌,
}
use mapper.Moving.{member}
use mapper.Moving.Once.{Distinct-append, member-append}
use mapper.Selecting.{Selection, splice, click, ctrl}
use mapper.Selecting.Down.{IsOnce}

member-splice :
    (x y : String) (sel : Selection)
    → IsOnce sel
    → member y (splice x sel) ≡ (member y sel && not (str_eq x y))
unfolding member splice
member-splice x y [] o = refl
member-splice x y (z ∷ sel) o =
    ground (arith, member-splice x y sel o.2, o.1, eq_iff z x, eq_iff x y, eq_iff z y)

splice-IsOnce : (x : String) (sel : Selection) → IsOnce sel → IsOnce (splice x sel)
unfolding splice
splice-IsOnce x [] o = o
splice-IsOnce x (z ∷ sel) o = elim (Bool-cases (str_eq z x)) [
  | inl p ↦ rw p o.2
  | inr p ↦ rw p (o.0, ground (arith, member-splice x z sel o.2, o.1), splice-IsOnce x sel o.2)
]

-- A click with Ctrl on a device selects it when it is not selected, and else takes it out. All others
-- stay as they are, and no device is selected twice.
pub click_lem :
    (id : String) (sel : Selection)
    → IsOnce sel
    → (r : Selection) × (click ctrl id sel ≡ some r)
      × IsOnce r
      × ((y : String) → member y r ≡ (if str_eq id y then not (member id sel) else member y sel))
unfolding click
click_lem id sel o = elim (Bool-cases (member id sel)) [
  | inl p ↦ rw p (
    splice id sel,
    refl,
    splice-IsOnce id sel o,
    λ y. ground (arith, member-splice id y sel o, p, eq_iff id y),
  )
  | inr p ↦ rw p (
    sel ++ id ∷ [],
    refl,
    Distinct-append (λ x. true) sel id o refl p,
    λ y. ground (arith, member-append y sel id, p, eq_iff id y),
  )
]
