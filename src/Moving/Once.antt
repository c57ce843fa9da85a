-- ===== src/Moving/Once.antt =====
-- No link is moved twice, although both its devices list it.
use mapper.Prelude.{
  ◌≡◌, refl, sym, ◌∙◌, ◌≢◌, String, Option, none, some, Bool, true, false, ◌&&◌, ◌||◌, List, [],
  ◌∷◌, ◌++◌, str_eq, eq_iff, arith, Bool-cases, inl, inr, if◌then◌else◌,
}
use mapper.Prelude.IntMap.{IntMap}
use mapper.Prelude.Obj.{Obj, get, get-set_self, get-set_ne}
use mapper.Turnpoints.{Turnpoint}
use mapper.Links.{L2Link, Interface, Data}
use mapper.Arrange.{Point}
use mapper.Moving.{
  member, with_tps, add_links, listed, add_ints, ints_of, dev_links, shift_all, inner, shift_at,
  put, move_links, move_tps,
}

-- Nothing twice, and only what passes the test
abbrev pub Distinct : (String → Bool) → List String → Type 0
Distinct ok [] = Unit
Distinct ok (x ∷ xs) = (ok x ≡ true) × (member x xs ≡ false) × Distinct ok xs

pub member-append :
    (x : String) (xs : List String) (y : String)
    → member x (xs ++ y ∷ []) ≡ (member x xs || str_eq y x)
unfolding member
member-append x [] y = ground arith
member-append x (z ∷ xs) y = ground (arith, member-append x xs y)

pub Distinct-append :
    (ok : String → Bool) (xs : List String) (y : String)
    → Distinct ok xs
    → ok y ≡ true
    → member y xs ≡ false
    → Distinct ok (xs ++ y ∷ [])
unfolding member
Distinct-append ok [] y d h n = (h, refl, tt)
Distinct-append ok (x ∷ xs) y d h n =
    let (a, b, c) = d in
    (
      a,
      ground (arith, member-append x xs y, b, n, eq_iff x y, eq_iff y x),
      Distinct-append ok xs y c h (ground (arith, n)),
    )

module _ (ok : String → Bool) where
  add_links-Distinct :
      (acc ids : List String) → Distinct ok acc → Distinct ok (add_links ok acc ids)
  unfolding add_links
  add_links-Distinct acc [] d = d
  add_links-Distinct acc (id ∷ ids) d = elim (Bool-cases (ok id)) [
    | inl p ↦ elim (Bool-cases (member id acc)) [
      | inl q ↦ rw (p, q) (add_links-Distinct acc ids d)
      | inr q ↦
          rw (p, q) (add_links-Distinct (acc ++ id ∷ []) ids (Distinct-append ok acc id d p q))
    ]
    | inr p ↦ rw p (add_links-Distinct acc ids d)
  ]

  add_ints-Distinct :
      (acc : List String) (ints : Obj Interface)
      → Distinct ok acc
      → Distinct ok (add_ints ok acc ints)
  unfolding add_ints
  add_ints-Distinct acc [] d = d
  add_ints-Distinct acc ((int, i) ∷ ints) d =
      add_ints-Distinct (add_links ok acc (listed i)) ints (add_links-Distinct acc (listed i) d)

  dev_links-Distinct :
      (on_page : String → Bool) (s : Data) (acc devs : List String)
      → Distinct ok acc
      → Distinct ok (dev_links ok on_page s acc devs)
  unfolding dev_links
  dev_links-Distinct on_page s acc [] d = d
  dev_links-Distinct on_page s acc (dev ∷ devs) d = elim (Bool-cases (on_page dev)) [
    | inl p ↦ rw p (
        dev_links-Distinct on_page s (add_ints ok acc (ints_of (get dev s.devs))) devs
          (add_ints-Distinct acc (ints_of (get dev s.devs)) d))
    | inr p ↦ rw p (dev_links-Distinct on_page s acc devs d)
  ]

shift_defined :
    (d : Point) (o : Option (IntMap Turnpoint)) (id : String) (tps : Obj (IntMap Turnpoint))
    → get id tps ≡ o
    → get id (put id (shift_at d o) tps) ≡ shift_at d o
shift_defined d none id tps e = e
shift_defined d (some m) id tps e = get-set_self id (shift_all d m) tps

put-ne :
    (id j : String) (o : Option (IntMap Turnpoint)) (tps : Obj (IntMap Turnpoint))
    → id ≢ j
    → get j (put id o tps) ≡ get j tps
put-ne id j none tps ne = refl
put-ne id j (some m) tps ne = get-set_ne j id m tps ne

module _ (ok : String → Bool) (selected : List String) (l2_links : Obj L2Link) (d : Point) where
  -- Whether the loop moves the link `j`
  abbrev moves : List String → String → Bool
  moves ids j = member j ids && inner selected (get j l2_links)

  -- One turn of the loop
  turned : String → Obj (IntMap Turnpoint) → Obj (IntMap Turnpoint)
  turned id tps =
      if inner selected (get id l2_links) then put id (shift_at d (get id tps)) tps else tps

  turned_self :
      (id : String) (tps : Obj (IntMap Turnpoint))
      → get id (turned id tps)
        ≡ (if inner selected (get id l2_links) then shift_at d (get id tps) else get id tps)
  unfolding turned
  turned_self id tps = elim (Bool-cases (inner selected (get id l2_links))) [
    | inl p ↦ rw p (shift_defined d (get id tps) id tps refl)
    | inr p ↦ rw p refl
  ]

  turned_same :
      (id j : String) (tps : Obj (IntMap Turnpoint))
      → id ≡ j
      → get j (turned id tps)
        ≡ (if inner selected (get j l2_links) then shift_at d (get j tps) else get j tps)
  turned_same id j tps q = rw (sym q) (turned_self id tps)

  turned_ne :
      (id j : String) (tps : Obj (IntMap Turnpoint)) → id ≢ j → get j (turned id tps) ≡ get j tps
  unfolding turned
  turned_ne id j tps ne = elim (Bool-cases (inner selected (get id l2_links))) [
    | inl p ↦ rw p (put-ne id j (shift_at d (get id tps)) tps ne)
    | inr p ↦ rw p refl
  ]

  move_links_lem :
      (ids : List String) (tps : Obj (IntMap Turnpoint)) (j : String)
      → Distinct ok ids
      → get j (move_links selected l2_links d ids tps)
        ≡ (if moves ids j then shift_at d (get j tps) else get j tps)
  unfolding move_links member turned
  move_links_lem [] tps j h = refl
  move_links_lem (id ∷ ids) tps j h =
      let rest = move_links_lem ids (turned id tps) j h.2 in
      elim (Bool-cases (str_eq id j)) [
        | inl p ↦
            let q : id ≡ j = (eq_iff id j).0 p in
            let last : member j ids ≡ false = rw q at h.1 in
            rest ∙ rw (p, last) (turned_same id j tps q)
        | inr p ↦
            let ne : id ≢ j = λ q. ground (arith, p, q, eq_iff id j) in
            rest ∙ rw (p, turned_ne id j tps ne) refl
      ]

-- The turnpoints of a link are moved once when the link is in `dev_links`, which the selected devices
-- on the page make up, and both its devices are selected; those of all other links stay.
pub move_tps_lem :
    (connected on_page : String → Bool) (s : Data) (selected : List String) (d : Point)
    (tps : Obj (IntMap Turnpoint)) (j : String)
    → get j (move_tps connected on_page s selected d tps) ≡ (
        if member j (dev_links (with_tps connected tps s.l2_links) on_page s [] selected)
          && inner selected (get j s.l2_links)
        then shift_at d (get j tps)
        else get j tps)
unfolding move_tps
move_tps_lem connected on_page s selected d tps j =
    let ok = with_tps connected tps s.l2_links in
    move_links_lem ok selected s.l2_links d (dev_links ok on_page s [] selected) tps j
      (dev_links-Distinct ok on_page s [] selected tt)
