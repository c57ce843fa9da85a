-- ===== src/Links/ByInterface.antt =====
-- All links of one interface are wiped.
use mapper.Prelude.{
  String, ◌≡◌, refl, sym, ◌∙◌, Option, none, some, Bool, false, ◌||◌, List, [], ◌∷◌, inl, inr, Has,
  arith, str_eq, eq_iff, if◌then◌else◌, Bool-cases,
}
use mapper.Prelude.Obj.{Obj, get}
use mapper.Turnpoints.{Endpoint}
use mapper.Links.{L2Link, Data, ends_at, wipe_at, wipe_keys, wipe_l2_link_by_dev_int}
use mapper.Links.Wipe.{links_of, WellFormed, wipe_l2_link-IsWiped, Has-without, without-keeps}

-- What is left of a link when those of `e` are wiped
abbrev pub unless_at : Endpoint → Option L2Link → Option L2Link
unless_at e none = none
unless_at e (some l) = if ends_at e l then none else some l

has_key : String → Obj L2Link → Bool
has_key j [] = false
has_key j ((id, l) ∷ m) = str_eq id j || has_key j m

unless_at_twice : (e : Endpoint) (o : Option L2Link) → unless_at e (unless_at e o) ≡ unless_at e o
unless_at_twice e none = refl
unless_at_twice e (some l) = elim (Bool-cases (ends_at e l)) [ inl h ↦ rw h | inr h ↦ rw (h, h) ]

elsewhere :
    (e : Endpoint) (o : Option L2Link) (l : L2Link) → unless_at e o ≡ some l → ends_at e l ≡ false
elsewhere e none l h = absurd (cc)
elsewhere e (some k) l h = elim (Bool-cases (ends_at e k)) [
  | inl p ↦ absurd (let x : none ≡ some l = rw p at h in cc (x))
  | inr p ↦ let x : some k ≡ some l = rw p at h in let y : k ≡ l = cc (x) in rw (← y) p
]

-- What a part of the loop does
record Wipes (e : Endpoint) (visited : String → Bool) (s s' : Data) : Type 0 where
  well_formed : WellFormed s'
  links :
      (j : String)
      → get j s'.l2_links ≡ (if visited j then unless_at e (get j s.l2_links) else get j s.l2_links)
  no_more : (f : Endpoint) (j : String) → Has j (links_of f s'.devs) → Has j (links_of f s.devs)
  kept :
      (f : Endpoint) (j : String) (l : L2Link)
      → Has j (links_of f s.devs)
      → get j s.l2_links ≡ some l
      → ends_at e l ≡ false
      → Has j (links_of f s'.devs)

wipe_at-Wipes :
    (e : Endpoint) (id : String) (s : Data)
    → WellFormed s
    → Wipes e (λ j. str_eq id j) s (wipe_at e id s)
unfolding wipe_at
wipe_at-Wipes e id s wf = go (get id s.l2_links) refl
  where
    same : unless_at e (get id s.l2_links) ≡ get id s.l2_links → Wipes e (λ j. str_eq id j) s s
    same h = record {
      well_formed = wf;
      links = λ j. elim (Bool-cases (str_eq id j)) [
        | inl p ↦ let q : id ≡ j = ground (arith, eq_iff id j) in ground (arith, p, q, h)
        | inr p ↦ rw p
      ];
      no_more = λ f j h. h;
      kept = λ f j l h p q. h;
    }

    go : (o : Option L2Link) → get id s.l2_links ≡ o → Wipes e (λ j. str_eq id j) s (wipe_at e id s)
    go none p = rw (p, wipe_at) (same (rw p))
    go (some l) p = elim (Bool-cases (ends_at e l)) [
      | inr q ↦ rw (p, wipe_at) (rw q (same (rw (p, q))))
      | inl q ↦
          let (w, wf') = wipe_l2_link-IsWiped id s wf in
          rw (p, wipe_at)
            (rw q (record {
              well_formed = wf';
              links = λ j. elim (Bool-cases (str_eq id j)) [
                | inl x ↦
                    let y : id ≡ j = ground (arith, eq_iff id j) in
                    rw x (rw (← y) (w.no_link ∙ rw (p, q)))
                | inr x ↦ rw x (w.other_links j (λ y. ground (arith, eq_iff id j)))
              ];
              no_more = λ f j h. (Has-without j id (links_of f s.devs) (rw (w.unlisted f) at h)).0;
              kept = λ f j k h x y.
                  rw (w.unlisted f)
                    (without-keeps j id (links_of f s.devs) (λ z. cc (p, q, x, y, z)) h);
            }))
    ]

Wipes-trans :
    (e : Endpoint) (a b : String → Bool) (s s' s'' : Data)
    → Wipes e a s s'
    → Wipes e b s' s''
    → Wipes e (λ j. a j || b j) s s''
Wipes-trans e a b s s' s'' v w = record {
  well_formed = w.well_formed;
  links = λ j.
      w.links j
      ∙ rw (v.links j) (elim (Bool-cases (a j)) [
        | inl p ↦ elim (Bool-cases (b j)) [
          | inl q ↦ rw (p, q) (unless_at_twice e (get j s.l2_links))
          | inr q ↦ rw (p, q)
        ]
        | inr p ↦ rw p
      ]);
  no_more = λ f j h. v.no_more f j (w.no_more f j h);
  kept = λ f j l h p q. w.kept f j l (v.kept f j l h p q) (v.links j ∙ ground (arith, p, q)) q;
}

wipe_keys-Wipes :
    (e : Endpoint) (m : Obj L2Link) (s : Data)
    → WellFormed s
    → Wipes e (λ j. has_key j m) s (wipe_keys e m s)
unfolding wipe_keys has_key
wipe_keys-Wipes e [] s wf = record {
  well_formed = wf;
  links = λ j. refl;
  no_more = λ f j h. h;
  kept = λ f j l h p q. h;
}
wipe_keys-Wipes e ((id, l) ∷ m) s wf =
    let v = wipe_at-Wipes e id s wf in
    Wipes-trans e (λ j. str_eq id j) (λ j. has_key j m) s _ _ v
      (wipe_keys-Wipes e m _ v.well_formed)

get-has_key : (j : String) (m : Obj L2Link) → has_key j m ≡ false → get j m ≡ none
unfolding has_key get
get-has_key j [] h = refl
get-has_key j ((id, l) ∷ m) h = ground (arith, get-has_key j m)

-- An interface whose links all were wiped lists none.
nothing : (ls : List String) → ((j : String) → Has j ls → ⊥) → ls ≡ []
nothing [] h = refl
nothing (l ∷ ls) h = absurd (h l (inl refl))

-- What it is to wipe the links of the interface `e`.
pub record IsCleared (e : Endpoint) (s s' : Data) : Type 0 where
  pub links : (j : String) → get j s'.l2_links ≡ unless_at e (get j s.l2_links)
  pub none_listed : links_of e s'.devs ≡ []
  pub no_more : (f : Endpoint) (j : String) → Has j (links_of f s'.devs) → Has j (links_of f s.devs)
  pub kept :
      (f : Endpoint) (j : String) (l : L2Link)
      → Has j (links_of f s.devs)
      → get j s.l2_links ≡ some l
      → ends_at e l ≡ false
      → Has j (links_of f s'.devs)

-- When every link that an interface lists is there and ends at the interface, then after
-- `wipe_l2_link_by_dev_int` exactly the links that do not end at the given interface are left, as
-- they were; that interface lists none; every other one lists of its links those that are left; and
-- again every link that an interface lists is there and ends at it.
pub wipe_l2_link_by_dev_int-IsCleared :
    (e : Endpoint) (s : Data)
    → WellFormed s
    → IsCleared e s (wipe_l2_link_by_dev_int e s) × WellFormed (wipe_l2_link_by_dev_int e s)
unfolding wipe_l2_link_by_dev_int
wipe_l2_link_by_dev_int-IsCleared e s wf =
    let w = wipe_keys-Wipes e s.l2_links s wf in
    let left : (j : String)
        → get j (wipe_keys e s.l2_links s).l2_links ≡ unless_at e (get j s.l2_links) =
      λ j. w.links j ∙ elim (Bool-cases (has_key j s.l2_links)) [
        | inl p ↦ rw p
        | inr p ↦ rw (p, get-has_key j s.l2_links p)
      ] in
    (
      record {
        links = left;
        none_listed =
            nothing (links_of e (wipe_keys e s.l2_links s).devs)
              (λ j h. gone j h (get j s.l2_links) (left j));
        no_more = w.no_more;
        kept = w.kept;
      },
      w.well_formed,
    )
  where
    gone :
        (j : String)
        → Has j (links_of e (wipe_keys e s.l2_links s).devs)
        → (o : Option L2Link) → get j (wipe_keys e s.l2_links s).l2_links ≡ unless_at e o
        → ⊥
    gone j h o p =
        let (l, q, r) = (wipe_keys-Wipes e s.l2_links s wf).well_formed e j h in
        let off : ends_at e l ≡ false = elsewhere e o l (sym p ∙ q) in cc (r, off)
