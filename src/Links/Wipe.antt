-- ===== src/Links/Wipe.antt =====
-- No interface lists a link that was wiped, and nothing else changes.
use mapper.Prelude.{
  String, ◌≡◌, refl, sym, ◌∙◌, ◌≢◌, Option, none, some, true, false, ◌||◌, List, [], ◌∷◌, inl, inr,
  Has, arith, str_eq, eq_iff, if◌then◌else◌, Bool-cases,
}
use mapper.Prelude.Obj.{Obj, get, set, get-set, get-delete}
use mapper.Turnpoints.{Endpoint}
use mapper.Links.{
  L2Link, Interface, Devs, Data, without, or_none, as_field, wipe_end, wipe_l2_link, same_end,
  ends_at,
}

abbrev links_at : Option Interface → List String
links_at none = []
links_at (some i) = or_none i.l2_links

abbrev pub links_in : String → Option (Obj Interface) → List String
links_in int none = []
links_in int (some ints) = links_at (get int ints)

-- The links that an interface lists, none when the device, the interface or the list is not there.
abbrev pub links_of : Endpoint → Devs → List String
links_of e devs = links_in e.int (get e.dev devs)

or_none-as_field : (ls : List String) → or_none (as_field ls) ≡ ls
or_none-as_field [] = refl
or_none-as_field (l ∷ ls) = refl

links_of-wipe_end :
    (id : String) (e f : Endpoint) (devs : Devs)
    → links_of f (wipe_end id e devs)
      ≡ (if same_end e f then without id (links_of f devs) else links_of f devs)
unfolding wipe_end without
links_of-wipe_end id e f devs = go (get e.dev devs) refl
  where
    inner :
        (ints : Obj Interface) (o : Option Interface)
        → get e.dev devs ≡ some ints
        → get e.int ints ≡ o
        → links_of f (wipe_end id e devs)
          ≡ (if same_end e f then without id (links_of f devs) else links_of f devs)
    inner ints none p q =
        rw (p, wipe_end) (rw q (ground (arith, eq_iff e.dev f.dev, eq_iff e.int f.int)))
    inner ints (some i) p q =
        let ls = without id (or_none i.l2_links) in
        let new : Interface = record i { l2_links = as_field ls } in
        rw (p, wipe_end)
          (rw q (
            rw (get-set f.dev e.dev (set e.int new ints) devs) (
              ground (
                arith,
                eq_iff e.dev f.dev,
                eq_iff e.int f.int,
                get-set f.int e.int new ints,
                or_none-as_field ls,
              ))))

    go :
        (o : Option (Obj Interface))
        → get e.dev devs ≡ o
        → links_of f (wipe_end id e devs)
          ≡ (if same_end e f then without id (links_of f devs) else links_of f devs)
    go none p = rw (p, wipe_end) (ground (arith, eq_iff e.dev f.dev))
    go (some ints) p = inner ints (get e.int ints) p refl

-- The lists of the interfaces hold only links that are there, and that end at the interface.
abbrev pub WellFormed : Data → Type 0
WellFormed s =
    (e : Endpoint) (id : String)
    → Has id (links_of e s.devs)
    → (l : L2Link) × (get id s.l2_links ≡ some l) × (ends_at e l ≡ true)

pub Has-without : (x id : String) (ls : List String) → Has x (without id ls) → Has x ls × (x ≢ id)
unfolding without
Has-without x id [] h = absurd h
Has-without x id (l ∷ ls) h = elim (Bool-cases (str_eq l id)) [
  | inl same ↦ let (k, ne) = Has-without x id ls (rw same at h) in (inr k, ne)
  | inr other ↦ elim (rw other at h) [
    | inl e ↦ (inl e, λ p. ground (arith, eq_iff l id))
    | inr k ↦ let (k', ne) = Has-without x id ls k in (inr k', ne)
  ]
]

pub without-keeps : (x id : String) (ls : List String) → x ≢ id → Has x ls → Has x (without id ls)
unfolding without
without-keeps x id [] ne h = h
without-keeps x id (l ∷ ls) ne (inl e) =
    let other : str_eq l id ≡ false = ground (arith, eq_iff l id) in rw other (inl e)
without-keeps x id (l ∷ ls) ne (inr h) = elim (Bool-cases (str_eq l id)) [
  | inl same ↦ rw same (without-keeps x id ls ne h)
  | inr other ↦ rw other (inr (without-keeps x id ls ne h))
]

pub without-absent : (id : String) (ls : List String) → (Has id ls → ⊥) → without id ls ≡ ls
unfolding without
without-absent id [] h = refl
without-absent id (l ∷ ls) h =
    let other : str_eq l id ≡ false = elim (Bool-cases (str_eq l id)) [
      | inl same ↦ absurd (h (inl (ground (arith, eq_iff l id))))
      | inr other ↦ other
    ] in
    rw other (rw (without-absent id ls (λ k. h (inr k))))

without-without : (id : String) (ls : List String) → without id (without id ls) ≡ without id ls
without-without id ls = without-absent id (without id ls) (λ h. (Has-without id id ls h).1 refl)

-- What it is to wipe the link `id`.
pub record IsWiped (id : String) (s s' : Data) : Type 0 where
  pub no_link : get id s'.l2_links ≡ none
  pub other_links : (j : String) → j ≢ id → get j s'.l2_links ≡ get j s.l2_links
  pub unlisted : (e : Endpoint) → links_of e s'.devs ≡ without id (links_of e s.devs)

IsWiped-WellFormed : (id : String) (s s' : Data) → WellFormed s → IsWiped id s s' → WellFormed s'
IsWiped-WellFormed id s s' wf w e j h =
    let (k, ne) = Has-without j id (links_of e s.devs) (rw w.unlisted at h) in
    let (l, p, q) = wf e j k in (l, w.other_links j ne ∙ p, q)

-- The interface is an end, or does not list the link.
unlisted_end :
    (id : String) (s : Data) (l : L2Link) (e : Endpoint)
    → WellFormed s
    → get id s.l2_links ≡ some l
    → ends_at e l ≡ false
    → without id (links_of e s.devs) ≡ links_of e s.devs
unlisted_end id s l e wf p q =
    without-absent id (links_of e s.devs) (λ h. let (k, p', q') = wf e id h in cc (p, p', q, q'))

-- Both ends in turn
links_of-both :
    (id : String) (a b e : Endpoint) (devs : Devs)
    → links_of e (wipe_end id b (wipe_end id a devs))
      ≡ (if same_end a e || same_end b e then without id (links_of e devs) else links_of e devs)
links_of-both id a b e devs =
    let ls = links_of e devs in
    let first = links_of-wipe_end id a e devs in
    let twice = without-without id ls in
    links_of-wipe_end id b e (wipe_end id a devs)
    ∙ rw first (elim (Bool-cases (same_end a e)) [
      | inl p ↦ rw p (elim (Bool-cases (same_end b e)) [ inl q ↦ rw q twice | inr q ↦ rw q ])
      | inr p ↦ rw p
    ])

wiped : (id : String) (s : Data) → WellFormed s → IsWiped id s (wipe_l2_link id s)
unfolding wipe_l2_link
wiped id s wf = go (get id s.l2_links) refl
  where
    go : (o : Option L2Link) → get id s.l2_links ≡ o → IsWiped id s (wipe_l2_link id s)
    go none p =
        rw (p, wipe_l2_link)
          (record {
            no_link = p;
            other_links = λ j ne. refl;
            unlisted = λ e. sym (
                without-absent id (links_of e s.devs)
                  (λ h. let (l, q, _) = wf e id h in cc (p, q)));
          })
    go (some l) p =
        rw (p, wipe_l2_link)
          (record {
            no_link = ground (arith, get-delete id id s.l2_links, eq_iff id id);
            other_links = λ j ne. ground (arith, get-delete j id s.l2_links, eq_iff id j);
            unlisted = λ e.
                links_of-both id l.first l.second e s.devs ∙ elim (Bool-cases (ends_at e l)) [
                  | inl q ↦ rw q
                  | inr q ↦ rw q (sym (unlisted_end id s l e wf p q))
                ];
          })

-- When every link that an interface lists is there and ends at the interface, then after
-- `wipe_l2_link` the link is gone, the other links are as they were, every interface lists what it
-- listed but the link, and again every link that an interface lists is there and ends at it.
pub wipe_l2_link-IsWiped :
    (id : String) (s : Data)
    → WellFormed s
    → IsWiped id s (wipe_l2_link id s) × WellFormed (wipe_l2_link id s)
wipe_l2_link-IsWiped id s wf = let w = wiped id s wf in (w, IsWiped-WellFormed id s _ wf w)
