-- ===== src/Offline/Shown.antt =====
-- What the page gets to show without a server.
use mapper.Prelude.{
  ◌≡◌, ◌≢◌, ◌↔◌, ◌⊎◌, refl, ap, Has, eq_iff, List, Option-cases, String, none, some, Bool, true,
  false, ◌&&◌, ◌||◌, [], ◌∷◌, str_eq, arith, if◌then◌else◌, Bool-cases, inl, inr,
}
use mapper.Prelude.Obj.{Obj, get, set, is_defined}
use mapper.Offline.{
  OfflineDevice, OfflineData, LinkDevs, Front, is_empty, in_array, site_match, proj_match,
  front_devs, select, both_shown, any_shown, front_of, get_front,
}
use mapper.Offline.MacSearch.{in_array-Has, in_array-true}
use mapper.Offline.Select.{KeysDiffer, select_exactly}

is_empty-nil : (xs : List String) → is_empty xs ≡ true → xs ≡ []
is_empty-nil [] h = refl
is_empty-nil (x ∷ xs) h = absurd (cc (h))

-- Two tests, each with its meaning
both :
    {P Q : Type 0} (a b : Bool) → ((a ≡ true) ↔ P) → ((b ≡ true) ↔ Q) → ((a && b) ≡ true) ↔ (P × Q)
both true true p q = (λ h. (p.0 refl, q.0 refl), λ h. refl)
both true false p q = (λ h. absurd (cc (h)), λ h. q.1 h.1)
both false b p q = (λ h. absurd (cc (h)), λ h. p.1 h.0)

-- Is the device of the project?
abbrev pub of_proj : String → OfflineDevice → Bool
of_proj proj d = str_eq proj "all" || in_array d.dev_projects proj

abbrev pub is_shown : String → String → OfflineDevice → Bool
is_shown site proj d = site_match site d && of_proj proj d

front_devs-select :
    (site proj : String) (ret devs : Obj OfflineDevice)
    → str_eq proj "nodata" ≡ false
    → front_devs site proj ret devs ≡ some (select (is_shown site proj) ret devs)
unfolding front_devs proj_match select
front_devs-select site proj ret [] h = refl
front_devs-select site proj ret ((id, d) ∷ devs) h = ground (
  arith,
  h,
  front_devs-select site proj ret devs h,
  front_devs-select site proj (set id d ret) devs h,
)

-- The sites of a device, or none for "nodata"
abbrev pub InSite : String → OfflineDevice → Type 0
InSite site d =
    (site ≡ "all")
    ⊎ ((site ≡ "nodata") × (d.dev_sites ≡ []))
    ⊎ ((site ≢ "nodata") × Has site d.dev_sites)

abbrev pub InProj : String → OfflineDevice → Type 0
InProj proj d = (proj ≡ "all") ⊎ Has proj d.dev_projects

-- Is the device in the answer?
abbrev pub IsIn : Obj OfflineDevice → String → Type 0
IsIn devs id = (d : OfflineDevice) × (get id devs ≡ some d)

-- Is an address of the network at such a device?
abbrev pub HasAddress : Obj OfflineDevice → Obj String → Type 0
HasAddress devs net = (ip : String) × (dev : String) × Has (ip, dev) net × IsIn devs dev

site_match-InSite : (site : String) (d : OfflineDevice) → (site_match site d ≡ true) ↔ InSite site d
unfolding site_match
site_match-InSite site d = elim (Bool-cases (str_eq site "all")) [
  | inl p ↦ (λ h. inl ((eq_iff site "all").0 p), λ h. rw p refl)
  | inr p ↦ elim (Bool-cases (str_eq site "nodata")) [
    | inl q ↦
        let e : site ≡ "nodata" = (eq_iff site "nodata").0 q in
        (
          λ h. inr (inl (e, is_empty-nil d.dev_sites (rw (p, q) at h))),
          λ h.
              rw (p, q)
                (elim h [
                  | inl x ↦ absurd (ground (arith, x, p, eq_iff site "all"))
                  | inr (inl x) ↦ rw (x.1) refl
                  | inr (inr x) ↦ absurd (x.0 e)
                ]),
        )
    | inr q ↦
        let ne : site ≢ "nodata" = λ e. ground (arith, q, e, eq_iff site "nodata") in
        (
          λ h. inr (inr (ne, in_array-Has site d.dev_sites (rw (p, q) at h))),
          λ h.
              rw (p, q)
                (elim h [
                  | inl x ↦ absurd (ground (arith, x, p, eq_iff site "all"))
                  | inr (inl x) ↦ absurd (ne x.0)
                  | inr (inr x) ↦ in_array-true site d.dev_sites x.1
                ]),
        )
  ]
]

of_proj-InProj : (proj : String) (d : OfflineDevice) → (of_proj proj d ≡ true) ↔ InProj proj d
of_proj-InProj proj d = elim (Bool-cases (str_eq proj "all")) [
  | inl p ↦ rw p (λ h. inl ((eq_iff proj "all").0 p), λ h. refl)
  | inr p ↦ rw p (
    λ h. inr (in_array-Has proj d.dev_projects h),
    λ h. elim h [
      | inl x ↦ absurd (ground (arith, x, p, eq_iff proj "all"))
      | inr x ↦ in_array-true proj d.dev_projects x
    ],
  )
]

is_defined-IsIn :
    (devs : Obj OfflineDevice) (id : String) → (is_defined (get id devs) ≡ true) ↔ IsIn devs id
is_defined-IsIn devs id = elim (Option-cases (get id devs)) [
  | inl n ↦ (λ h. absurd (let x : false ≡ true = rw n at h in cc (x)), λ h. absurd (cc (n, h.1)))
  | inr (d, n) ↦ (λ h. (d, n), λ h. rw n refl)
]

any_shown-HasAddress :
    (devs : Obj OfflineDevice) (net : Obj String)
    → (any_shown devs net ≡ true) ↔ HasAddress devs net
unfolding any_shown
any_shown-HasAddress devs [] = (λ h. absurd (cc (h)), λ h. absurd h.2)
any_shown-HasAddress devs ((ip, dev) ∷ net) =
    let (there, back) = any_shown-HasAddress devs net in
    let (in_there, in_back) = is_defined-IsIn devs dev in
    elim (Bool-cases (is_defined (get dev devs))) [
      | inl p ↦ rw p (λ h. (ip, dev, inl refl, in_there p), λ h. refl)
      | inr p ↦ rw p (
        λ h. let (i, d, m, k) = there h in (i, d, inr m, k),
        λ h.
            let (i, d, m, k) = h in
            elim m [
              | inl e ↦
                  let same : d ≡ dev = ap (λ (x : String × String). x.1) e in
                  let q : is_defined (get dev devs) ≡ true = in_back (rw same at k) in
                  absurd (cc (p, q))
              | inr n ↦ back (i, d, n, k)
            ],
      )
    ]

-- When no key of the data stands twice, as in every object, a query for one project, or for all, is
-- answered. The devices are exactly those of the project, or of all, that have the site, or have none
-- where the site is "nodata", or any where it is "all"; the links exactly those with both devices
-- among them; and the networks exactly those with an address at one of them.
pub get_front_lem :
    (site proj : String) (od : OfflineData)
    → proj ≢ "nodata"
    → KeysDiffer od.devs
    → KeysDiffer od.l2_links
    → KeysDiffer od.l3_links
    → (f : Front) × (get_front site proj od ≡ some f)
      × ((id : String) (d : OfflineDevice)
          → (get id f.devs ≡ some d)
            ↔ ((get id od.devs ≡ some d) × (InSite site d × InProj proj d)))
      × ((id : String) (l : LinkDevs)
          → (get id f.l2_links ≡ some l)
            ↔ ((get id od.l2_links ≡ some l) × (IsIn f.devs l.first × IsIn f.devs l.second)))
      × ((id : String) (net : Obj String)
          → (get id f.l3_links ≡ some net)
            ↔ ((get id od.l3_links ≡ some net) × HasAddress f.devs net))
unfolding get_front get
get_front_lem site proj od ne k l m =
    let devs = select (is_shown site proj) [] od.devs in
    let h : str_eq proj "nodata" ≡ false = elim (Bool-cases (str_eq proj "nodata")) [
      | inl p ↦ absurd (ne ((eq_iff proj "nodata").0 p))
      | inr p ↦ p
    ] in
    (
      front_of site proj od devs,
      rw (front_devs-select site proj [] od.devs h) refl,
      λ id d. select_exactly (is_shown site proj) id d od.devs k (
          both (site_match site d) (of_proj proj d) (site_match-InSite site d)
            (of_proj-InProj proj d)),
      λ id x. select_exactly (both_shown devs) id x od.l2_links l (
          both (is_defined (get x.first devs)) (is_defined (get x.second devs))
            (is_defined-IsIn devs x.first) (is_defined-IsIn devs x.second)),
      λ id net.
          select_exactly (any_shown devs) id net od.l3_links m (any_shown-HasAddress devs net),
    )

-- Is a device of the site there?
abbrev pub any_of_site : String → Obj OfflineDevice → Bool
any_of_site site [] = false
any_of_site site ((id, d) ∷ devs) = site_match site d || any_of_site site devs

nodata_devs :
    (site : String) (ret devs : Obj OfflineDevice)
    → front_devs site "nodata" ret devs ≡ (if any_of_site site devs then none else some ret)
unfolding front_devs
nodata_devs site ret [] = refl
nodata_devs site ret ((id, d) ∷ devs) = elim (Bool-cases (site_match site d)) [
  | inl p ↦ rw p refl
  | inr p ↦ rw p (nodata_devs site ret devs)
]

-- The query for the devices without a project ends with a TypeError when there is any device of the
-- site.
pub get_front-nodata :
    (site : String) (od : OfflineData)
    → any_of_site site od.devs ≡ true
    → get_front site "nodata" od ≡ none
unfolding get_front
get_front-nodata site od h = rw (nodata_devs site [] od.devs, h) refl
