-- ===== src/Connections/Kept.antt =====
-- `build_connections` leaves the connections that there are.
use mapper.Prelude.{
  String, ◌≡◌, refl, ◌∙◌, none, some, true, false, List, [], ◌∷◌, Has, All, inl, inr, str_eq,
  Bool-cases, Option-cases,
}
use mapper.Prelude.Obj.{Obj, get, set, is_defined, get-set, get-set_self, get-set_ne}
use mapper.Turnpoints.{Endpoint}
use mapper.Links.{Devs}
use mapper.Links.Wipe.{links_of}
use mapper.Connections.Build.{
  Connection, Page, IntLink, other_end, int_link, int_links, connect, connect_all, build_int,
  build_ints, build_devs,
}

abbrev pub Defined : String → Obj Connection → Type 0
Defined id cs = is_defined (get id cs) ≡ true

-- Whatever there is stays as it is.
abbrev pub Keeps : Obj Connection → Obj Connection → Type 0
Keeps cs cs' = (id : String) (c : Connection) → get id cs ≡ some c → get id cs' ≡ some c

pub Defined-by :
    (id : String) (c : Connection) (cs : Obj Connection) → get id cs ≡ some c → Defined id cs
Defined-by id c cs e = rw e refl

pub Keeps-Defined :
    (id : String) (cs cs' : Obj Connection) → Keeps cs cs' → Defined id cs → Defined id cs'
Keeps-Defined id cs cs' k d = elim (Option-cases (get id cs)) [
  | inl e ↦ absurd (let x : false ≡ true = rw e at d in cc (x))
  | inr (c, e) ↦ Defined-by id c cs' (k id c e)
]

set-Defined :
    (id j : String) (c : Connection) (cs : Obj Connection) → Defined j cs → Defined j (set id c cs)
set-Defined id j c cs d =
    rw (get-set j id c cs) (elim (Bool-cases (str_eq id j)) [ inl p ↦ rw p refl | inr p ↦ rw p d ])

module _ (p : Page) where
  -- An entry is about a link without a connection.
  int_link-new :
      (cs : Obj Connection) (e : Endpoint) (id : String) (k : IntLink)
      → int_link p cs e id ≡ some k
      → get k.link_id cs ≡ none
  unfolding int_link
  int_link-new cs e id k h = elim (Option-cases (get id cs)) [
    | inr (c, s) ↦ absurd (let x : none ≡ some k = rw (s, int_link) at h in cc (x))
    | inl n ↦ elim (Option-cases (get id p.net_data.l2_links)) [
      | inl m ↦ absurd (let x : none ≡ some k = rw (n, int_link, m) at h in cc (x))
      | inr (l, m) ↦ elim (Bool-cases (str_eq l.first.dev l.second.dev)) [
        | inl s ↦ absurd (let x : none ≡ some k = rw (n, int_link, m, s) at h in cc (x))
        | inr s ↦
            let x : some (record { link_id = id; nei = other_end e l; status = l.status })
                ≡ some k =
              rw (n, int_link, m, s) at h in
            let y : id ≡ k.link_id = cc (x) in rw (← y) n
      ]
    ]
  ]

  int_links-new :
      (cs : Obj Connection) (e : Endpoint) (ids : List String)
      → All (λ k. get k.link_id cs ≡ none) (int_links p cs e ids)
  unfolding int_links
  int_links-new cs e [] = tt
  int_links-new cs e (id ∷ ids) = elim (Option-cases (int_link p cs e id)) [
    | inl n ↦ rw n (int_links-new cs e ids)
    | inr (k, s) ↦ rw s (int_link-new cs e id k s, int_links-new cs e ids)
  ]

  pub connect_all-Keeps :
      (e : Endpoint) (ks : List IntLink) (cs old : Obj Connection)
      → All (λ k. get k.link_id old ≡ none) ks
      → Keeps old cs
      → Keeps old (connect_all p e ks cs)
  unfolding connect_all
  connect_all-Keeps e [] cs old h k = k
  connect_all-Keeps e (l ∷ ks) cs old h k = elim (Bool-cases (p.shown l.nei.dev)) [
    | inl s ↦ rw s (
        connect_all-Keeps e ks _ old h.1 (λ id c f.
          get-set_ne id l.link_id _ cs (λ q. let x : get id old ≡ none = rw q at h.0 in cc (f, x))
          ∙ k id c f))
    | inr s ↦ rw s (connect_all-Keeps e ks cs old h.1 k)
  ]

  pub connect_all-Defined :
      (e : Endpoint) (ks : List IntLink) (cs : Obj Connection) (id : String)
      → Defined id cs
      → Defined id (connect_all p e ks cs)
  unfolding connect_all
  connect_all-Defined e [] cs id d = d
  connect_all-Defined e (l ∷ ks) cs id d = elim (Bool-cases (p.shown l.nei.dev)) [
    | inl s ↦ rw s (connect_all-Defined e ks _ id (set-Defined l.link_id id _ cs d))
    | inr s ↦ rw s (connect_all-Defined e ks cs id d)
  ]

  pub connect_all_finds :
      (e : Endpoint) (ks : List IntLink) (cs : Obj Connection) (k : IntLink)
      → Has k ks
      → p.shown k.nei.dev ≡ true
      → Defined k.link_id (connect_all p e ks cs)
  unfolding connect_all
  connect_all_finds e [] cs k h s = absurd h
  connect_all_finds e (l ∷ ks) cs k (inl q) s =
      let t : p.shown l.nei.dev ≡ true = rw q at s in
      rw q (
        rw t (
          connect_all-Defined e ks _ l.link_id
            (Defined-by l.link_id _ _ (get-set_self l.link_id (connect p e l) cs))))
  connect_all_finds e (l ∷ ks) cs k (inr h) s = elim (Bool-cases (p.shown l.nei.dev)) [
    | inl t ↦ rw t (connect_all_finds e ks _ k h s)
    | inr t ↦ rw t (connect_all_finds e ks cs k h s)
  ]

  pub build_int-Keeps : (e : Endpoint) (cs : Obj Connection) → Keeps cs (build_int p e cs)
  unfolding build_int
  build_int-Keeps e cs = elim (Bool-cases (p.drawn e)) [
    | inl d ↦ rw d (
        connect_all-Keeps e (int_links p cs e (links_of e p.net_data.devs)) cs cs
          (int_links-new cs e (links_of e p.net_data.devs)) (λ id c f. f))
    | inr d ↦ rw d (λ id c f. f)
  ]

  pub build_ints-Keeps :
      (dev : String) (ints : List String) (cs : Obj Connection)
      → Keeps cs (build_ints p dev ints cs)
  unfolding build_ints
  build_ints-Keeps dev [] cs id c f = f
  build_ints-Keeps dev (int ∷ ints) cs id c f =
      build_ints-Keeps dev ints _ id c (build_int-Keeps (record { dev = dev; int = int }) cs id c f)

  pub build_devs-Keeps : (ds : Devs) (cs : Obj Connection) → Keeps cs (build_devs p ds cs)
  unfolding build_devs
  build_devs-Keeps [] cs id c f = f
  build_devs-Keeps ((dev, ints) ∷ ds) cs id c f = elim (Bool-cases (p.shown dev)) [
    | inl s ↦ rw s (build_devs-Keeps ds _ id c (build_ints-Keeps dev (p.sorted dev) cs id c f))
    | inr s ↦ rw s (build_devs-Keeps ds cs id c f)
  ]
