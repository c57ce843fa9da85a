-- ===== src/Connections/Found.antt =====
-- `build_connections` finds every link that an interface which is drawn lists.
use mapper.Prelude.{
  String, ◌≡◌, refl, sym, ap, ◌∙◌, ◌≢◌, none, some, true, false, List, [], ◌∷◌, Has, inl, inr,
  arith, str_eq, eq_iff, Bool-cases, Option-cases,
}
use mapper.Prelude.Obj.{Obj, get}
use mapper.Turnpoints.{Endpoint}
use mapper.Links.{L2Link, Interface, Devs}
use mapper.Links.Wipe.{links_of}
use mapper.Connections.Build.{
  Connection, Page, IntLink, other_end, int_link, int_links, build_int, build_ints, build_devs,
  build_connections,
}
use mapper.Connections.Kept.{
  Defined, Defined-by, Keeps, Keeps-Defined, connect_all_finds, build_int-Keeps, build_ints-Keeps,
  build_devs-Keeps,
}

module _ (p : Page) where
  -- A link between two devices, and the entry for it
  record Joins (e : Endpoint) (id : String) : Type 0 where
    link : L2Link
    stored : get id p.net_data.l2_links ≡ some link
    apart : link.first.dev ≢ link.second.dev
    shown : p.shown (other_end e link).dev ≡ true

  entry : (e : Endpoint) (id : String) → Joins e id → IntLink
  entry e id j = record { link_id = id; nei = other_end e j.link; status = j.link.status }

  int_link-entry :
      (cs : Obj Connection) (e : Endpoint) (id : String) (j : Joins e id)
      → get id cs ≡ none
      → int_link p cs e id ≡ some (entry e id j)
  unfolding int_link entry
  int_link-entry cs e id j n =
      let other : str_eq j.link.first.dev j.link.second.dev ≡ false =
        elim (Bool-cases (str_eq j.link.first.dev j.link.second.dev)) [
          | inl s ↦ absurd (j.apart (ground (arith, s, eq_iff j.link.first.dev j.link.second.dev)))
          | inr s ↦ s
        ] in
      rw (n, int_link) (rw j.stored (rw other refl))

  int_links-entry :
      (cs : Obj Connection) (e : Endpoint) (ids : List String) (id : String) (j : Joins e id)
      → get id cs ≡ none
      → Has id ids
      → Has (entry e id j) (int_links p cs e ids)
  unfolding int_links
  int_links-entry cs e [] id j n h = absurd h
  int_links-entry cs e (i ∷ ids) id j n (inl q) =
      let s : int_link p cs e i ≡ some (entry e id j) =
        ap (λ (x : String). int_link p cs e x) (sym q) ∙ int_link-entry cs e id j n in
      rw s (inl refl)
  int_links-entry cs e (i ∷ ids) id j n (inr h) = elim (Option-cases (int_link p cs e i)) [
    | inl m ↦ rw m (int_links-entry cs e ids id j n h)
    | inr (k, m) ↦ rw m (inr (int_links-entry cs e ids id j n h))
  ]

  build_int_finds :
      (e : Endpoint) (cs : Obj Connection) (id : String)
      → Joins e id
      → p.drawn e ≡ true
      → Has id (links_of e p.net_data.devs)
      → Defined id (build_int p e cs)
  unfolding build_int entry
  build_int_finds e cs id j d h = elim (Option-cases (get id cs)) [
    | inr (c, s) ↦ Keeps-Defined id cs _ (build_int-Keeps p e cs) (Defined-by id c cs s)
    | inl n ↦
        let ids = links_of e p.net_data.devs in
        rw d (
          connect_all_finds p e (int_links p cs e ids) cs (entry e id j)
            (int_links-entry cs e ids id j n h) j.shown)
  ]

  build_ints_finds :
      (e : Endpoint) (ints : List String) (cs : Obj Connection) (id : String)
      → Joins e id
      → p.drawn e ≡ true
      → Has id (links_of e p.net_data.devs)
      → Has e.int ints
      → Defined id (build_ints p e.dev ints cs)
  unfolding build_ints
  build_ints_finds e [] cs id j d h i = absurd i
  build_ints_finds e (int ∷ ints) cs id j d h (inl q) =
      Keeps-Defined id (build_int p (record { dev = e.dev; int = int }) cs) _
        (build_ints-Keeps p e.dev ints _) (rw (← q) (build_int_finds e cs id j d h))
  build_ints_finds e (int ∷ ints) cs id j d h (inr i) = build_ints_finds e ints _ id j d h i

  build_devs_finds :
      (e : Endpoint) (ds : Devs) (cs : Obj Connection) (id : String) (ints : Obj Interface)
      → Joins e id
      → p.drawn e ≡ true
      → p.shown e.dev ≡ true
      → Has id (links_of e p.net_data.devs)
      → Has e.int (p.sorted e.dev)
      → get e.dev ds ≡ some ints
      → Defined id (build_devs p ds cs)
  unfolding build_devs get
  build_devs_finds e [] cs id ints j d s h i g = absurd (cc)
  build_devs_finds e ((dev, is) ∷ ds) cs id ints j d s h i g =
      elim (Bool-cases (str_eq dev e.dev)) [
        | inl q ↦
            let x : dev ≡ e.dev = ground (arith, q, eq_iff dev e.dev) in
            rw x (
              rw s (
                Keeps-Defined id (build_ints p e.dev (p.sorted e.dev) cs) _
                  (build_devs-Keeps p ds _) (build_ints_finds e (p.sorted e.dev) cs id j d h i)))
        | inr q ↦ build_devs_finds e ds _ id ints j d s h i (rw q at g)
      ]

  -- A link that an interface lists has a connection after `build_connections`, whichever there were
  -- before, when the interface is drawn and sorted in, its device and the other device of the link are
  -- on the page, and the two devices are different; and the connections that were there stay as they
  -- are.
  pub build_connections_complete :
      (e : Endpoint) (id : String) (l : L2Link) (cs : Obj Connection)
      → get id p.net_data.l2_links ≡ some l
      → l.first.dev ≢ l.second.dev
      → Has id (links_of e p.net_data.devs)
      → Has e.int (p.sorted e.dev)
      → p.drawn e ≡ true
      → p.shown e.dev ≡ true
      → p.shown (other_end e l).dev ≡ true
      → Keeps cs (build_connections p cs)
        × (c : Connection) × (get id (build_connections p cs) ≡ some c)
  unfolding build_connections
  build_connections_complete e id l cs q ne h i d s t =
      let j : Joins e id = record { link = l; stored = q; apart = ne; shown = t } in
      let ds = p.net_data.devs in
      let (c, r) : (c : Connection) × (get id (build_devs p ds cs) ≡ some c) =
        elim (Option-cases (get e.dev ds)) [
          | inl n ↦ absurd (let x : Has id [] = rw n at h in x)
          | inr (ints, g) ↦
              let f : Defined id (build_devs p ds cs) =
                build_devs_finds e ds cs id ints j d s h i g in
              elim (Option-cases (get id (build_devs p ds cs))) [
                | inl n ↦ absurd (let x : false ≡ true = rw n at f in cc (x))
                | inr r ↦ r
              ]
        ] in
      (build_devs-Keeps p ds cs, c, r)
