-- ===== src/Connections/Sound.antt =====
-- Every connection is that of a link between two devices on the page, and `build_connections` misses
-- none that an interface which is drawn lists.
use mapper.Prelude.{
  String, ◌≡◌, refl, sym, ◌≢◌, ◌⊎◌, none, some, true, List, [], ◌∷◌, Has, All, inl, inr, arith,
  str_eq, eq_iff, Bool-cases, Option-cases,
}
use mapper.Prelude.Obj.{Obj, get, is_defined, Each, Each-set}
use mapper.Turnpoints.{Endpoint}
use mapper.Links.{L2Link, Devs, ends_at}
use mapper.Links.Wipe.{links_of, WellFormed}
use mapper.Connections.Build.{
  Connection, Page, IntLink, other_end, int_link, int_links, legs_built, connect, connect_all,
  build_int, build_ints, build_devs, build_connections,
}

-- The connection `c` is that of the link `id`.
pub record IsOf (p : Page) (id : String) (c : Connection) : Type 0 where
  pub link : L2Link
  pub stored : get id p.net_data.l2_links ≡ some link
  pub apart : link.first.dev ≢ link.second.dev
  pub ends :
      ((c.from ≡ link.first) × (c.to ≡ link.second))
      ⊎ ((c.from ≡ link.second) × (c.to ≡ link.first))
  pub status : c.status ≡ link.status
  pub legs : (c.legs, c.errors) ≡ legs_built (get id p.tps) c.from c.to
  pub from_shown : p.shown c.from.dev ≡ true
  pub to_shown : p.shown c.to.dev ≡ true

-- All connections are those of links.
abbrev pub Sound : Page → Obj Connection → Type 0
Sound p cs = Each (IsOf p) cs

-- What an entry of `int_links` is
record IsLink (p : Page) (e : Endpoint) (k : IntLink) : Type 0 where
  link : L2Link
  stored : get k.link_id p.net_data.l2_links ≡ some link
  apart : link.first.dev ≢ link.second.dev
  ends : ((e ≡ link.first) × (k.nei ≡ link.second)) ⊎ ((e ≡ link.second) × (k.nei ≡ link.first))
  status : k.status ≡ link.status

-- An end of a link between two devices, and the other one
other_end_lem :
    (e : Endpoint) (l : L2Link)
    → ends_at e l ≡ true
    → l.first.dev ≢ l.second.dev
    → ((e ≡ l.first) × (other_end e l ≡ l.second)) ⊎ ((e ≡ l.second) × (other_end e l ≡ l.first))
other_end_lem e l h ne = ground (
  arith,
  eq_iff l.first.dev e.dev,
  eq_iff l.first.int e.int,
  eq_iff l.second.dev e.dev,
  eq_iff l.second.int e.int,
)

module _ (p : Page) (wf : WellFormed p.net_data) where
  int_link-IsLink :
      (cs : Obj Connection) (e : Endpoint) (id : String) (k : IntLink)
      → Has id (links_of e p.net_data.devs)
      → int_link p cs e id ≡ some k
      → IsLink p e k
  unfolding int_link
  int_link-IsLink cs e id k has h =
      let (l, q, r) = wf e id has in
      elim (Bool-cases (is_defined (get id cs))) [
        | inl d ↦ absurd (let x : none ≡ some k = rw (d, int_link) at h in cc (x))
        | inr d ↦ elim (Bool-cases (str_eq l.first.dev l.second.dev)) [
          | inl s ↦ absurd (let x : none ≡ some k = rw (d, int_link, q, s) at h in cc (x))
          | inr s ↦
              let x : some (record { link_id = id; nei = other_end e l; status = l.status })
                  ≡ some k =
                rw (d, int_link, q, s) at h in
              let y : record { link_id = id; nei = other_end e l; status = l.status } ≡ k =
                cc (x) in
              let ne : l.first.dev ≢ l.second.dev =
                λ z. ground (arith, eq_iff l.first.dev l.second.dev) in
              rw (sym y) (record {
                link = l;
                stored = q;
                apart = ne;
                ends = other_end_lem e l r ne;
                status = refl;
              })
        ]
      ]

  int_links-IsLink :
      (cs : Obj Connection) (e : Endpoint) (ids : List String)
      → ((id : String) → Has id ids → Has id (links_of e p.net_data.devs))
      → All (IsLink p e) (int_links p cs e ids)
  unfolding int_links
  int_links-IsLink cs e [] h = tt
  int_links-IsLink cs e (id ∷ ids) h =
      let rest = int_links-IsLink cs e ids (λ j k. h j (inr k)) in
      elim (Option-cases (int_link p cs e id)) [
        | inl n ↦ rw n rest
        | inr (k, s) ↦ rw s (int_link-IsLink cs e id k (h id (inl refl)) s, rest)
      ]

  connect-IsOf :
      (e : Endpoint) (k : IntLink)
      → p.shown e.dev ≡ true
      → p.shown k.nei.dev ≡ true
      → IsLink p e k
      → IsOf p k.link_id (connect p e k)
  unfolding connect
  connect-IsOf e k s t l = record {
    link = l.link;
    stored = l.stored;
    apart = l.apart;
    ends = l.ends;
    status = l.status;
    legs = refl;
    from_shown = s;
    to_shown = t;
  }

  connect_all-Sound :
      (e : Endpoint) (ks : List IntLink) (cs : Obj Connection)
      → p.shown e.dev ≡ true
      → All (IsLink p e) ks
      → Sound p cs
      → Sound p (connect_all p e ks cs)
  unfolding connect_all
  connect_all-Sound e [] cs s h c = c
  connect_all-Sound e (k ∷ ks) cs s h c = elim (Bool-cases (p.shown k.nei.dev)) [
    | inl t ↦ rw t (
        connect_all-Sound e ks _ s h.1
          (Each-set (IsOf p) k.link_id _ cs (connect-IsOf e k s t h.0) c))
    | inr t ↦ rw t (connect_all-Sound e ks cs s h.1 c)
  ]

  build_int-Sound :
      (e : Endpoint) (cs : Obj Connection)
      → p.shown e.dev ≡ true
      → Sound p cs
      → Sound p (build_int p e cs)
  unfolding build_int
  build_int-Sound e cs s c = elim (Bool-cases (p.drawn e)) [
    | inl d ↦
        let ids = links_of e p.net_data.devs in
        rw d
          (connect_all-Sound e (int_links p cs e ids) cs s (int_links-IsLink cs e ids (λ j k. k)) c)
    | inr d ↦ rw d c
  ]

  build_ints-Sound :
      (dev : String) (ints : List String) (cs : Obj Connection)
      → p.shown dev ≡ true
      → Sound p cs
      → Sound p (build_ints p dev ints cs)
  unfolding build_ints
  build_ints-Sound dev [] cs s c = c
  build_ints-Sound dev (int ∷ ints) cs s c =
      build_ints-Sound dev ints _ s (build_int-Sound (record { dev = dev; int = int }) cs s c)

  build_devs-Sound : (ds : Devs) (cs : Obj Connection) → Sound p cs → Sound p (build_devs p ds cs)
  unfolding build_devs
  build_devs-Sound [] cs c = c
  build_devs-Sound ((dev, ints) ∷ ds) cs c = elim (Bool-cases (p.shown dev)) [
    | inl s ↦ rw s (build_devs-Sound ds _ (build_ints-Sound dev (p.sorted dev) cs s c))
    | inr s ↦ rw s (build_devs-Sound ds cs c)
  ]

  -- When every link that an interface lists is there and ends at the interface, and the connections
  -- that there are belong to links, then all connections after `build_connections` belong to links:
  -- each has the two ends of its link, on two different devices that are on the page, its status,
  -- and the legs that its turnpoints give, or one direct leg.
  pub build_connections-Sound :
      (cs : Obj Connection) → Sound p cs → Sound p (build_connections p cs)
  unfolding build_connections
  build_connections-Sound cs c = build_devs-Sound p.net_data.devs cs c
