-- ===== src/Connections/Routed/Sound.antt =====
-- What `build_connections` connects on the site "l3".
use mapper.Prelude.{
  String, ◌≡◌, refl, some, true, List, [], ◌∷◌, All, inl, inr, Bool-cases, Option-cases,
}
use mapper.Prelude.Int.{ℤ}
use mapper.Prelude.Obj.{Obj, Each, Each-set}
use mapper.Turnpoints.{Endpoint}
use mapper.Links.{same_end}
use mapper.Connections.Build.{Connection, Page, IntLink, connect, connect_all}
use mapper.Connections.Routed.{
  RoutedInterface, Routed, P2pLink, RoutedState, Gathered, routed_interface, visit_ips,
  store_gathered, build_routed_int, build_routed_ints, build_routed_devs, build_routed,
}
use mapper.Connections.Routed.Joined.{
  IsLinked, IsRouted, Stored, Grows, IsSound, IsGathered, visit_ips-IsGathered,
}

module _ (locale_compare : String → String → ℤ) (p : Page) (r : Routed) where
  connect-IsRouted :
      (a : Endpoint) (k : IntLink)
      → p.shown a.dev ≡ true
      → p.shown k.nei.dev ≡ true
      → IsLinked locale_compare p r a k.nei k.link_id k.status
      → IsRouted locale_compare p r k.link_id (connect p a k)
  unfolding connect
  connect-IsRouted a k s t l = record { linked = l; legs = refl; from_shown = s; to_shown = t }

  connect_all-AllRouted :
      (a : Endpoint) (ks : List IntLink) (cs : Obj Connection)
      → p.shown a.dev ≡ true
      → All (λ k. (IsLinked locale_compare p r) a k.nei k.link_id k.status) ks
      → Each (IsRouted locale_compare p r) cs
      → Each (IsRouted locale_compare p r) (connect_all p a ks cs)
  unfolding connect_all
  connect_all-AllRouted a [] cs s h c = c
  connect_all-AllRouted a (k ∷ ks) cs s h c = elim (Bool-cases (p.shown k.nei.dev)) [
    | inl t ↦ rw t (
        connect_all-AllRouted a ks _ s h.1
          (Each-set (IsRouted locale_compare p r) k.link_id _ cs (connect-IsRouted a k s t h.0) c))
    | inr t ↦ rw t (connect_all-AllRouted a ks cs s h.1 c)
  ]

  Stored-grown :
      (ls ls' : Obj P2pLink) (ids : List String) → Grows ls ls' → Stored ls ids → Stored ls' ids
  Stored-grown ls ls' [] g h = tt
  Stored-grown ls ls' (id ∷ ids) g h = (g id h.0, Stored-grown ls ls' ids g h.1)

  store_gathered-IsSound :
      (a : Endpoint) (g : Gathered) (s : RoutedState)
      → p.shown a.dev ≡ true
      → IsGathered locale_compare p r s.p2p_links a g
      → IsSound locale_compare p r s
      → IsSound locale_compare p r (store_gathered locale_compare p r a g s)
  unfolding store_gathered
  store_gathered-IsSound a g s sh h c = record {
    routed = connect_all-AllRouted a g.entries s.connections sh h.new c.routed;
    links = h.links;
    stored = λ e ids q. elim (Bool-cases (same_end e a)) [
      | inl t ↦
          let x : some g.ids ≡ some ids = rw t at q in
          let y : g.ids ≡ ids = cc (x) in rw (← y) h.stored
      | inr t ↦ Stored-grown s.p2p_links g.p2p_links ids h.grown (c.stored e ids (rw t at q))
    ];
  }

  build_routed_int-IsSound :
      (a : Endpoint) (s : RoutedState)
      → p.shown a.dev ≡ true
      → IsSound locale_compare p r s
      → IsSound locale_compare p r (build_routed_int locale_compare p r a s)
  unfolding build_routed_int
  build_routed_int-IsSound a s sh c = elim (Option-cases (routed_interface a r)) [
    | inl n ↦ rw (n, build_routed_int) c
    | inr (i, n) ↦ elim (Option-cases i.ips) [
      | inl m ↦ rw (n, build_routed_int, m) c
      | inr (ips, m) ↦ elim (Bool-cases (p.drawn a)) [
        | inl d ↦
            let none_yet : Gathered = record { entries = []; ids = []; p2p_links = s.p2p_links } in
            let start : IsGathered locale_compare p r s.p2p_links a none_yet = record {
              grown = λ k x. x;
              new = tt;
              links = c.links;
              stored = tt;
            } in
            rw (n, build_routed_int, m, d)
              (store_gathered-IsSound a (visit_ips locale_compare p r s.connections a ips none_yet)
                s sh
                (visit_ips-IsGathered locale_compare p r s.p2p_links s.connections a i ips ips
                  none_yet n m d (λ x k. k) start)
                c)
        | inr d ↦ rw (n, build_routed_int, m, d) c
      ]
    ]
  ]

  build_routed_ints-IsSound :
      (dev : String) (ints : List String) (s : RoutedState)
      → p.shown dev ≡ true
      → IsSound locale_compare p r s
      → IsSound locale_compare p r (build_routed_ints locale_compare p r dev ints s)
  unfolding build_routed_ints
  build_routed_ints-IsSound dev [] s sh c = c
  build_routed_ints-IsSound dev (int ∷ ints) s sh c =
      build_routed_ints-IsSound dev ints _ sh
        (build_routed_int-IsSound (record { dev = dev; int = int }) s sh c)

  build_routed_devs-IsSound :
      (ds : Obj (Obj RoutedInterface)) (s : RoutedState)
      → IsSound locale_compare p r s
      → IsSound locale_compare p r (build_routed_devs locale_compare p r ds s)
  unfolding build_routed_devs
  build_routed_devs-IsSound [] s c = c
  build_routed_devs-IsSound ((dev, ints) ∷ ds) s c = elim (Bool-cases (p.shown dev)) [
    | inl h ↦
        rw h (build_routed_devs-IsSound ds _ (build_routed_ints-IsSound dev (p.sorted dev) s h c))
    | inr h ↦ rw h (build_routed_devs-IsSound ds s c)
  ]

  -- On the site "l3", when every connection and every link that there is joins two interfaces as said
  -- here, and every listed link is there, then so it is after `build_connections`: an address of the
  -- first interface that is no loopback address is one of exactly two in its network, and the other
  -- is that of the second interface, which is known and on another device; both are drawn; the key
  -- is the `ip_link_id` of the two, and the status is 1 if both are up and 2 if not. A connection
  -- also has both devices on the page and the legs that the turnpoints of its key give.
  pub build_routed-IsSound :
      (s : RoutedState)
      → IsSound locale_compare p r s
      → IsSound locale_compare p r (build_routed locale_compare p r s)
  unfolding build_routed
  build_routed-IsSound s c = build_routed_devs-IsSound r.devs s c
