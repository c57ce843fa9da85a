-- ===== src/Connections/Routed/Kept.antt =====
-- On the site "l3", `build_connections` leaves the connections that there are.
use mapper.Prelude.{
  String, ◌≡◌, none, List, [], ◌∷◌, All, All-append, inl, inr, Bool-cases, Option-cases,
}
use mapper.Prelude.Int.{ℤ}
use mapper.Prelude.Obj.{Obj, get}
use mapper.Text.{◌>>=◌}
use mapper.Turnpoints.{Endpoint}
use mapper.Connections.Build.{Connection, Page, IntLink}
use mapper.Connections.Kept.{Keeps, connect_all-Keeps}
use mapper.Connections.Routed.{
  RoutedInterface, Routed, RoutedState, Gathered, ip_link_id, routed_interface, is_loopback,
  routed_neighbour, note_link, visit_ip, visit_ips, store_gathered, build_routed_int,
  build_routed_ints, build_routed_devs,
}

-- The new entries are about links without a connection.
abbrev AllNew : Obj Connection → List IntLink → Type 0
AllNew cs ks = All (λ k. get k.link_id cs ≡ none) ks

module _ (locale_compare : String → String → ℤ) (p : Page) (r : Routed) where
  note_link-AllNew :
      (cs : Obj Connection) (a b : Endpoint) (g : Gathered)
      → AllNew cs g.entries
      → AllNew cs (note_link locale_compare r cs a b g).entries
  unfolding note_link
  note_link-AllNew cs a b g h = elim (Option-cases (get (ip_link_id locale_compare a b) cs)) [
    | inl n ↦ rw n (All-append _ g.entries (_ ∷ []) h (n, tt))
    | inr (c, n) ↦ rw n h
  ]

  visit_ips-AllNew :
      (cs : Obj Connection) (a : Endpoint) (ips : Obj String) (g : Gathered)
      → AllNew cs g.entries
      → AllNew cs (visit_ips locale_compare p r cs a ips g).entries
  unfolding visit_ips visit_ip
  visit_ips-AllNew cs a [] g h = h
  visit_ips-AllNew cs a ((ip, ip_net) ∷ ips) g h =
      visit_ips-AllNew cs a ips _ (elim (Bool-cases (is_loopback ip)) [
        | inl l ↦ rw l h
        | inr l ↦ rw l (elim (Option-cases (routed_neighbour p r a ip ip_net)) [
          | inl n ↦ rw n h
          | inr (b, n) ↦ rw n (note_link-AllNew cs a b g h)
        ])
      ])

  pub build_routed_int-Keeps :
      (a : Endpoint) (s : RoutedState)
      → Keeps s.connections (build_routed_int locale_compare p r a s).connections
  unfolding build_routed_int store_gathered
  build_routed_int-Keeps a s = elim (Option-cases (routed_interface a r >>= λ i. i.ips)) [
    | inl n ↦ rw (n, build_routed_int) (λ id c e. e)
    | inr (ips, n) ↦ elim (Bool-cases (p.drawn a)) [
      | inr d ↦ rw (n, build_routed_int, d) (λ id c e. e)
      | inl d ↦
          rw (n, build_routed_int, d)
            (connect_all-Keeps p a _ s.connections s.connections
              (visit_ips-AllNew s.connections a ips
                (record { entries = []; ids = []; p2p_links = s.p2p_links }) tt)
              (λ id c e. e))
    ]
  ]

  pub build_routed_ints-Keeps :
      (dev : String) (ints : List String) (s : RoutedState)
      → Keeps s.connections (build_routed_ints locale_compare p r dev ints s).connections
  unfolding build_routed_ints
  build_routed_ints-Keeps dev [] s id c e = e
  build_routed_ints-Keeps dev (int ∷ ints) s id c e =
      build_routed_ints-Keeps dev ints _ id c
        (build_routed_int-Keeps (record { dev = dev; int = int }) s id c e)

  pub build_routed_devs-Keeps :
      (ds : Obj (Obj RoutedInterface)) (s : RoutedState)
      → Keeps s.connections (build_routed_devs locale_compare p r ds s).connections
  unfolding build_routed_devs
  build_routed_devs-Keeps [] s id c e = e
  build_routed_devs-Keeps ((dev, ints) ∷ ds) s id c e = elim (Bool-cases (p.shown dev)) [
    | inl h ↦
        rw (h, build_routed_devs)
          (build_routed_devs-Keeps ds _ id c (build_routed_ints-Keeps dev (p.sorted dev) s id c e))
    | inr h ↦ rw (h, build_routed_devs) (build_routed_devs-Keeps ds s id c e)
  ]
