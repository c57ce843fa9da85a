-- ===== src/Connections/Routed/Found.antt =====
-- On the site "l3", `build_connections` misses no joined interfaces, and it finds them once.
use mapper.Prelude.{
  String, ◌≡◌, ◌≢◌, refl, ◌⊎◌, none, some, true, false, List, [], ◌∷◌, Has, Has-append_left,
  Has-append_right, ap, inl, inr, arith, str_eq, eq_iff, Bool-cases, Option-cases,
}
use mapper.Prelude.Int.{ℤ, pos}
use mapper.Prelude.Obj.{Obj, get, is_defined}
use mapper.Turnpoints.{Endpoint}
use mapper.Connections.Build.{Connection, Page, IntLink}
use mapper.Connections.Kept.{Defined, Keeps, Keeps-Defined, connect_all-Defined, connect_all_finds}
use mapper.Connections.Routed.{
  RoutedInterface, Routed, RoutedState, Gathered, above_zero, below_zero, ip_link_id,
  routed_interface, is_loopback, routed_neighbour, note_link, visit_ip, visit_ips, store_gathered,
  build_routed_int, build_routed_ints, build_routed_devs, build_routed,
}
use mapper.Connections.Routed.Neighbours.{routed_neighbour-finds}
use mapper.Connections.Routed.Joined.{IsJoined}
use mapper.Connections.Routed.Kept.{build_routed_ints-Keeps, build_routed_devs-Keeps}

-- The two ways to compare agree, as ECMA-402 says of `localeCompare`.
abbrev pub IsTurned : (String → String → ℤ) → Type 0
IsTurned cmp = (s t : String) → above_zero (cmp t s) ≡ below_zero (cmp s t)

-- The two ends of a link give the same key.
ip_link_id_turned :
    (cmp : String → String → ℤ) (a b : Endpoint)
    → IsTurned cmp
    → cmp a.dev b.dev ≢ pos 0
    → ip_link_id cmp b a ≡ ip_link_id cmp a b
unfolding ip_link_id
ip_link_id_turned cmp a b h ne = ground (arith, h a.dev b.dev, h b.dev a.dev)

-- The list of new entries has one of the link, if it has no connection.
abbrev IsNoted : Obj Connection → Endpoint → String → List IntLink → Type 0
IsNoted cs b id ks = Defined id cs ⊎ ((k : IntLink) × Has k ks × (k.link_id ≡ id) × (k.nei ≡ b))

device_of :
    (e : Endpoint) (r : Routed) (i : RoutedInterface)
    → routed_interface e r ≡ some i
    → (ints : Obj RoutedInterface) × (get e.dev r.devs ≡ some ints) × (get e.int ints ≡ some i)
unfolding routed_interface
device_of e r i h = elim (Option-cases (get e.dev r.devs)) [
  | inl n ↦ absurd (let x : none ≡ some i = rw (n, routed_interface) at h in cc (x))
  | inr (ints, n) ↦ (ints, n, rw (n, routed_interface) at h)
]

Defined-some :
    (id : String) (cs : Obj Connection) → Defined id cs → (c : Connection) × (get id cs ≡ some c)
Defined-some id cs d = elim (Option-cases (get id cs)) [
  | inl n ↦ absurd (let x : false ≡ true = rw n at d in cc (x))
  | inr r ↦ r
]

module _ (locale_compare : String → String → ℤ) (p : Page) (r : Routed) where
  module _ (cs : Obj Connection) (a b : Endpoint) where
    note_link-IsNoted :
        (g : Gathered)
        → IsNoted cs b (ip_link_id locale_compare a b) (note_link locale_compare r cs a b g).entries
    unfolding note_link
    note_link-IsNoted g = elim (Bool-cases (is_defined (get (ip_link_id locale_compare a b) cs))) [
      | inl d ↦ inl d
      | inr d ↦ rw d (inr (_, Has-append_right _ g.entries (_ ∷ []) (inl refl), refl, refl))
    ]

    note_link-keeps :
        (c : Endpoint) (id : String) (g : Gathered)
        → IsNoted cs b id g.entries
        → IsNoted cs b id (note_link locale_compare r cs a c g).entries
    unfolding note_link
    note_link-keeps c id g (inl d) = inl d
    note_link-keeps c id g (inr (k, h, q, m)) =
        elim (Bool-cases (is_defined (get (ip_link_id locale_compare a c) cs))) [
          | inl d ↦ rw d (inr (k, h, q, m))
          | inr d ↦ rw d (inr (k, Has-append_left k g.entries (_ ∷ []) h, q, m))
        ]

    visit_ips-keeps :
        (id : String) (ips : Obj String) (g : Gathered)
        → IsNoted cs b id g.entries
        → IsNoted cs b id (visit_ips locale_compare p r cs a ips g).entries
    unfolding visit_ips visit_ip
    visit_ips-keeps id [] g h = h
    visit_ips-keeps id ((ip, ip_net) ∷ ips) g h =
        visit_ips-keeps id ips _ (elim (Bool-cases (is_loopback ip)) [
          | inl l ↦ rw l h
          | inr l ↦ rw l (elim (Option-cases (routed_neighbour p r a ip ip_net)) [
            | inl n ↦ rw n h
            | inr (c, n) ↦ rw n (note_link-keeps c id g h)
          ])
        ])

    visit_ips_finds :
        (ip ip_net : String) (ips : Obj String) (g : Gathered)
        → is_loopback ip ≡ false
        → routed_neighbour p r a ip ip_net ≡ some b
        → Has (ip, ip_net) ips
        → IsNoted cs b
            (ip_link_id locale_compare a b)
            (visit_ips locale_compare p r cs a ips g).entries
    unfolding visit_ips visit_ip
    visit_ips_finds ip ip_net [] g l n h = absurd h
    visit_ips_finds ip ip_net ((ip', net') ∷ ips) g l n (inl q) =
        visit_ips-keeps (ip_link_id locale_compare a b) ips _ (
          rw (← ap (λ (x : String × String). x.0) q, ← ap (λ (x : String × String). x.1) q)
            (rw (l, n) (note_link-IsNoted g)))
    visit_ips_finds ip ip_net ((ip', net') ∷ ips) g l n (inr h) =
        visit_ips_finds ip ip_net ips _ l n h

  module _ (a b : Endpoint) (j : IsJoined p r a b) (s : p.shown b.dev ≡ true) where
    build_routed_int_finds :
        (st : RoutedState)
        → Defined
            (ip_link_id locale_compare a b)
            (build_routed_int locale_compare p r a st).connections
    unfolding build_routed_int store_gathered
    build_routed_int_finds st =
        let n = routed_neighbour-finds p r a b j.ip j.ip_net j.joined in
        let id = ip_link_id locale_compare a b in
        let cs = st.connections in
        let g =
          visit_ips locale_compare p r cs a j.ips
            (record { entries = []; ids = []; p2p_links = st.p2p_links }) in
        let f : IsNoted cs b id g.entries =
          visit_ips_finds cs a b j.ip j.ip_net j.ips _ j.no_loopback n j.lists in
        rw (j.found, build_routed_int, j.has_ips, j.from_drawn)
          (elim f [
            | inl d ↦ connect_all-Defined p a g.entries cs id d
            | inr (k, h, q, m) ↦ rw (← q) (connect_all_finds p a g.entries cs k h (rw (← m) at s))
          ])

    build_routed_ints_finds :
        (ints : List String) (st : RoutedState)
        → Has a.int ints
        → Defined
            (ip_link_id locale_compare a b)
            (build_routed_ints locale_compare p r a.dev ints st).connections
    unfolding build_routed_ints
    build_routed_ints_finds [] st h = absurd h
    build_routed_ints_finds (int ∷ ints) st (inl q) =
        Keeps-Defined (ip_link_id locale_compare a b) _ _
          (build_routed_ints-Keeps locale_compare p r a.dev ints _)
          (rw (← q) (build_routed_int_finds st))
    build_routed_ints_finds (int ∷ ints) st (inr h) = build_routed_ints_finds ints _ h

    build_routed_devs_finds :
        (ds : Obj (Obj RoutedInterface)) (ints : Obj RoutedInterface) (st : RoutedState)
        → get a.dev ds ≡ some ints
        → p.shown a.dev ≡ true
        → Has a.int (p.sorted a.dev)
        → Defined
            (ip_link_id locale_compare a b)
            (build_routed_devs locale_compare p r ds st).connections
    unfolding build_routed_devs get
    build_routed_devs_finds [] ints st g sh h = absurd (cc)
    build_routed_devs_finds ((dev, is) ∷ ds) ints st g sh h = elim (Bool-cases (str_eq dev a.dev)) [
      | inl q ↦
          let x : a.dev ≡ dev = ground (arith, q, eq_iff dev a.dev) in
          rw (← x) (
            rw (sh, build_routed_devs)
              (Keeps-Defined (ip_link_id locale_compare a b) _ _
                (build_routed_devs-Keeps locale_compare p r ds _)
                (build_routed_ints_finds (p.sorted a.dev) st h)))
      | inr q ↦ build_routed_devs_finds ds ints _ (rw q at g) sh h
    ]

  -- When comparing two names the other way round gives the opposite, and tells two devices apart, an
  -- interface of the first is drawn and sorted in, has an address that is no loopback address and is
  -- one of exactly two in its network, and the other is that of a known and drawn interface of the
  -- second, and both devices are on the page, then after `build_connections` on the site "l3" the link
  -- of the two interfaces has a connection, under a key that is the same seen from either end; and the
  -- connections that were there stay as they are.
  pub build_routed_complete :
      (a b : Endpoint) (s : RoutedState)
      → IsTurned locale_compare
      → locale_compare a.dev b.dev ≢ pos 0
      → IsJoined p r a b
      → p.shown a.dev ≡ true
      → p.shown b.dev ≡ true
      → Has a.int (p.sorted a.dev)
      → Keeps s.connections (build_routed locale_compare p r s).connections
        × ((c : Connection) × (get
                (ip_link_id locale_compare a b)
                (build_routed locale_compare p r s).connections
              ≡ some c))
        × (ip_link_id locale_compare b a ≡ ip_link_id locale_compare a b)
  unfolding build_routed routed_interface
  build_routed_complete a b s turned ne j sa sb h =
      let id = ip_link_id locale_compare a b in
      let (ints, g, _) = device_of a r j.interface j.found in
      let d : Defined id (build_routed locale_compare p r s).connections =
        build_routed_devs_finds a b j sb r.devs ints s g sa h in
      (
        build_routed_devs-Keeps locale_compare p r r.devs s,
        Defined-some id _ d,
        ip_link_id_turned locale_compare a b turned ne,
      )
