-- ===== src/Connections/Routed/Neighbours.antt =====
-- Which interfaces `build_connections` takes for neighbours on the site "l3".
use mapper.Prelude.{
  ◌==◌, ==_iff, String, ◌≡◌, refl, ◌≢◌, none, some, true, false, ◌&&◌, [], ◌∷◌, Has, inl, inr,
  arith, str_eq, eq_iff, length, Bool-cases, Option-cases,
}
use mapper.Prelude.Obj.{Obj, get, is_defined}
use mapper.Turnpoints.{Endpoint}
use mapper.Connections.Build.{Page}
use mapper.Connections.Routed.{
  Routed, routed_interface, other_address, far_interface, routed_neighbour,
}

-- The first of two different entries, or the second
other_address-two :
    (ip : String) (net : Obj Endpoint) (b : Endpoint)
    → other_address ip net ≡ some b
    → (nei_ip : String) × (nei_ip ≢ ip) × Has (nei_ip, b) net
unfolding other_address
other_address-two ip [] b h = absurd (cc)
other_address-two ip ((j, e) ∷ net) b h = elim (Bool-cases (str_eq j ip)) [
  | inl q ↦ let (k, ne, m) = other_address-two ip net b (rw q at h) in (k, ne, inr m)
  | inr q ↦
      let x : some e ≡ some b = rw q at h in
      let y : e ≡ b = cc (x) in (j, (λ z. ground (arith, eq_iff j ip)), inl (rw y refl))
]

-- Of two entries, the one with another address
pub other_address-finds :
    (ip nei_ip : String) (own b : Endpoint) (net : Obj Endpoint)
    → length net ≡ 2
    → get ip net ≡ some own
    → nei_ip ≢ ip
    → Has (nei_ip, b) net
    → other_address ip net ≡ some b
unfolding other_address get
other_address-finds ip nei_ip own b [] l g ne h = absurd h
other_address-finds ip nei_ip own b ((j, e) ∷ []) l g ne h = absurd (omega arith)
other_address-finds ip nei_ip own b ((j, e) ∷ (k, f) ∷ []) l g ne (inl q) =
    ground (arith, eq_iff j ip, eq_iff k ip)
other_address-finds ip nei_ip own b ((j, e) ∷ (k, f) ∷ []) l g ne (inr (inl q)) =
    ground (arith, eq_iff j ip, eq_iff k ip)
other_address-finds ip nei_ip own b ((j, e) ∷ (k, f) ∷ []) l g ne (inr (inr h)) = absurd h
other_address-finds ip nei_ip own b ((j, e) ∷ (k, f) ∷ x ∷ net) l g ne h = absurd (omega arith)

module _ (p : Page) (r : Routed) where
  -- The network has two addresses: `ip`, on the device of `a`, and one of the interface `b`, which is
  -- on another device, known and drawn.
  pub record IsNeighbour (a b : Endpoint) (ip ip_net : String) : Type 0 where
    pub net : Obj Endpoint
    pub stored : get ip_net r.l3_links ≡ some net
    pub addresses : length net ≡ 2
    pub own : Endpoint
    pub near : get ip net ≡ some own
    pub same_dev : own.dev ≡ a.dev
    pub far : (nei_ip : String) × (nei_ip ≢ ip) × Has (nei_ip, b) net
    pub apart : b.dev ≢ a.dev
    pub known : is_defined (routed_interface b r) ≡ true
    pub to_drawn : p.drawn b ≡ true

  far_interface-eq :
      (a b c : Endpoint)
      → far_interface p r a c ≡ some b
      → (c ≡ b) × (c.dev ≢ a.dev) × (is_defined (routed_interface c r) ≡ true) × (p.drawn c ≡ true)
  unfolding far_interface
  far_interface-eq a b c h = ground (arith, eq_iff c.dev a.dev)

  pub routed_neighbour-IsNeighbour :
      (a b : Endpoint) (ip ip_net : String)
      → routed_neighbour p r a ip ip_net ≡ some b
      → IsNeighbour a b ip ip_net
  unfolding routed_neighbour far_interface
  routed_neighbour-IsNeighbour a b ip ip_net h = elim (Option-cases (get ip_net r.l3_links)) [
    | inl n ↦ absurd (let x : none ≡ some b = rw (n, routed_neighbour) at h in cc (x))
    | inr (net, s) ↦ elim (Option-cases (get ip net)) [
      | inl n ↦ absurd (let x : none ≡ some b = rw (s, routed_neighbour, n) at h in cc (x))
      | inr (own, t) ↦ elim (Bool-cases (str_eq own.dev a.dev && (length net == 2))) [
        | inr q ↦ absurd (let x : none ≡ some b = rw (s, routed_neighbour, t, q) at h in cc (x))
        | inl q ↦ elim (Option-cases (other_address ip net)) [
          | inl n ↦
              absurd (let x : none ≡ some b = rw (s, routed_neighbour, t, q, n) at h in cc (x))
          | inr (c, u) ↦
              let x : far_interface p r a c ≡ some b = rw (s, routed_neighbour, t, q, u) at h in
              let (e, apart, known, drawn) = far_interface-eq a b c x in
              record {
                net = net;
                stored = s;
                addresses = ground (arith, ==_iff (length net) 2);
                own = own;
                near = t;
                same_dev = ground (arith, eq_iff own.dev a.dev);
                far = other_address-two ip net b (rw e at u);
                apart = rw e at apart;
                known = rw e at known;
                to_drawn = rw e at drawn;
              }
        ]
      ]
    ]
  ]

  pub routed_neighbour-finds :
      (a b : Endpoint) (ip ip_net : String)
      → IsNeighbour a b ip ip_net
      → routed_neighbour p r a ip ip_net ≡ some b
  unfolding routed_neighbour far_interface
  routed_neighbour-finds a b ip ip_net n =
      let (nei_ip, ne, has) = n.far in
      let f = other_address-finds ip nei_ip n.own b n.net n.addresses n.near ne has in
      let s : str_eq n.own.dev a.dev ≡ true = ground (arith, n.same_dev, eq_iff n.own.dev a.dev) in
      let d : str_eq b.dev a.dev ≡ false = ground (arith, n.apart, eq_iff b.dev a.dev) in
      rw (n.stored) (rw (n.near) (rw (s, n.addresses, f, d, n.known, n.to_drawn) refl))
