-- ===== src/Connections/Routed/Joined.antt =====
-- What the loop over the addresses of an interface puts together, and what joins two interfaces.
use mapper.Prelude.{
  ℕ, String, ◌≡◌, refl, some, Bool, true, false, List, [], ◌∷◌, ◌++◌, All, Has, All-append, inl,
  inr, arith, eq_iff, Bool-cases, Option-cases, if◌then◌else◌,
}
use mapper.Prelude.Int.{ℤ}
use mapper.Prelude.Obj.{Obj, get, set, is_defined, Each, Each-set, is_defined-get-set}
use mapper.Turnpoints.{Endpoint}
use mapper.Connections.Build.{Connection, Page, IntLink, legs_built}
use mapper.Connections.Routed.{
  RoutedInterface, Routed, P2pLink, RoutedState, Gathered, ip_link_id, routed_interface, status_of,
  is_loopback, routed_neighbour, note_link, visit_ip, visit_ips,
}
use mapper.Connections.Routed.Neighbours.{IsNeighbour, routed_neighbour-IsNeighbour}

-- The links are there.
abbrev pub Stored : Obj P2pLink → List String → Type 0
Stored ls ids = All (λ id. is_defined (get id ls) ≡ true) ids

abbrev pub Grows : Obj P2pLink → Obj P2pLink → Type 0
Grows ls ls' = (id : String) → is_defined (get id ls) ≡ true → is_defined (get id ls') ≡ true

module _ (p : Page) (r : Routed) where
  -- The address `ip`, in the network `ip_net`, of the interface `a` joins it to the interface `b`.
  pub record IsJoined (a b : Endpoint) : Type 0 where
    pub interface : RoutedInterface
    pub found : routed_interface a r ≡ some interface
    pub ips : Obj String
    pub has_ips : interface.ips ≡ some ips
    pub ip : String
    pub ip_net : String
    pub lists : Has (ip, ip_net) ips
    pub no_loopback : is_loopback ip ≡ false
    pub joined : IsNeighbour p r a b ip ip_net
    pub from_drawn : p.drawn a ≡ true

module _ (locale_compare : String → String → ℤ) (p : Page) (r : Routed) where
  -- `id` and `status` are those of the link from `a` to `b`.
  pub record IsLinked (a b : Endpoint) (id : String) (status : ℕ) : Type 0 where
    pub joins : IsJoined p r a b
    pub name : id ≡ ip_link_id locale_compare a b
    pub up : status ≡ status_of r a b

  -- The connection `c` is that of the link `id`.
  pub record IsRouted (id : String) (c : Connection) : Type 0 where
    pub linked : IsLinked c.from c.to id c.status
    pub legs : (c.legs, c.errors) ≡ legs_built (get id p.tps) c.from c.to
    pub from_shown : p.shown c.from.dev ≡ true
    pub to_shown : p.shown c.to.dev ≡ true

  abbrev pub IsLink : String → P2pLink → Type 0
  IsLink id l = IsLinked l.from l.to id l.status

  -- All connections and links are of joined interfaces, and the listed links are there.
  pub record IsSound (s : RoutedState) : Type 0 where
    pub routed : Each IsRouted s.connections
    pub links : Each IsLink s.p2p_links
    pub stored :
        (e : Endpoint) (ids : List String) → s.l3_lists e ≡ some ids → Stored s.p2p_links ids

  -- The same while the addresses of `a` are visited
  pub record IsGathered (old : Obj P2pLink) (a : Endpoint) (g : Gathered) : Type 0 where
    pub grown : Grows old g.p2p_links
    pub new : All (λ k. IsLinked a k.nei k.link_id k.status) g.entries
    pub links : Each IsLink g.p2p_links
    pub stored : Stored g.p2p_links g.ids

  Stored-set :
      (id : String) (l : P2pLink) (ls : Obj P2pLink) (ids : List String)
      → Stored ls ids
      → Stored (set id l ls) ids
  Stored-set id l ls [] h = tt
  Stored-set id l ls (j ∷ ids) h =
      (rw (is_defined-get-set j id l ls) (ground (arith, h.0)), Stored-set id l ls ids h.1)

  if-new :
      (old : Bool) (a : Endpoint) (ks : List IntLink) (k : IntLink)
      → All (λ k. IsLinked a k.nei k.link_id k.status) ks
      → IsLinked a k.nei k.link_id k.status
      → All (λ k. IsLinked a k.nei k.link_id k.status) (if old then ks else ks ++ k ∷ [])
  if-new true a ks k h l = h
  if-new false a ks k h l = All-append _ ks (k ∷ []) h (l, tt)

  note_link-IsGathered :
      (old : Obj P2pLink) (cs : Obj Connection) (a b : Endpoint) (g : Gathered)
      → IsJoined p r a b
      → IsGathered old a g
      → IsGathered old a (note_link locale_compare r cs a b g)
  unfolding note_link
  note_link-IsGathered old cs a b g j s =
      let id = ip_link_id locale_compare a b in
      let l : IsLinked a b id (status_of r a b) = record { joins = j; name = refl; up = refl } in
      record {
        grown = λ k d. rw (is_defined-get-set k id _ g.p2p_links) (ground (arith, s.grown k d));
        new =
            if-new (is_defined (get id cs)) a g.entries
              (record { link_id = id; nei = b; status = status_of r a b }) s.new l;
        links = Each-set IsLink id _ g.p2p_links l s.links;
        stored =
            All-append _ g.ids (id ∷ []) (Stored-set id _ g.p2p_links g.ids s.stored)
              (rw (is_defined-get-set id id _ g.p2p_links) (ground (arith, eq_iff id id)), tt);
      }

  visit_ip-IsGathered :
      (old : Obj P2pLink) (cs : Obj Connection) (a : Endpoint) (i : RoutedInterface)
      (ips : Obj String) (ip ip_net : String) (g : Gathered)
      → routed_interface a r ≡ some i
      → i.ips ≡ some ips
      → p.drawn a ≡ true
      → Has (ip, ip_net) ips
      → IsGathered old a g
      → IsGathered old a (visit_ip locale_compare p r cs a ip ip_net g)
  unfolding visit_ip
  visit_ip-IsGathered old cs a i ips ip ip_net g f h d has s = elim (Bool-cases (is_loopback ip)) [
    | inl l ↦ rw l s
    | inr l ↦ rw l (elim (Option-cases (routed_neighbour p r a ip ip_net)) [
      | inl n ↦ rw n s
      | inr (b, n) ↦ rw n (
          note_link-IsGathered old cs a b g
            (record {
              interface = i;
              found = f;
              ips = ips;
              has_ips = h;
              ip = ip;
              ip_net = ip_net;
              lists = has;
              no_loopback = l;
              joined = routed_neighbour-IsNeighbour p r a b ip ip_net n;
              from_drawn = d;
            })
            s)
    ])
  ]

  pub visit_ips-IsGathered :
      (old : Obj P2pLink) (cs : Obj Connection) (a : Endpoint) (i : RoutedInterface)
      (ips rest : Obj String) (g : Gathered)
      → routed_interface a r ≡ some i
      → i.ips ≡ some ips
      → p.drawn a ≡ true
      → ((x : String × String) → Has x rest → Has x ips)
      → IsGathered old a g
      → IsGathered old a (visit_ips locale_compare p r cs a rest g)
  unfolding visit_ips
  visit_ips-IsGathered old cs a i ips [] g f h d has s = s
  visit_ips-IsGathered old cs a i ips ((ip, ip_net) ∷ rest) g f h d has s =
      visit_ips-IsGathered old cs a i ips rest _ f h d (λ x k. has x (inr k))
        (visit_ip-IsGathered old cs a i ips ip ip_net g f h d (has (ip, ip_net) (inl refl)) s)
