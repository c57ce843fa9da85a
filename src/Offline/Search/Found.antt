-- ===== src/Offline/Search/Found.antt =====
-- What a search for a text finds among devices and interfaces.
use mapper.Prelude.{
  ◌≡◌, refl, ap, ◌∙◌, ◌↔◌, inl, inr, String, some, Bool, List, [], ◌∷◌, ◌++◌, arith, Has,
  Bool-cases,
}
use mapper.Prelude.Obj.{Obj}
use mapper.Offline.{Port, OfflineDevice, HeardOn, OfflineData}
use mapper.Offline.ForIn.{
  append-Grows, same-Grows, for_in, for_in-Grows, for_in-keeps, for_in-total, ForSome, Grows,
}
use mapper.Offline.Rows.{Row, dev_row}
use mapper.Offline.Search.{
  Hits, DevHit, dev_hit, dev_matches, text_matches, int_keys, lldp_keys, cdp_keys, int_hit,
  neigh_hit, port_hits, add_dev, dev_hits, no_hits, search_free,
}
use mapper.Offline.Search.Keys.{
  DeviceMatch, TextMatch, dev_matches-DeviceMatch, text_matches-TextMatch,
}

module _ (test : String → Bool) where
  abbrev devs_of : Hits → List DevHit
  devs_of h = h.devs

  abbrev int_list : Hits → List Row
  int_list h = h.ints

  abbrev both_of : Hits → List DevHit × List Row
  both_of h = (h.devs, h.ints)

  abbrev pub IntFound : String → OfflineDevice → String → Port → Row → Type 0
  IntFound dev d int p x = TextMatch test p.fields int_keys × (x ≡ dev_row dev d int)

  abbrev pub DevFound : String → OfflineDevice → DevHit → Type 0
  DevFound dev d x = DeviceMatch test d × (x ≡ dev_hit dev d)

  add_dev-Grows :
      (dev : String) (d : OfflineDevice) (h : Hits)
      → Grows devs_of h (add_dev test dev d h) (DevFound dev d)
  add_dev-Grows dev d h x =
      let (there, back) = dev_matches-DeviceMatch test d in
      elim (Bool-cases (dev_matches test d)) [
        | inl p ↦ rw p (
            append-Grows h.devs (dev_hit dev d) (DevFound dev d)
              (λ x. (λ t. t.1, λ q. (there p, q))) x)
        | inr p ↦
            rw p (same-Grows h.devs (DevFound dev d) x (λ t. absurd (ground (arith, p, back t.0))))
      ]

  add_dev-ints :
      (dev : String) (d : OfflineDevice) (h : Hits) → (add_dev test dev d h).ints ≡ h.ints
  add_dev-ints dev d h = ground arith

  int_hit-Grows :
      (dev : String) (d : OfflineDevice) (int : String) (p : Port) (h h' : Hits)
      → int_hit test dev d int p h ≡ some h'
      → Grows int_list h h' (IntFound dev d int p)
  unfolding int_hit
  int_hit-Grows dev d int p h h' e x =
      let (there, back) = text_matches-TextMatch test p.fields int_keys in
      elim (Bool-cases (text_matches test p.fields int_keys)) [
        | inl q ↦
            let y = dev_row dev d int in
            let same : record h { ints = h.ints ++ y ∷ [] } ≡ h' = ground (arith, q, e) in
            rw (← same)
              (append-Grows h.ints y (IntFound dev d int p) (λ x. (λ t. t.1, λ r. (there q, r))) x)
        | inr q ↦
            let same : h ≡ h' = ground (arith, q, e) in
            rw (← same) (
              same-Grows h.ints (IntFound dev d int p) x
                (λ t. absurd (ground (arith, q, back t.0))))
      ]

  int_hit-keeps :
      (dev : String) (d : OfflineDevice) (int : String) (p : Port) (h h' : Hits)
      → int_hit test dev d int p h ≡ some h'
      → devs_of h' ≡ devs_of h
  unfolding int_hit
  int_hit-keeps dev d int p h h' e = ground (arith, e)

  ports-keep :
      (keys : List String) (source dev : String) (d : OfflineDevice) (ports : Obj HeardOn)
      (h h' : Hits)
      → for_in (port_hits test keys source dev d) ports h ≡ some h'
      → both_of h' ≡ both_of h
  unfolding port_hits neigh_hit
  ports-keep keys source dev d = for_in-keeps both_of (port_hits test keys source dev d) (λ port p.
      for_in-keeps both_of (neigh_hit test keys source dev d port p)
        (λ idx n r r' e. ground (arith, e)) p.neighbours)

  ports-total :
      (keys : List String) (source dev : String) (d : OfflineDevice) (ports : Obj HeardOn)
      (h : Hits)
      → (h' : Hits) × (for_in (port_hits test keys source dev d) ports h ≡ some h')
  unfolding port_hits neigh_hit
  ports-total keys source dev d = for_in-total (port_hits test keys source dev d) (λ port p.
      for_in-total (neigh_hit test keys source dev d port p) (λ idx n r. (_, refl)) p.neighbours)

  ints-total :
      (dev : String) (d : OfflineDevice) (ints : Obj Port) (h : Hits)
      → (h' : Hits) × (for_in (int_hit test dev d) ints h ≡ some h')
  unfolding int_hit
  ints-total dev d = for_in-total (int_hit test dev d) (λ int p h. (_, refl))

  abbrev pub DevInts : String → OfflineDevice → Row → Type 0
  DevInts dev d = ForSome (IntFound dev d) d.interfaces

  -- The three loops over what a device has
  dev_hits_lem :
      (dev : String) (d : OfflineDevice) (h h' : Hits)
      → dev_hits test dev d h ≡ some h'
      → Grows devs_of h h' (DevFound dev d) × Grows int_list h h' (DevInts dev d)
  unfolding dev_hits
  dev_hits_lem dev d h h' e =
      let start = add_dev test dev d h in
      let (a, p) = ints-total dev d d.interfaces start in
      let (b, q) = ports-total lldp_keys "LLDP" dev d d.lldp_ports a in
      let last : for_in (port_hits test cdp_keys "CDP" dev d) d.cdp_ports b ≡ some h' =
        ground (arith, p, q, e) in
      let kept : both_of h' ≡ both_of a =
        ports-keep cdp_keys "CDP" dev d d.cdp_ports b h' last
        ∙ ports-keep lldp_keys "LLDP" dev d d.lldp_ports a b q in
      let devs : h'.devs ≡ start.devs =
        ap (λ v. v.0) kept
        ∙ for_in-keeps devs_of (int_hit test dev d) (int_hit-keeps dev d) d.interfaces start a p in
      let ints : h'.ints ≡ a.ints = ap (λ v. v.1) kept in
      let grown =
        for_in-Grows int_list (int_hit test dev d) (IntFound dev d) (int_hit-Grows dev d)
          d.interfaces start a p in
      (
        λ x. rw devs (add_dev-Grows dev d h x),
        λ x. rw ints (rw (add_dev-ints dev d h) at (grown x)),
      )

  dev_hits-total :
      (dev : String) (d : OfflineDevice) (h : Hits)
      → (h' : Hits) × (dev_hits test dev d h ≡ some h')
  unfolding dev_hits
  dev_hits-total dev d h =
      let (a, p) = ints-total dev d d.interfaces (add_dev test dev d h) in
      let (b, q) = ports-total lldp_keys "LLDP" dev d d.lldp_ports a in
      let (c, r) = ports-total cdp_keys "CDP" dev d d.cdp_ports b in (c, rw (p, q) r)

  -- A search for a text or a regular expression runs through. It finds exactly the devices with one of
  -- seven fields, or a text of one of two inventories, that is there and matches, and exactly the
  -- interfaces with one of three fields that matches, where a field that is missing counts as the text
  -- "undefined".
  pub search_free_lem :
      (od : OfflineData)
      → (h : Hits) × (search_free test od ≡ some h)
        × ((x : DevHit) → Has x h.devs ↔ ForSome DevFound od.devs x)
        × ((x : Row) → Has x h.ints ↔ ForSome DevInts od.devs x)
  unfolding search_free
  search_free_lem od =
      let (h, p) = for_in-total (dev_hits test) dev_hits-total od.devs no_hits in
      let devs =
        for_in-Grows devs_of (dev_hits test) DevFound
          (λ dev d r r' k. (dev_hits_lem dev d r r' k).0) od.devs no_hits h p in
      let ints =
        for_in-Grows int_list (dev_hits test) DevInts
          (λ dev d r r' k. (dev_hits_lem dev d r r' k).1) od.devs no_hits h p in
      (
        h,
        p,
        λ x. (λ k. elim ((devs x).0 k) [ inl a ↦ absurd a | inr b ↦ b ], λ b. (devs x).1 (inr b)),
        λ x. (λ k. elim ((ints x).0 k) [ inl a ↦ absurd a | inr b ↦ b ], λ b. (ints x).1 (inr b)),
      )
