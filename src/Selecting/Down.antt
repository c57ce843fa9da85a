-- ===== src/Selecting/Down.antt =====
-- What `select_down` adds to the selection.
use mapper.Prelude.{
  ℕ, zero, suc, ◌≡◌, refl, ◌⊎◌, inl, inr, String, some, Bool, true, false, ◌||◌, List, [], ◌∷◌,
  ◌++◌, str_eq, eq_iff, arith, Bool-cases, Option-cases,
}
use mapper.Links.{L2Link}
use mapper.Moving.{member}
use mapper.Moving.Once.{Distinct, Distinct-append, member-append}
use mapper.Selecting.{
  Network, Selection, port_links, far_end, each_int, visit, visit_all, select_down, select_from,
}

-- A connection of one of the device's interfaces leads to the other device.
pub data Edge (net : Network) : String → String → Type 0 where
  edge :
      (dev int id : String) (l : L2Link)
      → member id (port_links net dev int) ≡ true
      → net.link_of id ≡ some l
      → Edge net dev (far_end dev l)

-- Connections lead from the first device to the other.
pub data Leads (net : Network) (root : String) : String → Type 0 where
  start : Leads net root root
  along : {x y : String} → Leads net root x → Edge net x y → Leads net root y

abbrev any_name : String → Bool
any_name x = true

-- Every device stands once.
abbrev pub IsOnce : Selection → Type 0
IsOnce = Distinct any_name

module _ (net : Network) (excl : List String) (root : String) where
  -- Nothing is taken out, nothing comes twice, and what is new is not excluded, and connected.
  pub record Extends (sel r : Selection) : Type 0 where
    pub once : IsOnce sel → IsOnce r
    pub kept : (x : String) → member x sel ≡ true → member x r ≡ true
    pub new :
        (x : String)
        → member x r ≡ true
        → (member x sel ≡ true) ⊎ ((member x excl ≡ false) × Leads net root x)

  Extends-refl : (sel : Selection) → Extends sel sel
  Extends-refl sel = record { once = λ o. o; kept = λ x h. h; new = λ x h. inl h }

  Extends-trans : {a b c : Selection} → Extends a b → Extends b c → Extends a c
  Extends-trans p q = record {
    once = λ o. q.once (p.once o);
    kept = λ x h. q.kept x (p.kept x h);
    new = λ x h. elim (q.new x h) [ inl k ↦ p.new x k | inr k ↦ inr k ];
  }

  Extends-append :
      (sel : Selection) (y : String)
      → member y sel ≡ false
      → member y excl ≡ false
      → Leads net root y
      → Extends sel (sel ++ y ∷ [])
  Extends-append sel y n e l = record {
    once = λ o. Distinct-append any_name sel y o refl n;
    kept = λ x h. ground (arith, member-append x sel y, h);
    new = λ x h. elim (Bool-cases (str_eq y x)) [
      | inl p ↦ let q : y ≡ x = (eq_iff y x).0 p in inr (rw (← q) (e, l))
      | inr p ↦ inl (ground (arith, member-append x sel y, h, p))
    ];
  }

  each_int-Extends :
      (go : String → Selection → Selection)
      → ((int : String) (sel : Selection) → Extends sel (go int sel))
      → (ints : List String) (sel : Selection) → Extends sel (each_int go ints sel)
  unfolding each_int
  each_int-Extends go h [] sel = Extends-refl sel
  each_int-Extends go h (int ∷ ints) sel =
      Extends-trans (h int sel) (each_int-Extends go h ints (go int sel))

  abbrev Goes : (String → String → Selection → Selection) → Type 0
  Goes go = (dev int : String) (sel : Selection) → Leads net root dev → Extends sel (go dev int sel)

  visit-Extends :
      (go : String → String → Selection → Selection) (dev int id : String) (sel : Selection)
      → Goes go
      → Leads net root dev
      → member id (port_links net dev int) ≡ true
      → Extends sel (visit go net excl dev (net.link_of id) sel)
  unfolding visit
  visit-Extends go dev int id sel h l m = elim (Option-cases (net.link_of id)) [
    | inl p ↦ rw p (Extends-refl sel)
    | inr (k, p) ↦
        let nei = far_end dev k in
        let there : Leads net root nei = along l (edge dev int id k m p) in
        elim (Bool-cases (member nei sel || member nei excl)) [
          | inl q ↦ rw (p, q) (Extends-refl sel)
          | inr q ↦
              rw (p, q)
                (Extends-trans
                  (Extends-append sel nei (ground (arith, q)) (ground (arith, q)) there)
                  (each_int-Extends (go nei) (λ i s. h nei i s there) (net.sorted nei)
                    (sel ++ nei ∷ [])))
        ]
  ]

  visit_all-Extends :
      (go : String → String → Selection → Selection) (dev int : String)
      → Goes go
      → Leads net root dev
      → (ids : List String) (sel : Selection)
      → ((id : String) → member id ids ≡ true → member id (port_links net dev int) ≡ true)
      → Extends sel (visit_all go net excl dev ids sel)
  unfolding visit_all member
  visit_all-Extends go dev int h l [] sel sub = Extends-refl sel
  visit_all-Extends go dev int h l (id ∷ ids) sel sub =
      Extends-trans (visit-Extends go dev int id sel h l (sub id (ground (arith, eq_iff id id)))) (
        visit_all-Extends go dev int h l ids (visit go net excl dev (net.link_of id) sel)
          (λ j m. sub j (ground (arith, m))))

  select_down-Extends : (left : ℕ) → Goes (select_down left net excl)
  unfolding select_down
  select_down-Extends zero dev int sel l = Extends-refl sel
  select_down-Extends (suc left) dev int sel l =
      visit_all-Extends (select_down left net excl) dev int (select_down-Extends left) l
        (port_links net dev int) sel (λ id m. m)

  -- After its turn, the neighbour at a connection is selected, unless it is excluded.
  visit-reaches :
      (go : String → String → Selection → Selection) (dev int id : String) (l : L2Link)
      (sel : Selection)
      → Goes go
      → Leads net root dev
      → member id (port_links net dev int) ≡ true
      → net.link_of id ≡ some l
      → member (far_end dev l) excl ≡ false
      → member (far_end dev l) (visit go net excl dev (net.link_of id) sel) ≡ true
  unfolding visit
  visit-reaches go dev int id l sel h near m e free =
      let nei = far_end dev l in
      elim (Bool-cases (member nei sel || member nei excl)) [
        | inl q ↦ rw (e, q) (ground (arith, q, free))
        | inr q ↦
            rw (e, q)
              ((each_int-Extends (go nei) (λ i s. h nei i s (along near (edge dev int id l m e)))
                  (net.sorted nei) (sel ++ nei ∷ [])).kept
                nei (ground (arith, member-append nei sel nei, eq_iff nei nei)))
      ]

  visit_all-reaches :
      (go : String → String → Selection → Selection) (dev int id : String) (l : L2Link)
      → Goes go
      → Leads net root dev
      → net.link_of id ≡ some l
      → member (far_end dev l) excl ≡ false
      → (ids : List String) (sel : Selection)
      → ((j : String) → member j ids ≡ true → member j (port_links net dev int) ≡ true)
      → member id ids ≡ true
      → member (far_end dev l) (visit_all go net excl dev ids sel) ≡ true
  unfolding visit_all member
  visit_all-reaches go dev int id l h near e free [] sel sub m = absurd (cc)
  visit_all-reaches go dev int id l h near e free (j ∷ ids) sel sub m =
      let t = visit go net excl dev (net.link_of j) sel in
      let sub' = λ (k : String) (n : member k ids ≡ true). sub k (ground (arith, n)) in
      elim (Bool-cases (str_eq j id)) [
        | inl p ↦
            let same : j ≡ id = (eq_iff j id).0 p in
            let here : member id (port_links net dev int) ≡ true = sub id m in
            (visit_all-Extends go dev int h near ids t sub').kept (far_end dev l)
              (rw same (visit-reaches go dev int id l sel h near here e free))
        | inr p ↦ visit_all-reaches go dev int id l h near e free ids t sub' (rw p at m)
      ]

-- Clicking an interface keeps the selection, and adds devices to which connections lead from its device,
-- each once and never the device itself. The device at the other end of every connection of the
-- interface is then selected, unless it is the device itself.
pub select_from_lem :
    (net : Network) (dev int : String) (sel : Selection)
    → Extends net (dev ∷ []) dev sel (select_from net dev int sel)
      × ((id : String) (l : L2Link)
          → member id (port_links net dev int) ≡ true
          → net.link_of id ≡ some l
          → member (far_end dev l) (dev ∷ []) ≡ false
          → member (far_end dev l) (select_from net dev int sel) ≡ true)
unfolding select_from select_down
select_from_lem net dev int sel = (
  select_down-Extends net (dev ∷ []) dev 65 dev int sel start,
  λ id l m e free.
      visit_all-reaches net (dev ∷ []) dev (select_down 64 net (dev ∷ [])) dev int id l
        (select_down-Extends net (dev ∷ []) dev 64) start e free (port_links net dev int) sel
        (λ j n. n) m,
)
