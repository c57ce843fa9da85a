-- ===== src/Vlinks/Added.antt =====
-- What adding a link does to the data.
use mapper.Prelude.{
  String, ◌≡◌, refl, sym, ◌∙◌, ◌≢◌, ◌⊎◌, inl, inr, none, some, true, ◌&&◌, List, arith, Has,
  Has-append_left, [], ◌∷◌, eq_iff, Bool-cases,
}
use mapper.Prelude.Obj.{get, get-set_self, get-set_ne}
use mapper.Turnpoints.{Endpoint}
use mapper.Links.{L2Link, Data, Devs, without, same_end, ends_at}
use mapper.Links.Wipe.{links_of, WellFormed, without-absent}
use mapper.Offline.{append_once, in_array}
use mapper.Vlinks.{list_link, add_vlink}
use mapper.Vlinks.Listing.{
  has_interface, without-append_once, append_once-Has, Has-append_once, list_link-Lists,
}

-- What one call of `list_link` does for the interface `f`
record IsListed (id : String) (end f : Endpoint) (devs devs' : Devs) : Type 0 where
  others : without id (links_of f devs') ≡ without id (links_of f devs)
  old : (j : String) → Has j (links_of f devs) → Has j (links_of f devs')
  only :
      (j : String)
      → Has j (links_of f devs')
      → Has j (links_of f devs) ⊎ ((j ≡ id) × (same_end end f ≡ true))
  listed : same_end end f ≡ true → has_interface end devs ≡ true → Has id (links_of f devs')
  interfaces : has_interface f devs' ≡ has_interface f devs

append_once-old : (j id : String) (ls : List String) → Has j ls → Has j (append_once ls id)
unfolding append_once
append_once-old j id ls h = elim (Bool-cases (in_array ls id)) [
  | inl t ↦ rw t h
  | inr t ↦ rw t (Has-append_left j ls (id ∷ []) h)
]

list_link-IsListed :
    (id : String) (end f : Endpoint) (devs : Devs) → IsListed id end f devs (list_link id end devs)
list_link-IsListed id end f devs =
    let (lists, ints) = list_link-Lists id end f devs in
    elim (Bool-cases (same_end end f && has_interface end devs)) [
      | inl t ↦
          let e : links_of f (list_link id end devs) ≡ append_once (links_of f devs) id =
            rw t at lists in
          record {
            others = rw e (without-append_once id (links_of f devs));
            old = λ j h. rw e (append_once-old j id (links_of f devs) h);
            only = λ j h. elim (Has-append_once j id (links_of f devs) (rw e at h)) [
              | inl k ↦ inl k
              | inr k ↦ inr (k, ground arith)
            ];
            listed = λ _ _. rw e (append_once-Has id (links_of f devs));
            interfaces = ints;
          }
      | inr t ↦
          let e : links_of f (list_link id end devs) ≡ links_of f devs = rw t at lists in
          record {
            others = rw e refl;
            old = λ j h. rw e h;
            only = λ j h. inl (rw e at h);
            listed = λ p q. absurd (ground arith);
            interfaces = ints;
          }
    ]

-- What it is to add the link `l` under the key `id`
pub record IsAdded (id : String) (l : L2Link) (s s' : Data) : Type 0 where
  pub link : get id s'.l2_links ≡ some l
  pub other_links : (j : String) → j ≢ id → get j s'.l2_links ≡ get j s.l2_links
  pub others : (f : Endpoint) → without id (links_of f s'.devs) ≡ without id (links_of f s.devs)
  pub only :
      (f : Endpoint) (j : String)
      → Has j (links_of f s'.devs)
      → Has j (links_of f s.devs) ⊎ ((j ≡ id) × (ends_at f l ≡ true))
  pub listed :
      (f : Endpoint)
      → ends_at f l ≡ true
      → has_interface f s.devs ≡ true
      → Has id (links_of f s'.devs)

same_end-eq : (e f : Endpoint) → same_end e f ≡ true → e ≡ f
same_end-eq e f h = ground (arith, eq_iff e.dev f.dev, eq_iff e.int f.int)

pub add_vlink-IsAdded : (id : String) (l : L2Link) (s : Data) → IsAdded id l s (add_vlink id l s)
unfolding add_vlink
add_vlink-IsAdded id l s =
    let mid = list_link id l.first s.devs in
    let one = λ (f : Endpoint). list_link-IsListed id l.first f s.devs in
    let two = λ (f : Endpoint). list_link-IsListed id l.second f mid in
    record {
      link = get-set_self id l s.l2_links;
      other_links = λ j ne. get-set_ne j id l s.l2_links (λ e. ne (sym e));
      others = λ f. (two f).others ∙ (one f).others;
      only = λ f j h. elim ((two f).only j h) [
        | inr (e, t) ↦ inr (e, ground arith)
        | inl k ↦ elim ((one f).only j k) [ inr (e, t) ↦ inr (e, ground arith) | inl m ↦ inl m ]
      ];
      listed = λ f t h. elim (Bool-cases (same_end l.first f)) [
        | inl q ↦ (two f).old id ((one f).listed q (rw (same_end-eq l.first f q) h))
        | inr q ↦
            let q' : same_end l.second f ≡ true = ground arith in
            (two f).listed q' ((one l.second).interfaces ∙ rw (same_end-eq l.second f q') h)
      ];
    }

pub IsAdded-WellFormed :
    (id : String) (l : L2Link) (s s' : Data)
    → get id s.l2_links ≡ none
    → WellFormed s
    → IsAdded id l s s'
    → WellFormed s'
IsAdded-WellFormed id l s s' n wf a e j h = elim (a.only e j h) [
  | inr (q, t) ↦ rw q (l, a.link, t)
  | inl k ↦
      let (m, p, q) = wf e j k in
      let ne : j ≢ id = λ x. cc (n, p, x) in (m, a.other_links j ne ∙ p, q)
]

pub unlisted :
    (id : String) (s : Data) (e : Endpoint)
    → get id s.l2_links ≡ none
    → WellFormed s
    → without id (links_of e s.devs) ≡ links_of e s.devs
unlisted id s e n wf =
    without-absent id (links_of e s.devs) (λ h. let (m, p, _) = wf e id h in cc (n, p))
