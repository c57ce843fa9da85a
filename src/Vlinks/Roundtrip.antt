-- ===== src/Vlinks/Roundtrip.antt =====
-- A new virtual link is listed by its interfaces, and taking it away undoes all of it.
use mathlib.Core.Path.{subst}
use mapper.Prelude.{
  ℕ, String, ◌≡◌, sym, ◌∙◌, ◌≢◌, inl, inr, none, some, Bool, true, ◌&&◌, ◌||◌, arith, Has, str_eq,
  eq_iff, Bool-cases, Option-cases, if◌then◌else◌,
}
use mapper.Prelude.Int.{ℤ}
use mapper.Prelude.Obj.{Obj, get}
use mapper.Turnpoints.{Endpoint}
use mapper.Links.{L2Link, Data, ends_at, wipe_l2_link}
use mapper.Links.Wipe.{links_of, WellFormed, wipe_l2_link-IsWiped}
use mapper.Connections.Routed.{above_zero}
use mapper.Vlinks.{vlink_of, sorted_pair, create_vlink, add_vlink}
use mapper.Vlinks.Listing.{has_interface}
use mapper.Vlinks.Added.{add_vlink-IsAdded, IsAdded-WellFormed, unlisted}

-- What the answer does, and what deleting the link does afterwards
pub record IsUndone (left right : Endpoint) (id : String) (s s' : Data) : Type 0 where
  pub well_formed : WellFormed s'
  pub from_left : has_interface left s.devs ≡ true → Has id (links_of left s'.devs)
  pub from_right : has_interface right s.devs ≡ true → Has id (links_of right s'.devs)
  pub links_back : (j : String) → get j (wipe_l2_link id s').l2_links ≡ get j s.l2_links
  pub lists_back : (e : Endpoint) → links_of e (wipe_l2_link id s').devs ≡ links_of e s.devs

ends_at_itself :
    (a b : Endpoint) (n : ℕ)
    → (ends_at a (record { first = a; second = b; status = n }) ≡ true)
      × (ends_at b (record { first = a; second = b; status = n }) ≡ true)
ends_at_itself a b n =
    ground (arith, eq_iff a.dev a.dev, eq_iff a.int a.int, eq_iff b.dev b.dev, eq_iff b.int b.int)

vlink_of-ends :
    (locale_compare : String → String → ℤ) (is_up : Endpoint → Bool) (left right : Endpoint)
    → (ends_at left (vlink_of is_up (sorted_pair locale_compare left right)).1 ≡ true)
      × (ends_at right (vlink_of is_up (sorted_pair locale_compare left right)).1 ≡ true)
unfolding sorted_pair vlink_of
vlink_of-ends locale_compare is_up left right =
    elim (Bool-cases (above_zero (locale_compare left.dev right.dev))) [
      | inl t ↦ rw t (
          let (a, b) = ends_at_itself right left (if is_up right && is_up left then 1 else 2) in
          (b, a))
      | inr t ↦ rw t (ends_at_itself left right (if is_up left && is_up right then 1 else 2))
    ]

create_vlink-some :
    (locale_compare : String → String → ℤ) (is_up : Endpoint → Bool) (left right : Endpoint)
    (links : Obj L2Link) (id : String) (l : L2Link)
    → create_vlink locale_compare is_up left right links ≡ some (id, l)
    → (get id links ≡ none) × (ends_at left l ≡ true) × (ends_at right l ≡ true)
unfolding create_vlink
create_vlink-some locale_compare is_up left right links id l h =
    let (key, link) = vlink_of is_up (sorted_pair locale_compare left right) in
    elim (Bool-cases (str_eq left.int "" || str_eq right.int "")) [
      | inl t ↦ absurd (let x : none ≡ some (id, l) = rw t at h in cc (x))
      | inr t ↦ elim (Option-cases (get key links)) [
        | inr (m, q) ↦ absurd (let x : none ≡ some (id, l) = rw (t, q) at h in cc (x))
        | inl q ↦
            let x : some (key, link) ≡ some (id, l) = rw (t, q) at h in
            let k : key ≡ id = cc (x) in
            let m : link ≡ l = cc (x) in
            let (a, b) = vlink_of-ends locale_compare is_up left right in
            (
              rw k at q,
              subst (λ y. ends_at left y ≡ true) m a,
              subst (λ y. ends_at right y ≡ true) m b,
            )
      ]
    ]

-- When every link that an interface lists is there and ends at the interface, and `vLinksWindow` asks
-- to save a virtual link, then after the answer, if nothing else has changed, every listed link is
-- again there and ends at the interface, and each of the two chosen interfaces, if it is known, lists
-- the new link. Deleting the link afterwards gives the links and the lists that there were before.
pub create_vlink-IsUndone :
    (locale_compare : String → String → ℤ) (is_up : Endpoint → Bool) (left right : Endpoint)
    (s : Data) (id : String) (l : L2Link)
    → create_vlink locale_compare is_up left right s.l2_links ≡ some (id, l)
    → WellFormed s
    → IsUndone left right id s (add_vlink id l s)
create_vlink-IsUndone locale_compare is_up left right s id l h wf =
    let (n, p, q) = create_vlink-some locale_compare is_up left right s.l2_links id l h in
    let a = add_vlink-IsAdded id l s in
    let wf' = IsAdded-WellFormed id l s (add_vlink id l s) n wf a in
    let (w, _) = wipe_l2_link-IsWiped id (add_vlink id l s) wf' in
    record {
      well_formed = wf';
      from_left = a.listed left p;
      from_right = a.listed right q;
      links_back = λ j. elim (Bool-cases (str_eq j id)) [
        | inl t ↦ let e : j ≡ id = ground (arith, eq_iff j id) in rw e (w.no_link ∙ sym n)
        | inr t ↦
            let ne : j ≢ id = λ e. ground (arith, eq_iff j id) in
            w.other_links j ne ∙ a.other_links j ne
      ];
      lists_back = λ e. w.unlisted e ∙ a.others e ∙ unlisted id s e n wf;
    }
