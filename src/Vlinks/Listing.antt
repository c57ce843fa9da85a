-- ===== src/Vlinks/Listing.antt =====
-- What a new link does to the lists of the interfaces.
use mapper.Prelude.{
  String, ◌≡◌, refl, ◌⊎◌, inl, inr, Option, none, some, Bool, false, ◌&&◌, List, [], ◌∷◌, ◌++◌,
  arith, Has, Has-append, Has-append_right, eq_iff, Bool-cases, Option-cases, if◌then◌else◌,
}
use mapper.Prelude.Obj.{Obj, get, set, is_defined, get-set}
use mapper.Turnpoints.{Endpoint}
use mapper.Links.{Interface, Devs, without, or_none, same_end}
use mapper.Links.Wipe.{links_of}
use mapper.Offline.{append_once, in_array}
use mapper.Offline.MacSearch.{in_array-Has}
use mapper.Vlinks.{list_link}

abbrev pub is_among : String → Option (Obj Interface) → Bool
is_among int none = false
is_among int (some ints) = is_defined (get int ints)

-- Is there such an interface?
abbrev pub has_interface : Endpoint → Devs → Bool
has_interface e devs = is_among e.int (get e.dev devs)

without-append : (id : String) (ls : List String) → without id (ls ++ id ∷ []) ≡ without id ls
unfolding without
without-append id [] = ground (arith, eq_iff id id)
without-append id (l ∷ ls) = rw (without-append id ls)

pub without-append_once :
    (id : String) (ls : List String) → without id (append_once ls id) ≡ without id ls
unfolding append_once
without-append_once id ls = ground (arith, without-append id ls)

pub append_once-Has : (id : String) (ls : List String) → Has id (append_once ls id)
unfolding append_once
append_once-Has id ls = elim (Bool-cases (in_array ls id)) [
  | inl h ↦ rw h (in_array-Has id ls h)
  | inr h ↦ rw h (Has-append_right id ls (id ∷ []) (inl refl))
]

pub Has-append_once :
    (j id : String) (ls : List String) → Has j (append_once ls id) → Has j ls ⊎ (j ≡ id)
unfolding append_once
Has-append_once j id ls h = elim (Bool-cases (in_array ls id)) [
  | inl t ↦ inl (rw t at h)
  | inr t ↦ elim (Has-append j ls (id ∷ []) (rw t at h)) [
    | inl k ↦ inl k
    | inr k ↦ elim k [ inl e ↦ inr e | inr e ↦ absurd e ]
  ]
]

module _ (id : String) (e f : Endpoint) (devs : Devs) where
  abbrev Lists : Type 0
  Lists =
      (links_of f (list_link id e devs) ≡ (
        if same_end e f && has_interface e devs
        then append_once (links_of f devs) id
        else links_of f devs))
      × (has_interface f (list_link id e devs) ≡ has_interface f devs)

  at_interface :
      (ints : Obj Interface) (i : Interface)
      → get e.dev devs ≡ some ints
      → get e.int ints ≡ some i
      → Lists
  unfolding list_link
  at_interface ints i p q =
      let ls = append_once (or_none i.l2_links) id in
      let new : Interface = record i { l2_links = some ls } in
      rw (p, list_link)
        (rw q (
          rw (get-set f.dev e.dev (set e.int new ints) devs) (
            ground (arith, eq_iff e.dev f.dev, eq_iff e.int f.int, get-set f.int e.int new ints),
            ground (arith, eq_iff e.dev f.dev, eq_iff e.int f.int, get-set f.int e.int new ints),
          )))

  pub list_link-Lists : Lists
  unfolding list_link
  list_link-Lists = elim (Option-cases (get e.dev devs)) [
    | inl n ↦ rw (n, list_link) (ground arith, refl)
    | inr (ints, p) ↦ elim (Option-cases (get e.int ints)) [
      | inl n ↦ rw (p, list_link) (rw n (ground arith, refl))
      | inr (i, q) ↦ at_interface ints i p q
    ]
  ]
