-- ===== src/Links/Examples.antt =====
-- Three switches with two links, and what is left when links are wiped.
use mapper.Prelude.{
  String, ◌≡◌, refl, none, some, true, List, [], ◌∷◌, inl, inr, Has, arith, eq_iff, str_eq,
  Bool-cases,
}
use mapper.Prelude.Obj.{Obj, get, set, delete}
use mapper.Turnpoints.{Endpoint}
use mapper.Links.{
  L2Link, Interface, Data, without, wipe_l2_link, ends_at, wipe_keys, wipe_l2_link_by_dev_int,
}
use mapper.Links.Wipe.{links_in, WellFormed, IsWiped, wipe_l2_link-IsWiped}
use mapper.Links.ByInterface.{IsCleared, wipe_l2_link_by_dev_int-IsCleared}

abbrev port : String → Endpoint
port dev = record { dev = dev; int = "Gi1" }

abbrev holding : List String → Obj Interface
holding ls = ("Gi1", record { l2_links = some ls }) ∷ []

abbrev ab : L2Link
ab = record { first = port "a"; second = port "b"; status = 1 }

abbrev bc : L2Link
bc = record { first = port "b"; second = port "c"; status = 2 }

abbrev net : Data
net = record {
  l2_links = ("a-b", ab) ∷ ("b-c", bc) ∷ [];
  devs =
      ("a", holding ("a-b" ∷ []))
      ∷ ("b", holding ("a-b" ∷ "b-c" ∷ []))
      ∷ ("c", holding ("b-c" ∷ []))
      ∷ [];
}

wiped_run :
    (wipe_l2_link "a-b" net).devs
    ≡ ("a", ("Gi1", record { l2_links = none }) ∷ [])
      ∷ ("b", holding ("b-c" ∷ []))
      ∷ ("c", holding ("b-c" ∷ []))
      ∷ []
unfolding wipe_l2_link get set delete without
wiped_run = refl

cleared_run : (wipe_l2_link_by_dev_int (port "b") net).l2_links ≡ []
unfolding wipe_l2_link_by_dev_int wipe_keys get set delete without
cleared_run = refl

-- The list of the only interface of a device
listed :
    (e : Endpoint) (id dev : String) (ls : List String)
    → str_eq dev e.dev ≡ true
    → Has id (links_in e.int (some (holding ls)))
    → (port dev ≡ e) × Has id ls
unfolding get
listed e id dev ls p h = elim (Bool-cases (str_eq "Gi1" e.int)) [
  | inl q ↦
      let x : dev ≡ e.dev = ground (arith, eq_iff dev e.dev) in
      let y : "Gi1" ≡ e.int = ground (arith, eq_iff "Gi1" e.int) in (rw (x, y), rw q at h)
  | inr q ↦ absurd (rw q at h)
]

net-WellFormed : WellFormed net
unfolding get
net-WellFormed e id h = elim (Bool-cases (str_eq "a" e.dev)) [
  | inl p ↦ ends e id ("a") ("a-b" ∷ []) (listed e id "a" ("a-b" ∷ []) p (rw p at h)) a_ends
  | inr p ↦ elim (Bool-cases (str_eq "b" e.dev)) [
    | inl q ↦
        ends e id "b" ("a-b" ∷ "b-c" ∷ []) (listed e id "b" ("a-b" ∷ "b-c" ∷ []) q (rw (p, q) at h))
          b_ends
    | inr q ↦ elim (Bool-cases (str_eq "c" e.dev)) [
      | inl r ↦
          ends e id "c" ("b-c" ∷ []) (listed e id "c" ("b-c" ∷ []) r (rw (p, q, r) at h)) c_ends
      | inr r ↦ absurd (rw (p, q, r) at h)
    ]
  ]
]
  where
    Ends : String → String → Type 0
    Ends dev id = (l : L2Link) × (get id net.l2_links ≡ some l) × (ends_at (port dev) l ≡ true)

    a_ends : (id : String) → Has id ("a-b" ∷ []) → Ends "a" id
    a_ends id (inl p) = rw p (ab, refl, refl)
    a_ends id (inr p) = absurd p

    b_ends : (id : String) → Has id ("a-b" ∷ "b-c" ∷ []) → Ends "b" id
    b_ends id (inl p) = rw p (ab, refl, refl)
    b_ends id (inr (inl p)) = rw p (bc, refl, refl)
    b_ends id (inr (inr p)) = absurd p

    c_ends : (id : String) → Has id ("b-c" ∷ []) → Ends "c" id
    c_ends id (inl p) = rw p (bc, refl, refl)
    c_ends id (inr p) = absurd p

    ends :
        (e : Endpoint) (id dev : String) (ls : List String)
        → (port dev ≡ e) × Has id ls
        → ((j : String) → Has j ls → Ends dev j)
        → (l : L2Link) × (get id net.l2_links ≡ some l) × (ends_at e l ≡ true)
    ends e id dev ls h f = rw (← h.0) (f id h.1)

wipe_l2_link-IsWiped_example :
    IsWiped "a-b" net (wipe_l2_link "a-b" net) × WellFormed (wipe_l2_link "a-b" net)
wipe_l2_link-IsWiped_example = wipe_l2_link-IsWiped "a-b" net net-WellFormed

wipe_l2_link_by_dev_int-IsCleared_example :
    IsCleared (port "b") net (wipe_l2_link_by_dev_int (port "b") net)
    × WellFormed (wipe_l2_link_by_dev_int (port "b") net)
wipe_l2_link_by_dev_int-IsCleared_example =
    wipe_l2_link_by_dev_int-IsCleared (port "b") net net-WellFormed
