-- ===== src/Vlinks/Examples.antt =====
-- A virtual link between two switches that have no links.
use mapper.Prelude.{
  ℕ, String, ◌≡◌, refl, none, some, true, Bool, [], ◌∷◌, inl, inr, Has, str_eq, Bool-cases,
  if◌then◌else◌,
}
use mapper.Prelude.Int.{ℤ, sub_ℕ}
use mapper.Prelude.Obj.{Obj, get, set}
use mapper.Turnpoints.{Endpoint}
use mapper.Links.{L2Link, Interface, Data}
use mapper.Links.Wipe.{links_in, WellFormed}
use mapper.Vlinks.{create_vlink, add_vlink}
use mapper.Vlinks.Roundtrip.{IsUndone, create_vlink-IsUndone}

abbrev rank : String → ℕ
rank s = if str_eq s "a" then 1 else if str_eq s "b" then 2 else 0

abbrev by_rank : String → String → ℤ
by_rank s t = sub_ℕ (rank s) (rank t)

abbrev port : String → Endpoint
port dev = record { dev = dev; int = "Gi1" }

abbrev free : Obj Interface
free = ("Gi1", record { l2_links = none }) ∷ []

abbrev switches : Data
switches = record { l2_links = []; devs = ("a", free) ∷ ("b", free) ∷ [] }

abbrev cable : L2Link
cable = record { first = port "a"; second = port "b"; status = 1 }

abbrev all_up : Endpoint → Bool
all_up e = true

-- The devices are sorted, in whichever order they were selected.
created_run : create_vlink by_rank all_up (port "b") (port "a") [] ≡ some ("a@Gi1#b@Gi1", cable)
unfolding create_vlink get
created_run = refl

-- No interface was chosen on one side.
not_chosen_run : create_vlink by_rank all_up (port "b") (record { dev = "a"; int = "" }) [] ≡ none
unfolding create_vlink
not_chosen_run = refl

abbrev holding : Obj Interface
holding = ("Gi1", record { l2_links = some ("a@Gi1#b@Gi1" ∷ []) }) ∷ []

added_run : (add_vlink "a@Gi1#b@Gi1" cable switches).devs ≡ ("a", holding) ∷ ("b", holding) ∷ []
unfolding add_vlink get set
added_run = refl

none_listed : (int id : String) → Has id (links_in int (some free)) → ⊥
unfolding get
none_listed int id h = elim (Bool-cases (str_eq "Gi1" int)) [
  | inl p ↦ rw p at h
  | inr p ↦ rw p at h
]

switches-WellFormed : WellFormed switches
unfolding get
switches-WellFormed e id h = elim (Bool-cases (str_eq "a" e.dev)) [
  | inl p ↦ absurd (none_listed e.int id (rw p at h))
  | inr p ↦ elim (Bool-cases (str_eq "b" e.dev)) [
    | inl q ↦ absurd (none_listed e.int id (rw (p, q) at h))
    | inr q ↦ absurd (rw (p, q) at h)
  ]
]

create_vlink-IsUndone_example :
    IsUndone (port "b") (port "a") "a@Gi1#b@Gi1" switches (add_vlink "a@Gi1#b@Gi1" cable switches)
create_vlink-IsUndone_example =
    create_vlink-IsUndone by_rank all_up (port "b") (port "a") switches "a@Gi1#b@Gi1" cable
      created_run switches-WellFormed
