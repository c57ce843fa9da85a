-- ===== src/Layout/Ends.antt =====
-- A connection as `build_connections` makes it is no "Connections error" of an interface that lists
-- its link.
use mapper.Prelude.{
  String, ◌≡◌, refl, sym, ◌∙◌, ◌≢◌, ◌⊎◌, some, Bool, true, false, ◌&&◌, ◌||◌, Has, inl, inr, arith,
  str_eq, eq_iff, Bool-cases,
}
use mapper.Prelude.Obj.{Obj, get}
use mapper.Turnpoints.{Endpoint}
use mapper.Links.{L2Link, ends_at, same_end}
use mapper.Links.Wipe.{links_of, WellFormed}
use mapper.Connections.Build.{Connection, Page}
use mapper.Connections.Sound.{Sound}
use mapper.Layout.Requests.{neighbour}

and_left : (a b : Bool) → (a && b) ≡ true → a ≡ true
and_left a b h = ground arith

or_right : (a b : Bool) → (a || b) ≡ true → a ≡ false → b ≡ true
or_right a b h k = ground arith

-- An interface at one end of the connection has the other one as its neighbour.
neighbour_at :
    (c : Connection) (e : Endpoint)
    → c.from.dev ≢ c.to.dev
    → (same_end c.from e || same_end c.to e) ≡ true
    → (n : Endpoint) × (neighbour c e.dev e.int ≡ some n) × (e.dev ≢ n.dev)
unfolding neighbour
neighbour_at c e ne h = elim (Bool-cases (same_end c.from e)) [
  | inl p ↦
      let d : c.from.dev ≡ e.dev =
        (eq_iff c.from.dev e.dev).0 (and_left (str_eq c.from.dev e.dev) _ p) in
      (c.to, rw p refl, λ x. ne (d ∙ x))
  | inr p ↦
      let q : same_end c.to e ≡ true = or_right (same_end c.from e) (same_end c.to e) h p in
      let d : c.to.dev ≡ e.dev = (eq_iff c.to.dev e.dev).0 (and_left (str_eq c.to.dev e.dev) _ q) in
      (c.from, rw (p, q) refl, λ x. ne (sym x ∙ sym d))
]

or_swap : (a b : Bool) → (a || b) ≡ true → (b || a) ≡ true
or_swap a b h = ground arith

neighbour_of :
    (c : Connection) (l : L2Link) (e : Endpoint)
    → ((c.from ≡ l.first) × (c.to ≡ l.second)) ⊎ ((c.from ≡ l.second) × (c.to ≡ l.first))
    → ends_at e l ≡ true
    → l.first.dev ≢ l.second.dev
    → (n : Endpoint) × (neighbour c e.dev e.int ≡ some n) × (e.dev ≢ n.dev)
neighbour_of c l e (inl h) k ne = neighbour_at c e (rw (h.0, h.1) ne) (rw (h.0, h.1) k)
neighbour_of c l e (inr h) k ne =
    neighbour_at c e (rw (h.0, h.1) (λ x. ne (sym x)))
      (rw (h.0, h.1) (or_swap (same_end l.first e) (same_end l.second e) k))

-- When every link that an interface lists is there and ends at the interface, and all connections
-- belong to links, `neighbour` finds the other end of every connection that an interface lists, and
-- it is on another device.
pub neighbour_lem :
    (p : Page) (cs : Obj Connection) (e : Endpoint) (id : String) (c : Connection)
    → WellFormed p.net_data
    → Sound p cs
    → Has id (links_of e p.net_data.devs)
    → get id cs ≡ some c
    → (n : Endpoint) × (neighbour c e.dev e.int ≡ some n) × (e.dev ≢ n.dev)
neighbour_lem p cs e id c wf sound has q =
    let (l, s, t) = wf e id has in
    let o = sound id c q in
    let same : l ≡ o.link = cc (s, o.stored) in
    neighbour_of c o.link e o.ends (rw same at t) o.apart
