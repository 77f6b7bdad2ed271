-- ===== src/Hub/Visits.antt =====
-- The loop of `disconnect`: a client leaves the rooms one after the other.
use chat_room.Prelude.{
  nat_eq, string_eq, Distinct, if◌then◌else◌, Bool-cases, inr, arith, inl, Option-cases, String,
  ◌≡◌, refl, ap, ◌∙◌, true, false, Option, none, some, List, [], ◌∷◌, contains, lookup, ok,
}
use text.Mathlib.TextEquality.{eq_iff}
use chat_room.Hub.Clients.{Ref}
use chat_room.Hub.Rooms.{Room}
use chat_room.Hub.Quiet.{AllQuiet, AllQuiet-refl, AllQuiet-trans}
use chat_room.Hub.Invariant.{Holds}
use chat_room.Hub.Departure.{
  without, Departs, departed, depart-departed, departed-Departs, Departs-Holds,
}
use chat_room.Hub.{Hub, Turn, leave_joined, leave_each}

-- A room after `c` has left it.
abbrev pub bereft : Ref → Option Room → Option Room
bereft c none = none
bereft c (some r) = if contains c r.members then without c r else some r

pub record Leaves (c : Ref) (ns : List String) (hub hub' : Hub) : Type 0 where
  pub clients : hub'.clients ≡ hub.clients
  pub persist : hub'.persist ≡ hub.persist
  pub total : hub'.messages_total ≡ hub.messages_total
  pub rate : hub'.message_rate ≡ hub.message_rate
  pub sampled : hub'.last_sampled_total ≡ hub.last_sampled_total
  pub rooms :
      (j : String)
      → lookup j hub'.rooms
        ≡ (if contains j ns then bereft c (lookup j hub.rooms) else lookup j hub.rooms)
  pub quiet : AllQuiet hub.heap hub'.heap

stays :
    (c : Ref) (name : String) (hub : Hub)
    → bereft c (lookup name hub.rooms) ≡ lookup name hub.rooms
    → Leaves c (name ∷ []) hub hub
stays c name hub e = record {
  clients = refl;
  persist = refl;
  total = refl;
  rate = refl;
  sampled = refl;
  rooms = λ j. ground (arith, eq_iff name j, λ (p : name ≡ j). ap (λ k. lookup k hub.rooms) p);
  quiet = AllQuiet-refl hub.heap;
}

departs :
    (c : Ref) (name : String) (r : Room) (hub hub' : Hub)
    → lookup name hub.rooms ≡ some r
    → contains c r.members ≡ true
    → Departs c name r hub hub'
    → Leaves c (name ∷ []) hub hub'
departs c name r hub hub' e m d = record {
  clients = d.clients;
  persist = d.persist;
  total = d.total;
  rate = d.rate;
  sampled = d.sampled;
  rooms = λ j.
      ground (arith, eq_iff name j, d.rooms j, λ (p : name ≡ j). ap (λ k. lookup k hub.rooms) p);
  quiet = d.quiet;
}

then-Leaves :
    (c : Ref) (name : String) (ns : List String) (a b d : Hub)
    → contains name ns ≡ false
    → Leaves c (name ∷ []) a b
    → Leaves c ns b d
    → Leaves c (name ∷ ns) a d
then-Leaves c name ns a b d new p q = record {
  clients = q.clients ∙ p.clients;
  persist = q.persist ∙ p.persist;
  total = q.total ∙ p.total;
  rate = q.rate ∙ p.rate;
  sampled = q.sampled ∙ p.sampled;
  rooms = λ j.
      ground
        (arith, eq_iff name j, q.rooms j, p.rooms j, λ (w : name ≡ j). ap (λ k. contains k ns) w);
  quiet = AllQuiet-trans p.quiet q.quiet;
}

module _ (t : Turn) (c : Ref) {live : List Ref} where
  leave_joined-Leaves :
      (name : String) (hub : Hub)
      → Holds live hub.rooms hub.heap
      → (hub' : Hub) × (leave_joined t c name hub ≡ ok hub')
        × Leaves c (name ∷ []) hub hub'
        × Holds live hub'.rooms hub'.heap
  unfolding leave_joined
  leave_joined-Leaves name hub h = elim (Option-cases (lookup name hub.rooms)) [
    | inl e ↦ (hub, rw (e, leave_joined) refl, stays c name hub (rw e refl), h)
    | inr (r, e) ↦ elim (Bool-cases (contains c r.members)) [
      | inl m ↦
          let left = departed-Departs t c name r hub in
          (
            departed t c name r hub,
            rw (e, leave_joined, m)
                (depart-departed t c name r hub (h.distinct name r e)
                  (λ k i. h.opened k (h.inside name r k e i))),
            departs c name r hub _ e m left,
            Departs-Holds e left h,
          )
      | inr m ↦ (hub, rw (e, leave_joined, m) refl, stays c name hub (rw (e, m) refl), h)
    ]
  ]

  pub leave_each-Leaves :
      (ns : List String) (hub : Hub)
      → Distinct ns
      → Holds live hub.rooms hub.heap
      → (hub' : Hub) × (leave_each t c ns hub ≡ ok hub')
        × Leaves c ns hub hub'
        × Holds live hub'.rooms hub'.heap
  unfolding leave_each
  leave_each-Leaves [] hub d h = (
    hub,
    refl,
    record {
      clients = refl;
      persist = refl;
      total = refl;
      rate = refl;
      sampled = refl;
      rooms = λ j. refl;
      quiet = AllQuiet-refl hub.heap;
    },
    h,
  )
  leave_each-Leaves (name ∷ ns) hub d h =
      let (mid, e, p, k) = leave_joined-Leaves name hub h in
      let (last, f, q, l) = leave_each-Leaves ns mid d.1 k in
      (last, rw e f, then-Leaves c name ns hub mid last d.0 p q, l)
