-- ===== src/Hub/Shed.antt =====
-- The second loop of `deliverMessage`: each slow client is disconnected.
use chat_room.Prelude.{
  refl, none, some, ap, ◌∙◌, inr, contains-delete, nat_beq_iff, inl, Bool-cases, arith, ◌==◌,
  if◌then◌else◌, Distinct, ◌≡◌, nat_eq, string_eq, Bool, List, Option, String, [], contains, length,
  lookup, ok, ◌∷◌, false, true,
}
use chat_room.Hub.Clients.{Ref}
use chat_room.Hub.Rooms.{Room, remove, is_empty, contains-remove}
use chat_room.Hub.Quiet.{Quiet, Grows, Grows-refl, Grows-trans, Quiet-refl, Quiet-trans}
use chat_room.Hub.Invariant.{IsValid}
use chat_room.Hub.Disconnect.{Dropped, disconnect-Dropped}
use chat_room.Hub.Visits.{bereft}
use chat_room.Hub.{Hub, Turn, disconnect_each}

abbrev pub in_room : Ref → Option Room → Bool
in_room k none = false
in_room k (some r) = contains k r.members

-- Whether `k` is in the room called `j`.
abbrev pub is_member : Ref → String → Hub → Bool
is_member k j hub = in_room k (lookup j hub.rooms)

pub empty-contains : (k : Ref) (r : Room) → is_empty r ≡ true → contains k r.members ≡ false
empty-contains k r e = empty k r.members e
  where
    empty : (k : Ref) (cs : List Ref) → (length cs == 0) ≡ true → contains k cs ≡ false
    empty k [] e = refl
    empty k (c ∷ cs) e = ground arith

pub in_room-bereft :
    (c k : Ref) (o : Option Room) → in_room k (bereft c o) ≡ (if c == k then false else in_room k o)
in_room-bereft c k none = ground arith
in_room-bereft c k (some r) = ground (
  arith,
  contains-remove r c k,
  empty-contains k (remove r c),
  nat_beq_iff c k,
  λ (p : c ≡ k). ap (λ x. contains x r.members) p,
)

-- The clients of `cs` are out of everything, and nobody else is.
pub record Sheds (cs : List Ref) (hub hub' : Hub) : Type 0 where
  pub persist : hub'.persist ≡ hub.persist
  pub total : hub'.messages_total ≡ hub.messages_total
  pub rate : hub'.message_rate ≡ hub.message_rate
  pub sampled : hub'.last_sampled_total ≡ hub.last_sampled_total
  pub clients :
      (k : Ref)
      → contains k hub'.clients ≡ (if contains k cs then false else contains k hub.clients)
  pub rooms :
      (k : Ref) (j : String)
      → is_member k j hub' ≡ (if contains k cs then false else is_member k j hub)
  pub queues : (k : Ref) → Grows (hub.heap k).send.buf (hub'.heap k).send.buf
  pub gone : (k : Ref) → contains k cs ≡ true → (hub'.heap k).send.closed ≡ true
  pub others : (k : Ref) → contains k cs ≡ false → Quiet (hub.heap k) (hub'.heap k)

Sheds-nil : (hub : Hub) → Sheds [] hub hub
Sheds-nil hub = record {
  persist = refl;
  total = refl;
  rate = refl;
  sampled = refl;
  clients = λ k. refl;
  rooms = λ k j. refl;
  queues = λ k. Grows-refl _;
  gone = λ k m. cc;
  others = λ k m. Quiet-refl (hub.heap k);
}

module _ {c : Ref} {cs : List Ref} {a b d : Hub} (new : contains c cs ≡ false) (p : Dropped c a b)
    (q : Sheds cs b d) where
  still_gone : (k : Ref) → contains k (c ∷ cs) ≡ true → (d.heap k).send.closed ≡ true
  still_gone k m = elim (Bool-cases (contains k cs)) [
    | inl later ↦ q.gone k later
    | inr first ↦
        let e : c ≡ k = ground (arith, nat_beq_iff c k) in
        (q.others k first).closed ∙ (rw (← e) p.gone)
  ]

  grown : (k : Ref) → Grows (a.heap k).send.buf (b.heap k).send.buf
  grown k = elim (Bool-cases (c == k)) [
    | inl e ↦ rw (← (nat_beq_iff c k).0 e) p.queue
    | inr ne ↦ (p.others k ne).grows
  ]

  Sheds-cons : Sheds (c ∷ cs) a d
  Sheds-cons = record {
    persist = q.persist ∙ p.persist;
    total = q.total ∙ p.total;
    rate = q.rate ∙ p.rate;
    sampled = q.sampled ∙ p.sampled;
    clients = λ k. ground (arith, q.clients k, p.clients, contains-delete c k a.clients);
    rooms = λ k j. ground (arith, q.rooms k j, p.rooms j, in_room-bereft c k (lookup j a.rooms));
    queues = λ k. Grows-trans _ _ _ (grown k) (q.queues k);
    gone = still_gone;
    others = λ k m. Quiet-trans (p.others k (ground arith)) (q.others k (ground arith));
  }

pub disconnect_each-Sheds :
    (t : Turn) (cs : List Ref) {hub : Hub}
    → IsValid hub
    → Distinct cs
    → ((k : Ref) → contains k cs ≡ true → contains k hub.clients ≡ true)
    → (hub' : Hub) × (disconnect_each t cs hub ≡ ok hub') × Sheds cs hub hub' × IsValid hub'
unfolding disconnect_each
disconnect_each-Sheds t [] {hub} v d m = (hub, refl, Sheds-nil hub, v)
disconnect_each-Sheds t (c ∷ cs) {hub} v d m =
    let (mid, e, p, w) = disconnect-Dropped t c v (m c (ground (arith, nat_beq_iff c c))) in
    let (last, f, q, u) = disconnect_each-Sheds t cs w d.1 (λ k i. ground (
      arith,
      p.clients,
      contains-delete c k hub.clients,
      m k,
      nat_beq_iff c k,
      d.0,
      λ (x : c ≡ k). ap (λ y. contains y cs) x,
    )) in
    (last, rw e f, Sheds-cons d.0 p q, u)
