-- ===== src/Hub/Clients.antt =====
-- internal/hub/client.go: the clients behind the hub's pointers, and their send channels.
use chat_room.Prelude.{
  panic, send_on_closed, ℕ, String, ◌≡◌, refl, fun_ext, ap, ◌∙◌, Bool, true, false, List, [], ◌∷◌,
  arith, if◌then◌else◌, ◌==◌, nat_eq, nat_beq_iff, Chan, make_chan, offer, has_room, try_send,
  close_chan, Outcome, ok, ◌>>=◌, contains, Distinct,
}
use chat_room.Message.{Envelope}

-- A `*Client`.
abbrev pub Ref : Type 0
Ref = ℕ

-- `conn` is left out: the hub never touches it.
pub record Client : Type 0 where
  pub id : String
  pub name : String
  pub send : Chan Envelope
  pub ping_interval : ℕ

-- `NewClient`, less the connection.
unfoldable pub new_client : String → String → ℕ → ℕ → Client
unfolding make_chan
new_client id name send_buffer ping_interval = record {
  id = id;
  name = name;
  send = make_chan send_buffer;
  ping_interval = ping_interval;
}

-- What every `*Client` points to.
abbrev pub Heap : Type 0
Heap = Ref → Client

abbrev pub set_send : Ref → Chan Envelope → Heap → Heap
set_send c ch h d = if c == d then record (h d) { send = ch } else h d

-- `c.enqueue(e)`
unfoldable pub enqueue : Heap → Ref → Envelope → Outcome (Heap × Bool)
unfolding try_send
enqueue h c e = do (ch, sent) ← try_send (h c).send e; ok (set_send c ch h, sent)

-- `close(c.send)`
unfoldable pub close_send : Heap → Ref → Outcome Heap
unfolding close_chan
close_send h c = do ch ← close_chan (h c).send; ok (set_send c ch h)

-- `for c := range members { c.enqueue(e) }`
unfoldable pub enqueue_each : List Ref → Envelope → Heap → Outcome Heap
enqueue_each [] e h = ok h
enqueue_each (c ∷ cs) e h = do (h', _) ← enqueue h c e; enqueue_each cs e h'

-- The heap after each of `cs` was offered `e`.
abbrev pub offered : List Ref → Envelope → Heap → Heap
offered cs e h d = if contains d cs then record (h d) { send = offer e (h d).send } else h d

-- The clients whose send channels are open.
abbrev pub AllOpen : List Ref → Heap → Type 0
AllOpen cs h = (c : Ref) → contains c cs ≡ true → (h c).send.closed ≡ false

pub enqueue_open :
    (h : Heap) (c : Ref) (e : Envelope)
    → (h c).send.closed ≡ false
    → enqueue h c e ≡ ok (set_send c (offer e (h c).send) h, has_room (h c).send)
unfolding enqueue
enqueue_open h c e o = ground arith

pub enqueue_closed :
    (h : Heap) (c : Ref) (e : Envelope)
    → (h c).send.closed ≡ true
    → enqueue h c e ≡ panic send_on_closed
unfolding enqueue
enqueue_closed h c e o = ground arith

-- Sending one frame to a set of open clients never panics, and each gets it as if alone.
pub enqueue_each-offered :
    (cs : List Ref) (e : Envelope) (h : Heap)
    → Distinct cs
    → AllOpen cs h
    → enqueue_each cs e h ≡ ok (offered cs e h)
unfolding enqueue_each
enqueue_each-offered [] e h d o = refl
enqueue_each-offered (c ∷ cs) e h d o =
    rw (enqueue_open h c e (o c (ground (arith, nat_beq_iff c c)))) (
      enqueue_each-offered cs e (set_send c (offer e (h c).send) h) d.1
        (λ k m. ground (arith, o k, nat_beq_iff c k))
      ∙ ap ok (
          fun_ext λ k. ground (
            arith,
            nat_beq_iff c k,
            λ (q : c ≡ k). ap (λ x. contains x cs) q,
            λ (q : c ≡ k). ap h q,
          )))
