-- ===== src/Bus/Safety.antt =====
-- In every interleaving of publishers, subscribers and cancellations, nothing panics.
use chat_room.Prelude.{
  negsuc, pos, receive_lem, receive, offer_bounded, ℕ, ◌≤◌, ◌<◌, ◌≡◌, refl, ap, true, false, some,
  List, Perm, arith, if◌then◌else◌, nat_eq, string_eq, nat_beq_iff, length, contains, Distinct,
  contains-insert, contains-delete, Distinct-insert, Distinct-delete, Chan, make_chan, close_chan,
  Outcome, ok, clamp, is_positive, ℤ,
}
use chat_room.Message.{Message}
use chat_room.Bus.{
  LocalBus, absent, waiting, leaving, finished, update, new_local, publish, subscribe, deregister,
  finish,
}
use chat_room.Bus.Publishing.{offered, publish-offered}

pub record IsValid (bus : LocalBus) : Type 0 where
  pub present : (i : ℕ) → contains i bus.subscribers ≡ true → bus.stage i ≡ waiting
  pub waits : (i : ℕ) → bus.stage i ≡ waiting → contains i bus.subscribers ≡ true
  pub opened : (i : ℕ) → bus.stage i ≡ waiting → (bus.chan i).closed ≡ false
  pub half_open : (i : ℕ) → bus.stage i ≡ leaving → (bus.chan i).closed ≡ false
  pub fresh : (i : ℕ) → bus.next ≤ i → bus.stage i ≡ absent
  pub distinct : Distinct bus.subscribers
  pub bounded : (i : ℕ) → length (bus.chan i).buf ≤ (bus.chan i).cap
  pub buffered : 0 < bus.buffer

-- The result of one step: a publication in any order, a subscription, the two steps of the goroutine
-- of a cancelled subscription, or a receive by a subscriber.
pub data Step (bus : LocalBus) : Outcome LocalBus → Type 0 where
  publishes :
      (order : List ℕ → List ℕ) (m : Message)
      → Perm (order bus.subscribers) bus.subscribers
      → Step bus (publish order m bus)
  subscribes : Step bus (ok (subscribe bus))
  deregisters : (i : ℕ) → bus.stage i ≡ waiting → Step bus (ok (deregister i bus))
  finishes : (i : ℕ) → bus.stage i ≡ leaving → Step bus (finish i bus)
  receives :
      (i : ℕ) (m : Message) (ch : Chan Message)
      → receive (bus.chan i) ≡ some (m, ch)
      → Step bus (ok (record bus { chan = update bus.chan i ch }))

pub data Reach (buffer : ℤ) : LocalBus → Type 0 where
  start : Reach buffer (new_local buffer)
  later : {bus bus' : LocalBus} → Reach buffer bus → Step bus (ok bus') → Reach buffer bus'

abbrev pub Succeeds : Outcome LocalBus → Type 0
Succeeds o = (bus' : LocalBus) × (o ≡ ok bus') × IsValid bus'

new_local-IsValid : (n : ℤ) → IsValid (new_local n)
unfolding new_local make_chan
new_local-IsValid n = record {
  present = λ i h. cc;
  waits = λ i h. cc;
  opened = λ i h. cc;
  half_open = λ i h. cc;
  fresh = λ i h. refl;
  distinct = tt;
  bounded = λ i. omega arith;
  buffered = positive n;
}
  where
    positive : (n : ℤ) → 0 < (if is_positive n then clamp n else 1)
    positive (pos k) = ground arith
    positive (negsuc k) = omega arith

publish-Succeeds :
    (order : List ℕ → List ℕ) (m : Message) (bus : LocalBus)
    → Perm (order bus.subscribers) bus.subscribers
    → IsValid bus
    → Succeeds (publish order m bus)
publish-Succeeds order m bus p v = (
  record bus { chan = offered bus.subscribers m bus.chan },
  publish-offered order m bus p v.distinct (λ i h. v.opened i (v.present i h)),
  record {
    present = v.present;
    waits = v.waits;
    opened = λ i h. ground (arith, v.opened i h);
    half_open = λ i h. ground (arith, v.half_open i h);
    fresh = v.fresh;
    distinct = v.distinct;
    bounded = λ i. ground (arith, v.bounded i, offer_bounded m (bus.chan i));
    buffered = v.buffered;
  },
)

subscribe-IsValid : (bus : LocalBus) → IsValid bus → IsValid (subscribe bus)
unfolding subscribe make_chan
subscribe-IsValid bus v = record {
  present = λ i h. ground (arith, contains-insert bus.next i bus.subscribers, v.present i);
  waits = λ i h. ground (arith, contains-insert bus.next i bus.subscribers, v.waits i);
  opened = λ i h. ground (arith, v.opened i);
  half_open = λ i h. ground (arith, v.half_open i);
  fresh = λ i h. ground (arith, v.fresh i, nat_beq_iff bus.next i);
  distinct = Distinct-insert bus.next bus.subscribers v.distinct;
  bounded = λ i. ground (arith, v.bounded i);
  buffered = v.buffered;
}

deregister-IsValid :
    (i : ℕ) (bus : LocalBus) → bus.stage i ≡ waiting → IsValid bus → IsValid (deregister i bus)
unfolding deregister
deregister-IsValid i bus w v = record {
  present = λ k h. ground (arith, contains-delete i k bus.subscribers, v.present k);
  waits = λ k h. ground (arith, contains-delete i k bus.subscribers, v.waits k);
  opened = λ k h. ground (arith, v.opened k);
  half_open = λ k h.
      ground (arith, v.half_open k, v.opened k, nat_beq_iff i k, λ (p : i ≡ k). ap bus.stage p);
  fresh = λ k h. ground (arith, v.fresh k, nat_beq_iff i k, λ (p : i ≡ k). ap bus.stage p);
  distinct = Distinct-delete i bus.subscribers v.distinct;
  bounded = v.bounded;
  buffered = v.buffered;
}

finish-Succeeds :
    (i : ℕ) (bus : LocalBus) → bus.stage i ≡ leaving → IsValid bus → Succeeds (finish i bus)
unfolding finish close_chan
finish-Succeeds i bus w v = (
  record bus {
    chan = update bus.chan i (record (bus.chan i) { closed = true });
    stage = update bus.stage i finished;
  },
  rw (v.half_open i w) refl,
  record {
    present = λ k h. ground (arith, v.present k h, nat_beq_iff i k, λ (p : i ≡ k). ap bus.stage p);
    waits = λ k h. ground (arith, v.waits k);
    opened = λ k h. ground (arith, v.opened k);
    half_open = λ k h. ground (arith, v.half_open k);
    fresh = λ k h. ground (arith, v.fresh k h, nat_beq_iff i k, λ (p : i ≡ k). ap bus.stage p);
    distinct = v.distinct;
    bounded = λ k. ground (arith, v.bounded k, nat_beq_iff i k, λ (p : i ≡ k). ap bus.chan p);
    buffered = v.buffered;
  },
)

receive-IsValid :
    (i : ℕ) (m : Message) (ch : Chan Message) (bus : LocalBus)
    → receive (bus.chan i) ≡ some (m, ch)
    → IsValid bus
    → IsValid (record bus { chan = update bus.chan i ch })
receive-IsValid i m ch bus e v =
    let facts = receive_lem (bus.chan i) ch m e in
    record {
      present = v.present;
      waits = v.waits;
      opened = λ k h.
          ground (arith, v.opened k h, facts.2, nat_beq_iff i k, λ (p : i ≡ k). ap bus.chan p);
      half_open = λ k h.
          ground (arith, v.half_open k h, facts.2, nat_beq_iff i k, λ (p : i ≡ k). ap bus.chan p);
      fresh = v.fresh;
      distinct = v.distinct;
      bounded = λ k.
          ground
            (arith, v.bounded k, facts.0, facts.1, nat_beq_iff i k, λ (p : i ≡ k). ap bus.chan p);
      buffered = v.buffered;
    }

-- Every step of a valid bus returns a valid bus.
pub Step-Succeeds : {bus : LocalBus} {o : Outcome LocalBus} → Step bus o → IsValid bus → Succeeds o
Step-Succeeds {bus} (publishes order m p) v = publish-Succeeds order m bus p v
Step-Succeeds {bus} subscribes v = (subscribe bus, refl, subscribe-IsValid bus v)
Step-Succeeds {bus} (deregisters i w) v = (deregister i bus, refl, deregister-IsValid i bus w v)
Step-Succeeds {bus} (finishes i w) v = finish-Succeeds i bus w v
Step-Succeeds {bus} (receives i m ch e) v = (_, refl, receive-IsValid i m ch bus e v)

pub Reach-IsValid : {n : ℤ} {bus : LocalBus} → Reach n bus → IsValid bus
Reach-IsValid {n} start = new_local-IsValid n
Reach-IsValid {bus = last} (later r s) =
    let (bus', e, v) = Step-Succeeds s (Reach-IsValid r) in
    let same : last ≡ bus' = ground arith in rw same v

-- In every state that a new bus reaches, every step returns and leaves a valid bus, be it a
-- publication in any order, a subscription, a receive, or one of the two steps of the goroutine of a
-- cancelled subscription: no message is sent to a closed channel, and none is closed twice.
pub Reach-Succeeds :
    {n : ℤ} {bus : LocalBus} {o : Outcome LocalBus} → Reach n bus → Step bus o → Succeeds o
Reach-Succeeds r s = Step-Succeeds s (Reach-IsValid r)
