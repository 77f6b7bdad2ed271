-- ===== src/Hub/Beside.antt =====
-- The goroutines beside the actor touch channels only.
use chat_room.Prelude.{
  ◌≡◌, ap, ◌∙◌, Bool, Option, none, some, nat_eq, string_eq, lookup, Outcome, ok, panic, ◌>>=◌,
  Chan, receive, contains,
}
use chat_room.Message.{Message, Envelope}
use chat_room.Hub.Clients.{Ref, Heap, enqueue, set_send}
use chat_room.Hub.Shed.{is_member, in_room}
use chat_room.Hub.System.{pushes, writes, saves, step}
use chat_room.Hub.Directory.{Directory, directory}
use chat_room.Hub.{Hub}

-- The clients and the rooms are as before.
abbrev pub Kept : Hub → Hub → Type 0
Kept hub hub' = (hub'.clients ≡ hub.clients) × (hub'.rooms ≡ hub.rooms)

pub pushes-Kept :
    (c : Ref) (e : Envelope) (hub hub' : Hub) → step (pushes c e) hub ≡ ok hub' → Kept hub hub'
unfolding step
pushes-Kept c e hub hub' f = pushed (enqueue hub.heap c e) f
  where
    pushed :
        (o : Outcome (Heap × Bool))
        → (do (h, _) ← o; ok (record hub { heap = h })) ≡ ok hub'
        → (hub'.clients ≡ hub.clients) × (hub'.rooms ≡ hub.rooms)
    pushed (ok (h, b)) f = (cc, cc)
    pushed (panic p) f = absurd cc

pub writes-Kept : (c : Ref) (hub hub' : Hub) → step (writes c) hub ≡ ok hub' → Kept hub hub'
unfolding step
writes-Kept c hub hub' f = taken (receive (hub.heap c).send) f
  where
    taken :
        (o : Option (Envelope × Chan Envelope))
        → (elim o as (λ _. Outcome Hub) [
          | none ↦ ok hub
          | some (_, ch) ↦ ok (record hub { heap = set_send c ch hub.heap })
        ])
          ≡ ok hub'
        → (hub'.clients ≡ hub.clients) × (hub'.rooms ≡ hub.rooms)
    taken none f = (cc, cc)
    taken (some (e, ch)) f = (cc, cc)

pub saves-Kept : (hub hub' : Hub) → step saves hub ≡ ok hub' → Kept hub hub'
unfolding step
saves-Kept hub hub' f = taken (receive hub.persist) f
  where
    taken :
        (o : Option (Message × Chan Message))
        → (elim o as (λ _. Outcome Hub) [
          | none ↦ ok hub
          | some (_, q) ↦ ok (record hub { persist = q })
        ])
          ≡ ok hub'
        → (hub'.clients ≡ hub.clients) × (hub'.rooms ≡ hub.rooms)
    taken none f = (cc, cc)
    taken (some (e, ch)) f = (cc, cc)

pub directory-Kept :
    (hub mid : Hub)
    → mid.clients ≡ hub.clients
    → mid.rooms ≡ hub.rooms
    → directory mid ≡ directory hub
directory-Kept hub mid clients rooms =
    ap {B = Directory}
      (λ cs. record { connected = λ k. contains k cs; member = λ k j. is_member k j mid }) clients
    ∙ ap {B = Directory}
        (λ rs. record {
          connected = λ k. contains k hub.clients;
          member = λ k j. in_room k (lookup j rs);
        })
        rooms
