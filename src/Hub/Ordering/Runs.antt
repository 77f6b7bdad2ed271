-- ===== src/Hub/Ordering/Runs.antt =====
-- Over a whole run, messages reach a client in the order of the actor's turns, each once.
use chat_room.Prelude.{◌≡◌, refl, sym, ap, ◌∙◌, List, [], ◌∷◌, ◌++◌, ok}
use mathlib.Core.List.{append-nil, append_assoc}
use chat_room.Message.{Envelope}
use chat_room.Hub.Clients.{Ref}
use chat_room.Hub.Invariant.{IsValid}
use chat_room.Hub.Quiet.{chats, chats-append}
use chat_room.Hub.System.{Move, run, AllAllowed}
use chat_room.Hub.Ordering.{got, took, got_each, took_each}
use chat_room.Hub.Ordering.Turns.{step-Moves}
use chat_room.Hub.{Hub}

-- Two stretches of a run, each with what came out, what was left, what was there and what came in.
pub joined :
    (out out' old mid new more more' : List Envelope)
    → out ++ mid ≡ old ++ more
    → out' ++ new ≡ mid ++ more'
    → (out ++ out') ++ new ≡ old ++ (more ++ more')
joined out out' old mid new more more' p q =
    append_assoc out out' new
    ∙ ap (λ x. out ++ x) q
    ∙ sym (append_assoc out mid more')
    ∙ ap (λ x. x ++ more') p
    ∙ append_assoc old more more'

-- From a valid hub, in every interleaving of turns of the actor with read pumps, write pumps and the
-- persister, and for every client: the chat frames that its write pump takes, and behind them those
-- that are left in its buffer at the end, are exactly those that were in its buffer at first and
-- behind them, in the order of the turns, one frame for each message to a room that it is in then,
-- that it does not send itself and for which its buffer has room, and each chat frame that its own
-- read pump enqueues with room; provided that a client registers with an open channel, and that each
-- join and each enqueued frame comes from a client that the hub holds at that time.
pub run-delivers :
    (k : Ref) (ms : List Move) (hub : Hub)
    → IsValid hub
    → AllAllowed ms hub
    → (hub' : Hub) × (run ms hub ≡ ok hub')
      × (chats (took_each k ms hub) ++ chats (hub'.heap k).send.buf
          ≡ chats (hub.heap k).send.buf ++ got_each k ms hub)
unfolding run got_each took_each
run-delivers k [] hub v a = (hub, refl, sym (append-nil (chats (hub.heap k).send.buf)))
run-delivers k (m ∷ ms) hub v (now, later) =
    let (mid, e, w, p) = step-Moves k m hub v now in
    let (last, f, q) = run-delivers k ms mid w (later mid e) in
    (
      last,
      rw e f,
      rw (e, chats-append (took k m hub) (took_each k ms mid))
          (joined (chats (took k m hub)) (chats (took_each k ms mid)) (chats (hub.heap k).send.buf)
            (chats (mid.heap k).send.buf) (chats (last.heap k).send.buf) (got k m hub)
            (got_each k ms mid) p q),
    )
