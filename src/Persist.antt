-- ===== src/Persist.antt =====
-- internal/persist/persist.go: the persister, which moves messages from its queue to the store.
pub mod Draining
pub mod Durable
pub mod Tests
use chat_room.Prelude.{
  ℕ, ℤ, is_positive, clamp, Bool, true, false, Option, none, some, List, [], ◌∷◌, ◌++◌,
  if◌then◌else◌, Chan, make_chan, try_send, receive, Outcome, ok, ◌>>=◌,
}
use chat_room.Message.{Message}

-- `saved` is the messages that `SaveMessage` was called with, oldest first; a failed call is logged
-- and forgotten, so its result does not matter here.
pub record Persister : Type 0 where
  pub queue : Chan Message
  pub saved : List Message
  pub returned : Bool

-- `New`
unfoldable pub new_persister : ℤ → Persister
unfolding make_chan
new_persister depth = record {
  queue = make_chan (if is_positive depth then clamp depth else 1);
  saved = [];
  returned = false;
}

unfoldable pub save : Message → Persister → Persister
save m p = record p { saved = p.saved ++ m ∷ [] }

-- `drain`, over what the queue holds when it starts to look.
unfoldable pub drain_each : List Message → Persister → Persister
unfolding save
drain_each [] p = p
drain_each (m ∷ ms) p = drain_each ms (save m (record p { queue = record p.queue { buf = ms } }))

unfoldable pub drain : Persister → Persister
unfolding drain_each
drain p = drain_each p.queue.buf p

-- What happens at the queue: the hub hands a message over, the loop of `Run` takes one, or it sees
-- the cancelled context, drains and returns. After that it takes nothing.
pub data Step : Type 0 where
  hands : Message → Step
  takes : Step
  stops : Step

unfoldable pub take_one : Option (Message × Chan Message) → Persister → Persister
unfolding save
take_one none p = p
take_one (some (m, q)) p = save m (record p { queue = q })

unfoldable pub step : Step → Persister → Outcome Persister
unfolding try_send take_one
step (hands m) p = do (q, _) ← try_send p.queue m; ok (record p { queue = q })
step takes p = ok (if p.returned then p else take_one (receive p.queue) p)
step stops p = ok (if p.returned then p else record (drain p) { returned = true })

unfoldable pub run : List Step → Persister → Outcome Persister
unfolding step
run [] p = ok p
run (s ∷ ss) p = do p' ← step s p; run ss p'
