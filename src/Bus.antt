-- ===== src/Bus.antt =====
-- internal/bus/bus.go: the in-memory message bus.
pub mod Publishing
pub mod Safety
pub mod Tests
use chat_room.Prelude.{
  ℕ, ◌+◌, suc, ℤ, is_positive, clamp, Bool, true, false, List, [], ◌∷◌, Perm, if◌then◌else◌, ◌==◌,
  nat_eq, insert, delete, Chan, make_chan, try_send, close_chan, Outcome, ok, ◌>>=◌,
}
use chat_room.Message.{Message}

-- A subscriber's channel, and where the goroutine of its subscription stands: it waits for the
-- context, it has taken the channel off the set, or it has closed it.
pub data Stage : Type 0 where
  absent waiting leaving finished : Stage

-- Channels are numbered in the order of the subscriptions.
pub record LocalBus : Type 0 where
  pub buffer : ℕ
  pub subscribers : List ℕ
  pub chan : ℕ → Chan Message
  pub stage : ℕ → Stage
  pub next : ℕ

abbrev pub update {ℓ} : {A : Type ℓ} → (ℕ → A) → ℕ → A → ℕ → A
update f i a j = if i == j then a else f j

-- `NewLocal`
unfoldable pub new_local : ℤ → LocalBus
unfolding make_chan
new_local buffer = record {
  buffer = if is_positive buffer then clamp buffer else 1;
  subscribers = [];
  chan = λ _. make_chan 0;
  stage = λ _. absent;
  next = 0;
}

-- The loop of `Publish`, over the subscribers in the order in which `range` visits them.
unfoldable pub publish_each : List ℕ → Message → (ℕ → Chan Message) → Outcome (ℕ → Chan Message)
unfolding try_send
publish_each [] m f = ok f
publish_each (i ∷ is) m f = do (ch, _) ← try_send (f i) m; publish_each is m (update f i ch)

unfoldable pub publish : (List ℕ → List ℕ) → Message → LocalBus → Outcome LocalBus
publish order m bus = do
  chan ← publish_each (order bus.subscribers) m bus.chan
  ok (record bus { chan = chan })

-- `Subscribe`: the new channel is `next`.
unfoldable pub subscribe : LocalBus → LocalBus
subscribe bus = record bus {
  subscribers = insert bus.next bus.subscribers;
  chan = update bus.chan bus.next (make_chan bus.buffer);
  stage = update bus.stage bus.next waiting;
  next = suc bus.next;
}

-- The goroutine of a subscription after `<-ctx.Done()`: first the set, under the lock, then the
-- channel, outside it.
unfoldable pub deregister : ℕ → LocalBus → LocalBus
deregister i bus = record bus {
  subscribers = delete i bus.subscribers;
  stage = update bus.stage i leaving;
}

unfoldable pub finish : ℕ → LocalBus → Outcome LocalBus
finish i bus = do
  ch ← close_chan (bus.chan i)
  ok (record bus { chan = update bus.chan i ch; stage = update bus.stage i finished })
