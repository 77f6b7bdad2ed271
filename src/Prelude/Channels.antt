-- ===== src/Prelude/Channels.antt =====
-- Go's buffered channels, and the parts of `select` that the program uses.
use mathlib.Core.Path.{◌≡◌}
use Prim.Native.Nat.{ℕ, ◌≤◌}
use native.Mathlib.Omega.{arith}
use mathlib.Core.Bool.{Bool, true, false}
use mathlib.Core.Option.{Option, none, some}
use mathlib.Core.List.{List, [], ◌∷◌, ◌++◌}
use chat_room.Prelude.Tests.{ltb, if◌then◌else◌}
use chat_room.Prelude.Sets.{length, length-append}
use chat_room.Prelude.Outcomes.{Outcome, ok, panic, send_on_closed, close_of_closed}

pub record Chan {ℓ} (A : Type ℓ) : Type ℓ where
  pub cap : ℕ
  pub buf : List A  -- oldest first
  pub closed : Bool

module _ {ℓ} {A : Type ℓ} where
  -- `make(chan A, n)`
  unfoldable pub make_chan : ℕ → Chan A
  make_chan n = record { cap = n; buf = []; closed = false }

  abbrev pub has_room : Chan A → Bool
  has_room ch = ltb (length ch.buf) ch.cap

  -- The channel after a non-blocking send on an open channel.
  abbrev pub offer : A → Chan A → Chan A
  offer a ch = if has_room ch then record ch { buf = ch.buf ++ a ∷ [] } else ch

  -- `select { case ch <- a: true; default: false }`: a send on a closed channel panics, also here.
  unfoldable pub try_send : Chan A → A → Outcome (Chan A × Bool)
  try_send ch a = if ch.closed then panic send_on_closed else ok (offer a ch, has_room ch)

  -- `close(ch)`
  unfoldable pub close_chan : Chan A → Outcome (Chan A)
  close_chan ch = if ch.closed then panic close_of_closed else ok (record ch { closed = true })

  abbrev receive_from : Chan A → List A → Option (A × Chan A)
  receive_from ch [] = none
  receive_from ch (a ∷ rest) = some (a, record ch { buf = rest })

  -- `<-ch` where a buffered value is there; a closed channel still hands out what it holds.
  unfoldable pub receive : Chan A → Option (A × Chan A)
  receive ch = receive_from ch ch.buf

  pub try_send_open :
      (ch : Chan A) (a : A) → ch.closed ≡ false → try_send ch a ≡ ok (offer a ch, has_room ch)
  unfolding try_send
  try_send_open ch a o = ground arith

  pub offer_bounded :
      (a : A) (ch : Chan A) → length ch.buf ≤ ch.cap → length (offer a ch).buf ≤ (offer a ch).cap
  offer_bounded a ch b = ground (arith, length-append ch.buf (a ∷ []))

  receive_from_lem :
      (ch ch' : Chan A) (vs : List A) (a : A)
      → receive_from ch vs ≡ some (a, ch')
      → (vs ≡ a ∷ ch'.buf) × (ch'.cap ≡ ch.cap) × (ch'.closed ≡ ch.closed)
  receive_from_lem ch ch' [] a e = cc
  receive_from_lem ch ch' (b ∷ bs) a e = ground arith

  -- A receive takes the oldest value, and changes nothing else.
  pub receive_lem :
      (ch ch' : Chan A) (a : A)
      → receive ch ≡ some (a, ch')
      → (ch.buf ≡ a ∷ ch'.buf) × (ch'.cap ≡ ch.cap) × (ch'.closed ≡ ch.closed)
  unfolding receive
  receive_lem ch ch' a e = receive_from_lem ch ch' ch.buf a e
