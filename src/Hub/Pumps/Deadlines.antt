-- ===== src/Hub/Pumps/Deadlines.antt =====
-- `writeWithDeadline` and `pingWithDeadline` of internal/hub/client.go, in the write pump. A call of
-- the connection is a parameter: given how long its context lasts, whether it succeeds, and how long
-- it takes.
use chat_room.Prelude.{
  ℕ, ◌+◌, ◌*◌, ◌≤◌, ◌≡◌, refl, ap, Bool, true, false, List, [], ◌∷◌, ◌++◌, map, length, arith,
  if◌then◌else◌,
}
use chat_room.Message.{Envelope}
use chat_room.Hub.Pumps.{Wake, Output, write, ping, close_conn, write_pump}

-- `writeWait`, in nanoseconds
abbrev pub write_wait : ℕ
write_wait = 10 * 1_000_000_000

abbrev pub Call : Type 0
Call = (timeout : ℕ) → Bool × ℕ

unfoldable pub write_with_deadline : Call → Bool × ℕ
write_with_deadline conn_write = conn_write write_wait

unfoldable pub ping_with_deadline : Call → Bool × ℕ
ping_with_deadline conn_ping = conn_ping write_wait

-- What `select` hands the write pump, with the call that it then makes.
pub data TimedWake : Type 0 where
  cancelled : TimedWake
  frame : Envelope → Call → TimedWake
  shut : TimedWake
  ticked : Call → TimedWake

unfoldable pub wake_of : TimedWake → Wake
unfolding write_with_deadline ping_with_deadline
wake_of cancelled = Wake.cancelled
wake_of (frame e c) = Wake.frame e (write_with_deadline c).0
wake_of shut = Wake.shut
wake_of (ticked c) = Wake.ticked (ping_with_deadline c).0

-- The calls of the connection, in order.
unfoldable pub timed_pump : List TimedWake → List Output
unfolding wake_of
timed_pump ts = write_pump (map wake_of ts)

-- How long the pump stays in its calls.
unfoldable pub busy : List TimedWake → ℕ
unfolding write_with_deadline ping_with_deadline
busy [] = 0
busy (cancelled ∷ ts) = 0
busy (shut ∷ ts) = 0
busy (frame e c ∷ ts) =
    let rest = busy ts in
    let (sent, time) = write_with_deadline c in time + (if sent then rest else 0)
busy (ticked c ∷ ts) =
    let rest = busy ts in
    let (answered, time) = ping_with_deadline c in time + (if answered then rest else 0)

-- A call returns when its context ends, if not before.
abbrev pub Respects : Call → Type 0
Respects c = (timeout : ℕ) → (c timeout).1 ≤ timeout

abbrev pub AllRespect : List TimedWake → Type 0
AllRespect [] = Unit
AllRespect (frame e c ∷ ts) = Respects c × AllRespect ts
AllRespect (ticked c ∷ ts) = Respects c × AllRespect ts
AllRespect (_ ∷ ts) = AllRespect ts

-- The peer does not take the frame: the call ends with its context, in an error.
abbrev pub Stalls : Call → Type 0
Stalls c = (timeout : ℕ) → c timeout ≡ (false, timeout)

-- Frames that are sent and pings that are answered.
abbrev pub AllFine : List TimedWake → Type 0
AllFine [] = Unit
AllFine (frame e c ∷ ts) = ((c write_wait).0 ≡ true) × AllFine ts
AllFine (ticked c ∷ ts) = ((c write_wait).0 ≡ true) × AllFine ts
AllFine (_ ∷ ts) = ⊥

-- The pump is in its calls for at most ten seconds each, whatever the connection does.
pub busy-bounded :
    (ts : List TimedWake) → AllRespect ts → busy ts ≤ write_wait * length (timed_pump ts)
unfolding busy timed_pump wake_of write_with_deadline ping_with_deadline write_pump
busy-bounded [] r = omega arith
busy-bounded (cancelled ∷ ts) r = omega arith
busy-bounded (shut ∷ ts) r = omega arith
busy-bounded (frame e c ∷ ts) (r, rs) = ground (arith, r write_wait, busy-bounded ts rs)
busy-bounded (ticked c ∷ ts) (r, rs) = ground (arith, r write_wait, busy-bounded ts rs)

pump-stalled :
    (before later : List TimedWake) (e : Envelope) (c : Call)
    → AllFine before
    → Stalls c
    → timed_pump (before ++ frame e c ∷ later) ≡ timed_pump before ++ write e ∷ close_conn ∷ []
unfolding timed_pump wake_of write_with_deadline ping_with_deadline write_pump
pump-stalled [] later e c f s = rw (s write_wait) refl
pump-stalled (frame d b ∷ ts) later e c (f, fs) s =
    rw f (ap (◌∷◌ (write d)) (pump-stalled ts later e c fs s))
pump-stalled (ticked b ∷ ts) later e c (f, fs) s =
    rw f (ap (◌∷◌ ping) (pump-stalled ts later e c fs s))
pump-stalled (cancelled ∷ ts) later e c f s = absurd f
pump-stalled (shut ∷ ts) later e c f s = absurd f

busy-stalled :
    (before later : List TimedWake) (e : Envelope) (c : Call)
    → AllFine before
    → Stalls c
    → busy (before ++ frame e c ∷ later) ≡ busy before + write_wait
unfolding busy write_with_deadline ping_with_deadline
busy-stalled [] later e c f s = rw (s write_wait) (omega arith)
busy-stalled (frame d b ∷ ts) later e c (f, fs) s =
    ground (arith, f, busy-stalled ts later e c fs s)
busy-stalled (ticked b ∷ ts) later e c (f, fs) s = ground (arith, f, busy-stalled ts later e c fs s)
busy-stalled (cancelled ∷ ts) later e c f s = absurd f
busy-stalled (shut ∷ ts) later e c f s = absurd f

-- A write pump whose frames were sent and whose pings were answered so far, over a connection whose
-- calls return when their context ends, takes a frame that the peer never accepts: whatever else
-- waits, the pump closes the connection right after this write and makes no other call; and it has
-- been in its calls for at most ten seconds each.
pub timed_pump-stalled :
    (before later : List TimedWake) (e : Envelope) (c : Call)
    → AllFine before
    → AllRespect before
    → Stalls c
    → (timed_pump (before ++ frame e c ∷ later) ≡ timed_pump before ++ write e ∷ close_conn ∷ [])
      × (busy (before ++ frame e c ∷ later) ≤ write_wait * (length (timed_pump before) + 1))
timed_pump-stalled before later e c f r s = (
  pump-stalled before later e c f s,
  omega (arith, busy-stalled before later e c f s, busy-bounded before r),
)
