-- ===== src/Hub/Calls.antt =====
-- `Register`, `Unregister`, `Submit` and `Snapshot` of internal/hub/hub.go: calls of other goroutines
-- that wait for the actor, and give up once it has returned and closed `done`.
pub mod Tests
use chat_room.Prelude.{
  ℕ, zero, suc, ◌+◌, ◌≡◌, refl, sym, ap, ◌∙◌, ◌⊎◌, inl, inr, Bool, true, false, Option, none, some,
  List, [], ◌∷◌, ◌++◌, length, length-append, Outcome, ok, arith,
}
use chat_room.Hub.Clients.{Ref}
use chat_room.Hub.Snapshot.{Stats, snapshot}
use chat_room.Hub.{
  Hub, Turn, Command, Event, registered, unregistered, inbound, queried, sampled, process,
}

pub data Call : Type 0 where
  register unregister : Ref → Call
  submit : Command → Call
  query : Call

abbrev pub event_of : Call → Event
event_of (register c) = registered c
event_of (unregister c) = unregistered c
event_of (submit cmd) = inbound cmd
event_of query = queried

abbrev pub no_stats : Stats
no_stats = record { connections = 0; rooms = []; messages_total = 0; message_rate = 0 }

-- What the call returns after the actor has taken it, and if it gives up. A `Snapshot` may see its
-- context cancelled before the answer.
abbrev pub reply : (cancelled : Bool) → Hub → Call → Option Stats
reply true hub query = some no_stats
reply false hub query = some (snapshot hub)
reply cancelled hub _ = none

abbrev pub given_up : Call → Option Stats
given_up query = some no_stats
given_up _ = none

-- The actor and the calls that wait, with what the others have returned.
pub record Exchange : Type 0 where
  pub hub : Hub
  pub stopped : Bool
  pub waiting : List Call
  pub returned : List (Call × Option Stats)

-- One case of a `select`, of the actor or of a call. Any waiting call may be next.
pub data Select : Exchange → Exchange → Type 0 where
  takes :
      (t : Turn) (cancelled : Bool) (before after : List Call) (c : Call) {hub hub' : Hub}
      {rs : List (Call × Option Stats)}
      → process t (event_of c) hub ≡ ok hub'
      → Select
          (record { hub = hub; stopped = false; waiting = before ++ c ∷ after; returned = rs })
          (record {
            hub = hub';
            stopped = false;
            waiting = before ++ after;
            returned = rs ++ (c, reply cancelled hub' c) ∷ [];
          })
  samples :
      (t : Turn) {hub hub' : Hub} {ws : List Call} {rs : List (Call × Option Stats)}
      → process t sampled hub ≡ ok hub'
      → Select
          (record { hub = hub; stopped = false; waiting = ws; returned = rs })
          (record { hub = hub'; stopped = false; waiting = ws; returned = rs })
  stops :
      {hub : Hub} {ws : List Call} {rs : List (Call × Option Stats)}
      → Select
          (record { hub = hub; stopped = false; waiting = ws; returned = rs })
          (record { hub = hub; stopped = true; waiting = ws; returned = rs })
  gives_up :
      (before after : List Call) (c : Call) {hub : Hub} {rs : List (Call × Option Stats)}
      → Select
          (record { hub = hub; stopped = true; waiting = before ++ c ∷ after; returned = rs })
          (record {
            hub = hub;
            stopped = true;
            waiting = before ++ after;
            returned = rs ++ (c, given_up c) ∷ [];
          })
  -- the context of a `Snapshot`
  cancels :
      (before after : List Call) {hub : Hub} {b : Bool} {rs : List (Call × Option Stats)}
      → Select
          (record { hub = hub; stopped = b; waiting = before ++ query ∷ after; returned = rs })
          (record {
            hub = hub;
            stopped = b;
            waiting = before ++ after;
            returned = rs ++ (query, some no_stats) ∷ [];
          })

-- So many selections, while no new call comes.
pub data Selects : ℕ → Exchange → Exchange → Type 0 where
  done : {x : Exchange} → Selects 0 x x
  next : {n : ℕ} {x y z : Exchange} → Select x y → Selects n y z → Selects (suc n) x z

-- A selection after the actor has stopped.
abbrev Releases : Exchange → Exchange → Type 0
Releases x y =
    (y.stopped ≡ true)
    × (y.hub ≡ x.hub)
    × (1 + length y.waiting ≡ length x.waiting)
    × (length y.returned ≡ 1 + length x.returned)

one_less :
    (before after : List Call) (c : Call)
    → 1 + length (before ++ after) ≡ length (before ++ c ∷ after)
one_less before after c =
    omega (arith, length-append before after, length-append before (c ∷ after))

select-Releases : {x y : Exchange} → Select x y → x.stopped ≡ true → Releases x y
select-Releases (takes t b before after c e) s = absurd cc
select-Releases (samples t e) s = absurd cc
select-Releases stops s = absurd cc
select-Releases (gives_up before after c {rs = rs}) s =
    (refl, refl, one_less before after c, omega (arith, length-append rs ((c, given_up c) ∷ [])))
select-Releases (cancels before after {rs = rs}) s = (
  s,
  refl,
  one_less before after query,
  omega (arith, length-append rs ((query, some no_stats) ∷ [])),
)

offered :
    (hub : Hub) (b : Bool) (ws : List Call) (rs : List (Call × Option Stats))
    → b ≡ true
    → (ws ≡ [])
      ⊎ ((z : Exchange) × Select (record { hub = hub; stopped = b; waiting = ws; returned = rs }) z)
offered hub true [] rs s = inl refl
offered hub true (c ∷ ws) rs s = inr (_, gives_up [] ws c)
offered hub false ws rs s = absurd cc

waits : (x : Exchange) → x.stopped ≡ true → (x.waiting ≡ []) ⊎ ((z : Exchange) × Select x z)
waits x s = offered x.hub x.stopped x.waiting x.returned s

-- Once the actor has stopped, and while no new call comes: each selection lets one waiting call
-- return and leaves the hub alone, so that there are at most as many as calls that wait; and as long
-- as a call waits, there is a next one.
pub Selects-return :
    (n : ℕ) (x y : Exchange)
    → x.stopped ≡ true
    → Selects n x y
    → (n + length y.waiting ≡ length x.waiting)
      × (length y.returned ≡ n + length x.returned)
      × (y.hub ≡ x.hub)
      × ((y.waiting ≡ []) ⊎ ((z : Exchange) × Select y z))
Selects-return zero x y s done = (omega arith, omega arith, refl, waits x s)
Selects-return (suc n) x y s (next {y = mid} q qs) =
    let (s', same, fewer, more) = select-Releases q s in
    let (left, back, same', on) = Selects-return n mid y s' qs in
    (omega (arith, left, fewer), omega (arith, back, more), same' ∙ same, on)
