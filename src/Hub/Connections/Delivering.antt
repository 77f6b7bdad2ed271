-- ===== src/Hub/Connections/Delivering.antt =====
-- As long as no reader is slow, a connection gets every message of its rooms.
use chat_room.Prelude.{
  ◌==◌, String, ◌≡◌, refl, sym, ap, ◌∙◌, Bool-cases, true, List, [], ◌∷◌, ◌++◌, arith, nat_eq,
  string_eq, nat_beq_iff, lookup, Option-cases, Outcome, ok, ◌>>=◌, ℕ, inl, inr,
}
use mathlib.Core.Path.{subst}
use chat_room.Message.{FrameType, Envelope, type_message}
use chat_room.Hub.Clients.{new_client, Ref}
use chat_room.Hub.Quiet.{chats, chats-append}
use chat_room.Hub.Pumps.{Action, push, submit, unregister, on_frame}
use chat_room.Hub.System.{Move, IsAllowed, acts, pushes, writes, saves, step}
use chat_room.Hub.Ordering.{got, took}
use chat_room.Hub.Ordering.Runs.{joined}
use chat_room.Hub.Ordering.Turns.{step-Moves, none_more}
use chat_room.Hub.Connections.{
  Thread, waiting, reading, finished, Server, Deed, connects, reads, hangs_up, proceeds, drains,
  stores, asked, timed, connect, after, proceed, next, perform, perform_each, HasRoom, IsFast,
  AllFast, set_thread,
}
use chat_room.Hub.{Hub, Turn, Command, inbound, unregistered, queried, sampled, process}
use chat_room.Hub.Connections.Due.{due, brings, drained, brings_each, drained_each, has_started}
use chat_room.Hub.Connections.Settled.{IsSettled, IsOwn, stepped, is_reading}
use chat_room.Hub.Connections.Continuing.{Continues, perform-Continues}

-- The deed returns, the connection of `k` stays accepted, and the chat frames add up.
abbrev Delivers : Ref → List Envelope → List Envelope → Server → Outcome Server → Type 0
Delivers k out more s o =
    (s' : Server) × (o ≡ ok s')
    × (has_started (s'.threads k) ≡ true)
    × (chats out ++ chats (s'.hub.heap k).send.buf ≡ chats (s.hub.heap k).send.buf ++ more)

started_set :
    (k c : Ref) (th : Thread) (threads : Ref → Thread)
    → has_started (threads k) ≡ true
    → (c ≡ k → has_started th ≡ true)
    → has_started (set_thread c th threads k) ≡ true
started_set k c th threads g h = elim (Bool-cases (c == k)) [
  | inl same ↦ rw same (h (ground (arith, nat_beq_iff c k, same)))
  | inr other ↦ rw other g
]

started_same :
    (k c : Ref) (th : Thread) (s : Server)
    → has_started (s.threads k) ≡ true
    → s.threads c ≡ th
    → c ≡ k
    → has_started th ≡ true
started_same k c th s g e p = sym (ap has_started e) ∙ ap (λ x. has_started (s.threads x)) p ∙ g

after-started : (a : Action) (rest : List Action) → has_started (after a rest) ≡ true
after-started (push e) rest = refl
after-started (submit cmd) rest = refl
after-started unregister rest = refl

-- With room in the buffers, what a message puts into the buffer of `k` is the frame that is due.
got-due :
    (k : Ref) (t : Turn) (cmd : Command) (rest : List Action) (hub : Hub) (kind : FrameType)
    → cmd.kind ≡ kind
    → HasRoom (reading (submit cmd ∷ rest)) hub
    → got k (acts t (inbound cmd)) hub ≡ due k t (reading (submit cmd ∷ rest)) hub
unfolding got
got-due k t cmd rest hub type_message e fast = elim (Option-cases (lookup cmd.room hub.rooms)) [
  | inl n ↦ rw (e, n) refl
  | inr (r, n) ↦ rw (e, n) (ground (arith, fast r k e n))
]
got-due k t cmd rest hub other e fast = rw e refl

-- A deed that leaves the hub alone.
idle-Delivers :
    (k c : Ref) (th : Thread) (s : Server)
    → has_started (s.threads k) ≡ true
    → (c ≡ k → has_started th ≡ true)
    → Delivers k [] [] s (ok (stepped c s.hub th s))
idle-Delivers k c th s g h = (_, refl, started_set k c th s.threads g h, none_more k s.hub)

-- A new connection is not the one of `k`, which is there already.
connect-Delivers :
    (k : Ref) (t : Turn) (c : Ref) (id name : String) (b p : ℕ) (th : Thread) (s : Server)
    → has_started (s.threads k) ≡ true
    → s.threads c ≡ th
    → Delivers k [] [] s
        (do (hub, th') ← connect t c (new_client id name b p) th s.hub; ok (stepped c hub th' s))
unfolding connect process
connect-Delivers k t c id name b p waiting s g e = (
  _,
  refl,
  started_set k c (reading []) s.threads g (λ q. refl),
  (elim (Bool-cases (c == k)) [
    | inl same ↦
        absurd
          (ground (arith, started_same k c waiting s g e (ground (arith, nat_beq_iff c k, same))))
    | inr other ↦ rw other (none_more k s.hub)
  ]),
)
connect-Delivers k t c id name b p (reading todo) s g e =
    idle-Delivers k c (reading todo) s g (started_same k c (reading todo) s g e)
connect-Delivers k t c id name b p finished s g e =
    idle-Delivers k c finished s g (started_same k c finished s g e)

proceed-Delivers :
    (k : Ref) (t : Turn) (c : Ref) (th : Thread) (s : Server)
    → IsSettled s
    → has_started (s.threads k) ≡ true
    → s.threads c ≡ th
    → HasRoom th s.hub
    → IsOwn c th
    → Delivers k []
        (due k t th s.hub)
        s
        (do (hub, th') ← proceed t c th s.hub; ok (stepped c hub th' s))
unfolding proceed got took
proceed-Delivers k t c waiting s i g e fast o =
    idle-Delivers k c waiting s g (started_same k c waiting s g e)
proceed-Delivers k t c finished s i g e fast o =
    idle-Delivers k c finished s g (started_same k c finished s g e)
proceed-Delivers k t c (reading []) s i g e fast o =
    idle-Delivers k c (reading []) s g (started_same k c (reading []) s g e)
proceed-Delivers k t c (reading (push f ∷ rest)) s i g e fast o =
    let (mid, h, w, p) =
      step-Moves k (pushes c f) s.hub i.hub_valid (i.connected c ∙ ap is_reading e) in
    (
      stepped c mid (reading rest) s,
      rw h refl,
      started_set k c (reading rest) s.threads g (λ q. refl),
      p ∙ ap (λ x. chats (s.hub.heap k).send.buf ++ x) (ground (arith, o.0)),
    )
proceed-Delivers k t c (reading (submit cmd ∷ rest)) s i g e fast o =
    let m = (i.connected c ∙ ap is_reading e) in
    let (mid, h, w, p) = step-Moves k (acts t (inbound cmd)) s.hub i.hub_valid (λ j. rw o.0 m) in
    (
      stepped c mid (reading rest) s,
      rw h refl,
      started_set k c (reading rest) s.threads g (λ q. refl),
      p
          ∙ ap (λ x. chats (s.hub.heap k).send.buf ++ x)
              (got-due k t cmd rest s.hub cmd.kind refl fast),
    )
proceed-Delivers k t c (reading (unregister ∷ rest)) s i g e fast o =
    let (mid, h, w, p) = step-Moves k (acts t (unregistered c)) s.hub i.hub_valid tt in
    (stepped c mid finished s, rw h refl, started_set k c finished s.threads g (λ q. refl), p)

-- A step of a goroutine beside the connections.
beside-Delivers :
    (k : Ref) (m : Move) (s : Server)
    → IsSettled s
    → IsAllowed m s.hub
    → got k m s.hub ≡ []
    → has_started (s.threads k) ≡ true
    → Delivers k (took k m s.hub) [] s (do hub ← step m s.hub; ok (record s { hub = hub }))
beside-Delivers k m s i a none_got g =
    let (mid, h, w, p) = step-Moves k m s.hub i.hub_valid a in
    (
      record s { hub = mid },
      rw h refl,
      g,
      p ∙ ap (λ x. chats (s.hub.heap k).send.buf ++ x) none_got,
    )

next-started : (todo : List Action) (th : Thread) → has_started th ≡ has_started (next todo th)
next-started todo waiting = refl
next-started todo finished = refl
next-started todo (reading []) = refl
next-started todo (reading (a ∷ rest)) = refl

perform-Delivers :
    (k : Ref) (d : Deed) (s : Server)
    → IsSettled s
    → IsFast d s
    → has_started (s.threads k) ≡ true
    → Delivers k (drained k d s) (brings k d s) s (perform d s)
unfolding perform drained brings step process got took
perform-Delivers k (connects t c id name b p) s i fast g =
    connect-Delivers k t c id name b p (s.threads c) s g refl
perform-Delivers k (reads c load env) s i fast g =
    idle-Delivers k c (next (on_frame c load env) (s.threads c)) s g (λ q.
      sym (next-started (on_frame c load env) (s.threads c))
      ∙ started_same k c (s.threads c) s g refl q)
perform-Delivers k (hangs_up c) s i fast g =
    idle-Delivers k c (next (unregister ∷ []) (s.threads c)) s g (λ q.
      sym (next-started (unregister ∷ []) (s.threads c))
      ∙ started_same k c (s.threads c) s g refl q)
perform-Delivers k (proceeds t c) s i fast g =
    proceed-Delivers k t c (s.threads c) s i g refl fast (i.own c)
perform-Delivers k (drains c) s i fast g = beside-Delivers k (writes c) s i tt refl g
perform-Delivers k stores s i fast g = beside-Delivers k saves s i tt refl g
perform-Delivers k (asked t) s i fast g = beside-Delivers k (acts t queried) s i tt refl g
perform-Delivers k (timed t) s i fast g = beside-Delivers k (acts t sampled) s i tt refl g

pub known-IsSettled : (o : Outcome Server) (s' : Server) → Continues o → o ≡ ok s' → IsSettled s'
known-IsSettled o s' (mid, e, i) f = subst IsSettled (ok_injective (sym e ∙ f)) i
  where
    ok_injective : ok mid ≡ ok s' → mid ≡ s'
    ok_injective g = cc

-- Connections that come, read frames of any content, do what these ask for, and end, with the actor,
-- the write pumps and the persister beside them, all in any order, from a server whose hub is valid
-- and has as its clients exactly the connections whose read pumps run, and whose pumps submit
-- commands of their own client only and enqueue no chat frame: for every connection that has been
-- accepted, the chat frames that its write pump takes, and behind them those that are left in its
-- buffer at the end, are exactly those that were in its buffer at first and behind them, in the order
-- in which the actor gets the messages, one frame for each message that another client sends to a
-- room that it is in then; provided that no message finds the buffer of another member of its room
-- full.
pub perform_each-Delivers :
    (k : Ref) (ds : List Deed) (s : Server)
    → IsSettled s
    → AllFast ds s
    → has_started (s.threads k) ≡ true
    → (s' : Server) × (perform_each ds s ≡ ok s')
      × (chats (drained_each k ds s) ++ chats (s'.hub.heap k).send.buf
          ≡ chats (s.hub.heap k).send.buf ++ brings_each k ds s)
unfolding perform_each drained_each brings_each
perform_each-Delivers k [] s i fast g = (s, refl, none_more k s.hub)
perform_each-Delivers k (d ∷ ds) s i (now, later) g =
    let (mid, e, h, p) = perform-Delivers k d s i now g in
    let (last, f, q) =
      perform_each-Delivers k ds mid (known-IsSettled _ mid (perform-Continues d s i now) e)
        (later mid e) h in
    (
      last,
      rw e f,
      rw (e, chats-append (drained k d s) (drained_each k ds mid))
          (joined (chats (drained k d s)) (chats (drained_each k ds mid))
            (chats (s.hub.heap k).send.buf) (chats (mid.hub.heap k).send.buf)
            (chats (last.hub.heap k).send.buf) (brings k d s) (brings_each k ds mid) p q),
    )
