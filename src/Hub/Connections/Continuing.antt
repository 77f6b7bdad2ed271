-- ===== src/Hub/Connections/Continuing.antt =====
-- As long as no reader is slow, no connection makes the server panic.
use chat_room.Prelude.{
  ◌==◌, if◌then◌else◌, String, ◌≡◌, refl, ap, ◌∙◌, true, List, [], ◌∷◌, arith, nat_eq, string_eq,
  nat_beq_iff, contains, contains-insert, contains-delete, Outcome, ok, ◌>>=◌, ℕ,
}
use chat_room.Message.{Envelope}
use mathlib.Core.Path.{subst}
use chat_room.Hub.Clients.{Ref, new_client}
use chat_room.Hub.Invariant.{IsValid}
use chat_room.Hub.Disconnect.{disconnect-Dropped}
use chat_room.Hub.Beside.{pushes-Kept, writes-Kept, saves-Kept}
use chat_room.Hub.Safety.{registered-IsValid, sample-IsValid}
use chat_room.Hub.Interleaving.{pushes-Succeeds, writes-Succeeds, saves-Succeeds}
use chat_room.Hub.Pumps.{Loaded, Action, push, submit, unregister, on_frame}
use chat_room.Hub.Pumps.Reading.{on_frame-AllBefore}
use chat_room.Hub.System.{step}
use chat_room.Hub.Connections.{
  Thread, waiting, reading, finished, Server, Deed, connects, reads, hangs_up, proceeds, drains,
  stores, asked, timed, connect, move_of, after, proceed, next, perform, perform_each, HasRoom,
  IsFast, AllFast,
}
use chat_room.Hub.{Hub, Turn, process}
use chat_room.Hub.Connections.Settled.{
  is_reading, AllOwn, IsOwn, IsSettled, AllOwn-AllBefore, command-Leaves, set_client-IsValid,
  stepped, stepped-IsSettled, same-IsSettled,
}

abbrev pub Continues : Outcome Server → Type 0
Continues o = (s' : Server) × (o ≡ ok s') × IsSettled s'

-- The same with the end of the turn.
abbrev Finishes : Ref → Server → Outcome (Hub × Thread) → Type 0
Finishes c s o = Continues (do (hub, th) ← o; ok (stepped c hub th s))

idle-Finishes :
    (c : Ref) (th : Thread) (s : Server)
    → IsSettled s
    → s.threads c ≡ th
    → Finishes c s (ok (s.hub, th))
idle-Finishes c th s i e =
    (_, refl, same-IsSettled c th s i (rw e refl) (subst (IsOwn c) e (i.own c)))

connect-Finishes :
    (t : Turn) (c : Ref) (id name : String) (b p : ℕ) (th : Thread) (s : Server)
    → IsSettled s
    → s.threads c ≡ th
    → Finishes c s (connect t c (new_client id name b p) th s.hub)
unfolding connect process new_client
connect-Finishes t c id name b p waiting s i e =
    let n = (i.connected c ∙ ap is_reading e) in
    let v = set_client-IsValid c (new_client id name b p) s.hub i.hub_valid n (omega arith) in
    (
      _,
      refl,
      stepped-IsSettled c (reading []) s _ i
          (registered-IsValid c _ (ground (arith, nat_beq_iff c c)) v)
          (λ k. contains-insert c k s.hub.clients ∙ ground arith) tt,
    )
connect-Finishes t c id name b p (reading todo) s i e = idle-Finishes c (reading todo) s i e
connect-Finishes t c id name b p finished s i e = idle-Finishes c finished s i e

-- One action of a running pump, once its step has returned.
action-Finishes :
    (t : Turn) (c : Ref) (a : Action) (rest : List Action) (s : Server) (hub : Hub)
    → IsSettled s
    → step (move_of t c a) s.hub ≡ ok hub
    → IsValid hub
    → ((k : Ref)
        → contains k hub.clients
          ≡ (if c == k then is_reading (after a rest) else contains k s.hub.clients))
    → IsOwn c (after a rest)
    → Finishes c s (proceed t c (reading (a ∷ rest)) s.hub)
unfolding proceed
action-Finishes t c a rest s hub i g v m o =
    (_, rw g refl, stepped-IsSettled c (after a rest) s hub i v m o)

still_there :
    (c : Ref) (cs ds : List Ref)
    → contains c cs ≡ true
    → ((k : Ref) → contains k ds ≡ contains k cs)
    → (k : Ref) → contains k ds ≡ (if c == k then true else contains k cs)
still_there c cs ds m same k =
    ground (arith, nat_beq_iff c k, same k, m, λ (p : c ≡ k). ap (λ x. contains x cs) p)

proceed-Finishes :
    (t : Turn) (c : Ref) (th : Thread) (s : Server)
    → IsSettled s
    → s.threads c ≡ th
    → HasRoom th s.hub
    → IsOwn c th
    → Finishes c s (proceed t c th s.hub)
unfolding proceed step process
proceed-Finishes t c waiting s i e fast o = idle-Finishes c waiting s i e
proceed-Finishes t c finished s i e fast o = idle-Finishes c finished s i e
proceed-Finishes t c (reading []) s i e fast o = idle-Finishes c (reading []) s i e
proceed-Finishes t c (reading (push f ∷ rest)) s i e fast o =
    let m = (i.connected c ∙ ap is_reading e) in
    let (hub, g, v) = pushes-Succeeds c f s.hub i.hub_valid m in
    action-Finishes t c (push f) rest s hub i g v
      (still_there c s.hub.clients hub.clients m
        (λ k. ap (contains k) (pushes-Kept c f s.hub hub g).0))
      o.1
proceed-Finishes t c (reading (submit cmd ∷ rest)) s i e fast o =
    let m = (i.connected c ∙ ap is_reading e) in
    let (hub, g, v, l) = command-Leaves t cmd s.hub cmd.kind refl i.hub_valid (rw o.0 m) fast in
    action-Finishes t c (submit cmd) rest s hub i g v (still_there c s.hub.clients hub.clients m l)
      o.1
proceed-Finishes t c (reading (unregister ∷ rest)) s i e fast o =
    let m = (i.connected c ∙ ap is_reading e) in
    let (hub, g, d, v) = disconnect-Dropped t c i.hub_valid m in
    action-Finishes t c unregister rest s hub i g v
      (λ k. ap (contains k) d.clients ∙ contains-delete c k s.hub.clients) tt

-- What leaves the clients and the pumps alone.
beside-IsSettled :
    (s : Server) (hub : Hub)
    → IsSettled s
    → IsValid hub
    → hub.clients ≡ s.hub.clients
    → IsSettled (record s { hub = hub })
beside-IsSettled s hub i v e = record {
  hub_valid = v;
  connected = λ k. ap (contains k) e ∙ i.connected k;
  own = i.own;
}

next-IsSettled :
    (c : Ref) (todo : List Action) (th : Thread) (s : Server)
    → IsSettled s
    → s.threads c ≡ th
    → AllOwn c todo
    → IsSettled (stepped c s.hub (next todo th) s)
next-IsSettled c todo waiting s i e o = same-IsSettled c waiting s i (rw e refl) tt
next-IsSettled c todo finished s i e o = same-IsSettled c finished s i (rw e refl) tt
next-IsSettled c todo (reading []) s i e o = same-IsSettled c (reading todo) s i (rw e refl) o
next-IsSettled c todo (reading (a ∷ rest)) s i e o =
    same-IsSettled c (reading (a ∷ rest)) s i (rw e refl) (subst (IsOwn c) e (i.own c))

on_frame-AllOwn :
    (c : Ref) (load : String → Loaded) (env : Envelope) → AllOwn c (on_frame c load env)
on_frame-AllOwn c load env = AllOwn-AllBefore c _ (on_frame-AllBefore c load env env.type refl)

-- One deed from a settled server returns, and leaves it settled, unless a message finds a slow
-- reader.
pub perform-Continues : (d : Deed) (s : Server) → IsSettled s → IsFast d s → Continues (perform d s)
unfolding perform process
perform-Continues (connects t c id name b p) s i fast =
    connect-Finishes t c id name b p (s.threads c) s i refl
perform-Continues (reads c load env) s i fast =
    (_, refl, next-IsSettled c _ (s.threads c) s i refl (on_frame-AllOwn c load env))
perform-Continues (hangs_up c) s i fast =
    (_, refl, next-IsSettled c (unregister ∷ []) (s.threads c) s i refl tt)
perform-Continues (proceeds t c) s i fast =
    proceed-Finishes t c (s.threads c) s i refl fast (i.own c)
perform-Continues (drains c) s i fast =
    let (hub, e, v) = writes-Succeeds c s.hub i.hub_valid in
    (_, rw e refl, beside-IsSettled s hub i v (writes-Kept c s.hub hub e).0)
perform-Continues stores s i fast =
    let (hub, e, v) = saves-Succeeds s.hub i.hub_valid in
    (_, rw e refl, beside-IsSettled s hub i v (saves-Kept s.hub hub e).0)
perform-Continues (asked t) s i fast = (_, refl, beside-IsSettled s s.hub i i.hub_valid refl)
perform-Continues (timed t) s i fast =
    (_, refl, beside-IsSettled s _ i (sample-IsValid s.hub i.hub_valid) refl)

-- Connections that come, read frames of any content, do what these ask for, and end, with the actor,
-- the write pumps and the persister beside them, all in any order: from a server whose hub is valid
-- and has as its clients exactly the connections whose read pumps run, and whose pumps submit
-- commands of their own client only and enqueue no chat frame, nothing panics, and this holds at the
-- end too; provided that no message finds the buffer of another member of its room full. No deed
-- supposes anything of the client: that it is connected when it sends is part of what is shown.
pub perform_each-Continues :
    (ds : List Deed) (s : Server) → IsSettled s → AllFast ds s → Continues (perform_each ds s)
unfolding perform_each
perform_each-Continues [] s i fast = (s, refl, i)
perform_each-Continues (d ∷ ds) s i (now, later) =
    let (mid, e, j) = perform-Continues d s i now in
    let (last, f, k) = perform_each-Continues ds mid j (later mid e) in (last, rw e f, k)
