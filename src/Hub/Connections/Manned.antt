-- ===== src/Hub/Connections/Manned.antt =====
-- With slow readers: the connections as long as no pump acts for a client that was dropped.
use chat_room.Prelude.{
  String, ◌≡◌, refl, sym, ap, ◌∙◌, true, false, List, [], ◌∷◌, arith, nat_eq, string_eq,
  nat_beq_iff, contains, contains-insert, Outcome, ok, ◌>>=◌, ◌==◌, ◌||◌, ℕ,
}
use chat_room.Hub.Clients.{Ref, new_client}
use chat_room.Hub.Invariant.{IsValid}
use chat_room.Hub.Beside.{writes-Kept, saves-Kept}
use chat_room.Hub.Safety.{registered-IsValid, sample-IsValid}
use chat_room.Hub.Interleaving.{writes-Succeeds, saves-Succeeds}
use chat_room.Hub.Pumps.{Action, unregister, on_frame}
use chat_room.Hub.Connections.{
  Thread, waiting, reading, finished, Server, Deed, connects, reads, hangs_up, proceeds, drains,
  stores, asked, timed, connect, after, proceed, next, perform, perform_each,
}
use chat_room.Hub.Connections.Settled.{stepped, is_reading, set_client-IsValid}
use chat_room.Hub.{Hub, Turn, process}
use chat_room.Hub.Connections.Dropped.{IsHeld, HoldsNow, AllHeld, IsManned, action-fewer}

abbrev pub Keeps : Outcome Server → Type 0
Keeps o = (s' : Server) × (o ≡ ok s') × IsManned s'

abbrev Returns : Ref → Server → Outcome (Hub × Thread) → Type 0
Returns c s o = Keeps (do (hub, th) ← o; ok (stepped c hub th s))

stepped-IsManned :
    (c : Ref) (th : Thread) (s : Server) (hub : Hub)
    → IsManned s
    → IsValid hub
    → ((k : Ref) → contains k hub.clients ≡ true → (c == k || contains k s.hub.clients) ≡ true)
    → (contains c hub.clients ≡ true → is_reading th ≡ true)
    → IsManned (stepped c hub th s)
stepped-IsManned c th s hub i v m o = record {
  hub_valid = v;
  manned = λ k h. ground (
    arith,
    nat_beq_iff c k,
    m k h,
    i.manned k,
    λ (p : c ≡ k). o (ap (λ x. contains x hub.clients) p ∙ h),
  );
}

-- A pump that goes on, or does not run.
same-IsManned :
    (c : Ref) (th : Thread) (s : Server)
    → IsManned s
    → is_reading th ≡ is_reading (s.threads c)
    → IsManned (stepped c s.hub th s)
same-IsManned c th s i e =
    stepped-IsManned c th s s.hub i i.hub_valid (λ k h. ground (arith, h)) (λ h. e ∙ i.manned c h)

idle-Returns :
    (c : Ref) (th : Thread) (s : Server)
    → IsManned s
    → s.threads c ≡ th
    → Returns c s (ok (s.hub, th))
idle-Returns c th s i e = (_, refl, same-IsManned c th s i (rw e refl))

connect-Returns :
    (t : Turn) (c : Ref) (id name : String) (b p : ℕ) (th : Thread) (s : Server)
    → IsManned s
    → s.threads c ≡ th
    → Returns c s (connect t c (new_client id name b p) th s.hub)
unfolding connect process new_client
connect-Returns t c id name b p waiting s i e =
    let n : contains c s.hub.clients ≡ false = ground (arith, i.manned c, ap is_reading e) in
    let v = set_client-IsValid c (new_client id name b p) s.hub i.hub_valid n (omega arith) in
    (
      _,
      refl,
      stepped-IsManned c (reading []) s _ i
          (registered-IsValid c _ (ground (arith, nat_beq_iff c c)) v)
          (λ k h. sym (contains-insert c k s.hub.clients) ∙ h) (λ h. refl),
    )
connect-Returns t c id name b p (reading todo) s i e = idle-Returns c (reading todo) s i e
connect-Returns t c id name b p finished s i e = idle-Returns c finished s i e

proceed-Returns :
    (t : Turn) (c : Ref) (th : Thread) (s : Server)
    → IsManned s
    → s.threads c ≡ th
    → IsHeld c th s.hub
    → Returns c s (proceed t c th s.hub)
unfolding proceed
proceed-Returns t c waiting s i e h = idle-Returns c waiting s i e
proceed-Returns t c finished s i e h = idle-Returns c finished s i e
proceed-Returns t c (reading []) s i e h = idle-Returns c (reading []) s i e
proceed-Returns t c (reading (a ∷ rest)) s i e h =
    let (hub, g, v, fewer, own) = action-fewer t c a rest s.hub i.hub_valid h in
    (
      _,
      rw g refl,
      stepped-IsManned c (after a rest) s hub i v (λ k m. ground (arith, fewer k m)) own,
    )

next-reading : (todo : List Action) (th : Thread) → is_reading (next todo th) ≡ is_reading th
next-reading todo waiting = refl
next-reading todo finished = refl
next-reading todo (reading []) = refl
next-reading todo (reading (a ∷ rest)) = refl

-- What leaves the clients and the pumps alone.
beside-IsManned :
    (s : Server) (hub : Hub)
    → IsManned s
    → IsValid hub
    → hub.clients ≡ s.hub.clients
    → IsManned (record s { hub = hub })
beside-IsManned s hub i v e = record {
  hub_valid = v;
  manned = λ k h. i.manned k (ap (contains k) (sym e) ∙ h);
}

perform-Keeps : (d : Deed) (s : Server) → IsManned s → HoldsNow d s → Keeps (perform d s)
unfolding perform process
perform-Keeps (connects t c id name b p) s i h =
    connect-Returns t c id name b p (s.threads c) s i refl
perform-Keeps (reads c load env) s i h =
    (_, refl, same-IsManned c _ s i (next-reading (on_frame c load env) (s.threads c)))
perform-Keeps (hangs_up c) s i h =
    (_, refl, same-IsManned c _ s i (next-reading (unregister ∷ []) (s.threads c)))
perform-Keeps (proceeds t c) s i h = proceed-Returns t c (s.threads c) s i refl h
perform-Keeps (drains c) s i h =
    let (hub, e, v) = writes-Succeeds c s.hub i.hub_valid in
    (_, rw e refl, beside-IsManned s hub i v (writes-Kept c s.hub hub e).0)
perform-Keeps stores s i h =
    let (hub, e, v) = saves-Succeeds s.hub i.hub_valid in
    (_, rw e refl, beside-IsManned s hub i v (saves-Kept s.hub hub e).0)
perform-Keeps (asked t) s i h = (_, refl, beside-IsManned s s.hub i i.hub_valid refl)
perform-Keeps (timed t) s i h =
    (_, refl, beside-IsManned s _ i (sample-IsValid s.hub i.hub_valid) refl)

-- Connections that do what they do in any order, slow readers among them, do not make the server
-- panic as long as no pump enqueues a frame or submits a join for a client that the hub has dropped;
-- and each client of the hub still has a running read pump.
pub perform_each-Keeps :
    (ds : List Deed) (s : Server) → IsManned s → AllHeld ds s → Keeps (perform_each ds s)
unfolding perform_each
perform_each-Keeps [] s i h = (s, refl, i)
perform_each-Keeps (d ∷ ds) s i (now, later) =
    let (mid, e, j) = perform-Keeps d s i now in
    let (last, f, k) = perform_each-Keeps ds mid j (later mid e) in (last, rw e f, k)
