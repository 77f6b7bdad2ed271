-- ===== src/Persist/Durable.antt =====
-- The persister over the SQLite store of internal/store/sqlite.go: what the queue has accepted comes
-- back as history.
use chat_room.Prelude.{
  ℕ, ℤ, pos, String, ◌≡◌, refl, sym, ap, ◌∙◌, inl, inr, Bool, true, false, Option, none, some, List,
  [], ◌∷◌, ◌++◌, map, arith, last, Option-cases, make_chan, ok, nat_eq,
}
use mathlib.Core.Path.{subst}
use chat_room.Message.{Message, Time}
use chat_room.Clock.Range.{IsNear}
use chat_room.Hub.Pumps.{history, loaded}
use chat_room.Store.{MessageStore}
use chat_room.Store.Table.{Engine, IsSql}
use chat_room.Store.Log.{time_given, AreStamped, Saves, no_save, save, IsRising, messages_in}
use chat_room.Store.Roundtrip.{later, sqlite-AreStamped, sqlite-recent_by_room-saved}
use chat_room.Store.Sqlite
use chat_room.Persist.{Persister, new_persister, Step, stops, run}
use chat_room.Persist.Draining.{AllRunning, accepted, run-stops}

-- `SaveMessage` at each message that the persister saves, with the clock at that time; and whether no
-- call failed, which is only logged.
unfoldable pub save_each : {D : Type 0} → MessageStore D → List (Time × Message) → D → D × Bool
save_each store [] d = (d, true)
save_each store ((now, m) ∷ gs) d =
    let (d', r) = store.save_message now m d in
    let (d'', rest) = save_each store gs d' in (d'', elim r [ none ↦ false | some _ ↦ rest ])

abbrev pub messages : List (Time × Message) → List Message
messages gs = map (λ g. g.1) gs

save_each-Saves :
    {D : Type 0} (store : MessageStore D) (gs : List (Time × Message)) (d : D)
    → (save_each store gs d).1 ≡ true
    → (ms : List Message) × Saves store d gs ms (save_each store gs d).0
unfolding save_each
save_each-Saves store [] d e = ([], no_save)
save_each-Saves store ((now, m) ∷ gs) d e =
    let d' = (store.save_message now m d).0 in
    elim (Option-cases (store.save_message now m d).1) [
      | inl failed ↦ absurd (ground (arith, e, failed))
      | inr (m', s) ↦
          let (ms, ss) = save_each-Saves store gs d' (ground (arith, e, s)) in
          (m' ∷ ms, save now m (ap (λ r. (d', r)) s) ss)
    ]

-- The same messages, but for their ids.
abbrev pub AreNumbered : List Message → List Message → Type 0
AreNumbered [] [] = Unit {0}
AreNumbered (g ∷ gs) (m ∷ ms) = (m ≡ record g { id = m.id }) × AreNumbered gs ms
AreNumbered _ _ = ⊥

-- A message with a time is saved with it.
near_time_given : (now : Time) (m : Message) → IsNear m.created_at → time_given now m ≡ m.created_at
near_time_given now m n = ground (arith, n.since)

AreNumbered-AreStamped :
    (t : Time) (gs : List (Time × Message)) (ms : List Message)
    → IsRising IsNear t (messages gs)
    → AreStamped gs ms
    → AreNumbered (messages gs) ms × IsRising IsNear t ms
AreNumbered-AreStamped t [] [] r s = (tt, tt)
AreNumbered-AreStamped t ((now, g) ∷ gs) [] r s = absurd s
AreNumbered-AreStamped t [] (m ∷ ms) r s = absurd s
AreNumbered-AreStamped t ((now, g) ∷ gs) (m ∷ ms) (le, near, rise) (s, ss) =
    let same : m ≡ record g { id = m.id } =
      s
      ∙ ap {A = Time} {B = Message} (λ x. record g { id = m.id; created_at = x })
          (near_time_given now g near) in
    let at : m.created_at ≡ g.created_at = ap (λ x. x.created_at) same in
    let (numbered, rising) = AreNumbered-AreStamped g.created_at gs ms rise ss in
    ((same, numbered), (rw at le, rw at near, rw at rising))

-- From its start, over an SQLite engine that does what SQL says and a table that is empty at first:
-- after any steps at the queue and then the shutdown, the persister has saved exactly the messages
-- that the queue accepted, in order; and if none of the calls of the store failed, the history that
-- the hub then loads for a room is exactly the last `n` of these messages that are for the room,
-- oldest first, unchanged but for their ids; provided that their times do not fall and are less than
-- 2 ^ 63 nanoseconds off 1970.
pub run-recent_by_room :
    {D : Type 0} (e : Engine D ℤ (Option ℕ)) (d : D) (depth : ℤ) (ss : List Step)
    (gs : List (Time × Message)) (room : String) (n : ℕ)
    → IsSql later (λ t. t) (λ id. some id) e
    → e.rows d ≡ []
    → AllRunning ss
    → messages gs ≡ accepted ss (new_persister depth)
    → IsRising IsNear 0 (accepted ss (new_persister depth))
    → (save_each (Sqlite.sqlite e) gs d).1 ≡ true
    → (p : Persister) × (run (ss ++ stops ∷ []) (new_persister depth) ≡ ok p)
      × (p.saved ≡ messages gs)
      × ((ms : List Message) × AreNumbered (accepted ss (new_persister depth)) ms
          × (history
                (some
                  (λ j limit. Sqlite.recent_by_room e j limit (save_each (Sqlite.sqlite e) gs d).0))
                (pos n)
                room
              ≡ loaded (last n (messages_in room ms))))
unfolding new_persister make_chan
run-recent_by_room e d depth ss gs room n law empty running same rise fine =
    let (p, r, f, _, _, _) = run-stops ss (new_persister depth) running refl refl in
    let (ms, saves) = save_each-Saves (Sqlite.sqlite e) gs d fine in
    let stamps = sqlite-AreStamped e law saves in
    let (numbered, rising) =
      AreNumbered-AreStamped 0 gs ms (subst (IsRising IsNear 0) (sym same) rise) stamps in
    (
      p,
      r,
      f ∙ sym same,
      (
        ms,
        subst (λ gs'. AreNumbered gs' ms) same numbered,
        (sqlite-recent_by_room-saved e room n law empty saves rising).1,
      ),
    )
