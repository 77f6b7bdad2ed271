-- ===== src/Persist/Tests.antt =====
-- The persister at concrete inputs: a queue for one message, and three that come in.
use chat_room.Prelude.{
  ℕ, ◌+◌, pos, some, make_chan, last, arith, receive, String, ◌≡◌, refl, false, List, [], ◌∷◌, ◌++◌,
  nat_eq, string_eq, ok,
}
use chat_room.Message.{Message, Time}
use chat_room.Clock.{epoch}
use chat_room.Hub.Pumps.{history, loaded}
use chat_room.Store.Table.{stamped}
use chat_room.Store.Log.{messages_in}
use chat_room.Store.Roundtrip.{later}
use chat_room.Store.Sqlite
use chat_room.Store.Tests.{sqlite_table, posted, epoch-IsNear, memory-IsSql}
use chat_room.Persist.Durable.{save_each, messages, AreNumbered, run-recent_by_room}
use chat_room.Persist.{new_persister, take_one, save, Persister, Step, hands, takes, stops, run}
use chat_room.Persist.Draining.{received, accepted, run_late}

abbrev note : String → Message
note text = record {
  id = 0;
  room = "lobby";
  sender_id = "7";
  sender_name = "ann";
  content = text;
  created_at = 7;
}

abbrev idle : Persister
idle = record { queue = record { cap = 1; buf = []; closed = false }; saved = []; returned = false }

-- The second message finds the queue full.
abbrev steps : List Step
steps = hands (note "a") ∷ hands (note "b") ∷ takes ∷ hands (note "c") ∷ []

accepted_test : accepted steps idle ≡ note "a" ∷ note "c" ∷ []
unfolding accepted save take_one receive
accepted_test = refl

-- After the shutdown the empty queue accepts one more.
abbrev late_steps : List Step
late_steps = hands (note "d") ∷ hands (note "e") ∷ takes ∷ []

run_late_example :
    (mid last : Persister) × (run (steps ++ stops ∷ []) idle ≡ ok mid)
    × (run late_steps mid ≡ ok last)
    × (last.saved ≡ received idle ++ accepted steps idle)
    × (last.queue.buf ≡ accepted late_steps mid)
run_late_example = run_late steps late_steps idle (refl, (refl, (refl, (refl, tt)))) refl refl

abbrev dated : String → ℕ → Message
dated text t = posted 0 "lobby" text (epoch + t)

-- The queue has room for one message.
abbrev dated_steps : List Step
dated_steps = hands (dated "a" 1) ∷ hands (dated "b" 2) ∷ takes ∷ hands (dated "c" 3) ∷ []

abbrev given : List (Time × Message)
given = (0, dated "a" 1) ∷ (0, dated "c" 3) ∷ []

run-recent_by_room_example :
    (p : Persister) × (run (dated_steps ++ stops ∷ []) (new_persister (pos 1)) ≡ ok p)
    × (p.saved ≡ messages given)
    × ((ms : List Message) × AreNumbered (accepted dated_steps (new_persister (pos 1))) ms
        × (history
              (some (λ j limit.
                Sqlite.recent_by_room sqlite_table j limit
                  (save_each (Sqlite.sqlite sqlite_table) given []).0))
              (pos 2)
              "lobby"
            ≡ loaded (last 2 (messages_in "lobby" ms))))
unfolding accepted save take_one receive new_persister make_chan save_each Sqlite.sqlite
    Sqlite.save_message Sqlite.inserted stamped
run-recent_by_room_example =
    run-recent_by_room sqlite_table [] (pos 1) dated_steps given "lobby" 2
      (memory-IsSql later (λ t. t) (λ id. some id)) refl (refl, (refl, (refl, (refl, tt)))) refl
      (omega arith, epoch-IsNear 1 (omega arith), (omega arith, epoch-IsNear 3 (omega arith), tt))
      refl
