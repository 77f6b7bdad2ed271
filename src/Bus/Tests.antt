-- ===== src/Bus/Tests.antt =====
-- The bus at concrete inputs: two subscribers, one with a full buffer.
use mathlib.Core.List.Perm
use chat_room.Prelude.{
  pos, ◌≡◌, refl, false, [], ◌∷◌, ltb, if◌then◌else◌, ◌==◌, nat_eq, string_eq, ok,
}
use chat_room.Message.{Message}
use chat_room.Bus.{LocalBus, waiting, absent, publish, subscribe, new_local}
use chat_room.Bus.Publishing.{offered, publish-offered}
use chat_room.Bus.Safety.{Succeeds, start, later, publishes, subscribes, Reach-Succeeds}

abbrev note : Message
note = record {
  id = 1;
  room = "lobby";
  sender_id = "7";
  sender_name = "ann";
  content = "hi";
  created_at = 7;
}

abbrev bus : LocalBus
bus = record {
  buffer = 1;
  subscribers = 0 ∷ 1 ∷ [];
  chan = λ i. record { cap = 1; buf = if i == 0 then note ∷ [] else []; closed = false };
  stage = λ i. if ltb i 2 then waiting else absent;
  next = 2;
}

publish-offered_example :
    publish (λ is. is) note bus ≡ ok (record bus { chan = offered bus.subscribers note bus.chan })
publish-offered_example =
    publish-offered (λ is. is) note bus (Perm.refl _) (refl, (refl, tt)) (λ i m. refl)

Reach-Succeeds_example : Succeeds (publish (λ is. is) note (subscribe (new_local (pos 4))))
Reach-Succeeds_example =
    Reach-Succeeds {n = pos 4} (later start subscribes) (publishes (λ is. is) note (Perm.refl _))
