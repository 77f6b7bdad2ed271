-- ===== src/Hub/Calls/Tests.antt =====
-- Three calls that wait when the actor returns.
use chat_room.Prelude.{◌+◌, ◌≡◌, refl, ◌⊎◌, true, none, some, [], ◌∷◌, length, make_chan}
use chat_room.Hub.Clients.{new_client}
use chat_room.Hub.{Hub, new_hub}
use chat_room.Hub.Calls.{
  register, unregister, query, no_stats, Exchange, Select, gives_up, Selects, done, next,
  Selects-return,
}

abbrev hub : Hub
hub = new_hub (make_chan 4) (λ k. new_client "1" "ann" 2 30)

abbrev ended : Exchange
ended = record {
  hub = hub;
  stopped = true;
  waiting = unregister 1 ∷ query ∷ register 4 ∷ [];
  returned = [];
}

abbrev one_left : Exchange
one_left = record ended {
  waiting = unregister 1 ∷ [];
  returned = (query, some no_stats) ∷ (register 4, none) ∷ [];
}

two-Selects : Selects 2 ended one_left
two-Selects =
    next (gives_up (unregister 1 ∷ []) (register 4 ∷ []) query)
      (next (gives_up (unregister 1 ∷ []) [] (register 4)) done)

Selects-return_example :
    (2 + length one_left.waiting ≡ length ended.waiting)
    × (length one_left.returned ≡ 2 + length ended.returned)
    × (one_left.hub ≡ ended.hub)
    × ((one_left.waiting ≡ []) ⊎ ((z : Exchange) × Select one_left z))
Selects-return_example = Selects-return 2 ended one_left refl two-Selects
