-- ===== src/Hub/Refinement.antt =====
-- The hub does what the directory allows, in every interleaving with the goroutines beside it.
use chat_room.Prelude.{◌≡◌, refl, List, [], ◌∷◌, nat_eq, string_eq, ok, ◌>>=◌}
use mathlib.Core.Path.{subst}
use chat_room.Hub.Invariant.{IsValid}
use chat_room.Hub.System.{Move, acts, pushes, writes, saves, step, run, IsAllowed, AllAllowed}
use chat_room.Hub.Interleaving.{step-Succeeds}
use chat_room.Hub.Beside.{Kept, pushes-Kept, writes-Kept, saves-Kept, directory-Kept}
use chat_room.Hub.Handling.{process-Refines}
use chat_room.Hub.Directory.{next, directory, Steps, done}
use chat_room.Hub.{Hub, Event}

-- The turns of the actor.
abbrev pub events : List Move → List Event
events [] = []
events (acts t e ∷ ms) = e ∷ events ms
events (m ∷ ms) = events ms

beside-Steps :
    (m : Move) (ms : List Move) (es : List Event) (hub : Hub)
    → IsValid hub
    → IsAllowed m hub
    → ((mid : Hub) → step m hub ≡ ok mid → Kept hub mid)
    → ((mid : Hub)
        → step m hub ≡ ok mid
        → IsValid mid
        → (hub' : Hub) × (run ms mid ≡ ok hub')
          × Steps es (directory mid) (directory hub')
          × IsValid hub')
    → (hub' : Hub) × ((do mid ← step m hub; run ms mid) ≡ ok hub')
      × Steps es (directory hub) (directory hub')
      × IsValid hub'
beside-Steps m ms es hub v now kept rest =
    let (mid, f, w) = step-Succeeds m hub v now in
    let (last, g, ss, u) = rest mid f w in
    let (clients, rooms) = kept mid f in
    (
      last,
      rw f g,
      subst (λ a. Steps es a (directory last)) (directory-Kept hub mid clients rooms) ss,
      u,
    )

-- From a valid hub, every interleaving of turns of the actor with read pumps, write pumps and the
-- persister returns, and leaves a valid hub; and the actor's events, in order, lead from the directory
-- of the hub to the directory of its end, each by a step that the directory allows; provided that a
-- client registers with an open channel, and that each join and each enqueued frame comes from a
-- client that the hub holds at that time.
pub run-Steps :
    (ms : List Move) (hub : Hub)
    → IsValid hub
    → AllAllowed ms hub
    → (hub' : Hub) × (run ms hub ≡ ok hub')
      × Steps (events ms) (directory hub) (directory hub')
      × IsValid hub'
unfolding run step
run-Steps [] hub v a = (hub, refl, done, v)
run-Steps (acts t e ∷ ms) hub v (now, later) =
    let (mid, f, s, w) = process-Refines t e hub v now in
    let (last, g, ss, u) = run-Steps ms mid w (later mid f) in (last, rw f g, next s ss, u)
run-Steps (pushes c e ∷ ms) hub v (now, later) =
    beside-Steps (pushes c e) ms (events ms) hub v now (pushes-Kept c e hub)
      (λ mid f w. run-Steps ms mid w (later mid f))
run-Steps (writes c ∷ ms) hub v (now, later) =
    beside-Steps (writes c) ms (events ms) hub v now (writes-Kept c hub)
      (λ mid f w. run-Steps ms mid w (later mid f))
run-Steps (saves ∷ ms) hub v (now, later) =
    beside-Steps saves ms (events ms) hub v now (saves-Kept hub)
      (λ mid f w. run-Steps ms mid w (later mid f))
