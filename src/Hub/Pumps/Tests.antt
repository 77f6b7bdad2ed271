-- ===== src/Hub/Pumps/Tests.antt =====
-- The pumps at concrete frames and calls.
use chat_room.Prelude.{
  ◌≡◌, String, refl, ◌≤◌, ◌+◌, ◌*◌, leb, length, true, false, List, [], ◌∷◌, ◌++◌, if◌then◌else◌,
  arith,
}
use chat_room.Message.{Envelope, envelope, type_join, type_leave}
use chat_room.Hub.Pumps.{
  Loaded, loaded, failed, unregister, Wake, frame, shut, ticked, read_pump, write_pump, Action,
  write, close_conn,
}
use chat_room.Hub.Pumps.Reading.{AllBefore, read_pump-ends}
use chat_room.Hub.Pumps.Writing.{written, taken, any_last, ClosesLast, write_pump_lem}
use chat_room.Hub.Pumps.Deadlines.{
  Call, TimedWake, timed_pump, busy, write_wait, timed_pump-stalled,
}

-- The second history cannot be loaded.
abbrev frames : List ((String → Loaded) × Envelope)
frames =
    (λ room. loaded [], envelope type_join "den")
    ∷ (λ room. failed, envelope type_join "lobby")
    ∷ (λ room. loaded [], envelope type_leave "den")
    ∷ []

read_pump-ends_example :
    (before : List Action) × (read_pump 1 frames ≡ before ++ unregister ∷ []) × AllBefore 1 before
read_pump-ends_example = read_pump-ends 1 frames

abbrev wakes : List Wake
wakes =
    frame (envelope type_join "den") true
    ∷ ticked true
    ∷ frame (envelope type_leave "den") false
    ∷ shut
    ∷ []

write_pump_lem_example :
    (written (write_pump wakes) ≡ taken wakes) × ClosesLast (any_last wakes) (write_pump wakes)
write_pump_lem_example = write_pump_lem wakes

-- A call that takes three seconds, and one that never ends by itself.
abbrev quick : Call
quick timeout = if leb 3_000_000_000 timeout then (true, 3_000_000_000) else (false, timeout)

abbrev stuck : Call
stuck timeout = (false, timeout)

abbrev calm : List TimedWake
calm = TimedWake.frame (envelope type_join "den") quick ∷ TimedWake.ticked quick ∷ []

abbrev storm : List TimedWake
storm = TimedWake.ticked quick ∷ TimedWake.shut ∷ []

timed_pump-stalled_example :
    (timed_pump (calm ++ TimedWake.frame (envelope type_leave "den") stuck ∷ storm)
      ≡ timed_pump calm ++ write (envelope type_leave "den") ∷ close_conn ∷ [])
    × (busy (calm ++ TimedWake.frame (envelope type_leave "den") stuck ∷ storm)
        ≤ write_wait * (length (timed_pump calm) + 1))
timed_pump-stalled_example =
    timed_pump-stalled calm storm (envelope type_leave "den") stuck (refl, (refl, tt))
      (λ timeout. ground arith, (λ timeout. ground arith, tt)) (λ timeout. refl)
