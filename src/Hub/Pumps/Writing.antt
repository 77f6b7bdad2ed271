-- ===== src/Hub/Pumps/Writing.antt =====
-- What the write pump writes, and when it closes the connection.
use chat_room.Prelude.{
  ◌≡◌, refl, ap, Bool, true, false, ◌||◌, not, List, [], ◌∷◌, if◌then◌else◌, nat_eq, string_eq,
}
use chat_room.Message.{Envelope}
use chat_room.Hub.Pumps.{
  Wake, cancelled, frame, shut, ticked, Output, write, ping, close_conn, write_pump,
}

-- A wake after which the pump returns.
abbrev pub is_last : Wake → Bool
is_last cancelled = true
is_last shut = true
is_last (frame e sent) = not sent
is_last (ticked answered) = not answered

-- The frames taken off the send channel, up to the wake that ends the pump.
pub taken : List Wake → List Envelope
taken [] = []
taken (frame e sent ∷ ws) = let rest = taken ws in e ∷ (if sent then rest else [])
taken (ticked answered ∷ ws) = let rest = taken ws in if answered then rest else []
taken (_ ∷ ws) = []

abbrev pub any_last : List Wake → Bool
any_last [] = false
any_last (w ∷ ws) = is_last w || any_last ws

abbrev pub written : List Output → List Envelope
written [] = []
written (write e ∷ os) = e ∷ written os
written (_ ∷ os) = written os

-- `close_conn` stands at the end, and there only, or nowhere.
abbrev pub ClosesLast : Bool → List Output → Type 0
ClosesLast b [] = b ≡ false
ClosesLast b (close_conn ∷ []) = b ≡ true
ClosesLast b (close_conn ∷ _ ∷ _) = ⊥
ClosesLast b (write e ∷ os) = ClosesLast b os
ClosesLast b (ping ∷ os) = ClosesLast b os

-- Whatever wakes it, the pump writes each frame that it takes off the channel, once and in order, and
-- takes none after a failed write or ping, the cancellation or the end of the channel; it closes the
-- connection exactly when one of these has come, as its last call.
pub write_pump_lem :
    (ws : List Wake)
    → (written (write_pump ws) ≡ taken ws) × ClosesLast (any_last ws) (write_pump ws)
unfolding write_pump taken
write_pump_lem [] = (refl, refl)
write_pump_lem (cancelled ∷ ws) = (refl, refl)
write_pump_lem (shut ∷ ws) = (refl, refl)
write_pump_lem (frame e true ∷ ws) = let ih = write_pump_lem ws in (ap (◌∷◌ e) ih.0, ih.1)
write_pump_lem (frame e false ∷ ws) = (refl, refl)
write_pump_lem (ticked true ∷ ws) = write_pump_lem ws
write_pump_lem (ticked false ∷ ws) = (refl, refl)
