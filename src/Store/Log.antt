-- ===== src/Store/Log.antt =====
-- What the message stores share: saves that succeed, one after another, and the history that they
-- leave, over an engine that does what SQL says of the statements.
use chat_room.Prelude.{
  inr, inl, Bool-cases, zero, suc, last-zero, pos, map-reverse, ℕ, ◌≤◌, String, ◌≡◌, refl, sym, ap,
  ◌∙◌, Bool, false, some, List, [], ◌∷◌, ◌++◌, map, reverse, if◌then◌else◌, ◌==◌, nat_eq, string_eq,
  arith, take, last, map-last, reverse-take_lem,
}
use mathlib.Core.List.{append-nil, append_assoc}
use chat_room.Message.{Message, Time}
use chat_room.Hub.Pumps.{Recent, history, loaded}
use chat_room.Store.{MessageStore}
use chat_room.Store.Table.{
  stamped, Row, message_of, scan_rows, oldest_first, collected, in_room, newest_first,
}
use chat_room.Store.Table.Order.{IsAscending, IsAscending-in_room, newest_first-IsAscending}

-- Calls of `save_message` that succeed, one after another: the clock's time and the message that each
-- was given, and what it returned, oldest first.
pub data Saves {D : Type 0} (store : MessageStore D)
    : D → List (Time × Message) → List Message → D → Type 0 where
  no_save : {d : D} → Saves store d [] [] d
  save :
      (now : Time) (given : Message) {d d' d'' : D} {m : Message} {gs : List (Time × Message)}
      {ms : List Message}
      → store.save_message now given d ≡ (d', some m)
      → Saves store d' gs ms d''
      → Saves store d ((now, given) ∷ gs) (m ∷ ms) d''

-- The time that a message is given, or the clock's if it has none.
abbrev pub time_given : Time → Message → Time
time_given now given = if given.created_at == 0 then now else given.created_at

pub stamped-time_given :
    (now : Time) (given : Message)
    → stamped now given ≡ record given { created_at = time_given now given }
unfolding stamped
stamped-time_given now given = elim (Bool-cases (given.created_at == 0)) [
  | inl unset ↦ rw unset refl
  | inr set ↦ rw set refl
]

-- The messages are as given but for their ids, and those without a time have the clock's.
abbrev pub AreStamped : List (Time × Message) → List Message → Type 0
AreStamped [] [] = Unit {0}
AreStamped ((now, given) ∷ gs) (m ∷ ms) =
    (m ≡ record given { id = m.id; created_at = time_given now given }) × AreStamped gs ms
AreStamped _ _ = ⊥

abbrev pub messages_in : String → List Message → List Message
messages_in room [] = []
messages_in room (m ∷ ms) =
    let rest = messages_in room ms in if m.room == room then m ∷ rest else rest

abbrev pub with_time : (Time → Time) → Message → Message
with_time f m = record m { created_at = f m.created_at }

-- The times do not fall, from `t` on, and are all good.
abbrev pub IsRising : (IsGood : Time → Type 0) → Time → List Message → Type 0
IsRising IsGood t [] = Unit {0}
IsRising IsGood t (m ∷ ms) =
    (t ≤ m.created_at) × IsGood m.created_at × IsRising IsGood m.created_at ms

module _ {T : Type 0} (read : T → Time) where
  pub scan_rows-some :
      (rs : List (Row T)) (out : List Message)
      → scan_rows read (map (λ r. some r) rs) out ≡ some (out ++ map (message_of read) rs)
  unfolding scan_rows
  scan_rows-some [] out = ap (λ ms. some ms) (sym (append-nil out))
  scan_rows-some (r ∷ rs) out =
      scan_rows-some rs (out ++ message_of read r ∷ [])
      ∙ ap (λ ms. some ms) (append_assoc out (message_of read r ∷ []) (map (message_of read) rs))

  messages_in-map :
      (room : String) (rs : List (Row T))
      → map (message_of read) (in_room room rs) ≡ messages_in room (map (message_of read) rs)
  messages_in-map room [] = refl
  messages_in-map room (r ∷ rs) = ground (arith, messages_in-map room rs)

  pub collected-rows :
      (later : T → T → Bool) (room : String) (n : ℕ) (rs : List (Row T))
      → IsAscending later rs
      → collected read (
          some (record {
            rows = map (λ r. some r) (take n (newest_first later (in_room room rs)));
            broken = false;
          }))
        ≡ loaded (last n (messages_in room (map (message_of read) rs)))
  unfolding collected oldest_first
  collected-rows later room n rs a =
      ap (oldest_first read false)
        (scan_rows-some (take n (newest_first later (in_room room rs))) [])
      ∙ ap (λ ss. loaded (reverse (map (message_of read) (take n ss))))
          (newest_first-IsAscending later (in_room room rs) (IsAscending-in_room later room rs a))
      ∙ ap (λ ss. loaded ss)
          (sym (map-reverse (message_of read) (take n (reverse (in_room room rs))))
            ∙ ap (map (message_of read)) (reverse-take_lem n (in_room room rs))
            ∙ map-last (message_of read) n (in_room room rs)
            ∙ ap (last n) (messages_in-map room rs))

-- The hub asks for no history at a limit of zero.
pub history-recent :
    (recent : Recent) (room : String) (n : ℕ) (ms : List Message)
    → recent room (pos n) ≡ loaded (last n ms)
    → history (some recent) (pos n) room ≡ loaded (last n ms)
unfolding history
history-recent recent room zero ms e = ap (λ l. loaded l) (sym (last-zero ms))
history-recent recent room (suc n) ms e = ground (arith, e)
