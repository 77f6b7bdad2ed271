-- ===== src/Hub/Pumps/Reading.antt =====
-- What the read pump submits, and how it ends.
use chat_room.Prelude.{
  String, ◌≡◌, refl, ◌⊎◌, inl, inr, false, List, [], ◌∷◌, ◌++◌, ◌==◌, nat_eq, string_eq, Bool-cases,
}
use mathlib.Core.List.{append_assoc}
use chat_room.Message.{
  Envelope, FrameType, type_join, type_leave, type_message, type_history, type_error,
}
use chat_room.Hub.Clients.{Ref}
use chat_room.Hub.{Command}
use chat_room.Hub.Pumps.{
  Loaded, loaded, failed, Action, push, submit, unregister, greeting, handle_join, on_frame,
  read_pump,
}

-- A command that the actor can act on: from `c`, with a room, and with a text if it is a message.
abbrev pub IsSound : Ref → Command → Type 0
IsSound c cmd =
    (cmd.client ≡ c)
    × ((cmd.room == "") ≡ false)
    × ((cmd.kind ≡ type_join)
        ⊎ (cmd.kind ≡ type_leave)
        ⊎ ((cmd.kind ≡ type_message) × ((cmd.text == "") ≡ false)))

-- Only history and error frames are pushed, and `unregister` is not among the actions.
abbrev pub IsBefore : Ref → Action → Type 0
IsBefore c (push e) = (e.type ≡ type_history) ⊎ (e.type ≡ type_error)
IsBefore c (submit cmd) = IsSound c cmd
IsBefore c unregister = ⊥

abbrev pub AllBefore : Ref → List Action → Type 0
AllBefore c [] = Unit
AllBefore c (a ∷ rest) = IsBefore c a × AllBefore c rest

AllBefore-append :
    (c : Ref) (now later : List Action)
    → AllBefore c now
    → AllBefore c later
    → AllBefore c (now ++ later)
AllBefore-append c [] later p q = q
AllBefore-append c (a ∷ rest) later (h, p) q = (h, AllBefore-append c rest later p q)

module _ (c : Ref) (load : String → Loaded) where
  greeting-AllBefore : (room : String) (l : Loaded) → AllBefore c (greeting room l)
  unfolding greeting
  greeting-AllBefore room failed = (inr refl, tt)
  greeting-AllBefore room (loaded []) = tt
  greeting-AllBefore room (loaded (m ∷ ms)) = (inl refl, tt)

  handle_join-AllBefore : (room : String) → AllBefore c (handle_join c load room)
  unfolding handle_join
  handle_join-AllBefore room = elim (Bool-cases (room == "")) [
    | inl blank ↦ rw blank tt
    | inr named ↦ rw named (
        AllBefore-append c (greeting room (load room)) _ (greeting-AllBefore room (load room))
          ((refl, named, inl refl), tt))
  ]

  pub on_frame-AllBefore :
      (env : Envelope) (t : FrameType) → env.type ≡ t → AllBefore c (on_frame c load env)
  unfolding on_frame
  on_frame-AllBefore env type_join e = rw (e, on_frame) (handle_join-AllBefore env.room)
  on_frame-AllBefore env type_leave e = elim (Bool-cases (env.room == "")) [
    | inl blank ↦ rw (e, on_frame, blank) tt
    | inr named ↦ rw (e, on_frame, named) ((refl, named, inr (inl refl)), tt)
  ]
  on_frame-AllBefore env type_message e = elim (Bool-cases (env.room == "")) [
    | inl blank ↦ rw (e, on_frame, blank) tt
    | inr named ↦ elim (Bool-cases (env.text == "")) [
      | inl blank ↦ rw (e, on_frame, named, blank) tt
      | inr said ↦ rw (e, on_frame, named, said) ((refl, named, inr (inr (refl, said))), tt)
    ]
  ]
  on_frame-AllBefore env other e = rw (e, on_frame) tt

-- Whatever frames it reads and histories it gets, the pump unregisters once, as its last action;
-- before that it enqueues history and error frames only, and submits joins, leaves and messages only,
-- of its own client, each with a room, and a message with a text.
pub read_pump-ends :
    (c : Ref) (envs : List ((String → Loaded) × Envelope))
    → (before : List Action) × (read_pump c envs ≡ before ++ unregister ∷ []) × AllBefore c before
unfolding read_pump
read_pump-ends c [] = ([], refl, tt)
read_pump-ends c ((load, env) ∷ envs) =
    let (before, e, a) = read_pump-ends c envs in
    (
      on_frame c load env ++ before,
      rw (e, append_assoc (on_frame c load env) before (unregister ∷ [])) refl,
      AllBefore-append c (on_frame c load env) before (on_frame-AllBefore c load env env.type refl)
          a,
    )
