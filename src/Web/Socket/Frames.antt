-- ===== src/Web/Socket/Frames.antt =====
-- What a connection's first bad frame does.
use chat_room.Prelude.{String, ◌≡◌, refl, ap, Option, none, some, List, [], ◌∷◌, ◌++◌}
use chat_room.Message.{Envelope}
use chat_room.Hub.Clients.{Ref}
use chat_room.Hub.Pumps.{Loaded, read_pump}
use chat_room.Web.Socket.{read, frames}

module _ {B : Type 0} (unmarshal : B → Option Envelope) where
  frames-append :
      (before after : List (Option B)) (b : B)
      → unmarshal b ≡ none
      → frames unmarshal (before ++ some b ∷ after) ≡ frames unmarshal before
  unfolding frames
  frames-append [] after b bad = rw (frames, bad) refl
  frames-append (a ∷ before) after b bad =
      ap
        (λ rest. elim (read unmarshal a) as (λ _. List Envelope) [
          | none ↦ []
          | some env ↦ env ∷ rest
        ])
        (frames-append before after b bad)

  -- A frame that does not decode ends its connection: the read pump does what it would do if nothing
  -- came after the frames before it, whatever histories it is given with them, and so unregisters the client.
  pub read_pump-malformed :
      (c : Ref) (loads : List Envelope → List ((String → Loaded) × Envelope))
      (before after : List (Option B)) (b : B)
      → unmarshal b ≡ none
      → read_pump c (loads (frames unmarshal (before ++ some b ∷ after)))
        ≡ read_pump c (loads (frames unmarshal before))
  read_pump-malformed c loads before after b bad =
      ap (λ x. read_pump c (loads x)) (frames-append before after b bad)
