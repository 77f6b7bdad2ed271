-- ===== src/Hub/Quiet.antt =====
-- What the announcements of joins and departures do to the clients' send channels.
use mathlib.Core.List.{append-nil, append_assoc}
use chat_room.Prelude.{
  offer_bounded, ◌≤◌, ◌≡◌, refl, sym, ◌∙◌, false, List, [], ◌∷◌, ◌++◌, arith, if◌then◌else◌, length,
  contains, nat_eq, Chan, offer, has_room, Bool-cases, inl, inr,
}
use chat_room.Message.{Envelope, is_chat}
use chat_room.Hub.Clients.{Ref, Client, Heap, offered}

-- The chat frames of a queue.
abbrev pub chats : List Envelope → List Envelope
chats [] = []
chats (e ∷ es) = if is_chat e then e ∷ chats es else chats es

pub chats-append : (xs ys : List Envelope) → chats (xs ++ ys) ≡ chats xs ++ chats ys
chats-append [] ys = refl
chats-append (x ∷ xs) ys = ground (arith, chats-append xs ys)

-- A queue has got frames behind its own, none of them a chat frame.
abbrev pub Grows : List Envelope → List Envelope → Type 0
Grows old new = (more : List Envelope) × (new ≡ old ++ more) × (chats more ≡ [])

pub Grows-refl : (b : List Envelope) → Grows b b
Grows-refl b = ([], sym (append-nil b), refl)

pub Grows-trans : (a b c : List Envelope) → Grows a b → Grows b c → Grows a c
Grows-trans a b c (x, p, u) (y, q, v) =
    (x ++ y, rw (q, p) (append_assoc a x y), rw (chats-append x y, u) v)

pub Grows-chats : (a b : List Envelope) → Grows a b → chats b ≡ chats a
Grows-chats a b (x, p, u) = rw (p, chats-append a x, u) (append-nil (chats a))

pub record Quiet (old new : Client) : Type 0 where
  pub id : new.id ≡ old.id
  pub name : new.name ≡ old.name
  pub cap : new.send.cap ≡ old.send.cap
  pub closed : new.send.closed ≡ old.send.closed
  pub grows : Grows old.send.buf new.send.buf
  pub bounded : length old.send.buf ≤ old.send.cap → length new.send.buf ≤ new.send.cap

abbrev pub AllQuiet : Heap → Heap → Type 0
AllQuiet h h' = (c : Ref) → Quiet (h c) (h' c)

pub Quiet-refl : (x : Client) → Quiet x x
Quiet-refl x = record {
  id = refl;
  name = refl;
  cap = refl;
  closed = refl;
  grows = Grows-refl _;
  bounded = λ b. b;
}

pub Quiet-trans : {x y z : Client} → Quiet x y → Quiet y z → Quiet x z
Quiet-trans p q = record {
  id = q.id ∙ p.id;
  name = q.name ∙ p.name;
  cap = q.cap ∙ p.cap;
  closed = q.closed ∙ p.closed;
  grows = Grows-trans _ _ _ p.grows q.grows;
  bounded = λ b. q.bounded (p.bounded b);
}

pub AllQuiet-refl : (h : Heap) → AllQuiet h h
AllQuiet-refl h c = Quiet-refl (h c)

pub AllQuiet-trans : {h k l : Heap} → AllQuiet h k → AllQuiet k l → AllQuiet h l
AllQuiet-trans p q c = Quiet-trans (p c) (q c)

pub offer-Grows :
    (e : Envelope) (ch : Chan Envelope) → is_chat e ≡ false → Grows ch.buf (offer e ch).buf
offer-Grows e ch n = elim (Bool-cases (has_room ch)) [
  | inl room ↦ (e ∷ [], ground arith, ground arith)
  | inr full ↦ ([], ground (arith, append-nil ch.buf), refl)
]

-- Offering a frame that is no chat frame.
pub offered-AllQuiet :
    (cs : List Ref) (e : Envelope) (h : Heap) → is_chat e ≡ false → AllQuiet h (offered cs e h)
offered-AllQuiet cs e h n c = record {
  id = ground arith;
  name = ground arith;
  cap = ground arith;
  closed = ground arith;
  grows = elim (Bool-cases (contains c cs)) [
    | inl m ↦ rw m (offer-Grows e (h c).send n)
    | inr m ↦ rw m (Grows-refl (h c).send.buf)
  ];
  bounded = ground (arith, offer_bounded e (h c).send);
}
