-- ===== src/Hub/Delivery.antt =====
-- The first loop of `deliverMessage`, in closed form.
use chat_room.Prelude.{
  ◌≡◌, refl, ap, fun_ext, inl, inr, Bool, false, ◌&&◌, not, List, [], ◌∷◌, arith, if◌then◌else◌,
  ◌==◌, nat_eq, string_eq, nat_beq_iff, Bool-cases, contains, delete, Distinct, contains-delete,
  Chan, offer, has_room, ok,
}
use chat_room.Message.{Envelope}
use chat_room.Hub.Clients.{Ref, Heap, AllOpen, offered, enqueue_open, set_send}
use chat_room.Hub.{Turn, deliver_each}

-- The members whose buffers are full.
pub slow_of : Heap → Ref → List Ref → List Ref
slow_of h except [] = []
slow_of h except (c ∷ cs) =
    let rest = slow_of h except cs in
    if c == except then rest else (if has_room (h c).send then rest else c ∷ rest)

abbrev pub is_slow : Heap → Ref → Ref → Bool
is_slow h except k = not (k == except) && not (has_room (h k).send)

pub contains-slow_of :
    (h : Heap) (except k : Ref) (cs : List Ref)
    → contains k (slow_of h except cs) ≡ (contains k cs && is_slow h except k)
unfolding slow_of
contains-slow_of h except k [] = refl
contains-slow_of h except k (c ∷ cs) = ground (
  arith,
  contains-slow_of h except k cs,
  nat_beq_iff c k,
  λ (p : c ≡ k). ap (λ x. has_room (h x).send) p,
)

pub slow_of-Distinct :
    (h : Heap) (except : Ref) (cs : List Ref) → Distinct cs → Distinct (slow_of h except cs)
unfolding slow_of
slow_of-Distinct h except [] d = tt
slow_of-Distinct h except (c ∷ cs) d =
    ground (arith, slow_of-Distinct h except cs d.1, contains-slow_of h except c cs)

-- An earlier send to another client does not change who is slow.
slow_of-set_send :
    (c : Ref) (ch : Chan Envelope) (h : Heap) (except : Ref) (cs : List Ref)
    → contains c cs ≡ false
    → slow_of (set_send c ch h) except cs ≡ slow_of h except cs
unfolding slow_of
slow_of-set_send c ch h except [] n = refl
slow_of-set_send c ch h except (d ∷ cs) n =
    ground (arith, slow_of-set_send c ch h except cs, nat_beq_iff c d, nat_beq_iff d c)

-- The first loop: everybody but the sender is offered the frame, in whatever order.
pub deliver_each-offered :
    (t : Turn) (cs : List Ref) (e : Envelope) (except : Ref) (h : Heap)
    → Distinct cs
    → AllOpen cs h
    → deliver_each t cs e except h ≡ ok (offered (delete except cs) e h, slow_of h except cs)
unfolding deliver_each slow_of delete
deliver_each-offered t [] e except h d o = refl
deliver_each-offered t (c ∷ cs) e except h d o = elim (Bool-cases (c == except)) [
  | inl self ↦
      rw (self, deliver_each) (deliver_each-offered t cs e except h d.1 (λ k m. o k (ground arith)))
  | inr other ↦
      rw
        (
          other,
          deliver_each,
          enqueue_open h c e (o c (ground (arith, nat_beq_iff c c))),
          deliver_each-offered t cs e except (set_send c (offer e (h c).send) h) d.1
              (λ k m. ground (arith, o k, nat_beq_iff c k)),
        )
        (λ i. ok (heaps i, slows i))
]
  where
    heaps :
        offered (delete except cs) e (set_send c (offer e (h c).send) h)
        ≡ offered (c ∷ delete except cs) e h
    heaps = fun_ext λ k. ground (
      arith,
      nat_beq_iff c k,
      contains-delete except k cs,
      λ (q : c ≡ k). ap (λ x. contains x cs) q,
      λ (q : c ≡ k). ap h q,
    )

    slows :
        (if has_room (h c).send
          then slow_of (set_send c (offer e (h c).send) h) except cs
          else c ∷ slow_of (set_send c (offer e (h c).send) h) except cs)
        ≡ (if has_room (h c).send then slow_of h except cs else c ∷ slow_of h except cs)
    slows = rw (slow_of-set_send c (offer e (h c).send) h except cs d.0) refl
