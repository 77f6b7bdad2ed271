-- ===== src/Bus/Publishing.antt =====
-- `Publish` in closed form.
use chat_room.Prelude.{
  try_send_open, ℕ, ◌≡◌, refl, sym, ap, ◌∙◌, fun_ext, true, false, List, [], ◌∷◌, Perm, arith,
  if◌then◌else◌, nat_eq, string_eq, nat_beq_iff, contains, Distinct, contains-perm, Distinct-perm,
  Chan, offer, ok,
}
use mathlib.Core.List.Perm
use chat_room.Message.{Message}
use chat_room.Bus.{LocalBus, update, publish_each, publish}

-- Each of `is` is offered `m`; the other channels are left alone.
abbrev pub offered : List ℕ → Message → (ℕ → Chan Message) → ℕ → Chan Message
offered is m f i = if contains i is then offer m (f i) else f i

abbrev pub AllOpen : List ℕ → (ℕ → Chan Message) → Type 0
AllOpen is f = (i : ℕ) → contains i is ≡ true → (f i).closed ≡ false

publish_each-offered :
    (is : List ℕ) (m : Message) (f : ℕ → Chan Message)
    → Distinct is
    → AllOpen is f
    → publish_each is m f ≡ ok (offered is m f)
unfolding publish_each
publish_each-offered [] m f d o = refl
publish_each-offered (i ∷ is) m f d o =
    rw (try_send_open (f i) m (o i (ground (arith, nat_beq_iff i i)))) (
      publish_each-offered is m (update f i (offer m (f i))) d.1
        (λ k h. ground (arith, o k, nat_beq_iff i k))
      ∙ ap ok (
          fun_ext λ k. ground (
            arith,
            nat_beq_iff i k,
            λ (q : i ≡ k). ap (λ x. contains x is) q,
            λ (q : i ≡ k). ap f q,
          )))

-- In whatever order the subscribers are visited, and if they are distinct with open channels, the
-- publication returns; each subscriber gets the message if its own buffer has room, and misses it
-- otherwise, and nothing else changes.
pub publish-offered :
    (order : List ℕ → List ℕ) (m : Message) (bus : LocalBus)
    → Perm (order bus.subscribers) bus.subscribers
    → Distinct bus.subscribers
    → AllOpen bus.subscribers bus.chan
    → publish order m bus ≡ ok (record bus { chan = offered bus.subscribers m bus.chan })
unfolding publish
publish-offered order m bus p d o =
    rw
      (publish_each-offered (order bus.subscribers) m bus.chan (Distinct-perm (Perm.symm p) d)
        (λ i h. o i (sym (contains-perm i p) ∙ h)))
      (ap (λ f. ok (record bus { chan = f })) (fun_ext λ i. rw (contains-perm i p) refl))
