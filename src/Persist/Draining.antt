-- ===== src/Persist/Draining.antt =====
-- What the persister has saved when it returns, and what it never saves.
use chat_room.Prelude.{
  if_false, if_true, try_send_open, receive_lem, ◌≡◌, refl, sym, ap, ◌∙◌, inl, inr, Bool, true,
  false, Option, none, some, List, [], ◌∷◌, ◌++◌, arith, if◌then◌else◌, nat_eq, string_eq,
  Bool-cases, Chan, offer, has_room, ok, receive,
}
use mathlib.Core.List.{append-nil, append_assoc}
use chat_room.Message.{Message}
use chat_room.Persist.{
  Persister, save, drain_each, drain, Step, hands, takes, stops, take_one, step, run,
}

-- All that has come in: what is saved, and behind it what is queued.
abbrev pub received : Persister → List Message
received p = p.saved ++ p.queue.buf

drain_each_lem :
    (ms : List Message) (p : Persister)
    → p.queue.buf ≡ ms
    → drain_each ms p ≡ record p { queue = record p.queue { buf = [] }; saved = p.saved ++ ms }
unfolding drain_each save
drain_each_lem [] p e =
    let all = sym (append-nil p.saved) in
    λ i. record p { queue = record p.queue { buf = e i }; saved = all i }
drain_each_lem (m ∷ ms) p e =
    drain_each_lem ms (save m (record p { queue = record p.queue { buf = ms } })) refl ∙ (λ i.
      record p { queue = record p.queue { buf = [] }; saved = append_assoc p.saved (m ∷ []) ms i })

-- The queue is emptied, and everything in it is saved in order.
pub drain_lem :
    (p : Persister) → drain p ≡ record p { queue = record p.queue { buf = [] }; saved = received p }
unfolding drain
drain_lem p = drain_each_lem p.queue.buf p refl

-- The messages that the queue had room for.
unfoldable pub accepted : List Step → Persister → List Message
accepted [] p = []
accepted (hands m ∷ ss) p =
    (if has_room p.queue then m ∷ [] else []) ++ accepted ss (record p { queue = offer m p.queue })
accepted (takes ∷ ss) p = accepted ss (if p.returned then p else take_one (receive p.queue) p)
accepted (stops ∷ ss) p =
    accepted ss (if p.returned then p else record (drain p) { returned = true })

abbrev pub is_stop : Step → Bool
is_stop stops = true
is_stop _ = false

-- The steps before the cancelled context is seen.
abbrev pub AllRunning : List Step → Type 0
AllRunning [] = Unit
AllRunning (s ∷ ss) = (is_stop s ≡ false) × AllRunning ss

take_one_lem :
    (p : Persister) (o : Option (Message × Chan Message))
    → receive p.queue ≡ o
    → (received (take_one o p) ≡ received p)
      × ((take_one o p).queue.closed ≡ p.queue.closed)
      × ((take_one o p).returned ≡ p.returned)
unfolding take_one save
take_one_lem p none e = (refl, refl, refl)
take_one_lem p (some (m, q)) e =
    let facts = receive_lem p.queue q m e in
    (rw (facts.0) (append_assoc p.saved (m ∷ []) q.buf), facts.2, refl)

offer_buf :
    (m : Message) (q : Chan Message)
    → (offer m q).buf ≡ q.buf ++ (if has_room q then m ∷ [] else [])
offer_buf m q = ground (arith, append-nil q.buf)

offer-received :
    (m : Message) (p : Persister)
    → received (record p { queue = offer m p.queue })
      ≡ received p ++ (if has_room p.queue then m ∷ [] else [])
offer-received m p = elim (Bool-cases (has_room p.queue)) [
  | inl room ↦ rw room (sym (append_assoc p.saved p.queue.buf (m ∷ [])))
  | inr full ↦ rw full (sym (append-nil (received p)))
]

-- A running persister with an open queue, after any steps without a shutdown and then the shutdown:
-- what went to the store is what it had saved and queued, and then exactly the messages that the
-- queue had room for, in order; the queue is empty and open,
-- and the persister has returned.
pub run-stops :
    (ss : List Step) (p : Persister)
    → AllRunning ss
    → p.queue.closed ≡ false
    → p.returned ≡ false
    → (p' : Persister) × (run (ss ++ stops ∷ []) p ≡ ok p')
      × (p'.saved ≡ received p ++ accepted ss p)
      × (p'.queue.buf ≡ [])
      × (p'.returned ≡ true)
      × (p'.queue.closed ≡ false)
unfolding run accepted step
run-stops [] p a o r = (
  record (drain p) { returned = true },
  rw r refl,
  rw (drain_lem p) (sym (append-nil _)),
  rw (drain_lem p) refl,
  refl,
  rw (drain_lem p) o,
)
run-stops (hands m ∷ ss) p a o r =
    let (p', e, f, b, d, c) =
      run-stops ss (record p { queue = offer m p.queue }) a.1 (ground arith) r in
    (
      p',
      rw (try_send_open p.queue m o) e,
      f
          ∙ ap (λ x. x ++ accepted ss (record p { queue = offer m p.queue })) (offer-received m p)
          ∙ append_assoc (received p) _ _,
      b,
      d,
      c,
    )
run-stops (takes ∷ ss) p a o r =
    let (same, open_, running) = take_one_lem p (receive p.queue) refl in
    let (p', e, f, b, d, c) =
      run-stops ss (take_one (receive p.queue) p) a.1 (open_ ∙ o) (running ∙ r) in
    let next = if_false p.returned p (take_one (receive p.queue) p) r in
    (
      p',
      ap (run (ss ++ stops ∷ [])) next ∙ e,
      f
          ∙ ap (λ x. x ++ accepted ss (take_one (receive p.queue) p)) same
          ∙ ap (λ x. received p ++ accepted ss x) (sym next),
      b,
      d,
      c,
    )
run-stops (stops ∷ ss) p a o r = cc a.0

-- After the persister has returned, with an open queue, nothing more goes to the store: what the
-- queue still accepts stays in it, in order.
run_returned :
    (ss : List Step) (p : Persister)
    → p.queue.closed ≡ false
    → p.returned ≡ true
    → (p' : Persister) × (run ss p ≡ ok p')
      × (p'.saved ≡ p.saved)
      × (p'.queue.buf ≡ p.queue.buf ++ accepted ss p)
unfolding run accepted step
run_returned [] p o r = (p, refl, refl, sym (append-nil p.queue.buf))
run_returned (hands m ∷ ss) p o r =
    let (p', e, f, b) = run_returned ss (record p { queue = offer m p.queue }) (ground arith) r in
    (
      p',
      rw (try_send_open p.queue m o) e,
      f,
      b
          ∙ ap (λ x. x ++ accepted ss (record p { queue = offer m p.queue })) (offer_buf m p.queue)
          ∙ append_assoc p.queue.buf _ _,
    )
run_returned (takes ∷ ss) p o r =
    let (p', e, f, b) = run_returned ss p o r in
    let same = if_true p.returned p (take_one (receive p.queue) p) r in
    (p', ap (run ss) same ∙ e, f, b ∙ ap (λ x. p.queue.buf ++ accepted ss x) (sym same))
run_returned (stops ∷ ss) p o r =
    let (p', e, f, b) = run_returned ss p o r in
    let same = if_true p.returned p (record (drain p) { returned = true }) r in
    (p', ap (run ss) same ∙ e, f, b ∙ ap (λ x. p.queue.buf ++ accepted ss x) (sym same))

-- A running persister with an open queue, after any steps without a shutdown, then the shutdown, and
-- then any steps: what goes to the store is what it had saved and queued, and exactly the messages
-- that the queue accepted before the shutdown, in order; those that the queue accepts after it stay
-- in the queue, in order, and never go to the store.
pub run_late :
    (before after : List Step) (p : Persister)
    → AllRunning before
    → p.queue.closed ≡ false
    → p.returned ≡ false
    → (mid last : Persister) × (run (before ++ stops ∷ []) p ≡ ok mid)
      × (run after mid ≡ ok last)
      × (last.saved ≡ received p ++ accepted before p)
      × (last.queue.buf ≡ accepted after mid)
run_late before after p a o r =
    let (mid, e, f, b, d, c) = run-stops before p a o r in
    let (last, g, same, left) = run_returned after mid c d in
    (mid, last, e, g, same ∙ f, left ∙ ap (λ x. x ++ accepted after mid) b)
