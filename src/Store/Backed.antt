-- ===== src/Store/Backed.antt =====
-- A message store of either kind: `write` and `read` are what it does to times, `inserted` what it
-- makes of the answer to an insert.
use chat_room.Prelude.{
  ℕ, ◌≤◌, String, ◌≡◌, refl, sym, ap, ◌∙◌, Bool, false, Option, none, some, List, [], ◌∷◌, ◌++◌,
  map, arith, pos, last,
}
use mathlib.Core.Path.{subst}
use mathlib.Core.Option.{some_inj}
use mathlib.Core.List.{append-nil, append_assoc, map-map}
use chat_room.Message.{Message, Time}
use chat_room.Hub.Pumps.{loaded}
use chat_room.Store.{MessageStore}
use chat_room.Store.Table.{Row, Engine, IsSql, IsBelow, stamped, message_of, collected}
use chat_room.Store.Table.Order.{IsAscending, IsNewest, IsAscending-snoc}
use chat_room.Store.Log.{
  stamped-time_given, AreStamped, with_time, Saves, no_save, save, IsRising, messages_in,
  collected-rows,
}

module _ {D T K : Type 0} (e : Engine D T K) (write : Time → T) (read : T → Time)
    (inserted : Message → Option K → Option Message) where
  unfoldable pub backed : MessageStore D
  backed = record {
    save_message = λ now given d.
        let m = stamped now given in
        let (d', r) =
          e.insert_message m.room m.sender_id m.sender_name m.content (write m.created_at) d in
        (d', inserted m r);
    recent_by_room = λ room limit d. collected read (e.select_recent room limit d);
  }

  module _ (later : T → T → Bool) (keep : T → T) (known : ℕ → K) (law : IsSql later keep known e)
      (no_answer : (m : Message) → inserted m none ≡ none)
      (answer : (m : Message) (id : ℕ) → inserted m (some (known id)) ≡ some (record m { id = id }))
      (IsGood : Time → Type 0)
      (order : (t u : Time)
        → IsGood t
        → IsGood u
        → t ≤ u
        → later (keep (write t)) (keep (write u)) ≡ false) where
    abbrev row_of : Message → Row T
    row_of m = record {
      id = m.id;
      room = m.room;
      sender_id = m.sender_id;
      sender_name = m.sender_name;
      content = m.content;
      created_at = keep (write m.created_at);
    }

    -- A save that succeeds.
    abbrev Saved : Time → Message → D → D → Message → Type 0
    Saved now given d d' m =
        (m ≡ record (stamped now given) { id = m.id })
        × IsBelow m.id (e.rows d)
        × (e.rows d' ≡ e.rows d ++ row_of m ∷ [])

    told :
        (g m : Message) (k : K) (id : ℕ)
        → inserted g (some k) ≡ some m
        → k ≡ known id
        → m ≡ record g { id = id }
    told g m k id a known_id =
        some_inj.0 (sym a ∙ ap (λ j. inserted g (some j)) known_id ∙ answer g id)

    Saved-inserted :
        (now : Time) (given : Message) (d d' : D) (r : Option K) (m : Message)
        → (let g = stamped now given in
            e.insert_message g.room g.sender_id g.sender_name g.content (write g.created_at) d)
          ≡ (d', r)
        → inserted (stamped now given) r ≡ some m
        → Saved now given d d' m
    Saved-inserted now given d d' none m i a =
        absurd (ground (arith, i, a, no_answer (stamped now given)))
    Saved-inserted now given d d' (some k) m i a =
        let g = stamped now given in
        let (id, known_id, below, added) =
          law.added g.room g.sender_id g.sender_name g.content (write g.created_at) d d' k i in
        subst (λ x. Saved now given d d' x) (sym (told g m k id a known_id)) (refl, below, added)

    backed-Saved :
        (now : Time) (given : Message) (d d' : D) (m : Message)
        → backed.save_message now given d ≡ (d', some m)
        → Saved now given d d' m
    unfolding backed
    backed-Saved now given d d' m s =
        let g = stamped now given in
        let r =
          e.insert_message g.room g.sender_id g.sender_name g.content (write g.created_at) d in
        Saved-inserted now given d d' r.1 m (ap (λ p. (p.0, r.1)) s) (ap (λ p. p.1) s)

    -- No row is later than a good time from `t` on.
    abbrev IsUpto : Time → List (Row T) → Type 0
    IsUpto t [] = Unit {0}
    IsUpto t (r ∷ rs) =
        ((u : Time) → t ≤ u → IsGood u → later r.created_at (keep (write u)) ≡ false) × IsUpto t rs

    IsUpto-snoc :
        (t : Time) (m : Message) (rs : List (Row T))
        → IsUpto t rs
        → t ≤ m.created_at
        → IsGood m.created_at
        → IsUpto m.created_at (rs ++ row_of m ∷ [])
    IsUpto-snoc t m [] h le g = (λ u le' g'. order m.created_at u g g' le', tt)
    IsUpto-snoc t m (r ∷ rs) (h, hs) le g =
        (λ u le' g'. h u (omega (arith, le, le')) g', IsUpto-snoc t m rs hs le g)

    IsNewest-row :
        (t : Time) (m : Message) (rs : List (Row T))
        → IsUpto t rs
        → IsBelow m.id rs
        → t ≤ m.created_at
        → IsGood m.created_at
        → IsNewest later (row_of m) rs
    IsNewest-row t m [] h b le g = tt
    IsNewest-row t m (r ∷ rs) (h, hs) (b, bs) le g =
        (ground (arith, h m.created_at le g, b), IsNewest-row t m rs hs bs le g)

    rows-Saves :
        {d d' : D} {gs : List (Time × Message)} {ms : List Message}
        → Saves backed d gs ms d'
        → e.rows d' ≡ e.rows d ++ map row_of ms
    rows-Saves {d} no_save = sym (append-nil (e.rows d))
    rows-Saves {d} (save now given {d' = d1} {m = m} {ms = ms} s ss) =
        let (told_m, below, added) = backed-Saved now given d d1 m s in
        rows-Saves ss
        ∙ ap (λ rs. rs ++ map row_of ms) added
        ∙ append_assoc (e.rows d) (row_of m ∷ []) (map row_of ms)

    pub AreStamped-Saves :
        {d d' : D} {gs : List (Time × Message)} {ms : List Message}
        → Saves backed d gs ms d'
        → AreStamped gs ms
    AreStamped-Saves no_save = tt
    AreStamped-Saves {d} (save now given {d' = d1} {m = m} s ss) = (
      (backed-Saved now given d d1 m s).0
          ∙ ap {A = Message} {B = Message} (λ x. record x { id = m.id })
              (stamped-time_given now given),
      AreStamped-Saves ss,
    )

    IsAscending-Saves :
        {d d' : D} {gs : List (Time × Message)} {ms : List Message} (t : Time)
        → Saves backed d gs ms d'
        → IsUpto t (e.rows d)
        → IsRising IsGood t ms
        → IsAscending later (e.rows d)
        → IsAscending later (e.rows d')
    IsAscending-Saves t no_save up rise a = a
    IsAscending-Saves {d} t (save now given {d' = d1} {m = m} {ms = ms} s ss) up (le, g, rise) a =
        let (told_m, below, added) = backed-Saved now given d d1 m s in
        IsAscending-Saves m.created_at ss
          (subst (IsUpto m.created_at) (sym added) (IsUpto-snoc t m (e.rows d) up le g)) rise
          (subst (IsAscending later) (sym added) (
            IsAscending-snoc later (row_of m) (e.rows d) a
              (IsNewest-row t m (e.rows d) up below le g)))

    -- The last messages of a room, as they come back from the columns.
    pub recent_by_room-Saves :
        {d d' : D} {gs : List (Time × Message)} {ms : List Message} (room : String) (n : ℕ)
        → e.rows d ≡ []
        → Saves backed d gs ms d'
        → IsRising IsGood 0 ms
        → backed.recent_by_room room (pos n) d'
          ≡ loaded (last n (messages_in room (map (with_time (λ t. read (keep (write t)))) ms)))
    unfolding backed
    recent_by_room-Saves {d} {d'} {ms} room n empty ss rise =
        ap (collected read) (law.selected room n d')
        ∙ collected-rows read later room n (e.rows d') (
            IsAscending-Saves 0 ss (subst (IsUpto 0) (sym empty) tt) rise
              (subst (IsAscending later) (sym empty) tt))
        ∙ ap (λ rs. loaded (last n (messages_in room (map (message_of read) rs))))
            (rows-Saves ss ∙ ap (λ rs. rs ++ map row_of ms) empty)
        ∙ ap (λ l. loaded (last n (messages_in room l))) (map-map (message_of read) row_of ms)
