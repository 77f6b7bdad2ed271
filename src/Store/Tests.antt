-- ===== src/Store/Tests.antt =====
-- A message table in memory, which does what SQL says, and the stores over it.
use chat_room.Prelude.{
  ◌↔◌, ℕ, suc, ◌+◌, ◌<◌, ◌≤◌, String, ◌≡◌, refl, sym, ap, Bool, false, Option, none, some, List, [],
  ◌∷◌, ◌++◌, map, if◌then◌else◌, ltb, arith, ℤ, pos, take, last,
}
use chat_room.Message.{Message, Time}
use chat_room.Clock.{epoch, unix_nano, of_unix_nano}
use chat_room.Clock.Range.{IsNear}
use chat_room.Hub.Pumps.{history, failed, loaded}
use chat_room.Store.Table.{Row, Engine, IsSql, IsBelow, in_room, newest_first, stamped}
use chat_room.Store.Log.{AreStamped, with_time, Saves, no_save, save, IsRising, messages_in}
use chat_room.Store.Roundtrip.{
  later, to_micros, sqlite-recent_by_room-saved, postgres-recent_by_room-saved,
}
use chat_room.Store.Failing.{Answered, sqlite-recent_by_room_iff}
use chat_room.Store.Sqlite
use chat_room.Store.Postgres
use mathlib.Core.Option.{some_inj}

module _ {T K : Type 0} (order : T → T → Bool) (keep : T → T) (known : ℕ → K) where
  abbrev fresh : List (Row T) → ℕ
  fresh [] = 1
  fresh (r ∷ rs) = let k = fresh rs in if ltb r.id k then k else suc r.id

  IsBelow-weaken : (i k : ℕ) (rs : List (Row T)) → i ≤ k → IsBelow i rs → IsBelow k rs
  IsBelow-weaken i k [] le b = tt
  IsBelow-weaken i k (r ∷ rs) le (h, b) = (omega (arith, h, le), IsBelow-weaken i k rs le b)

  fresh-IsBelow : (rs : List (Row T)) → IsBelow (fresh rs) rs
  fresh-IsBelow [] = tt
  fresh-IsBelow (r ∷ rs) = (
    ground arith,
    IsBelow-weaken (fresh rs) (fresh (r ∷ rs)) rs (ground arith) (fresh-IsBelow rs),
  )

  abbrev pub memory : Engine (List (Row T)) T K
  memory = record {
    rows = λ d. d;
    insert_message = λ room sender_id sender_name content t d. (
      d
          ++ record {
            id = fresh d;
            room = room;
            sender_id = sender_id;
            sender_name = sender_name;
            content = content;
            created_at = keep t;
          }
            ∷ [],
      some (known (fresh d)),
    );
    select_recent = λ room limit d. elim limit [
      | pos n ↦ some (record {
        rows = map (λ r. some r) (take n (newest_first order (in_room room d)));
        broken = false;
      })
      | _ ↦ none
    ];
  }

  pub memory-IsSql : IsSql order keep known memory
  memory-IsSql = record {
    added = λ room sender_id sender_name content t d d' k i.
        (fresh d, some_inj.0 (sym (ap (λ p. p.1) i)), fresh-IsBelow d, sym (ap (λ p. p.0) i));
    selected = λ room n d. refl;
  }

abbrev pub posted : ℕ → String → String → Time → Message
posted id room content t = record {
  id = id;
  room = room;
  sender_id = "1";
  sender_name = "Ann";
  content = content;
  created_at = t;
}

abbrev saved : List Message
saved =
    posted 1 "go" "one" (epoch + 1500)
    ∷ posted 2 "rust" "two" (epoch + 1500)
    ∷ posted 3 "go" "three" (epoch + 3700)
    ∷ posted 4 "go" "four" (epoch + 3800)
    ∷ []

abbrev pub sqlite_table : Engine (List (Row ℤ)) ℤ (Option ℕ)
sqlite_table = memory later (λ t. t) (λ id. some id)

abbrev sqlite_after : List (Row ℤ)
sqlite_after =
    map
      (λ m. record {
        id = m.id;
        room = m.room;
        sender_id = m.sender_id;
        sender_name = m.sender_name;
        content = m.content;
        created_at = unix_nano m.created_at;
      })
      saved

-- The third message comes without a time.
abbrev given : List (Time × Message)
given =
    (0, posted 0 "go" "one" (epoch + 1500))
    ∷ (0, posted 0 "rust" "two" (epoch + 1500))
    ∷ (epoch + 3700, posted 0 "go" "three" 0)
    ∷ (0, posted 0 "go" "four" (epoch + 3800))
    ∷ []

sqlite_saves : Saves (Sqlite.sqlite sqlite_table) [] given saved sqlite_after
unfolding Sqlite.sqlite stamped
sqlite_saves = save 0 (posted 0 "go" "one" (epoch + 1500)) refl (
    save 0 (posted 0 "rust" "two" (epoch + 1500)) refl (
      save (epoch + 3700) (posted 0 "go" "three" 0) refl
        (save 0 (posted 0 "go" "four" (epoch + 3800)) refl no_save)))

pub epoch-IsNear : (n : ℕ) → n < 4000 → IsNear (epoch + n)
epoch-IsNear n h = record { since = omega arith; before = omega (arith, h) }

saved-IsRising-IsNear : IsRising IsNear 0 saved
saved-IsRising-IsNear = (
  omega arith,
  epoch-IsNear 1500 (omega arith),
  (
    omega arith,
    epoch-IsNear 1500 (omega arith),
    (
      omega arith,
      epoch-IsNear 3700 (omega arith),
      (omega arith, epoch-IsNear 3800 (omega arith), tt),
    ),
  ),
)

saved-IsRising : IsRising (λ t. Unit {0}) 0 saved
saved-IsRising = (omega arith, tt, (omega arith, tt, (omega arith, tt, (omega arith, tt, tt))))

sqlite-recent_by_room-saved_example :
    AreStamped given saved
    × (history
          (some (λ j limit. Sqlite.recent_by_room sqlite_table j limit sqlite_after))
          (pos 2)
          "go"
        ≡ loaded (last 2 (messages_in "go" saved)))
sqlite-recent_by_room-saved_example =
    sqlite-recent_by_room-saved sqlite_table "go" 2 (memory-IsSql later (λ t. t) (λ id. some id))
      refl sqlite_saves saved-IsRising-IsNear

sqlite_test :
    Sqlite.recent_by_room sqlite_table "go" (pos 2) sqlite_after
    ≡ loaded (posted 3 "go" "three" (epoch + 3700) ∷ posted 4 "go" "four" (epoch + 3800) ∷ [])
unfolding of_unix_nano Sqlite.recent_by_room take unix_nano
sqlite_test = refl

abbrev postgres_table : Engine (List (Row Time)) Time ℕ
postgres_table = memory (λ s t. ltb t s) to_micros (λ id. id)

abbrev postgres_after : List (Row Time)
postgres_after =
    map
      (λ m. record {
        id = m.id;
        room = m.room;
        sender_id = m.sender_id;
        sender_name = m.sender_name;
        content = m.content;
        created_at = to_micros m.created_at;
      })
      saved

postgres_saves : Saves (Postgres.postgres postgres_table) [] given saved postgres_after
unfolding Postgres.postgres stamped
postgres_saves = save 0 (posted 0 "go" "one" (epoch + 1500)) refl (
    save 0 (posted 0 "rust" "two" (epoch + 1500)) refl (
      save (epoch + 3700) (posted 0 "go" "three" 0) refl
        (save 0 (posted 0 "go" "four" (epoch + 3800)) refl no_save)))

postgres-recent_by_room-saved_example :
    AreStamped given saved
    × (history
          (some (λ j limit. Postgres.recent_by_room postgres_table j limit postgres_after))
          (pos 2)
          "go"
        ≡ loaded (last 2 (messages_in "go" (map (with_time to_micros) saved))))
postgres-recent_by_room-saved_example =
    postgres-recent_by_room-saved postgres_table "go" 2
      (memory-IsSql (λ s t. ltb t s) to_micros (λ id. id)) refl postgres_saves saved-IsRising

-- A second row that does not scan.
abbrev half_read : Engine (Unit {0}) ℤ (Option ℕ)
half_read = record {
  rows = λ d. [];
  insert_message = λ room sender_id sender_name content t d. (d, none);
  select_recent = λ room limit d. some (record {
    rows =
        some (record {
          id = 1;
          room = "go";
          sender_id = "1";
          sender_name = "Ann";
          content = "one";
          created_at = pos 5;
        })
        ∷ none
        ∷ [];
    broken = false;
  });
}

half_read_test : Sqlite.recent_by_room half_read "go" (pos 2) tt ≡ failed
unfolding Sqlite.recent_by_room
half_read_test = refl

sqlite-recent_by_room_iff_example :
    (Sqlite.recent_by_room half_read "go" (pos 2) tt ≡ loaded [])
    ↔ Answered of_unix_nano (half_read.select_recent "go" (pos 2) tt) []
sqlite-recent_by_room_iff_example = sqlite-recent_by_room_iff half_read "go" (pos 2) tt []
