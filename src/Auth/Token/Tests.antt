-- ===== src/Auth/Token/Tests.antt =====
-- Tokens at concrete bytes.
use Prim.Native.Char.{code}
use Prim.Native.String.{len, char_at}
use text.Mathlib.TextBridge.{to_list}
use chat_room.Prelude.{
  ℕ, ◌%◌, String, ◌≡◌, ◌≢◌, refl, some, List, [], ◌∷◌, length, arith, ltb, if◌then◌else◌, string_eq,
  assign,
}
use chat_room.Auth.{ok, no_session, err, login, authenticate, admit, open_session}
use chat_room.Auth.Text.{trim_space, trim_left, trim_right}
use chat_room.Auth.Sessions.{Matches}
use chat_room.Auth.Tests.{Database, database, database-IsStore, named, registered, ann, crypto}
use chat_room.Auth.Token.{crypto_of, encode, new_token, hex, hash_token}
use chat_room.Auth.Token.RoundTrip.{IsToken, new_token-IsToken}
use chat_room.Auth.Token.Digests.{hash_token-new_token}
use chat_room.Auth.Token.Drawn.{login-IsToken}

-- A digest of two bytes, for the length and a character.
abbrev pub sha256 : String → List ℕ
sha256 s = len s % 256 ∷ code (char_at s 1) % 256 ∷ []

-- From the documentation of the encodings.
encode_test : new_token (some (20 ∷ 251 ∷ 156 ∷ 3 ∷ 217 ∷ 126 ∷ [])) ≡ some "FPucA9l-"
unfolding new_token encode
encode_test = refl

encode_short_test : new_token (some (20 ∷ 251 ∷ 156 ∷ 3 ∷ [])) ≡ some "FPucAw"
unfolding new_token encode
encode_short_test = refl

hash_token_test : hash_token (λ s. 222 ∷ 173 ∷ 190 ∷ 239 ∷ []) "t0k" ≡ "deadbeef"
unfolding hash_token hex
hash_token_test = refl

new_token-IsToken_example :
    (token : String) × (new_token (some (255 ∷ 0 ∷ 62 ∷ 63 ∷ [])) ≡ some token)
    × IsToken (255 ∷ 0 ∷ 62 ∷ 63 ∷ []) token
new_token-IsToken_example =
    new_token-IsToken (255 ∷ 0 ∷ 62 ∷ 63 ∷ [])
      (omega arith, (omega arith, (omega arith, (omega arith, tt))))

hash_token-new_token_test : hash_token sha256 "AQ" ≢ hash_token sha256 "Ag"
unfolding new_token encode
hash_token-new_token_test =
    hash_token-new_token sha256 (1 ∷ []) (2 ∷ []) "AQ" "Ag" (λ s. (omega arith, (omega arith, tt)))
      (omega arith, tt) (omega arith, tt) refl refl (λ n e. ground (arith, e))
      (λ e. ground (arith, e))

-- 32 bytes.
abbrev pub bytes : List ℕ
bytes =
    255 ∷ 1 ∷ 2 ∷ 3 ∷ 4 ∷ 5 ∷ 6 ∷ 7 ∷ 8 ∷ 9 ∷ 10 ∷ 11 ∷ 12 ∷ 13 ∷ 14 ∷ 15 ∷ 16 ∷ 17 ∷ 18 ∷ 19 ∷ 20
    ∷ 21 ∷ 22 ∷ 23 ∷ 24 ∷ 25 ∷ 26 ∷ 27 ∷ 28 ∷ 29 ∷ 30 ∷ 31 ∷ []

abbrev matched :
    Matches
      (crypto_of crypto.generate_from_password crypto.compare_hash_and_password sha256)
      database
      50
      "ann"
      "open sesame"
      registered
unfolding named trim_space trim_left trim_right
matched = record { user = ann; hash = "open sesame"; found = refl; same = refl }

abbrev pub token : String
token = "_wECAwQFBgcICQoLDA0ODxAREhMUFRYXGBkaGxwdHh8"

abbrev logged_in : Database
logged_in = record registered {
  sessions = assign (hash_token sha256 token) (1, 150) registered.sessions;
}

login-IsToken_example :
    IsToken bytes token
    × (length (to_list token) ≡ 43)
    × (authenticate
          (crypto_of crypto.generate_from_password crypto.compare_hash_and_password sha256)
          database
          50
          149
          token
          logged_in
        ≡ (if ltb 149 150 then ok ann else err no_session))
unfolding login admit open_session trim_space trim_left trim_right named assign new_token encode
login-IsToken_example =
    login-IsToken crypto.generate_from_password crypto.compare_hash_and_password sha256 database 50
      database-IsStore 5 bytes 100 149 "ann" "open sesame" token registered logged_in ann
      (omega arith) refl matched refl
