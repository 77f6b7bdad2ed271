-- ===== src/Auth/Token.antt =====
-- `newToken` and `hashToken` of internal/auth/auth.go, with the encodings of Go's packages base64 and
-- hex that they use. The random source and SHA-256 are parameters.
pub mod RoundTrip
pub mod Digests
pub mod Drawn
pub mod Tests
use Prim.Native.Char.{Char}
use Prim.Native.String.{char_at}
use text.Mathlib.TextBridge.{of_list}
use chat_room.Prelude.{ℕ, ◌+◌, ◌*◌, ◌/◌, ◌%◌, String, Option, none, some, List, [], ◌∷◌, Bool}
use chat_room.Message.{Time}
use chat_room.Auth.{Crypto, Draw}

-- `base64.RawURLEncoding`: the URL-safe alphabet, without padding.
abbrev pub alphabet : String
alphabet = "ABCDEFGHIJKLMNOPQRSTUVWXYZabcdefghijklmnopqrstuvwxyz0123456789-_"

abbrev pub digit : ℕ → Char
digit n = char_at alphabet n

-- `EncodeToString`, as characters: three bytes give four digits of 6 bits, and what is left over
-- gives two or three, filled up with zero bits.
unfoldable pub encode : List ℕ → List Char
encode [] = []
encode (a ∷ []) = digit (a / 4) ∷ digit (a % 4 * 16) ∷ []
encode (a ∷ b ∷ []) = digit (a / 4) ∷ digit (a % 4 * 16 + b / 16) ∷ digit (b % 16 * 4) ∷ []
encode (a ∷ b ∷ c ∷ rest) =
    digit (a / 4)
    ∷ digit (a % 4 * 16 + b / 16)
    ∷ digit (b % 16 * 4 + c / 64)
    ∷ digit (c % 64)
    ∷ encode rest

-- `rand.Read` gives the bytes, or an error.
unfoldable pub new_token : Option (List ℕ) → Option String
new_token none = none
new_token (some bytes) = some (of_list (encode bytes))

abbrev pub hex_digit : ℕ → Char
hex_digit n = char_at "0123456789abcdef" n

-- `hex.EncodeToString`, as characters
unfoldable pub hex : List ℕ → List Char
hex [] = []
hex (b ∷ bytes) = hex_digit (b / 16) ∷ hex_digit (b % 16) ∷ hex bytes

unfoldable pub hash_token : (sha256 : String → List ℕ) → String → String
hash_token sha256 token = of_list (hex (sha256 token))

-- bcrypt and SHA-256 as the service uses them, and what it draws in one call.
abbrev pub crypto_of :
    (ℕ → String → Option String) → (String → String → Bool) → (String → List ℕ) → Crypto
crypto_of generate compare sha256 = record {
  generate_from_password = generate;
  compare_hash_and_password = compare;
  hash_token = hash_token sha256;
}

abbrev pub drawing : (salt : ℕ) → Option (List ℕ) → Time → Draw
drawing salt bytes now = record { salt = salt; token = new_token bytes; now = now }
