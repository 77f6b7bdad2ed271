-- ===== src/Auth/Token/RoundTrip.antt =====
-- The random bytes can be read back from the token that stands for them.
use Prim.Native.Char.{Char, code}
use text.Mathlib.TextBridge.{of_list, to_list, to_list-of_list}
use chat_room.Prelude.{
  all_below, all_below_lem, ℕ, ◌+◌, ◌*◌, ◌-◌, ◌/◌, ◌%◌, ◌<◌, String, Bool, true, ◌&&◌, ◌||◌, ◌≡◌,
  refl, ap, some, List, [], ◌∷◌, if◌then◌else◌, nat_beq, leb, length, arith,
}
use chat_room.Auth.Token.{digit, encode, new_token}

-- What a digit stands for, by the ranges of the alphabet.
abbrev pub value : Char → ℕ
value c =
    if leb 97 (code c)
    then code c - 71
    else if nat_beq (code c) 95
    then 63
    else if leb 65 (code c)
    then code c - 65
    else if leb 48 (code c)
    then code c + 4
    else 62

-- A letter, a digit, `-` or `_`.
abbrev pub is_url_safe : Char → Bool
is_url_safe c =
    (leb 65 (code c) && leb (code c) 90)
    || (leb 97 (code c) && leb (code c) 122)
    || (leb 48 (code c) && leb (code c) 57)
    || nat_beq (code c) 45
    || nat_beq (code c) 95

passes : ℕ → Bool
passes n = nat_beq (value (digit n)) n && is_url_safe (digit n)

digits_pass : all_below passes 64 ≡ true
unfolding all_below passes
digits_pass = refl

digit_lem : (n : ℕ) → n < 64 → (value (digit n) ≡ n) × (is_url_safe (digit n) ≡ true)
unfolding passes
digit_lem n b = ground (arith, all_below_lem passes 64 n digits_pass b)

-- Four digits give three bytes back, three give two, two give one.
unfoldable pub decode : List Char → List ℕ
decode [] = []
decode (p ∷ []) = []
decode (p ∷ q ∷ []) = (value p * 4 + value q / 16) ∷ []
decode (p ∷ q ∷ r ∷ []) = (value p * 4 + value q / 16) ∷ (value q % 16 * 16 + value r / 4) ∷ []
decode (p ∷ q ∷ r ∷ s ∷ rest) =
    (value p * 4 + value q / 16)
    ∷ (value q % 16 * 16 + value r / 4)
    ∷ (value r % 4 * 64 + value s)
    ∷ decode rest

abbrev pub AllBytes : List ℕ → Type 0
AllBytes [] = Unit
AllBytes (b ∷ bs) = (b < 256) × AllBytes bs

abbrev pub AllUrlSafe : List Char → Type 0
AllUrlSafe [] = Unit
AllUrlSafe (c ∷ cs) = (is_url_safe c ≡ true) × AllUrlSafe cs

value_digit : (n : ℕ) → n < 64 → value (digit n) ≡ n
value_digit n b = (digit_lem n b).0

safe_digit : (n : ℕ) → n < 64 → is_url_safe (digit n) ≡ true
safe_digit n b = (digit_lem n b).1

module _ (a b c : ℕ) (ha : a < 256) (hb : b < 256) (hc : c < 256) where
  first_byte :
      (n x : ℕ) → n ≡ a % 4 * 16 + x → x < 16 → value (digit (a / 4)) * 4 + value (digit n) / 16 ≡ a
  first_byte n x e hx =
      rw (value_digit (a / 4) (omega arith), value_digit n (omega arith)) (omega arith)

  second_byte :
      (n y : ℕ)
      → n ≡ b % 16 * 4 + y
      → y < 4
      → value (digit (a % 4 * 16 + b / 16)) % 16 * 16 + value (digit n) / 4 ≡ b
  second_byte n y e hy =
      rw (value_digit (a % 4 * 16 + b / 16) (omega arith), value_digit n (omega arith))
        (omega arith)

  third_byte : value (digit (b % 16 * 4 + c / 64)) % 4 * 64 + value (digit (c % 64)) ≡ c
  third_byte =
      rw (value_digit (b % 16 * 4 + c / 64) (omega arith), value_digit (c % 64) (omega arith))
        (omega arith)

decode-encode : (bs : List ℕ) → AllBytes bs → decode (encode bs) ≡ bs
unfolding decode encode
decode-encode [] h = refl
decode-encode (a ∷ []) (ha, _) =
    ap (λ x. x ∷ [])
      (first_byte a 0 0 ha (omega arith) (omega arith) (a % 4 * 16) 0 (omega arith) (omega arith))
decode-encode (a ∷ b ∷ []) (ha, (hb, _)) =
    let first = first_byte a b 0 ha hb (omega arith) _ (b / 16) refl (omega arith) in
    let second = second_byte a b 0 ha hb (omega arith) (b % 16 * 4) 0 (omega arith) (omega arith) in
    rw (first, second) refl
decode-encode (a ∷ b ∷ c ∷ rest) (ha, (hb, (hc, hs))) =
    let first = first_byte a b c ha hb hc _ (b / 16) refl (omega arith) in
    let second = second_byte a b c ha hb hc _ (c / 64) refl (omega arith) in
    rw (first, second, third_byte a b c ha hb hc, decode-encode rest hs) refl

encode-AllUrlSafe : (bs : List ℕ) → AllBytes bs → AllUrlSafe (encode bs)
unfolding encode
encode-AllUrlSafe [] h = tt
encode-AllUrlSafe (a ∷ []) (ha, _) =
    (safe_digit (a / 4) (omega arith), (safe_digit (a % 4 * 16) (omega arith), tt))
encode-AllUrlSafe (a ∷ b ∷ []) (ha, (hb, _)) = (
  safe_digit (a / 4) (omega arith),
  (safe_digit (a % 4 * 16 + b / 16) (omega arith), (safe_digit (b % 16 * 4) (omega arith), tt)),
)
encode-AllUrlSafe (a ∷ b ∷ c ∷ rest) (ha, (hb, (hc, hs))) = (
  safe_digit (a / 4) (omega arith),
  (
    safe_digit (a % 4 * 16 + b / 16) (omega arith),
    (
      safe_digit (b % 16 * 4 + c / 64) (omega arith),
      (safe_digit (c % 64) (omega arith), encode-AllUrlSafe rest hs),
    ),
  ),
)

length-encode : (bs : List ℕ) → length (encode bs) ≡ (length bs * 4 + 2) / 3
unfolding encode
length-encode [] = refl
length-encode (a ∷ []) = refl
length-encode (a ∷ b ∷ []) = refl
length-encode (a ∷ b ∷ c ∷ rest) = ground (arith, length-encode rest)

-- A token that `newToken` draws.
pub record IsToken (bytes : List ℕ) (token : String) : Type 0 where
  -- it is 43 characters long for 32 bytes, each one a letter, a digit, `-` or `_`
  pub long : length (to_list token) ≡ (length bytes * 4 + 2) / 3
  pub safe : AllUrlSafe (to_list token)
  -- nothing of the bytes is lost
  pub decoded : decode (to_list token) ≡ bytes

-- A token drawn as random bytes is a text of four characters for three bytes, 43 for the 32 bytes
-- that the service draws; each is a letter, a digit, `-` or `_`; and the bytes can be decoded from
-- it, so that different bytes make different tokens.
pub new_token-IsToken :
    (bytes : List ℕ)
    → AllBytes bytes
    → (token : String) × (new_token (some bytes) ≡ some token) × IsToken bytes token
unfolding new_token
new_token-IsToken bytes h =
    let same = to_list-of_list (encode bytes) in
    (
      of_list (encode bytes),
      refl,
      record {
        long = rw same (length-encode bytes);
        safe = rw same (encode-AllUrlSafe bytes h);
        decoded = rw same (decode-encode bytes h);
      },
    )
