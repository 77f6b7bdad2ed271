-- ===== src/Auth/Token/Digests.antt =====
-- The digest can be read back from the hash that is stored.
use Prim.Native.Char.{Char, code}
use text.Mathlib.TextBridge.{to_list, to_list-of_list}
use chat_room.Prelude.{
  all_below, all_below_lem, ℕ, ◌+◌, ◌*◌, ◌-◌, ◌/◌, ◌%◌, ◌<◌, String, Bool, true, ◌≡◌, ◌≢◌, refl,
  sym, ap, ◌∙◌, some, List, [], ◌∷◌, if◌then◌else◌, nat_beq, leb, arith,
}
use chat_room.Auth.Token.RoundTrip.{AllBytes, new_token-IsToken, decode}
use chat_room.Auth.Token.{new_token, hex_digit, hex, hash_token}

hex_value : Char → ℕ
hex_value c = if leb 97 (code c) then code c - 87 else code c - 48

hex_passes : ℕ → Bool
hex_passes n = nat_beq (hex_value (hex_digit n)) n

hex_digits_pass : all_below hex_passes 16 ≡ true
unfolding all_below hex_passes hex_value
hex_digits_pass = refl

hex_value_digit : (n : ℕ) → n < 16 → hex_value (hex_digit n) ≡ n
unfolding hex_passes
hex_value_digit n b = ground (arith, all_below_lem hex_passes 16 n hex_digits_pass b)

unhex : List Char → List ℕ
unhex [] = []
unhex (c ∷ []) = []
unhex (c ∷ d ∷ rest) = (hex_value c * 16 + hex_value d) ∷ unhex rest

unhex-hex : (bs : List ℕ) → AllBytes bs → unhex (hex bs) ≡ bs
unfolding unhex hex
unhex-hex [] h = refl
unhex-hex (b ∷ bs) (hb, hs) =
    rw
      (
        hex_value_digit (b / 16) (omega arith),
        hex_value_digit (b % 16) (omega arith),
        unhex-hex bs hs,
      )
      (ap (λ x. x ∷ bs) (omega arith))

-- Two tokens have the same stored hash only if they have the same digest.
pub hash_token_injective :
    (sha256 : String → List ℕ) (t u : String)
    → ((s : String) → AllBytes (sha256 s))
    → hash_token sha256 t ≡ hash_token sha256 u
    → sha256 t ≡ sha256 u
unfolding hash_token
hash_token_injective sha256 t u h e =
    sym (unhex-hex (sha256 t) (h t))
    ∙ ap unhex
        (sym (to_list-of_list (hex (sha256 t))) ∙ ap to_list e ∙ to_list-of_list (hex (sha256 u)))
    ∙ unhex-hex (sha256 u) (h u)

-- Two tokens drawn as different random bytes have different stored hashes, unless they are two
-- different texts with the same SHA-256 digest.
pub hash_token-new_token :
    (sha256 : String → List ℕ) (bytes others : List ℕ) (t u : String)
    → ((s : String) → AllBytes (sha256 s))
    → AllBytes bytes
    → AllBytes others
    → new_token (some bytes) ≡ some t
    → new_token (some others) ≡ some u
    → (t ≢ u → sha256 t ≢ sha256 u)
    → bytes ≢ others
    → hash_token sha256 t ≢ hash_token sha256 u
hash_token-new_token sha256 bytes others t u h hb ho e f apart differ same =
    let (t', e', i) = new_token-IsToken bytes hb in
    let (u', f', j) = new_token-IsToken others ho in
    apart
      (λ p. differ (
        sym i.decoded
        ∙ ap (λ x. decode (to_list x)) (given t' t (sym e' ∙ e) ∙ p ∙ given u u' (sym f ∙ f'))
        ∙ j.decoded))
      (hash_token_injective sha256 t u h same)
  where
    given : (x y : String) → some x ≡ some y → x ≡ y
    given x y p = cc
