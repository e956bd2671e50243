-- ===== src/Protocol/Token.antt =====
-- `GenerateToken` of internal/protocol/server.go. The random source gives 16 bytes or an error.
use slush.Base.{
  ℕ, ◌+◌, ◌-◌, ◌*◌, ◌/◌, ◌%◌, ◌<◌, [], ◌∷◌, ◌≡◌, ◌≢◌, refl, cons-ne-nil, arith, length, All, Result,
  ok, err, ltb, if◌then◌else◌,
}
use slush.Protocol.Loopback.RoundTrip.{IsToken}
use slush.Text.Fields.{IsVisible}
use slush.Text.{Bytes}

abbrev pub hex_digit : ℕ → ℕ
hex_digit n = if ltb n 10 then b'0' + n else b'a' + (n - 10)

-- `hex.EncodeToString`
unfoldable pub encode_hex : Bytes → Bytes
encode_hex [] = []
encode_hex (c ∷ s) = hex_digit (c / 16) ∷ hex_digit (c % 16) ∷ encode_hex s

pub data TokenError : Type 0 where
  generate_token_failed : Bytes → TokenError

unfoldable pub generate_token : Result Bytes Bytes → Result TokenError Bytes
generate_token (err e) = err (generate_token_failed e)
generate_token (ok raw) = ok (encode_hex raw)

abbrev pub IsByte : ℕ → Type 0
IsByte c = c < 256

pub length-encode_hex : (raw : Bytes) → length (encode_hex raw) ≡ 2 * length raw
unfolding encode_hex
length-encode_hex [] = refl
length-encode_hex (c ∷ raw) = omega (arith, length-encode_hex raw)

encode_hex-IsVisible : (raw : Bytes) → All IsByte raw → All IsVisible (encode_hex raw)
unfolding encode_hex
encode_hex-IsVisible [] h = tt
encode_hex-IsVisible (c ∷ raw) h = (ground arith, (ground arith, encode_hex-IsVisible raw h.1))

hex_digit-injective : (m n : ℕ) → m < 16 → n < 16 → hex_digit m ≡ hex_digit n → m ≡ n
hex_digit-injective m n hm hn e = ground arith

encode_hex_parts :
    (c d : ℕ) (a b : Bytes)
    → IsByte c
    → IsByte d
    → encode_hex (c ∷ a) ≡ encode_hex (d ∷ b)
    → (c / 16 ≡ d / 16) × (c % 16 ≡ d % 16) × (encode_hex a ≡ encode_hex b)
unfolding encode_hex
encode_hex_parts c d a b hc hd e = (
  hex_digit-injective (c / 16) (d / 16) (omega arith) (omega arith) (cc),
  hex_digit-injective (c % 16) (d % 16) (omega arith) (omega arith) (cc),
  cc,
)

-- Different random bytes give different tokens.
encode_hex-injective :
    (a b : Bytes) → All IsByte a → All IsByte b → encode_hex a ≡ encode_hex b → a ≡ b
unfolding encode_hex
encode_hex-injective [] [] ha hb e = refl
encode_hex-injective [] (d ∷ b) ha hb e = ground arith
encode_hex-injective (c ∷ a) [] ha hb e = ground arith
encode_hex-injective (c ∷ a) (d ∷ b) ha hb e =
    let (high, low, rest) = encode_hex_parts c d a b ha.0 hb.0 e in
    ground (arith, encode_hex-injective a b ha.1 hb.1 rest)

-- From 16 random bytes a token of 32 visible characters is made, which fits a request line.
pub generate_token-IsToken :
    (raw : Bytes)
    → length raw ≡ 16
    → All IsByte raw
    → (token : Bytes) × (generate_token (ok raw) ≡ ok token) × IsToken token × (length token ≡ 32)
unfolding generate_token
generate_token-IsToken raw h bytes =
    let l : length (encode_hex raw) ≡ 32 = omega (arith, length-encode_hex raw) in
    (
      encode_hex raw,
      refl,
      record {
        word = (encode_hex-IsVisible raw bytes, ne_nil (encode_hex raw) l);
        short = omega (arith, l);
      },
      l,
    )
  where
    ne_nil : (s : Bytes) → length s ≡ 32 → s ≢ []
    ne_nil [] e = absurd (omega arith)
    ne_nil (c ∷ s) e = cons-ne-nil c s

-- Sources of bytes that differ give different tokens.
pub generate_token-injective :
    (a b : Bytes)
    → All IsByte a
    → All IsByte b
    → generate_token (ok a) ≡ generate_token (ok b)
    → a ≡ b
unfolding generate_token
generate_token-injective a b ha hb e = encode_hex-injective a b ha hb (cc)
