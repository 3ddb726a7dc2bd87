-- ===== src/Go/Hex.antt =====
-- `DecodeString` of Go's package `encoding/hex`, and the digits of a byte.
use procfs.Base.{
  ℕ, ◌+◌, ◌-◌, ◌*◌, ◌/◌, ◌%◌, ◌<◌, ◌&&◌, ltb, leb, [], ◌∷◌, ◌≡◌, refl, Bytes, All, arith,
  if◌then◌else◌,
}
use procfs.Go.Result.{Result, ok, err, errorf, Returns, Returns-bind, ◌>>=◌}

-- `reverseHexTable`
unfoldable pub hex_value : ℕ → Result ℕ
hex_value c =
    if leb b'0' c && leb c b'9'
    then ok (c - b'0')
    else if leb b'a' c && leb c b'f'
    then ok (c - b'a' + 10)
    else if leb b'A' c && leb c b'F'
    then ok (c - b'A' + 10)
    else err (errorf "encoding/hex: invalid byte: %#U")

unfoldable pub decode_string : Bytes → Result Bytes
unfolding hex_value
decode_string [] = ok []
decode_string (p ∷ []) = do a ← hex_value p; err (errorf "encoding/hex: odd length hex string")
decode_string (p ∷ q ∷ s) = do
  a ← hex_value p
  b ← hex_value q
  rest ← decode_string s
  ok ((a * 16 + b) ∷ rest)

abbrev pub hex_digit : ℕ → ℕ
hex_digit n = if ltb n 10 then b'0' + n else b'A' + (n - 10)

-- Two digits for each byte, as "%02X" prints them.
abbrev pub hex_text : Bytes → Bytes
hex_text [] = []
hex_text (b ∷ bs) = hex_digit (b / 16) ∷ hex_digit (b % 16) ∷ hex_text bs

hex_value-hex_digit : (n : ℕ) → n < 16 → hex_value (hex_digit n) ≡ ok n
unfolding hex_value
hex_value-hex_digit n h = ground arith

pub decode_string-hex_text :
    (bs : Bytes) → All (λ b. b < 256) bs → decode_string (hex_text bs) ≡ ok bs
unfolding decode_string
decode_string-hex_text [] h = refl
decode_string-hex_text (b ∷ bs) (h, hs) =
    let same : b / 16 * 16 + b % 16 ≡ b = omega arith in
    rw
      (
        hex_value-hex_digit (b / 16) (omega arith),
        hex_value-hex_digit (b % 16) (omega arith),
        decode_string-hex_text bs hs,
        same,
      )
      refl

hex_value-Returns : (c : ℕ) → Returns (hex_value c)
unfolding hex_value
hex_value-Returns c = ground arith

pub decode_string-Returns : (s : Bytes) → Returns (decode_string s)
unfolding decode_string
decode_string-Returns [] = tt
decode_string-Returns (p ∷ []) = Returns-bind (hex_value p) _ (hex_value-Returns p) λ a. tt
decode_string-Returns (p ∷ q ∷ s) = Returns-bind (hex_value p) _ (hex_value-Returns p) λ a.
    Returns-bind (hex_value q) _ (hex_value-Returns q)
      λ b. Returns-bind (decode_string s) _ (decode_string-Returns s) λ rest. tt
