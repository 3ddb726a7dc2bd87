-- ===== src/Go/Strconv.antt =====
-- `ParseUint`, `ParseInt` and `Atoi` of Go's package `strconv`, with every base that the parsers
-- use, the underscores of base 0 and the bounds of each width.
pub mod Decimal
pub mod Bounds
pub mod Signed
use procfs.Base.{
  ℤ, pos, negsuc, neg, ℕ, zero, suc, ◌+◌, ◌-◌, ◌*◌, ◌/◌, ◌%◌, ◌^◌, Bool, true, false, not, ◌&&◌,
  ◌||◌, List, [], ◌∷◌, ◌==◌, leb, ltb, Bytes, length, if◌then◌else◌, refl, ◌≡◌, codes,
}
use procfs.Go.Result.{Result, ok, err, syntax, range, each, ◌>>=◌, ◌>>◌, fail_if}

abbrev pub max_u64 : ℕ
max_u64 = 2 ^ 64 - 1

-- `c | ('x' - 'X')` on a byte
abbrev lower : ℕ → ℕ
lower c = if c / 32 % 2 == 0 then c + 32 else c

unfoldable pub digit_value : ℕ → Result ℕ
digit_value c =
    if leb b'0' c && leb c b'9'
    then ok (c - b'0')
    else if leb b'a' (lower c) && leb (lower c) b'z'
    then ok (lower c - b'a' + 10)
    else err syntax

-- One round of the loop of `ParseUint`: `n1 < n || n1 > maxVal` in uint64.
unfoldable pub digit_step : Bool → ℕ → ℕ → ℕ → ℕ → Result ℕ
unfolding digit_value
digit_step base0 base max_val n c = if base0 && c == b'_' then ok n else do
  d ← digit_value c
  fail_if (leb base d) syntax
  fail_if (leb (max_u64 / base + 1) n) range
  let n1 = (n * base + d) % 2 ^ 64
  fail_if (ltb n1 (n * base) || ltb max_val n1) range
  ok n1

-- `saw` of `underscoreOK`: a digit or base prefix, an underscore, or none of these.
pub data Saw : Type 0 where
  digit underscore other : Saw

abbrev after_underscore : Saw → Bool
after_underscore underscore = true
after_underscore _ = false

abbrev after_digit : Saw → Bool
after_digit digit = true
after_digit _ = false

underscore_step : Bool → Saw → ℕ → Result Saw
underscore_step hex saw c =
    if (leb b'0' c && leb c b'9') || (hex && leb b'a' (lower c) && leb (lower c) b'f')
    then ok digit
    else if c == b'_'
    then (if after_digit saw then ok underscore else err syntax)
    else if after_underscore saw
    then err syntax
    else ok other

abbrev unsigned : Bytes → Bytes
unsigned [] = []
unsigned (c ∷ s) = if c == b'-' || c == b'+' then s else c ∷ s

-- `underscoreOK`, as an error where it returns false.
abbrev underscore_loop : Bool → Saw → Bytes → Result (Unit {0})
underscore_loop hex saw s = do
  last ← each (underscore_step hex) saw s
  fail_if (after_underscore last) syntax

abbrev is_prefix_letter : ℕ → Bool
is_prefix_letter c = c == b'b' || c == b'o' || c == b'x'

abbrev underscore_prefixed : Bytes → Result (Unit {0})
underscore_prefixed (z ∷ l ∷ s) =
    if z == b'0' && is_prefix_letter (lower l)
    then underscore_loop (lower l == b'x') digit s
    else underscore_loop false other (z ∷ l ∷ s)
underscore_prefixed s = underscore_loop false other s

pub underscore_ok : Bytes → Result (Unit {0})
unfolding underscore_step
underscore_ok s = underscore_prefixed (unsigned s)

pub has_byte : ℕ → Bytes → Bool
has_byte b [] = false
has_byte b (c ∷ s) = c == b || has_byte b s

-- The base of a text in base 0, and its digits.
abbrev detect_base : Bytes → ℕ × Bytes
detect_base (z ∷ l ∷ d ∷ s) =
    if z == b'0'
    then (if lower l == b'b'
        then (2, d ∷ s)
        else if lower l == b'o'
        then (8, d ∷ s)
        else if lower l == b'x'
        then (16, d ∷ s)
        else (8, l ∷ d ∷ s))
    else (10, z ∷ l ∷ d ∷ s)
detect_base (z ∷ s) = if z == b'0' then (8, s) else (10, z ∷ s)
detect_base [] = (10, [])

-- The digits `s` of the text `s0`.
unfoldable pub parse_digits : Bool → ℕ → ℕ → Bytes → Bytes → Result ℕ
unfolding underscore_ok has_byte digit_step
parse_digits base0 base bits s s0 = do
  n ← each (digit_step base0 base (2 ^ bits - 1)) 0 s
  if base0 && has_byte b'_' s then underscore_ok s0 else ok tt
  ok n

-- `strconv.ParseUint(s, base, bitSize)` for a base of 0 or from 2 to 36.
unfoldable pub parse_uint : Bytes → ℕ → ℕ → Result ℕ
unfolding parse_digits
parse_uint [] base bits = err syntax
parse_uint (c ∷ s) zero bits =
    let (base, digits) = detect_base (c ∷ s) in parse_digits true base bits digits (c ∷ s)
parse_uint (c ∷ s) (suc base) bits = parse_digits false (suc base) bits (c ∷ s) (c ∷ s)

-- `strconv.ParseInt(s, base, bitSize)`. An error of `ParseUint` is an error here.
unfoldable pub parse_int : Bytes → ℕ → ℕ → Result ℤ
unfolding parse_uint
parse_int [] base bits = err syntax
parse_int (c ∷ s) base bits = do
  un ← parse_uint (if c == b'-' || c == b'+' then s else c ∷ s) base bits
  if c == b'-'
      then (if ltb (2 ^ (bits - 1)) un then err range else ok (neg un))
      else (if leb (2 ^ (bits - 1)) un then err range else ok (pos un))

-- `strconv.Atoi`, with an int of 64 bits.
abbrev pub atoi : Bytes → Result ℤ
atoi s = parse_int s 10 64

bounds_test :
    (parse_uint (codes "18446744073709551615") 10 64 ≡ ok max_u64)
    × (parse_uint (codes "18446744073709551616") 10 64 ≡ err range)
    × (parse_uint (codes "4294967296") 10 32 ≡ err range)
    × (parse_uint [] 10 64 ≡ err syntax)
    × (parse_uint (codes "1_0") 10 64 ≡ err syntax)
unfolding parse_uint each
bounds_test = (refl, refl, refl, refl, refl)

bases_test :
    (parse_uint (codes "0xFf") 0 64 ≡ ok 255)
    × (parse_uint (codes "0b1_1") 0 64 ≡ ok 3)
    × (parse_uint (codes "0x") 0 64 ≡ err syntax)
    × (parse_uint (codes "017") 0 64 ≡ ok 15)
    × (parse_uint (codes "0") 0 64 ≡ ok 0)
    × (parse_uint (codes "1__0") 0 64 ≡ err syntax)
unfolding parse_uint each
bases_test = (refl, refl, refl, refl, refl, refl)

signs_test :
    (atoi (codes "-12") ≡ ok (negsuc 11))
    × (atoi (codes "+7") ≡ ok (pos 7))
    × (atoi (codes "9223372036854775808") ≡ err range)
    × (parse_int (codes "-0") 10 64 ≡ ok (pos 0))
unfolding parse_int each
signs_test = (refl, refl, refl, refl)
