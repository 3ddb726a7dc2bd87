-- ===== src/Go/Strconv/Signed.antt =====
-- `Atoi` reads back the decimal print of a number that fits an int.
use procfs.Base.{
  ℕ, zero, suc, ◌/◌, ◌^◌, ◌≤◌, ◌<◌, ◌==◌, ◌||◌, ◌≡◌, ◌≢◌, refl, [], ◌∷◌, false, inl, inr, arith,
  Bytes, All, All-append, Bool-cases, ltb, leb, pos,
}
use procfs.Go.Result.{ok}
use procfs.Go.Strconv.Decimal.{decimal, format_uint, format_uint-IsWord, parse_uint-format_uint}
use procfs.Go.Strconv.{parse_uint, parse_int, atoi}

abbrev pub IsDigit : ℕ → Type 0
IsDigit c = (b'0' ≤ c) × (c ≤ b'9')

pub decimal-IsDigit : (f n : ℕ) → All IsDigit (decimal f n)
unfolding decimal
decimal-IsDigit zero n = tt
decimal-IsDigit (suc f) n = elim (Bool-cases (ltb n 10)) [
  | inl small ↦ rw small (ground arith)
  | inr large ↦
      rw large (All-append _ (decimal f (n / 10)) _ (decimal-IsDigit f (n / 10)) (omega arith))
]

parse_int-digits :
    (t : Bytes) (n : ℕ)
    → t ≢ []
    → All IsDigit t
    → parse_uint t 10 64 ≡ ok n
    → n < 2 ^ 63
    → parse_int t 10 64 ≡ ok (pos n)
unfolding parse_int
parse_int-digits [] n h _ _ _ = absurd (h refl)
parse_int-digits (c ∷ t) n h ((lo, hi), ds) e lt =
    let minus : (c == b'-') ≡ false = ground arith in
    let sign : (c == b'-' || c == b'+') ≡ false = ground arith in
    let within : leb (2 ^ 63) n ≡ false = ground arith in rw (sign, minus) (rw e (rw within))

pub atoi-format_uint : (n : ℕ) → n < 2 ^ 63 → atoi (format_uint n) ≡ ok (pos n)
unfolding format_uint
atoi-format_uint n lt =
    parse_int-digits (format_uint n) n (format_uint-IsWord n).1 (decimal-IsDigit 20 n)
      (parse_uint-format_uint 64 n (omega arith) (omega arith)) lt
