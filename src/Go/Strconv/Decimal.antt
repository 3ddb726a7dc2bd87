-- ===== src/Go/Strconv/Decimal.antt =====
-- The decimal print of a number, which `ParseUint` reads back in base 10.
use native.Mathlib.Nat.{pow-suc}
use mathlib.Core.List.{cons-ne-nil, concat-ne-nil}
use procfs.Base.{
  ℕ, zero, suc, ◌+◌, ◌-◌, ◌*◌, ◌/◌, ◌%◌, ◌^◌, ◌≤◌, ◌<◌, true, false, [], ◌∷◌, ◌++◌, ◌≡◌, ◌≢◌, refl,
  ap, ◌∙◌, inl, inr, arith, Bytes, ltb, All, All-append, Bool-cases, length, length-append,
  if◌then◌else◌, codes,
}
use procfs.Go.Result.{ok, each, each-append}
use procfs.Go.Strconv.{max_u64, digit_step, parse_uint}
use procfs.Go.Text.Words.{IsGraph, IsWord}

-- At most `f` digits.
unfoldable pub decimal : ℕ → ℕ → Bytes
decimal zero n = []
decimal (suc f) n =
    let rest = decimal f (n / 10) in
    if ltb n 10 then (b'0' + n) ∷ [] else rest ++ (b'0' + n % 10) ∷ []

-- `strconv.FormatUint(n, 10)`: a uint64 has at most 20 digits.
unfoldable pub format_uint : ℕ → Bytes
unfolding decimal
format_uint n = decimal 20 n

module _ (max_val : ℕ) (fits : max_val ≤ max_u64) where
  digit_step_decimal :
      (n d : ℕ)
      → d < 10
      → n * 10 + d ≤ max_val
      → digit_step false 10 max_val n (b'0' + d) ≡ ok (n * 10 + d)
  unfolding digit_step
  digit_step_decimal n d h le = ground arith

  each_digit :
      (n d : ℕ)
      → d < 10
      → n * 10 + d ≤ max_val
      → each (digit_step false 10 max_val) n ((b'0' + d) ∷ []) ≡ ok (n * 10 + d)
  unfolding each
  each_digit n d h le = rw (digit_step_decimal n d h le)

  each_last :
      (n : ℕ) (s : Bytes)
      → n ≤ max_val
      → each (digit_step false 10 max_val) 0 s ≡ ok (n / 10)
      → each (digit_step false 10 max_val) 0 (s ++ (b'0' + n % 10) ∷ []) ≡ ok n
  each_last n s le h =
      let e : n / 10 * 10 + n % 10 ≡ n = omega arith in
      each-append _ 0 s _
      ∙ rw h (each_digit (n / 10) (n % 10) (omega arith) (omega arith) ∙ ap ok e)

  each_small :
      (n : ℕ)
      → n ≤ max_val
      → ltb n 10 ≡ true
      → each (digit_step false 10 max_val) 0 ((b'0' + n) ∷ []) ≡ ok n
  each_small n le h =
      let e : 0 * 10 + n ≡ n = omega arith in each_digit 0 n (ground arith) (omega arith) ∙ ap ok e

  each-decimal :
      (f n : ℕ)
      → n < 10 ^ suc f
      → n ≤ max_val
      → each (digit_step false 10 max_val) 0 (decimal (suc f) n) ≡ ok n
  unfolding decimal
  each-decimal zero n h le = let t : ltb n 10 ≡ true = ground arith in rw t (each_small n le t)
  each-decimal (suc f) n h le = elim (Bool-cases (ltb n 10)) [
    | inl small ↦ rw small (each_small n le small)
    | inr large ↦ rw large (
        each_last n (decimal (suc f) (n / 10)) le
          (each-decimal f (n / 10) (omega (arith, pow-suc 10 (suc f))) (omega arith)))
  ]

pub decimal-IsGraph : (f n : ℕ) → All IsGraph (decimal f n)
unfolding decimal
decimal-IsGraph zero n = tt
decimal-IsGraph (suc f) n = elim (Bool-cases (ltb n 10)) [
  | inl small ↦ rw small (ground arith)
  | inr large ↦
      rw large (All-append _ (decimal f (n / 10)) _ (decimal-IsGraph f (n / 10)) (omega arith))
]

pub length-decimal : (f n : ℕ) → length (decimal f n) ≤ f
unfolding decimal
length-decimal zero n = omega arith
length-decimal (suc f) n = elim (Bool-cases (ltb n 10)) [
  | inl small ↦ rw small (omega arith)
  | inr large ↦ rw large (
      omega (
        arith,
        length-decimal f (n / 10),
        length-append (decimal f (n / 10)) ((b'0' + n % 10) ∷ []),
      ))
]

decimal-ne-nil : (f n : ℕ) → decimal (suc f) n ≢ []
unfolding decimal
decimal-ne-nil f n = elim (Bool-cases (ltb n 10)) [
  | inl small ↦ rw small (cons-ne-nil _ _)
  | inr large ↦ rw large (concat-ne-nil _ _)
]

pub format_uint-IsWord : (n : ℕ) → IsWord (format_uint n)
unfolding format_uint
format_uint-IsWord n = (decimal-IsGraph 20 n, decimal-ne-nil 19 n)

pub length-format_uint : (n : ℕ) → length (format_uint n) ≤ 20
unfolding format_uint
length-format_uint n = length-decimal 20 n

parse_uint-each :
    (s : Bytes) (bits n : ℕ)
    → s ≢ []
    → each (digit_step false 10 (2 ^ bits - 1)) 0 s ≡ ok n
    → parse_uint s 10 bits ≡ ok n
unfolding parse_uint
parse_uint-each [] bits n h e = absurd (h refl)
parse_uint-each (c ∷ s) bits n h e = rw e

-- A number that fits the width is read back from its decimal print.
pub parse_uint-format_uint :
    (bits n : ℕ)
    → 2 ^ bits - 1 ≤ max_u64
    → n ≤ 2 ^ bits - 1
    → parse_uint (format_uint n) 10 bits ≡ ok n
unfolding format_uint
parse_uint-format_uint bits n fits le =
    parse_uint-each (decimal 20 n) bits n (decimal-ne-nil 19 n)
      (each-decimal (2 ^ bits - 1) fits 19 n (omega arith) le)

format_uint_test : format_uint 18446744073709551615 ≡ codes "18446744073709551615"
unfolding format_uint
format_uint_test = refl
