-- ===== src/Go/Strconv/Bounds.antt =====
-- What `ParseUint` accepts stays within its width, and no input makes it panic.
use procfs.Base.{
  ℕ, zero, suc, ◌-◌, ◌^◌, ◌≤◌, ◌<◌, Bool, true, false, [], ◌∷◌, ◌≡◌, arith, Bytes, inl, inr,
  Bool-cases, ◌==◌, ◌&&◌, ◌||◌, if◌then◌else◌, pow-pos,
}
use procfs.Go.Result.{
  Result, ok, each, Returns, Returns-bind, Returns-each, each-keeps, >>=-eq-ok, ok-injective,
}
use procfs.Go.Strconv.{
  digit_step, parse_digits, parse_uint, parse_int, underscore_ok, underscore_loop, underscore_step,
  underscore_prefixed, unsigned, Saw, digit, other, is_prefix_letter, lower, has_byte, detect_base,
}

digit_step-Returns : (b : Bool) (base m n c : ℕ) → Returns (digit_step b base m n c)
unfolding digit_step
digit_step-Returns b base m n c = ground arith

digit_step-le : (b : Bool) (base m n c : ℕ) {r : ℕ} → n ≤ m → digit_step b base m n c ≡ ok r → r ≤ m
unfolding digit_step
digit_step-le b base m n c le h = ground arith

underscore_loop-Returns : (hex : Bool) (saw : Saw) (s : Bytes) → Returns (underscore_loop hex saw s)
underscore_loop-Returns hex saw s =
    Returns-bind (each (underscore_step hex) saw s) _
      (Returns-each (underscore_step hex) (λ x c. unfold underscore_step in ground arith) saw s)
      (λ last. ground arith)

underscore_ok-Returns : (s : Bytes) → Returns (underscore_ok s)
unfolding underscore_ok
underscore_ok-Returns s = prefixed (unsigned s)
  where
    prefixed : (t : Bytes) → Returns (underscore_prefixed t)
    prefixed [] = underscore_loop-Returns false other []
    prefixed (z ∷ []) = underscore_loop-Returns false other (z ∷ [])
    prefixed (z ∷ l ∷ t) = elim (Bool-cases (z == b'0' && is_prefix_letter (lower l))) [
      | inl h ↦ rw h (underscore_loop-Returns (lower l == b'x') digit t)
      | inr h ↦ rw h (underscore_loop-Returns false other (z ∷ l ∷ t))
    ]

each-le :
    (b : Bool) (base m n : ℕ) (s : Bytes) {r : ℕ}
    → n ≤ m
    → each (digit_step b base m) n s ≡ ok r
    → r ≤ m
each-le b base m n s le h =
    each-keeps (λ k. k ≤ m) (digit_step b base m) (λ k t c. digit_step-le b base m k c) n s le h

if-Returns : (t : Bool) (m : Result (Unit {0})) → Returns m → Returns (if t then m else ok tt)
if-Returns true m h = h
if-Returns false m h = tt

parse_digits-Returns :
    (b : Bool) (base bits : ℕ) (s s0 : Bytes) → Returns (parse_digits b base bits s s0)
unfolding parse_digits
parse_digits-Returns b base bits s s0 =
    Returns-bind (each (digit_step b base (2 ^ bits - 1)) 0 s) _
      (Returns-each _ (λ n c. digit_step-Returns b base (2 ^ bits - 1) n c) 0 s)
      λ n.
        Returns-bind (if b && has_byte b'_' s then underscore_ok s0 else ok tt) _
          (if-Returns (b && has_byte b'_' s) (underscore_ok s0) (underscore_ok-Returns s0))
          (λ _. tt)

parse_digits-le :
    (b : Bool) (base bits : ℕ) (s s0 : Bytes) {u : ℕ}
    → parse_digits b base bits s s0 ≡ ok u
    → u ≤ 2 ^ bits - 1
unfolding parse_digits
parse_digits-le b base bits s s0 h =
    let (n, read, rest) = >>=-eq-ok (each (digit_step b base (2 ^ bits - 1)) 0 s) _ h in
    let (_, checked, same) =
      >>=-eq-ok (if b && has_byte b'_' s then underscore_ok s0 else ok tt) _ rest in
    omega (arith, each-le b base (2 ^ bits - 1) 0 s (omega arith) read, ok-injective same)

pub parse_uint-Returns : (s : Bytes) (base bits : ℕ) → Returns (parse_uint s base bits)
unfolding parse_uint
parse_uint-Returns [] base bits = tt
parse_uint-Returns (c ∷ s) zero bits =
    let (base, digits) = detect_base (c ∷ s) in parse_digits-Returns true base bits digits (c ∷ s)
parse_uint-Returns (c ∷ s) (suc base) bits =
    parse_digits-Returns false (suc base) bits (c ∷ s) (c ∷ s)

parse_uint-le :
    (s : Bytes) (base bits : ℕ) {u : ℕ} → parse_uint s base bits ≡ ok u → u ≤ 2 ^ bits - 1
unfolding parse_uint
parse_uint-le [] base bits h = cc
parse_uint-le (c ∷ s) zero bits h =
    parse_digits-le true (detect_base (c ∷ s)).0 bits (detect_base (c ∷ s)).1 (c ∷ s) h
parse_uint-le (c ∷ s) (suc base) bits h = parse_digits-le false (suc base) bits (c ∷ s) (c ∷ s) h

-- What is accepted fits the width.
pub parse_uint-lt :
    (s : Bytes) (base bits : ℕ) {u : ℕ} → parse_uint s base bits ≡ ok u → u < 2 ^ bits
parse_uint-lt s base bits h = omega (arith, parse_uint-le s base bits h, pow-pos bits)

pub parse_int-Returns : (s : Bytes) (base bits : ℕ) → Returns (parse_int s base bits)
unfolding parse_int
parse_int-Returns [] base bits = tt
parse_int-Returns (c ∷ s) base bits =
    Returns-bind _ _ (parse_uint-Returns (if c == b'-' || c == b'+' then s else c ∷ s) base bits)
      (λ un. ground arith)
