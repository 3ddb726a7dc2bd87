-- ===== src/Go/Result.antt =====
-- Outcomes of Go functions: a value, an error value, or a run-time panic. Errors keep the format
-- string of `fmt.Errorf` and the errors that it wraps; the other arguments of the message are left
-- out.
use procfs.Base.{
  Bool-cases, leb, ◌-◌, ◌&&◌, if◌then◌else◌, take, drop, ℕ, zero, suc, ◌<◌, Bool, true, false, List,
  [], ◌∷◌, ◌++◌, ◌≡◌, refl, ap, subst, ◌⊎◌, inl, inr, String, arith, length,
}

pub data Error : Type 0 where
  -- `strconv.ErrSyntax` and `strconv.ErrRange`
  syntax range : Error
  -- `bufio.ErrTooLong`
  too_long : Error
  -- an error that an `io.Reader` or the file system reports
  io_error : String → Error
  -- `procfs.ErrFileParse`
  file_parse : Error
  -- `fmt.Errorf` with no, one and two `%w`
  errorf : String → Error
  wrap : String → Error → Error
  wrap₂ : String → Error → Error → Error

pub data Result {ℓ} (T : Type ℓ) : Type ℓ where
  panic : Result T
  err : Error → Result T
  ok : T → Result T

-- The caller goes on with a value, hands an error up and does not survive a panic.
infixl 5 ◌>>=◌
abbrev pub ◌>>=◌ {ℓ κ} : {U : Type κ} {T : Type ℓ} → Result T → (T → Result U) → Result U
panic >>= next = panic
ok x >>= next = next x
err e >>= next = err e

-- `if bad { return fmt.Errorf(…) }`
abbrev pub fail_if : Bool → Error → Result (Unit {0})
fail_if true e = err e
fail_if false e = ok tt

infixl 5 ◌>>◌
abbrev pub ◌>>◌ {ℓ} : {U : Type ℓ} → Result (Unit {0}) → Result U → Result U
check >> next = check >>= λ _. next

-- `if err != nil { return fmt.Errorf("…%w", err) }`
abbrev pub wrapping {ℓ} : {A : Type ℓ} → String → Result A → Result A
wrapping text (ok a) = ok a
wrapping text (err e) = err (wrap text e)
wrapping text panic = panic

-- `if err != nil { return fmt.Errorf(…) }`, the error not wrapped
abbrev pub replacing {ℓ} : {A : Type ℓ} → Error → Result A → Result A
replacing e (ok a) = ok a
replacing e (err _) = err e
replacing e panic = panic

-- Go's `v[i]`, which panics out of range.
infixl 60 ◌!!◌
abbrev pub ◌!!◌ {ℓ} : {A : Type ℓ} → List A → ℕ → Result A
[] !! i = panic
(x ∷ xs) !! zero = ok x
(x ∷ xs) !! suc i = xs !! i

-- Go's `v[lo:hi]`, which panics unless `lo <= hi <= len(v)`.
abbrev pub slice {ℓ} : {A : Type ℓ} → List A → ℕ → ℕ → Result (List A)
slice v lo hi = if leb lo hi && leb hi (length v) then ok (take (hi - lo) (drop lo v)) else panic

pub take-length {ℓ} : {A : Type ℓ} (n : ℕ) (v : List A) → n ≡ length v → take n v ≡ v
take-length zero [] h = refl
take-length zero (x ∷ v) h = absurd (omega arith)
take-length (suc n) [] h = refl
take-length (suc n) (x ∷ v) h = ap (◌∷◌ x) (take-length n v (omega arith))

-- `v[1:]` of a slice that is not empty
pub slice_tail {ℓ} : {A : Type ℓ} (x : A) (v : List A) → slice (x ∷ v) 1 (length (x ∷ v)) ≡ ok v
slice_tail x v =
    elim (Bool-cases (leb 1 (suc (length v)) && leb (suc (length v)) (suc (length v)))) [
      | inl h ↦ rw h (ap ok (take-length (suc (length v) - 1) v (omega arith)))
      | inr h ↦ absurd (ground arith)
    ]

module _ {ℓ κ} {S : Type ℓ} {A : Type κ} where
  -- `for _, x := range xs { … }` over a loop state, with early returns of errors.
  unfoldable pub each : (S → A → Result S) → S → List A → Result S
  each f s [] = ok s
  each f s (x ∷ xs) = do t ← f s x; each f t xs

  pub each-append :
      (f : S → A → Result S) (s : S) (xs ys : List A)
      → each f s (xs ++ ys) ≡ (each f s xs >>= λ t. each f t ys)
  unfolding each
  each-append f s [] ys = refl
  each-append f s (x ∷ xs) ys = go (f s x) (λ t. each-append f t xs ys)
    where
      go :
          (r : Result S)
          → ((t : S) → each f t (xs ++ ys) ≡ (each f t xs >>= λ u. each f u ys))
          → (r >>= λ t. each f t (xs ++ ys)) ≡ ((r >>= λ t. each f t xs) >>= λ u. each f u ys)
      go (ok t) h = h t
      go (err e) h = refl
      go panic h = refl

-- The code returned, a value or an error: it did not panic.
abbrev pub Returns {ℓ} : {A : Type ℓ} → Result A → Type 0
Returns (ok a) = Unit
Returns (err e) = Unit
Returns panic = ⊥

-- The rules for a bind: the rest returns for every value, or for the value that was returned.
module _ {ℓ κ} {T : Type ℓ} {U : Type κ} where
  pub Returns-bind_eq :
      (r : Result T) (next : T → Result U)
      → Returns r
      → ((x : T) → r ≡ ok x → Returns (next x))
      → Returns (r >>= next)
  Returns-bind_eq panic next h k = h
  Returns-bind_eq (err e) next h k = tt
  Returns-bind_eq (ok x) next h k = k x refl

  pub Returns-bind :
      (r : Result T) (next : T → Result U)
      → Returns r
      → ((x : T) → Returns (next x))
      → Returns (r >>= next)
  Returns-bind r next h k = Returns-bind_eq r next h (λ x _. k x)

-- What stands behind a guard runs only if the guard lets it.
pub Returns-fail_if {ℓ} :
    {A : Type ℓ} (b : Bool) (e : Error) (m : Result A)
    → (b ≡ false → Returns m)
    → Returns (fail_if b e >> m)
Returns-fail_if true e m h = tt
Returns-fail_if false e m h = h refl

pub Returns-wrapping {ℓ} :
    {A : Type ℓ} (text : String) (m : Result A) → Returns m → Returns (wrapping text m)
Returns-wrapping text (ok a) h = tt
Returns-wrapping text (err e) h = tt
Returns-wrapping text panic h = h

pub Returns-replacing {ℓ} :
    {A : Type ℓ} (e : Error) (m : Result A) → Returns m → Returns (replacing e m)
Returns-replacing e (ok a) h = tt
Returns-replacing e (err _) h = tt
Returns-replacing e panic h = h

pub Returns-!! {ℓ} : {A : Type ℓ} (v : List A) (i : ℕ) → i < length v → Returns (v !! i)
Returns-!! [] i h = absurd (omega arith)
Returns-!! (x ∷ v) zero h = tt
Returns-!! (x ∷ v) (suc i) h = Returns-!! v i (omega arith)

pub Returns-each {ℓ κ} :
    {S : Type ℓ} {A : Type κ} (f : S → A → Result S)
    → ((s : S) (x : A) → Returns (f s x))
    → (s : S) (xs : List A) → Returns (each f s xs)
unfolding each
Returns-each f h s [] = tt
Returns-each f h s (x ∷ xs) = Returns-bind (f s x) _ (h s x) (λ t. Returns-each f h t xs)

unwrap_or {ℓ} : {A : Type ℓ} → A → Result A → A
unwrap_or d (ok a) = a
unwrap_or d _ = d

pub ok-injective {ℓ} : {A : Type ℓ} {a b : A} → ok a ≡ ok b → a ≡ b
unfolding unwrap_or
ok-injective {a} e = ap (unwrap_or a) e

-- Inversion of a bind that succeeded or failed.
module _ {ℓ κ} {T : Type ℓ} {U : Type κ} where
  pub >>=-eq-ok :
      (r : Result T) (next : T → Result U) {y : U}
      → (r >>= next) ≡ ok y
      → (x : T) × (r ≡ ok x) × (next x ≡ ok y)
  >>=-eq-ok panic next h = cc
  >>=-eq-ok (err e) next h = cc
  >>=-eq-ok (ok x) next h = (x, refl, h)

  pub >>=-eq-err :
      (r : Result T) (next : T → Result U) {e : Error}
      → (r >>= next) ≡ err e
      → (r ≡ err e) ⊎ ((x : T) × (r ≡ ok x) × (next x ≡ err e))
  >>=-eq-err panic next h = cc
  >>=-eq-err (ok x) next h = inr (x, refl, h)
  >>=-eq-err (err _) next h = inl cc

-- An invariant of the loop state.
pub each-keeps {ℓ κ μ} :
    {S : Type ℓ} {A : Type κ} (P : S → Type μ) (f : S → A → Result S)
    → ((s t : S) (x : A) → P s → f s x ≡ ok t → P t)
    → (s : S) (xs : List A) {t : S} → P s
    → each f s xs ≡ ok t
    → P t
unfolding each
each-keeps P f k s [] h e = subst P (ok-injective e) h
each-keeps P f k s (x ∷ xs) h e =
    let (u, first, later) = >>=-eq-ok (f s x) (λ u. each f u xs) e in
    each-keeps P f k u xs (k s u x h first) later

pub wrapping-eq-ok {ℓ} :
    {A : Type ℓ} (text : String) (m : Result A) {a : A} → wrapping text m ≡ ok a → m ≡ ok a
wrapping-eq-ok text (ok a) h = h
wrapping-eq-ok text (err e) h = cc
wrapping-eq-ok text panic h = cc
