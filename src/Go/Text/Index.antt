-- ===== src/Go/Text/Index.antt =====
-- `strings.Index` for a text of one byte, and the two parts of a text around it.
use procfs.Base.{
  Bool, ◌<◌, true, false, ℕ, zero, suc, ◌+◌, ◌-◌, ◌==◌, ◌≢◌, leb, ◌&&◌, [], ◌∷◌, ◌++◌, ◌≡◌, refl,
  ap, Bytes, Option, none, some, arith, All, length, length-append, take, drop, if◌then◌else◌,
}
use procfs.Go.Result.{ok, slice}

abbrev behind : Option ℕ → Option ℕ
behind none = none
behind (some i) = some (suc i)

unfoldable pub index_byte : Bytes → ℕ → Option ℕ
index_byte [] sep = none
index_byte (c ∷ s) sep = if c == sep then some 0 else behind (index_byte s sep)

pub index_byte-append :
    (s t : Bytes) (sep : ℕ)
    → All (λ c. c ≢ sep) s
    → index_byte (s ++ (sep ∷ t)) sep ≡ some (length s)
unfolding index_byte
index_byte-append [] t sep h = let e : (sep == sep) ≡ true = ground arith in rw e refl
index_byte-append (c ∷ s) t sep (h, hs) =
    let e : (c == sep) ≡ false = ground arith in rw (e, index_byte-append s t sep hs) refl

pub index_byte-eq-none : (s : Bytes) (sep : ℕ) → All (λ c. c ≢ sep) s → index_byte s sep ≡ none
unfolding index_byte
index_byte-eq-none [] sep h = refl
index_byte-eq-none (c ∷ s) sep (h, hs) =
    let e : (c == sep) ≡ false = ground arith in rw (e, index_byte-eq-none s sep hs) refl

take-through : (s t : Bytes) (c : ℕ) → take (suc (length s)) (s ++ (c ∷ t)) ≡ s ++ c ∷ []
take-through [] t c = refl
take-through (d ∷ s) t c = ap (◌∷◌ d) (take-through s t c)

drop-through : (s t : Bytes) (c : ℕ) → drop (suc (length s)) (s ++ (c ∷ t)) ≡ t
drop-through [] t c = refl
drop-through (d ∷ s) t c = drop-through s t c

take-all : (t : Bytes) (n : ℕ) → n ≡ length t → take n t ≡ t
take-all [] zero h = refl
take-all [] (suc n) h = refl
take-all (c ∷ t) zero h = absurd (omega arith)
take-all (c ∷ t) (suc n) h = ap (◌∷◌ c) (take-all t n (omega arith))

-- `s[:i+1]` and `s[i+1:]` at a byte
pub slice_through : (s t : Bytes) (c : ℕ) → slice (s ++ (c ∷ t)) 0 (length s + 1) ≡ ok (s ++ c ∷ [])
slice_through s t c =
    let long = length-append s (c ∷ t) in
    let inside : (leb 0 (length s + 1) && leb (length s + 1) (length (s ++ (c ∷ t)))) ≡ true =
      ground arith in
    let n : length s + 1 - 0 ≡ suc (length s) = omega arith in
    rw (inside, n) (ap ok (take-through s t c))

pub slice_after :
    (s t : Bytes) (c : ℕ) → slice (s ++ (c ∷ t)) (length s + 1) (length (s ++ (c ∷ t))) ≡ ok t
slice_after s t c =
    let long = length-append s (c ∷ t) in
    let inside : (leb (length s + 1) (length (s ++ (c ∷ t)))
          && leb (length (s ++ (c ∷ t))) (length (s ++ (c ∷ t))))
        ≡ true =
      ground arith in
    let n : length s + 1 ≡ suc (length s) = omega arith in
    let rest : length (s ++ (c ∷ t)) - suc (length s) ≡ length t = omega (arith, long) in
    rw inside (
      rw n (
        rw (drop-through s t c) (ap ok (take-all t (length (s ++ (c ∷ t)) - suc (length s)) rest))))

-- An index, if there is one, is in range.
abbrev pub Below : ℕ → Option ℕ → Type 0
Below n none = Unit
Below n (some i) = i < n

behind-Below : (n : ℕ) (f : Option ℕ) → Below n f → Below (suc n) (behind f)
behind-Below n none h = tt
behind-Below n (some i) h = omega arith

pub index_byte-Below : (s : Bytes) (sep : ℕ) → Below (length s) (index_byte s sep)
unfolding index_byte
index_byte-Below [] sep = tt
index_byte-Below (c ∷ s) sep = go (c == sep) (index_byte-Below s sep)
  where
    go :
        (b : Bool)
        → Below (length s) (index_byte s sep)
        → Below (suc (length s)) (if b then some 0 else behind (index_byte s sep))
    go true h = omega arith
    go false h = behind-Below (length s) (index_byte s sep) h
