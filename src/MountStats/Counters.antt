-- ===== src/MountStats/Counters.antt =====
-- mountstats.go: the loop that stores the counters of an "xprt" line in a slice of fixed length.
use procfs.Base.{
  ℕ, zero, suc, ◌+◌, ◌-◌, ◌≤◌, ◌<◌, Bytes, List, [], ◌∷◌, ◌++◌, ◌≡◌, ◌∙◌, append_assoc, append-nil,
  arith, length, length-append, replicate,
}
use procfs.Go.Result.{Result, ok, err, panic, each, ◌>>=◌, Returns}
use procfs.Go.Slices.{set_at, set_at-append, set_at_end, set_at_some}
use procfs.Go.Strconv.{parse_uint}
use procfs.Go.Strconv.Bounds.{parse_uint-Returns}
use procfs.MountStats.Transport.{store_counter}
use procfs.Util.Parse.Slices.{AllParse, uint}

-- The counters that fit fill the zeros from the index on.
pub each-store_counter :
    (ss : List Bytes) (us v : List ℕ) (k : ℕ)
    → AllParse (uint 64) ss us
    → length us ≤ k
    → each store_counter (v ++ replicate k 0, length v) ss
      ≡ ok ((v ++ us) ++ replicate (k - length us) 0, length v + length us)
unfolding each store_counter
each-store_counter [] [] v k h fits =
    let e : k - 0 ≡ k = omega arith in
    let e' : length v + 0 ≡ length v = omega arith in rw (append-nil, e, e')
each-store_counter (s ∷ ss) (u ∷ us) v (suc k) (e, h) fits =
    let places : length v + 1 ≡ length (v ++ u ∷ []) = omega (arith, length-append v (u ∷ [])) in
    let ends : length (v ++ u ∷ []) + length us ≡ length v + suc (length us) =
      omega (arith, length-append v (u ∷ [])) in
    let shape' : ((v ++ u ∷ []) ++ us) ++ replicate (k - length us) 0
        ≡ (v ++ (u ∷ us)) ++ replicate (k - length us) 0 =
      simp append_assoc in
    let left : suc k - suc (length us) ≡ k - length us = omega arith in
    let shape : v ++ (u ∷ replicate k 0) ≡ (v ++ u ∷ []) ++ replicate k 0 = rw append_assoc in
    rw e (
      rw (set_at-append v (replicate k 0) 0 u, places, shape)
        (each-store_counter ss us (v ++ u ∷ []) k h (omega arith) ∙ rw (ends, left, shape')))
each-store_counter (s ∷ ss) (u ∷ us) v zero (e, h) fits = absurd (omega arith)
each-store_counter [] (u ∷ us) v k h fits = absurd h
each-store_counter (s ∷ ss) [] v k h fits = absurd h

-- More counters than there are places make the loop panic.
pub each-store_counter_panic :
    (ss : List Bytes) (us v : List ℕ) (k : ℕ)
    → AllParse (uint 64) ss us
    → k < length us
    → each store_counter (v ++ replicate k 0, length v) ss ≡ panic
unfolding each store_counter
each-store_counter_panic (s ∷ ss) (u ∷ us) v (suc k) (e, h) over =
    let places : length v + 1 ≡ length (v ++ u ∷ []) = omega (arith, length-append v (u ∷ [])) in
    let shape : v ++ (u ∷ replicate k 0) ≡ (v ++ u ∷ []) ++ replicate k 0 = rw append_assoc in
    rw e (
      rw (set_at-append v (replicate k 0) 0 u, places, shape)
        (each-store_counter_panic ss us (v ++ u ∷ []) k h (omega arith)))
each-store_counter_panic (s ∷ ss) (u ∷ us) v zero (e, h) over =
    let full : v ++ replicate 0 0 ≡ v = rw append-nil in
    rw e (rw (full, set_at_end v (length v) u (omega arith)))
each-store_counter_panic [] (u ∷ us) v k h over = absurd h
each-store_counter_panic (s ∷ ss) [] v k h over = absurd h
each-store_counter_panic [] [] v k h over = absurd (omega arith)

-- As long as there are places, the loop returns, and as many places as before.
pub each-store_counter-Returns :
    (ss : List Bytes) (v : List ℕ) (i : ℕ)
    → i + length ss ≤ length v
    → Returns (each store_counter (v, i) ss)
unfolding each store_counter
each-store_counter-Returns [] v i h = tt
each-store_counter-Returns (s ∷ ss) v i h =
    go (parse_uint s 10 64) (parse_uint-Returns s 10 64) λ n.
      let (w, e, same) = set_at_some v i n (omega arith) in
      rw e (each-store_counter-Returns ss w (i + 1) (omega (arith, same)))
  where
    go :
        (r : Result ℕ)
        → Returns r
        → ((n : ℕ)
            → Returns ((do w ← set_at v i n; ok (w, i + 1)) >>= λ t. each store_counter t ss))
        → Returns ((do n ← r; w ← set_at v i n; ok (w, i + 1)) >>= λ t. each store_counter t ss)
    go (ok n) h k = k n
    go (err e) h k = tt
    go panic h k = absurd h
