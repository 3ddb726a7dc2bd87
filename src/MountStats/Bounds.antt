-- ===== src/MountStats/Bounds.antt =====
-- mountstats.go: the tests that guard the indices.
use procfs.Base.{
  ℕ, ◌≤◌, ◌<◌, Bytes, List, [], ◌∷◌, ◌++◌, ◌≡◌, ◌∙◌, true, false, arith, length, Bool-cases, inl,
  inr, ◌!=◌, bytes_eq, codes, ltb, replicate, refl, Bool, if◌then◌else◌,
}
use procfs.Go.Cells.{cells, every_cell, exact_cells, every_exact_cell}
use procfs.Go.Result.{
  Result, ok, err, panic, Error, fail_if, ◌>>◌, each, slice, slice_tail, ◌>>=◌, ◌!!◌, Returns,
  Returns-bind, Returns-fail_if, Returns-!!,
}
use procfs.Go.Slices.{set_at, set_at-Yields}
use procfs.Go.Strconv.Bounds.{parse_uint-Returns}
use procfs.Go.Strconv.{parse_uint}
use procfs.Go.Yields.{Yields, Yields-bind, Yields-after, Yields-map, Returns-after}
use procfs.MountStats.Counters.{each-store_counter-Returns}
use procfs.MountStats.Lines.{
  parse_counters, parse_nfs_bytes_stats, parse_nfs_events_stats, operation_of, nfs_operation,
}
use procfs.MountStats.Transport.{
  check_transport, store_counter, spread, transport_of, parse_nfs_transport_stats,
}
use procfs.Util.Parse.Slices.{collect-Returns, collect_iff, AllParse-length}

store_counter-Yields :
    (v : List ℕ) (i : ℕ) (s : Bytes)
    → Yields (store_counter (v, i) s) (λ (t : List ℕ × ℕ). length t.0 ≡ length v)
unfolding store_counter
store_counter-Yields v i s =
    Yields-bind (parse_uint s 10 64) _ _
      λ n. Yields-after (set_at v i n) _ _ _ (set_at-Yields v i n) (λ w same. same)

each-store_counter-Yields :
    (ss : List Bytes) (t : List ℕ × ℕ)
    → Yields (each store_counter t ss) (λ (u : List ℕ × ℕ). length u.0 ≡ length t.0)
unfolding each
each-store_counter-Yields [] t = refl
each-store_counter-Yields (s ∷ ss) (v, i) =
    Yields-after (store_counter (v, i) s) _ _ (λ (u : List ℕ × ℕ). length u.0 ≡ length v)
      (store_counter-Yields v i s)
      λ t same.
        Yields-map (λ (u : List ℕ × ℕ). length u.0 ≡ length t.0)
          (λ (u : List ℕ × ℕ). length u.0 ≡ length v) (λ u same'. same' ∙ same)
          (each store_counter t ss) (each-store_counter-Yields ss t)

-- The cases of `spread`, by its tests for "udp", "tcp" and "rdma".
abbrev spread_by : Bool → Bool → Bool → List ℕ → Result (List ℕ)
spread_by udp tcp rdma ns =
    if udp
    then (do
      first ← slice ns 0 2
      rest ← slice ns 2 (length ns)
      ok (first ++ (replicate 3 0 ++ rest)))
    else if tcp
    then (do first ← slice ns 0 13; ok (first ++ replicate 18 0))
    else if rdma
    then (do
      first ← slice ns 0 10
      rest ← slice ns 10 (length ns)
      ok (first ++ (replicate 3 0 ++ rest)))
    else ok ns

placed_by-Returns :
    (protocol : Bytes) (udp tcp rdma : Bool) (ns : List ℕ)
    → length ns ≡ 31
    → Returns (spread_by udp tcp rdma ns >>= transport_of protocol)
unfolding transport_of
placed_by-Returns protocol true tcp rdma =
    exact_cells 31 (λ ns. Returns (spread_by true tcp rdma ns >>= transport_of protocol))
      (every_exact_cell 31)
placed_by-Returns protocol false true rdma =
    exact_cells 31 (λ ns. Returns (spread_by false true rdma ns >>= transport_of protocol))
      (every_exact_cell 31)
placed_by-Returns protocol false false true =
    exact_cells 31 (λ ns. Returns (spread_by false false true ns >>= transport_of protocol))
      (every_exact_cell 31)
placed_by-Returns protocol false false false =
    exact_cells 31 (λ ns. Returns (spread_by false false false ns >>= transport_of protocol))
      (every_exact_cell 31)

placed-Returns :
    (protocol : Bytes) (ns : List ℕ)
    → length ns ≡ 31
    → Returns (spread protocol ns >>= transport_of protocol)
unfolding spread
placed-Returns protocol ns =
    placed_by-Returns protocol (bytes_eq protocol (codes "udp")) (bytes_eq protocol (codes "tcp"))
      (bytes_eq protocol (codes "rdma")) ns

check_transport-Returns :
    (version protocol : Bytes) (ss : List Bytes) → Returns (check_transport version protocol ss)
unfolding check_transport
check_transport-Returns version protocol ss = ground arith

-- At most 31 counters.
pub parse_nfs_transport_stats-Returns :
    (ss : List Bytes) (version : Bytes)
    → 0 < length ss
    → length ss ≤ 32
    → Returns (parse_nfs_transport_stats ss version)
unfolding parse_nfs_transport_stats
parse_nfs_transport_stats-Returns [] version h few = absurd (omega arith)
parse_nfs_transport_stats-Returns (protocol ∷ ss) version h few = rw (slice_tail protocol ss) (
    Returns-bind _ _ (check_transport-Returns version protocol ss) λ _.
      Returns-after (each store_counter (replicate 31 0, 0) ss) _
        (λ (t : List ℕ × ℕ). length t.0 ≡ 31)
        (each-store_counter-Returns ss (replicate 31 0) 0 (omega arith))
        (each-store_counter-Yields ss (replicate 31 0, 0))
        λ t same. placed-Returns protocol t.0 same)

parse_counters-Returns : (ss : List Bytes) → Returns (parse_counters ss)
unfolding parse_counters
parse_counters-Returns = collect-Returns _ (λ s. parse_uint-Returns s 10 64)

length-parse_counters :
    (ss : List Bytes) {us : List ℕ} → parse_counters ss ≡ ok us → length us ≡ length ss
unfolding parse_counters
length-parse_counters ss {us} h = AllParse-length _ ss us ((collect_iff _ us ss).0 h)

parse_counters-Yields : (ss : List Bytes) → Yields (parse_counters ss) (λ us. length us ≡ length ss)
parse_counters-Yields ss = go (parse_counters ss) (λ us. length-parse_counters ss)
  where
    go :
        (r : Result (List ℕ))
        → ((us : List ℕ) → r ≡ ok us → length us ≡ length ss)
        → Yields r (λ us. length us ≡ length ss)
    go (ok us) h = h us refl
    go (err e) h = tt
    go panic h = tt

counters-Returns :
    {A : Type 0} (ss : List Bytes) (f : List ℕ → Result A)
    → ((us : List ℕ) → length us ≡ length ss → Returns (f us))
    → Returns (parse_counters ss >>= f)
counters-Returns ss f h =
    Returns-after (parse_counters ss) f (λ us. length us ≡ length ss) (parse_counters-Returns ss)
      (parse_counters-Yields ss) h

counters_exact-Returns :
    {A : Type 0} (n : ℕ) (ss : List Bytes) (e : Error) (f : List ℕ → Result A)
    → ((us : List ℕ) → length us ≡ n → Returns (f us))
    → Returns (fail_if (length ss != n) e >> (parse_counters ss >>= f))
counters_exact-Returns n ss e f h =
    Returns-fail_if (length ss != n) _ _
      λ exact. counters-Returns ss f (λ us same. h us (ground (arith, same)))

pub parse_nfs_bytes_stats-Returns : (ss : List Bytes) → Returns (parse_nfs_bytes_stats ss)
unfolding parse_nfs_bytes_stats
parse_nfs_bytes_stats-Returns ss =
    counters_exact-Returns 8 ss _ _ (exact_cells 8 _ (every_exact_cell 8))

pub parse_nfs_events_stats-Returns : (ss : List Bytes) → Returns (parse_nfs_events_stats ss)
unfolding parse_nfs_events_stats
parse_nfs_events_stats-Returns ss =
    counters_exact-Returns 27 ss _ _ (exact_cells 27 _ (every_exact_cell 27))

operation_of-Returns :
    (name : Bytes) (errors : ℕ) (ns : List ℕ)
    → 8 ≤ length ns
    → Returns (operation_of name errors ns)
unfolding operation_of
operation_of-Returns name errors =
    cells 8 (λ ns. Returns (operation_of name errors ns)) (every_cell 8)

pub nfs_operation-Returns : (ss : List Bytes) → Returns (nfs_operation ss)
unfolding nfs_operation
nfs_operation-Returns [] = tt
nfs_operation-Returns (name ∷ ss) = Returns-fail_if (ltb (length (name ∷ ss)) 9) _ _ λ enough.
    rw (slice_tail name ss) (
      counters-Returns ss _ λ us same.
        Returns-bind _ _ (ninth us)
          λ errors. operation_of-Returns name errors us (ground (arith, same)))
  where
    ninth : (us : List ℕ) → Returns (if ltb 8 (length us) then us !! 8 else ok 0)
    ninth us = elim (Bool-cases (ltb 8 (length us))) [
      | inl e ↦ rw e (Returns-!! us 8 (ground arith))
      | inr e ↦ rw e tt
    ]
