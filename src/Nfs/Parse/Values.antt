-- ===== src/Nfs/Parse/Values.antt =====
-- nfs/parse.go: the parsers of one line on the numbers that the kernel prints for a record.
use procfs.Base.{
  zero, suc, ◌^◌, sym, length-append, ℕ, ◌-◌, ◌≤◌, ◌<◌, List, [], ◌∷◌, ◌++◌, ◌≡◌, refl, ap, ◌∙◌,
  true, false, arith, length, drop, copy, take, ◌||◌, replicate, pos, int_of_uint64, ◌!=ℤ◌, ◌<ℤ◌,
}
use procfs.Go.Cells.{exact_cells}
use procfs.Go.Result.{ok, slice_tail}
use procfs.Nfs.Parse.ClientV4.{parse_client_v4_stats, client_v4_stats_of, pad_v4}
use procfs.Nfs.Parse.Common.{
  parse_network, parse_client_rpc, parse_read_ahead_cache, parse_reply_cache, parse_file_handles,
  parse_input_output, parse_threads, parse_server_rpc,
}
use procfs.Nfs.Parse.ServerV4.{parse_v4_ops, parse_server_v4_stats}
use procfs.Nfs.Parse.Versions.{parse_v2_stats, parse_v3_stats}
use procfs.Nfs.Types.{
  ReplyCache, reply_cache_values, FileHandles, file_handles_values, InputOutput,
  input_output_values, Threads, threads_values, Network, network_values, ClientRpc,
  client_rpc_values, ServerRpc, server_rpc_values, V2Stats, v2_stats_values, V3Stats,
  v3_stats_values, ClientV4Stats, client_v4_stats_values, ServerV4Stats, server_v4_stats_values,
  V4Ops, v4_ops_values, ReadAheadCache, read_ahead_cache_values,
}

pub parse_reply_cache-values : (x : ReplyCache) → parse_reply_cache (reply_cache_values x) ≡ ok x
unfolding parse_reply_cache
parse_reply_cache-values x = refl

pub parse_file_handles-values :
    (x : FileHandles) → parse_file_handles (file_handles_values x) ≡ ok x
unfolding parse_file_handles
parse_file_handles-values x = refl

pub parse_input_output-values :
    (x : InputOutput) → parse_input_output (input_output_values x) ≡ ok x
unfolding parse_input_output
parse_input_output-values x = refl

pub parse_threads-values : (x : Threads) → parse_threads (threads_values x) ≡ ok x
unfolding parse_threads
parse_threads-values x = refl

pub parse_network-values : (x : Network) → parse_network (network_values x) ≡ ok x
unfolding parse_network
parse_network-values x = refl

pub parse_client_rpc-values : (x : ClientRpc) → parse_client_rpc (client_rpc_values x) ≡ ok x
unfolding parse_client_rpc
parse_client_rpc-values x = refl

pub parse_server_rpc-values : (x : ServerRpc) → parse_server_rpc (server_rpc_values x) ≡ ok x
unfolding parse_server_rpc
parse_server_rpc-values x = refl

pub parse_v2_stats-values : (x : V2Stats) → parse_v2_stats (18 ∷ v2_stats_values x) ≡ ok x
unfolding parse_v2_stats
parse_v2_stats-values x = refl

pub parse_v3_stats-values : (x : V3Stats) → parse_v3_stats (22 ∷ v3_stats_values x) ≡ ok x
unfolding parse_v3_stats
parse_v3_stats-values x = refl

parse_client_v4_stats-values :
    (x : ClientV4Stats) → parse_client_v4_stats (59 ∷ client_v4_stats_values x) ≡ ok x
unfolding parse_client_v4_stats pad_v4
parse_client_v4_stats-values x = refl

-- Counters behind those that the parser knows are left out.
pub parse_client_v4_stats-later :
    (x : ClientV4Stats) (later : List ℕ)
    → length later ≤ 2000
    → parse_client_v4_stats
        (length (client_v4_stats_values x ++ later) ∷ (client_v4_stats_values x ++ later))
      ≡ ok x
unfolding parse_client_v4_stats pad_v4 client_v4_stats_of
parse_client_v4_stats-later x later h =
    let v = client_v4_stats_values x ++ later in
    let long = length-append (client_v4_stats_values x) later in
    let i : int_of_uint64 (length v) ≡ pos (length v) = ground arith in
    let good : (pos (length v) !=ℤ pos (length v)) ≡ false = ground arith in
    let full : (pos (length v) <ℤ pos 59) ≡ false = ground arith in
    rw (slice_tail (length v) v, i) (rw (good, full) refl)

pub parse_server_v4_stats-values :
    (x : ServerV4Stats) → parse_server_v4_stats (2 ∷ server_v4_stats_values x) ≡ ok x
unfolding parse_server_v4_stats
parse_server_v4_stats-values x = refl

-- Counters behind those that the parser knows are left out.
pub parse_v4_ops-later :
    (x : V4Ops) (later : List ℕ)
    → length later ≤ 2000
    → parse_v4_ops (length (v4_ops_values x ++ later) ∷ (v4_ops_values x ++ later)) ≡ ok x
unfolding parse_v4_ops
parse_v4_ops-later x later h =
    let v = v4_ops_values x ++ later in
    let long = length-append (v4_ops_values x) later in
    let i : int_of_uint64 (length v) ≡ pos (length v) = ground arith in
    let good : ((pos (length v) !=ℤ pos (length v)) || pos (length v) <ℤ pos 39) ≡ false =
      ground arith in
    let enough : (pos 39 <ℤ pos (length v)) ≡ true = ground arith in
    rw (slice_tail (length v) v, i) (rw (good, enough) refl)

-- An older kernel prints all counters but the last.
pub parse_v4_ops_older :
    (x : V4Ops)
    → parse_v4_ops (39 ∷ take 39 (v4_ops_values x)) ≡ ok (record x { rel_lock_owner = 0 })
unfolding parse_v4_ops
parse_v4_ops_older x = refl

-- The histogram has ten cells.
pub parse_read_ahead_cache-values :
    (x : ReadAheadCache)
    → length x.cache_histogram ≡ 10
    → parse_read_ahead_cache (read_ahead_cache_values x) ≡ ok x
unfolding parse_read_ahead_cache
parse_read_ahead_cache-values x h =
    exact_cells 10
      (λ w.
        parse_read_ahead_cache (x.cache_size ∷ (w ++ x.not_found ∷ []))
        ≡ ok (record { cache_size = x.cache_size; cache_histogram = w; not_found = x.not_found }))
      (λ _ _ _ _ _ _ _ _ _ _. refl) x.cache_histogram h

copy-eq-append :
    (dst src : List ℕ) → length src ≤ length dst → copy dst src ≡ src ++ drop (length src) dst
copy-eq-append [] [] h = refl
copy-eq-append [] (s ∷ src) h = absurd (omega arith)
copy-eq-append (d ∷ dst) [] h = refl
copy-eq-append (d ∷ dst) (s ∷ src) h = ap (◌∷◌ s) (copy-eq-append dst src (omega arith))

drop-replicate : (n m : ℕ) → drop n (replicate {A = ℕ} m 0) ≡ replicate (m - n) 0
drop-replicate zero m = let e : m - 0 ≡ m = omega arith in rw e
drop-replicate (suc n) zero = let e : 0 - suc n ≡ 0 = omega arith in rw e
drop-replicate (suc n) (suc m) =
    let e : suc m - suc n ≡ m - n = omega arith in rw e (drop-replicate n m)

parse_client_v4_stats_counted :
    (x : ℕ) (v : List ℕ)
    → length v ≡ x
    → x < 2 ^ 63
    → parse_client_v4_stats (x ∷ v) ≡ client_v4_stats_of (pad_v4 (pos x) (x ∷ v))
unfolding parse_client_v4_stats
parse_client_v4_stats_counted x v e h =
    let i : int_of_uint64 x ≡ pos x = ground arith in
    let good : (pos (length v) !=ℤ pos x) ≡ false = ground arith in rw (slice_tail x v, i) (rw good)

pad_v4_short :
    (x : ℕ) (v : List ℕ)
    → length v ≡ x
    → x < 59
    → pad_v4 (pos x) (x ∷ v) ≡ x ∷ (v ++ replicate (59 - length v) 0)
unfolding pad_v4
pad_v4_short x v e h =
    let short : (pos x <ℤ pos 59) ≡ true = ground arith in
    rw short (
      ap (◌∷◌ x)
        (copy-eq-append (replicate 59 0) v (omega arith) ∙ rw (drop-replicate (length v) 59)))

pad_v4_full : (v : List ℕ) → pad_v4 (pos 59) v ≡ v
unfolding pad_v4
pad_v4_full v = refl

-- The count itself is not a statistic.
client_v4_stats_of_head :
    (x y : ℕ) (v : List ℕ) → client_v4_stats_of (x ∷ v) ≡ client_v4_stats_of (y ∷ v)
unfolding client_v4_stats_of
client_v4_stats_of_head x y v = refl

length-replicate : (n : ℕ) → length (replicate {A = ℕ} n 0) ≡ n
length-replicate zero = refl
length-replicate (suc n) = ap suc (length-replicate n)

-- A "proc4" line of fewer than 59 counters, as an older kernel prints it, is parsed to what the line of
-- 59 counters with zeros behind them is parsed to.
pub parse_client_v4_stats_older :
    (v : List ℕ)
    → length v < 59
    → parse_client_v4_stats (length v ∷ v)
      ≡ parse_client_v4_stats (59 ∷ (v ++ replicate (59 - length v) 0))
parse_client_v4_stats_older v h =
    let w = v ++ replicate (59 - length v) 0 in
    let full : length w ≡ 59 =
      omega
        (arith, length-append v (replicate (59 - length v) 0), length-replicate (59 - length v)) in
    parse_client_v4_stats_counted (length v) v refl (omega arith)
    ∙ ap client_v4_stats_of (pad_v4_short (length v) v refl h)
    ∙ client_v4_stats_of_head (length v) 59 w
    ∙ sym (
        parse_client_v4_stats_counted 59 w full (omega arith)
        ∙ ap client_v4_stats_of (pad_v4_full (59 ∷ w)))

-- The record whose last counters are the zeros that an older kernel does not print.
pub parse_client_v4_stats-padded :
    (x : ClientV4Stats) (v : List ℕ)
    → length v < 59
    → client_v4_stats_values x ≡ v ++ replicate (59 - length v) 0
    → parse_client_v4_stats (length v ∷ v) ≡ ok x
parse_client_v4_stats-padded x v h e =
    parse_client_v4_stats_older v h
    ∙ ap (λ w. parse_client_v4_stats (59 ∷ w)) (sym e)
    ∙ parse_client_v4_stats-values x
