-- ===== src/Nfs/Parse/Total.antt =====
-- nfs/parse.go: the length tests of the parsers of one line, which guard the indices.
use procfs.Base.{
  if◌then◌else◌, String, ℕ, suc, ◌≤◌, ◌<◌, List, [], ◌∷◌, ◌≡◌, ◌||◌, false, inl, inr, arith, length,
  Bool-cases, pos, int_of_uint64, ◌<ℤ◌, ◌!=ℤ◌, length-copy, replicate,
}
use procfs.Go.Cells.{Returns-exact, cells, every_cell, exact_cells, every_exact_cell}
use procfs.Go.Result.{
  Returns-fail_if, Returns-!!, ◌!!◌, slice_tail, Result, ok, Returns, Returns-bind, fail_if, slice,
  ◌>>=◌, ◌>>◌, errorf,
}
use procfs.Nfs.Parse.ClientV4.{pad_v4, client_v4_stats_of, parse_client_v4_stats}
use procfs.Nfs.Parse.Common.{
  parse_reply_cache, parse_file_handles, parse_input_output, parse_threads, parse_read_ahead_cache,
  parse_server_rpc, parse_network, parse_client_rpc,
}
use procfs.Nfs.Parse.ServerV4.{server_v4_stats_of, parse_server_v4_stats, v4_ops_of, parse_v4_ops}
use procfs.Nfs.Parse.Versions.{v2_stats_of, parse_v2_stats, v3_stats_of, parse_v3_stats}

pub parse_network-Returns : (v : List ℕ) → Returns (parse_network v)
unfolding parse_network
parse_network-Returns = Returns-exact 4 _ _ (exact_cells 4 _ (every_exact_cell 4))

pub parse_client_rpc-Returns : (v : List ℕ) → Returns (parse_client_rpc v)
unfolding parse_client_rpc
parse_client_rpc-Returns = Returns-exact 3 _ _ (exact_cells 3 _ (every_exact_cell 3))

pub parse_reply_cache-Returns : (v : List ℕ) → Returns (parse_reply_cache v)
unfolding parse_reply_cache
parse_reply_cache-Returns = Returns-exact 3 _ _ (exact_cells 3 _ (every_exact_cell 3))

pub parse_file_handles-Returns : (v : List ℕ) → Returns (parse_file_handles v)
unfolding parse_file_handles
parse_file_handles-Returns = Returns-exact 5 _ _ (exact_cells 5 _ (every_exact_cell 5))

pub parse_input_output-Returns : (v : List ℕ) → Returns (parse_input_output v)
unfolding parse_input_output
parse_input_output-Returns = Returns-exact 2 _ _ (exact_cells 2 _ (every_exact_cell 2))

pub parse_threads-Returns : (v : List ℕ) → Returns (parse_threads v)
unfolding parse_threads
parse_threads-Returns = Returns-exact 2 _ _ (exact_cells 2 _ (every_exact_cell 2))

pub parse_read_ahead_cache-Returns : (v : List ℕ) → Returns (parse_read_ahead_cache v)
unfolding parse_read_ahead_cache
parse_read_ahead_cache-Returns = Returns-exact 12 _ _ (exact_cells 12 _ (every_exact_cell 12))

pub parse_server_rpc-Returns : (v : List ℕ) → Returns (parse_server_rpc v)
unfolding parse_server_rpc
parse_server_rpc-Returns = Returns-exact 5 _ _ (exact_cells 5 _ (every_exact_cell 5))

-- Behind a test that the first number counts the others and is at least `lo`.
Returns-counted :
    {A : Type 0} (lo : ℕ) (f : List ℕ → Result A) (text : String)
    → ((v : List ℕ) → suc lo ≤ length v → Returns (f v))
    → (x : ℕ) (v : List ℕ)
    → Returns (
        slice (x ∷ v) 1 (length (x ∷ v)) >>= λ rest.
        fail_if (pos (length rest) !=ℤ int_of_uint64 x || int_of_uint64 x <ℤ pos lo) (errorf text)
        >> f (x ∷ v))
Returns-counted lo f text h x v =
    rw (slice_tail x v) (Returns-fail_if _ _ _ (λ good. h (x ∷ v) (ground arith)))

pub parse_v2_stats-Returns : (v : List ℕ) → 0 < length v → Returns (parse_v2_stats v)
unfolding parse_v2_stats
parse_v2_stats-Returns [] h = absurd (omega arith)
parse_v2_stats-Returns (x ∷ v) h = Returns-counted 18 v2_stats_of _ (cells 19 _ (every_cell 19)) x v

pub parse_v3_stats-Returns : (v : List ℕ) → 0 < length v → Returns (parse_v3_stats v)
unfolding parse_v3_stats
parse_v3_stats-Returns [] h = absurd (omega arith)
parse_v3_stats-Returns (x ∷ v) h = Returns-counted 22 v3_stats_of _ (cells 23 _ (every_cell 23)) x v

length-pad_v4 :
    (x : ℕ) (v : List ℕ)
    → (pos (length v) !=ℤ int_of_uint64 x) ≡ false
    → 60 ≤ length (pad_v4 (int_of_uint64 x) (x ∷ v))
unfolding pad_v4
length-pad_v4 x v good = elim (Bool-cases (int_of_uint64 x <ℤ pos 59)) [
  | inl short ↦ rw short (omega (arith, length-copy (replicate 60 0) (x ∷ v)))
  | inr long ↦ rw long (ground arith)
]

pub parse_client_v4_stats-Returns : (v : List ℕ) → 0 < length v → Returns (parse_client_v4_stats v)
unfolding parse_client_v4_stats
parse_client_v4_stats-Returns [] h = absurd (omega arith)
parse_client_v4_stats-Returns (x ∷ v) h = rw (slice_tail x v) (
    Returns-fail_if _ _ _ λ good.
      cells 60 (λ w. Returns (client_v4_stats_of w)) (every_cell 60) _ (length-pad_v4 x v good))

pub parse_server_v4_stats-Returns : (v : List ℕ) → 0 < length v → Returns (parse_server_v4_stats v)
unfolding parse_server_v4_stats
parse_server_v4_stats-Returns [] h = absurd (omega arith)
parse_server_v4_stats-Returns (x ∷ v) h = rw (slice_tail x v) (
    Returns-fail_if _ _ _
      λ good. cells 3 (λ w. Returns (server_v4_stats_of w)) (every_cell 3) (x ∷ v) (ground arith))

v40-Returns :
    (x : ℕ) (v : List ℕ)
    → (pos (length v) !=ℤ int_of_uint64 x || int_of_uint64 x <ℤ pos 39) ≡ false
    → Returns (if pos 39 <ℤ int_of_uint64 x then (x ∷ v) !! 40 else ok 0)
v40-Returns x v good = elim (Bool-cases (pos 39 <ℤ int_of_uint64 x)) [
  | inl more ↦ rw more (Returns-!! (x ∷ v) 40 (ground arith))
  | inr same ↦ rw same tt
]

pub parse_v4_ops-Returns : (v : List ℕ) → 0 < length v → Returns (parse_v4_ops v)
unfolding parse_v4_ops
parse_v4_ops-Returns [] h = absurd (omega arith)
parse_v4_ops-Returns (x ∷ v) h = rw (slice_tail x v) (
    Returns-fail_if _ _ _ λ good.
      Returns-bind (if pos 39 <ℤ int_of_uint64 x then (x ∷ v) !! 40 else ok 0) _
        (v40-Returns x v good)
        λ v40. cells 40 (λ w. Returns (v4_ops_of w v40)) (every_cell 40) (x ∷ v) (ground arith))
