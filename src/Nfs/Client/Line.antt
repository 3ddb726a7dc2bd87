-- ===== src/Nfs/Client/Line.antt =====
-- nfs/parse_nfs.go: one line of a client's file, any text or as the kernel prints it.
use procfs.Base.{ℕ, suc, ◌^◌, ◌<◌, List, [], ◌∷◌, ◌≡◌, false, arith, length, Bytes, ltb, All}
use procfs.Go.Lines.{numbers-IsWord, numbers}
use procfs.Go.Result.{
  each, fail_if, Returns, Returns-bind, Returns-each, slice, slice_tail, ◌>>=◌, ◌>>◌, ◌!!◌,
  wrapping, errorf,
}
use procfs.Go.Text.Words.{IsWord, unwords, fields-unwords}
use procfs.Go.Text.{fields}
use procfs.Nfs.Client.{client_metric, client_line, parse_client_rpc_stats}
use procfs.Nfs.Parse.Total.{
  parse_network-Returns, parse_client_rpc-Returns, parse_v2_stats-Returns, parse_v3_stats-Returns,
  parse_client_v4_stats-Returns,
}
use procfs.Nfs.Types.{ClientRpcStats, zero_client_rpc_stats}
use procfs.Go.Scanner.{Reader, scan, scan_err-Returns}
use procfs.Util.Parse.Slices.{parse_uint64s-numbers, numbers_read-Returns}
use procfs.Util.Parse.{parse_uint64s}

client_metric-Returns :
    (label : Bytes) (v : List ℕ) (s : ClientRpcStats)
    → 0 < length v
    → Returns (client_metric label v s)
unfolding client_metric
client_metric-Returns label v s h = ground (
  arith,
  parse_network-Returns v,
  parse_client_rpc-Returns v,
  parse_v2_stats-Returns v h,
  parse_v3_stats-Returns v h,
  parse_client_v4_stats-Returns v h,
)

pub client_line-Returns : (s : ClientRpcStats) (line : Bytes) → Returns (client_line s line)
unfolding client_line
client_line-Returns s line = go (fields line)
  where
    go :
        (parts : List Bytes)
        → Returns (
            fail_if (ltb (length parts) 2) (errorf "invalid NFS metric line %q") >> (do
              rest ← slice parts 1 (length parts)
              values ← wrapping "error parsing NFS metric line: %w" (parse_uint64s rest)
              metric_line ← parts !! 0
              client_metric metric_line values s))
    go [] = tt
    go (p ∷ []) = tt
    go (p ∷ q ∷ r) =
        let enough : ltb (suc (suc (length r))) 2 ≡ false = ground arith in
        rw (enough, slice_tail p (q ∷ r))
          (numbers_read-Returns _ (q ∷ r) (λ v. client_metric p v s)
            λ v e. client_metric-Returns p v s (omega arith))

-- A line of a label and numbers is read as the label's case of the switch on those numbers.
pub client_line-unwords :
    (s : ClientRpcStats) (label : Bytes) (v : List ℕ)
    → IsWord label
    → 0 < length v
    → All (λ u. u < 2 ^ 64) v
    → client_line s (unwords (label ∷ numbers v)) ≡ client_metric label v s
unfolding client_line
client_line-unwords s label [] w pos h = absurd (omega arith)
client_line-unwords s label (u ∷ v) w pos h =
    let enough : ltb (suc (suc (length (numbers v)))) 2 ≡ false = ground arith in
    rw (fields-unwords (label ∷ numbers (u ∷ v)) (w, numbers-IsWord (u ∷ v)))
      (rw (enough, slice_tail label (numbers (u ∷ v))) (rw (parse_uint64s-numbers (u ∷ v) h)))

-- Whatever the file holds, and however reading it ends, the parser returns a value or an error: it
-- does not panic.
pub parse_client_rpc_stats-Returns : (r : Reader) → Returns (parse_client_rpc_stats r)
unfolding parse_client_rpc_stats
parse_client_rpc_stats-Returns r =
    Returns-bind (each client_line zero_client_rpc_stats (scan r).lines) _
      (Returns-each client_line client_line-Returns zero_client_rpc_stats (scan r).lines)
      (scan_err-Returns _ (scan r).fault)
