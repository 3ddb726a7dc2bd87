-- ===== src/Nfs/Server/Line.antt =====
-- nfs/parse_nfsd.go: one line of a server's file, any text or as the kernel prints it.
use procfs.Base.{
  ◌⊎◌, leb, ℕ, suc, ◌<◌, List, [], ◌∷◌, ◌≡◌, inl, inr, true, false, arith, length, Bool-cases,
  Bytes, ltb, All, bytes_eq, codes,
}
use procfs.Go.Result.{
  each, Returns-!!, fail_if, ok, err, Returns, Returns-bind, Returns-each, slice_tail, ◌>>=◌, ◌>>◌,
  ◌!!◌, wrapping, errorf,
}
use procfs.Go.Text.Words.{IsWord, unwords, fields-unwords}
use procfs.Go.Text.{fields}
use procfs.Nfs.Server.{
  server_metric, server_version_metric, server_texts, server_line, parse_server_rpc_stats,
}
use procfs.Nfs.Parse.Total.{
  parse_network-Returns, parse_v2_stats-Returns, parse_v3_stats-Returns, parse_reply_cache-Returns,
  parse_file_handles-Returns, parse_input_output-Returns, parse_threads-Returns,
  parse_read_ahead_cache-Returns, parse_server_rpc-Returns, parse_server_v4_stats-Returns,
  parse_v4_ops-Returns,
}
use procfs.Nfs.Types.{ServerRpcStats, zero_server_rpc_stats}
use procfs.Go.Scanner.{Reader, scan, scan_err-Returns}
use procfs.Util.Parse.Slices.{numbers_read-Returns}
use procfs.Util.Parse.{parse_uint64s}

server_version_metric-Returns :
    (label : Bytes) (v : List ℕ) (s : ServerRpcStats)
    → 0 < length v
    → Returns (server_version_metric label v s)
unfolding server_version_metric
server_version_metric-Returns label v s h = ground (
  arith,
  parse_v2_stats-Returns v h,
  parse_v3_stats-Returns v h,
  parse_server_v4_stats-Returns v h,
  parse_v4_ops-Returns v h,
  Returns-!! v 0 h,
)

server_metric-Returns :
    (label : Bytes) (v : List ℕ) (s : ServerRpcStats)
    → 0 < length v
    → Returns (server_metric label v s)
unfolding server_metric
server_metric-Returns label v s h = ground (
  arith,
  parse_reply_cache-Returns v,
  parse_file_handles-Returns v,
  parse_input_output-Returns v,
  parse_threads-Returns v,
  parse_read_ahead_cache-Returns v,
  parse_network-Returns v,
  parse_server_rpc-Returns v,
  server_version_metric-Returns label v s h,
)

-- A line with a value gives a text for it, or is refused as a "th" line that is too short.
server_texts_cases :
    (label p q : Bytes) (r : List Bytes)
    → (server_texts label (p ∷ q ∷ r) ≡ err (errorf "invalid NFSd th metric line %q"))
      ⊎ ((ts : List Bytes) × (server_texts label (p ∷ q ∷ r) ≡ ok (q ∷ ts)))
unfolding server_texts
server_texts_cases label p q [] = elim (Bool-cases (bytes_eq label (codes "th"))) [
  | inl th ↦ inl (rw th)
  | inr other ↦ inr ([], rw other (slice_tail p (q ∷ [])))
]
server_texts_cases label p q (t ∷ r) = elim (Bool-cases (bytes_eq label (codes "th"))) [
  | inl th ↦
      let enough : ltb (suc (suc (suc (length r)))) 3 ≡ false = ground arith in
      let within : leb 3 (suc (suc (suc (length r)))) ≡ true = ground arith in
      inr (t ∷ [], rw th (rw (enough, within)))
  | inr other ↦ inr (t ∷ r, rw other (slice_tail p (q ∷ t ∷ r)))
]

pub server_line-Returns : (s : ServerRpcStats) (line : Bytes) → Returns (server_line s line)
unfolding server_line
server_line-Returns s line = go (fields line)
  where
    texts :
        (p q : Bytes) (r : List Bytes)
        → Returns (do
          ts ← server_texts p (p ∷ q ∷ r)
          values ← wrapping "error parsing NFSd metric line: %w" (parse_uint64s ts)
          server_metric p values s)
    texts p q r = elim (server_texts_cases p p q r) [
      | inl bad ↦ rw bad tt
      | inr (ts, good) ↦ rw good (
          numbers_read-Returns _ (q ∷ ts) (λ v. server_metric p v s)
            λ v e. server_metric-Returns p v s (omega arith))
    ]

    go :
        (parts : List Bytes)
        → Returns (
            fail_if (ltb (length parts) 2) (errorf "invalid NFSd metric line %q") >> (do
              label ← parts !! 0
              ts ← server_texts label parts
              values ← wrapping "error parsing NFSd metric line: %w" (parse_uint64s ts)
              server_metric label values s))
    go [] = tt
    go (p ∷ []) = tt
    go (p ∷ q ∷ r) =
        let enough : ltb (suc (suc (length r))) 2 ≡ false = ground arith in rw enough (texts p q r)

-- Whatever the file holds, and however reading it ends, the parser returns a value or an error: it
-- does not panic.
pub parse_server_rpc_stats-Returns : (r : Reader) → Returns (parse_server_rpc_stats r)
unfolding parse_server_rpc_stats
parse_server_rpc_stats-Returns r =
    Returns-bind (each server_line zero_server_rpc_stats (scan r).lines) _
      (Returns-each server_line server_line-Returns zero_server_rpc_stats (scan r).lines)
      (scan_err-Returns _ (scan r).fault)

-- A line of a label and texts is read as the label's case of the switch on the numbers that the
-- chosen texts stand for.
pub server_line-unwords :
    (s : ServerRpcStats) (label : Bytes) (ss ts : List Bytes) (v : List ℕ)
    → All IsWord (label ∷ ss)
    → 0 < length ss
    → server_texts label (label ∷ ss) ≡ ok ts
    → parse_uint64s ts ≡ ok v
    → server_line s (unwords (label ∷ ss)) ≡ server_metric label v s
unfolding server_line
server_line-unwords s label [] ts v w pos e h = absurd (omega arith)
server_line-unwords s label (u ∷ ss) ts v w pos e h =
    let enough : ltb (suc (suc (length ss))) 2 ≡ false = ground arith in
    rw (fields-unwords (label ∷ u ∷ ss) w) (rw (enough, e) (rw h))
