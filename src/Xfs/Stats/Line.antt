-- ===== src/Xfs/Stats/Line.antt =====
-- xfs/parse.go: one line of an XFS file, any text or as the kernel prints it.
use procfs.Base.{
  ℕ, suc, ◌^◌, ◌<◌, List, [], ◌∷◌, ◌≡◌, refl, true, false, inl, inr, arith, length, Bool-cases,
  Bytes, ltb, All, bytes_eq, codes, if◌then◌else◌,
}
use procfs.Go.Lines.{numbers, numbers-IsWord}
use procfs.Go.Result.{Result, ok, Returns, Returns-bind, Returns-each, slice_tail, each, ◌>>=◌}
use procfs.Go.Scanner.{Reader, scan, scan_err-Returns}
use procfs.Go.Text.Words.{IsWord, unwords, fields-unwords}
use procfs.Go.Text.{fields}
use procfs.Util.Parse.Slices.{
  parse_uint32s-Returns, parse_uint64s-Returns, parse_uint32s-numbers, parse_uint64s-numbers,
}
use procfs.Util.Parse.{parse_uint32s, parse_uint64s}
use procfs.Xfs.Parse.Caches.{extended_precision_stats}
use procfs.Xfs.Parse.Total.{
  extent_allocation_stats-Returns, btree_stats-Returns, block_mapping_stats-Returns,
  directory_operation_stats-Returns, transaction_stats-Returns, inode_operation_stats-Returns,
  log_operation_stats-Returns, read_write_stats-Returns, attribute_operation_stats-Returns,
  inode_clustering_stats-Returns, vnode_stats-Returns, buffer_stats-Returns,
  extended_precision_stats-Returns, push_ail_stats-Returns, x_strat_stats-Returns,
  quota_manager_stats-Returns, debug_stats-Returns, btree_alloc_blocks2_stats-Returns,
  btree_alloc_contig2_stats-Returns, btree_block_map2_stats-Returns, btree_inode2_stats-Returns,
}
use procfs.Xfs.Stats.{
  stats_metric, stats_metric_caches, stats_metric_btrees, stats_line, parse_stats,
}
use procfs.Xfs.Types.{Stats, zero_stats}

stats_metric_btrees-Returns :
    (label : Bytes) (us : List ℕ) (s : Stats) → Returns (stats_metric_btrees label us s)
unfolding stats_metric_btrees
stats_metric_btrees-Returns label us s = ground (
  arith,
  x_strat_stats-Returns us,
  btree_alloc_blocks2_stats-Returns us,
  btree_alloc_contig2_stats-Returns us,
  btree_block_map2_stats-Returns us,
  btree_inode2_stats-Returns us,
  quota_manager_stats-Returns us,
  debug_stats-Returns us,
)

stats_metric_caches-Returns :
    (label : Bytes) (us : List ℕ) (s : Stats) → Returns (stats_metric_caches label us s)
unfolding stats_metric_caches
stats_metric_caches-Returns label us s = ground (
  arith,
  log_operation_stats-Returns us,
  read_write_stats-Returns us,
  attribute_operation_stats-Returns us,
  inode_clustering_stats-Returns us,
  vnode_stats-Returns us,
  buffer_stats-Returns us,
  push_ail_stats-Returns us,
  stats_metric_btrees-Returns label us s,
)

stats_metric-Returns : (label : Bytes) (us : List ℕ) (s : Stats) → Returns (stats_metric label us s)
unfolding stats_metric
stats_metric-Returns label us s = ground (
  arith,
  extent_allocation_stats-Returns us,
  btree_stats-Returns us,
  block_mapping_stats-Returns us,
  directory_operation_stats-Returns us,
  transaction_stats-Returns us,
  inode_operation_stats-Returns us,
  stats_metric_caches-Returns label us s,
)

-- The part of the loop behind the test that there are two fields.
abbrev read_labelled : Stats → Bytes → List Bytes → Result Stats
read_labelled xfss label rest =
    if bytes_eq label (codes "xpc")
    then (do
      us ← parse_uint64s rest
      x ← extended_precision_stats us
      ok (record xfss { extended_precision = x }))
    else (do us ← parse_uint32s rest; stats_metric label us xfss)

read_labelled-Returns :
    (s : Stats) (label : Bytes) (rest : List Bytes) → Returns (read_labelled s label rest)
read_labelled-Returns s label rest = elim (Bool-cases (bytes_eq label (codes "xpc"))) [
  | inl xpc ↦ rw xpc (
      Returns-bind (parse_uint64s rest) _ (parse_uint64s-Returns rest) λ us.
        Returns-bind (extended_precision_stats us) _ (extended_precision_stats-Returns us)
          (λ _. tt))
  | inr other ↦ rw other (
      Returns-bind (parse_uint32s rest) _ (parse_uint32s-Returns rest)
        λ us. stats_metric-Returns label us s)
]

-- A line with fewer than two fields is skipped.
stats_line_short :
    (s : Stats) (line : Bytes) → ltb (length (fields line)) 2 ≡ true → stats_line s line ≡ ok s
unfolding stats_line
stats_line_short s line h = rw h

stats_line-fields :
    (s : Stats) (line label value : Bytes) (rest : List Bytes)
    → fields line ≡ label ∷ value ∷ rest
    → stats_line s line ≡ read_labelled s label (value ∷ rest)
unfolding stats_line
stats_line-fields s line label value rest e =
    let enough : ltb (suc (suc (length rest))) 2 ≡ false = ground arith in
    rw (e, enough) (rw (slice_tail label (value ∷ rest)))

pub stats_line-Returns : (s : Stats) (line : Bytes) → Returns (stats_line s line)
stats_line-Returns s line = go (fields line) refl
  where
    go : (parts : List Bytes) → fields line ≡ parts → Returns (stats_line s line)
    go [] e =
        let h : ltb (length (fields line)) 2 ≡ true = rw e refl in rw (stats_line_short s line h) tt
    go (p ∷ []) e =
        let h : ltb (length (fields line)) 2 ≡ true = rw e refl in rw (stats_line_short s line h) tt
    go (p ∷ q ∷ r) e = rw (stats_line-fields s line p q r e) (read_labelled-Returns s p (q ∷ r))

-- Whatever the file holds, and however reading it ends, the parser returns a value or an error: it
-- does not panic.
pub parse_stats-Returns : (r : Reader) → Returns (parse_stats r)
unfolding parse_stats
parse_stats-Returns r =
    Returns-bind (each stats_line zero_stats (scan r).lines) _
      (Returns-each stats_line stats_line-Returns zero_stats (scan r).lines)
      (scan_err-Returns _ (scan r).fault)

-- A line of a label and numbers, at the two widths.
pub stats_line-unwords :
    (s : Stats) (label : Bytes) (us : List ℕ)
    → IsWord label
    → 0 < length us
    → stats_line s (unwords (label ∷ numbers us)) ≡ read_labelled s label (numbers us)
stats_line-unwords s label [] w pos = absurd (omega arith)
stats_line-unwords s label (u ∷ us) w pos =
    stats_line-fields s _ label _ (numbers us)
      (fields-unwords (label ∷ numbers (u ∷ us)) (w, numbers-IsWord (u ∷ us)))

pub stats_line-uint32s :
    (s : Stats) (label : Bytes) (us : List ℕ)
    → bytes_eq label (codes "xpc") ≡ false
    → IsWord label
    → 0 < length us
    → All (λ u. u < 2 ^ 32) us
    → stats_line s (unwords (label ∷ numbers us)) ≡ stats_metric label us s
stats_line-uint32s s label us other w pos h =
    rw (stats_line-unwords s label us w pos) (rw other (rw (parse_uint32s-numbers us h)))

pub stats_line-uint64s :
    (s : Stats) (label : Bytes) (us : List ℕ)
    → bytes_eq label (codes "xpc") ≡ true
    → IsWord label
    → 0 < length us
    → All (λ u. u < 2 ^ 64) us
    → stats_line s (unwords (label ∷ numbers us))
      ≡ (do x ← extended_precision_stats us; ok (record s { extended_precision = x }))
stats_line-uint64s s label us xpc w pos h =
    rw (stats_line-unwords s label us w pos) (rw xpc (rw (parse_uint64s-numbers us h)))
