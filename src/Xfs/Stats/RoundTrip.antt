-- ===== src/Xfs/Stats/RoundTrip.antt =====
-- The XFS statistics as the kernel prints them, in any order of the lines, with any of them missing
-- or repeated and with lines of other labels between them, and what the parser reads from them.
use procfs.Base.{
  ℕ, List, [], ◌∷◌, ◌≡◌, refl, ◌∙◌, false, arith, Bytes, All, codes, map, foldl, bytes_eq,
}
use procfs.Go.Result.{ok, each}
use procfs.Go.Scanner.{reader, scan-unlines, unlines, IsLine}
use procfs.Xfs.Parse.Values.{
  extent_allocation_stats-values, btree_stats-values, block_mapping_stats-values,
  directory_operation_stats-values, transaction_stats-values, inode_operation_stats-values,
  log_operation_stats-values, read_write_stats-values, attribute_operation_stats-values,
  inode_clustering_stats-values, vnode_stats-values, vnode_stats_older, quota_manager_stats_older,
  buffer_stats-values, push_ail_stats-values, x_strat_stats-values,
  btree_alloc_blocks2_stats-values, btree_alloc_contig2_stats-values, btree_block_map2_stats-values,
  btree_inode2_stats-values, quota_manager_stats-values, debug_stats-values,
  extended_precision_stats-values,
}
use procfs.Xfs.Stats.Line.{stats_line-uint32s, stats_line-uint64s}
use procfs.Xfs.Stats.{
  stats_metric, stats_metric_caches, stats_metric_btrees, stats_line, parse_stats,
}
use procfs.Xfs.Stats.Metric.{
  Metric, extent_allocation, allocation_b_tree, block_mapping, block_map_b_tree,
  directory_operation, transaction, inode_operation, log_operation, read_write, attribute_operation,
  inode_clustering, vnode, vnode_older, quota_manager_older, buffer, push_ail, xstrat,
  btree_alloc_blocks2, btree_alloc_contig2, btree_block_map2, btree_inode2, quota_manager, debug,
  extended_precision, unknown, label_of, values_of, apply, known_labels, render, width, UnknownFits,
  Fits, label_of-IsWord, values_of_bounds, render-IsLine,
}
use procfs.Xfs.Types.{Stats, zero_stats, extended_precision_stats_values}

-- An unknown label leaves the statistics as they are.
stats_metric_unknown :
    (label : Bytes) (us : List ℕ) (s : Stats)
    → All (λ k. bytes_eq label k ≡ false) known_labels
    → stats_metric label us s ≡ ok s
unfolding stats_metric stats_metric_caches stats_metric_btrees
stats_metric_unknown label us s h = ground arith

-- The case of the switch.
stats_metric-values :
    (m : Metric) (s : Stats)
    → width m ≡ 32
    → UnknownFits m
    → (bytes_eq (label_of m) (codes "xpc") ≡ false)
      × (stats_metric (label_of m) (values_of m) s ≡ ok (apply s m))
unfolding stats_metric stats_metric_caches stats_metric_btrees bytes_eq
stats_metric-values (extent_allocation x) s e h = (refl, rw (extent_allocation_stats-values x))
stats_metric-values (allocation_b_tree x) s e h = (refl, rw (btree_stats-values x))
stats_metric-values (block_mapping x) s e h = (refl, rw (block_mapping_stats-values x))
stats_metric-values (block_map_b_tree x) s e h = (refl, rw (btree_stats-values x))
stats_metric-values (directory_operation x) s e h = (refl, rw (directory_operation_stats-values x))
stats_metric-values (transaction x) s e h = (refl, rw (transaction_stats-values x))
stats_metric-values (inode_operation x) s e h = (refl, rw (inode_operation_stats-values x))
stats_metric-values (log_operation x) s e h = (refl, rw (log_operation_stats-values x))
stats_metric-values (read_write x) s e h = (refl, rw (read_write_stats-values x))
stats_metric-values (attribute_operation x) s e h = (refl, rw (attribute_operation_stats-values x))
stats_metric-values (inode_clustering x) s e h = (refl, rw (inode_clustering_stats-values x))
stats_metric-values (vnode x) s e h = (refl, rw (vnode_stats-values x))
stats_metric-values (vnode_older x) s e h = (refl, rw (vnode_stats_older x))
stats_metric-values (buffer x) s e h = (refl, rw (buffer_stats-values x))
stats_metric-values (push_ail x) s e h = (refl, rw (push_ail_stats-values x))
stats_metric-values (xstrat x) s e h = (refl, rw (x_strat_stats-values x))
stats_metric-values (btree_alloc_blocks2 x) s e h = (refl, rw (btree_alloc_blocks2_stats-values x))
stats_metric-values (btree_alloc_contig2 x) s e h = (refl, rw (btree_alloc_contig2_stats-values x))
stats_metric-values (btree_block_map2 x) s e h = (refl, rw (btree_block_map2_stats-values x))
stats_metric-values (btree_inode2 x) s e h = (refl, rw (btree_inode2_stats-values x))
stats_metric-values (quota_manager x) s e h = (refl, rw (quota_manager_stats-values x))
stats_metric-values (quota_manager_older x) s e h = (refl, rw (quota_manager_stats_older x))
stats_metric-values (debug x) s e h = (refl, rw (debug_stats-values x))
stats_metric-values (extended_precision x) s e h = absurd (omega arith)
stats_metric-values (unknown label us) s e h = (h.2.0, stats_metric_unknown label us s h.2)

stats_line_narrow :
    (s : Stats) (m : Metric) → width m ≡ 32 → Fits m → stats_line s (render m) ≡ ok (apply s m)
stats_line_narrow s m e h =
    let k = h.unknown_fits in
    let (other, read) = stats_metric-values m s e k in
    stats_line-uint32s s (label_of m) (values_of m) other (label_of-IsWord m k)
      (values_of_bounds m k).0 (rw e at h.numbers_fit)
    ∙ read

stats_line-render : (s : Stats) (m : Metric) → Fits m → stats_line s (render m) ≡ ok (apply s m)
unfolding bytes_eq
stats_line-render s (extended_precision x) h =
    stats_line-uint64s s (codes "xpc") (extended_precision_stats_values x) refl (omega arith, cc)
      (omega arith) h.numbers_fit
    ∙ rw (extended_precision_stats-values x)
stats_line-render s m h = stats_line_narrow s m refl h

each-render :
    (ms : List Metric) (s : Stats)
    → All Fits ms
    → each stats_line s (map render ms) ≡ ok (foldl apply s ms)
unfolding each
each-render [] s h = refl
each-render (m ∷ ms) s (h, hs) = rw (stats_line-render s m h) (each-render ms (apply s m) hs)

map-render-IsLine : (ms : List Metric) → All Fits ms → All IsLine (map render ms)
map-render-IsLine [] h = tt
map-render-IsLine (m ∷ ms) (h, hs) = (render-IsLine m h, map-render-IsLine ms hs)

-- The parser of the XFS statistics reads the print of any list of metrics that fit (`Fits`: 32-bit
-- numbers, 64-bit ones in an "xpc" line, an unknown label is none of the known ones) as the statistics
-- that the metrics set one after the other: the order is free, a later line of a kind replaces an
-- earlier one, lines of unknown labels change nothing, and what no line sets is zero. A "vnodes" line
-- of 7 numbers and a "qm" line of 8, as an older kernel prints them, set the missing number to zero.
pub parse_stats-render :
    (ms : List Metric)
    → All Fits ms
    → parse_stats (reader (unlines (map render ms))) ≡ ok (foldl apply zero_stats ms)
unfolding parse_stats
parse_stats-render ms h =
    rw (scan-unlines (map render ms) (map-render-IsLine ms h)) (rw (each-render ms zero_stats h))

-- The lines of all statistics.
abbrev pub all_metrics : Stats → List Metric
all_metrics s =
    extent_allocation s.extent_allocation
    ∷ allocation_b_tree s.allocation_b_tree
    ∷ block_mapping s.block_mapping
    ∷ block_map_b_tree s.block_map_b_tree
    ∷ directory_operation s.directory_operation
    ∷ transaction s.transaction
    ∷ inode_operation s.inode_operation
    ∷ log_operation s.log_operation
    ∷ read_write s.read_write
    ∷ attribute_operation s.attribute_operation
    ∷ inode_clustering s.inode_clustering
    ∷ vnode s.vnode
    ∷ buffer s.buffer
    ∷ push_ail s.push_ail
    ∷ xstrat s.xstrat
    ∷ btree_alloc_blocks2 s.btree_alloc_blocks2
    ∷ btree_alloc_contig2 s.btree_alloc_contig2
    ∷ btree_block_map2 s.btree_block_map2
    ∷ btree_inode2 s.btree_inode2
    ∷ quota_manager s.quota_manager
    ∷ debug s.debug
    ∷ extended_precision s.extended_precision
    ∷ []

-- Statistics that are printed in full are read back, with the empty name that the file leaves.
pub parse_stats-all_metrics :
    (s : Stats)
    → All Fits (all_metrics s)
    → parse_stats (reader (unlines (map render (all_metrics s)))) ≡ ok (record s { name = [] })
parse_stats-all_metrics s h = parse_stats-render (all_metrics s) h
