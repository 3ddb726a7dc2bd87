-- ===== src/Xfs/Stats.antt =====
-- xfs/parse.go: `ParseStats`; `ProcStat` of xfs/xfs.go.
pub mod Line
pub mod Metric
pub mod RoundTrip
use procfs.Base.{ℕ, ltb, length, List, Bytes, bytes_eq, codes, if◌then◌else◌}
use procfs.Go.Files.{Files, open_file}
use procfs.Go.Result.{Result, ok, ◌>>=◌, ◌!!◌, slice, each}
use procfs.Go.Scanner.{Reader, scan, scan_err}
use procfs.Go.Text.{fields}
use procfs.Xfs.Parse.Btrees.{
  btree_alloc_blocks2_stats, btree_alloc_contig2_stats, btree_block_map2_stats, btree_inode2_stats,
}
use procfs.Xfs.Parse.Caches.{
  inode_clustering_stats, vnode_stats, buffer_stats, push_ail_stats, x_strat_stats,
  quota_manager_stats, debug_stats, extended_precision_stats,
}
use procfs.Xfs.Parse.Operations.{
  directory_operation_stats, transaction_stats, inode_operation_stats, log_operation_stats,
  read_write_stats, attribute_operation_stats,
}
use procfs.Xfs.Parse.Space.{extent_allocation_stats, btree_stats, block_mapping_stats}
use procfs.Xfs.Types.{Stats, zero_stats}
use procfs.Util.Parse.{parse_uint32s, parse_uint64s}

-- The last cases; a label that has none leaves the statistics as they are.
unfoldable pub stats_metric_btrees : Bytes → List ℕ → Stats → Result Stats
stats_metric_btrees label us xfss =
    if bytes_eq label (codes "xstrat")
    then (do x ← x_strat_stats us; ok (record xfss { xstrat = x }))
    else if bytes_eq label (codes "abtb2")
    then (do x ← btree_alloc_blocks2_stats us; ok (record xfss { btree_alloc_blocks2 = x }))
    else if bytes_eq label (codes "abtc2")
    then (do x ← btree_alloc_contig2_stats us; ok (record xfss { btree_alloc_contig2 = x }))
    else if bytes_eq label (codes "bmbt2")
    then (do x ← btree_block_map2_stats us; ok (record xfss { btree_block_map2 = x }))
    else if bytes_eq label (codes "ibt2")
    then (do x ← btree_inode2_stats us; ok (record xfss { btree_inode2 = x }))
    else if bytes_eq label (codes "qm")
    then (do x ← quota_manager_stats us; ok (record xfss { quota_manager = x }))
    else if bytes_eq label (codes "debug")
    then (do x ← debug_stats us; ok (record xfss { debug = x }))
    else ok xfss

-- The next cases.
unfoldable pub stats_metric_caches : Bytes → List ℕ → Stats → Result Stats
stats_metric_caches label us xfss =
    if bytes_eq label (codes "log")
    then (do x ← log_operation_stats us; ok (record xfss { log_operation = x }))
    else if bytes_eq label (codes "rw")
    then (do x ← read_write_stats us; ok (record xfss { read_write = x }))
    else if bytes_eq label (codes "attr")
    then (do x ← attribute_operation_stats us; ok (record xfss { attribute_operation = x }))
    else if bytes_eq label (codes "icluster")
    then (do x ← inode_clustering_stats us; ok (record xfss { inode_clustering = x }))
    else if bytes_eq label (codes "vnodes")
    then (do x ← vnode_stats us; ok (record xfss { vnode = x }))
    else if bytes_eq label (codes "buf")
    then (do x ← buffer_stats us; ok (record xfss { buffer = x }))
    else if bytes_eq label (codes "push_ail")
    then (do x ← push_ail_stats us; ok (record xfss { push_ail = x }))
    else stats_metric_btrees label us xfss

-- The switch over the label of a line.
unfoldable pub stats_metric : Bytes → List ℕ → Stats → Result Stats
stats_metric label us xfss =
    if bytes_eq label (codes "extent_alloc")
    then (do x ← extent_allocation_stats us; ok (record xfss { extent_allocation = x }))
    else if bytes_eq label (codes "abt")
    then (do x ← btree_stats us; ok (record xfss { allocation_b_tree = x }))
    else if bytes_eq label (codes "blk_map")
    then (do x ← block_mapping_stats us; ok (record xfss { block_mapping = x }))
    else if bytes_eq label (codes "bmbt")
    then (do x ← btree_stats us; ok (record xfss { block_map_b_tree = x }))
    else if bytes_eq label (codes "dir")
    then (do x ← directory_operation_stats us; ok (record xfss { directory_operation = x }))
    else if bytes_eq label (codes "trans")
    then (do x ← transaction_stats us; ok (record xfss { transaction = x }))
    else if bytes_eq label (codes "ig")
    then (do x ← inode_operation_stats us; ok (record xfss { inode_operation = x }))
    else stats_metric_caches label us xfss

-- The body of the loop.
unfoldable pub stats_line : Stats → Bytes → Result Stats
stats_line xfss line =
    let ss = fields line in
    let read = (do
      label ← ss !! 0
      rest ← slice ss 1 (length ss)
      if bytes_eq label (codes "xpc")
          then (do
            us ← parse_uint64s rest
            x ← extended_precision_stats us
            ok (record xfss { extended_precision = x }))
          else (do us ← parse_uint32s rest; stats_metric label us xfss)) in
    if ltb (length ss) 2 then ok xfss else read

unfoldable pub parse_stats : Reader → Result Stats
parse_stats r = do
  xfss ← each stats_line zero_stats (scan r).lines
  scan_err (λ e. e) (scan r).fault xfss

-- `FS.ProcStat` over the files below the mount point.
unfoldable pub proc_stat : Files → Result Stats
proc_stat files = do f ← open_file files "fs/xfs/stat"; parse_stats f
