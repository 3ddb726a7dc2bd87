-- ===== src/Xfs/Parse/Values.antt =====
-- xfs/parse.go: the functions that build one record on the numbers that the kernel prints for it.
use procfs.Base.{◌≡◌, refl, take}
use procfs.Go.Result.{ok}
use procfs.Xfs.Parse.Btrees.{
  btree_alloc_blocks2_stats, btree_alloc_contig2_stats, btree_block_map2_stats, btree_inode2_stats,
}
use procfs.Xfs.Parse.Caches.{
  inode_clustering_stats, vnode_stats, buffer_stats, extended_precision_stats, push_ail_stats,
  x_strat_stats, quota_manager_stats, debug_stats,
}
use procfs.Xfs.Parse.Operations.{
  directory_operation_stats, transaction_stats, inode_operation_stats, log_operation_stats,
  read_write_stats, attribute_operation_stats,
}
use procfs.Xfs.Parse.Space.{extent_allocation_stats, btree_stats, block_mapping_stats}
use procfs.Xfs.Types.{
  ExtentAllocationStats, extent_allocation_stats_values, BTreeStats, btree_stats_values,
  BlockMappingStats, block_mapping_stats_values, DirectoryOperationStats,
  directory_operation_stats_values, TransactionStats, transaction_stats_values, InodeOperationStats,
  inode_operation_stats_values, LogOperationStats, log_operation_stats_values, ReadWriteStats,
  read_write_stats_values, AttributeOperationStats, attribute_operation_stats_values,
  InodeClusteringStats, inode_clustering_stats_values, VnodeStats, vnode_stats_values, BufferStats,
  buffer_stats_values, ExtendedPrecisionStats, extended_precision_stats_values, PushAilStats,
  push_ail_stats_values, XstratStats, xstrat_stats_values, QuotaManagerStats,
  quota_manager_stats_values, DebugStats, debug_stats_values, BtreeAllocBlocks2Stats,
  btree_alloc_blocks2_stats_values, BtreeAllocContig2Stats, btree_alloc_contig2_stats_values,
  BtreeBlockMap2Stats, btree_block_map2_stats_values, BtreeInode2Stats, btree_inode2_stats_values,
}

pub extent_allocation_stats-values :
    (x : ExtentAllocationStats) → extent_allocation_stats (extent_allocation_stats_values x) ≡ ok x
unfolding extent_allocation_stats
extent_allocation_stats-values x = refl

pub btree_stats-values : (x : BTreeStats) → btree_stats (btree_stats_values x) ≡ ok x
unfolding btree_stats
btree_stats-values x = refl

pub block_mapping_stats-values :
    (x : BlockMappingStats) → block_mapping_stats (block_mapping_stats_values x) ≡ ok x
unfolding block_mapping_stats
block_mapping_stats-values x = refl

pub directory_operation_stats-values :
    (x : DirectoryOperationStats)
    → directory_operation_stats (directory_operation_stats_values x) ≡ ok x
unfolding directory_operation_stats
directory_operation_stats-values x = refl

pub transaction_stats-values :
    (x : TransactionStats) → transaction_stats (transaction_stats_values x) ≡ ok x
unfolding transaction_stats
transaction_stats-values x = refl

pub inode_operation_stats-values :
    (x : InodeOperationStats) → inode_operation_stats (inode_operation_stats_values x) ≡ ok x
unfolding inode_operation_stats
inode_operation_stats-values x = refl

pub log_operation_stats-values :
    (x : LogOperationStats) → log_operation_stats (log_operation_stats_values x) ≡ ok x
unfolding log_operation_stats
log_operation_stats-values x = refl

pub read_write_stats-values :
    (x : ReadWriteStats) → read_write_stats (read_write_stats_values x) ≡ ok x
unfolding read_write_stats
read_write_stats-values x = refl

pub attribute_operation_stats-values :
    (x : AttributeOperationStats)
    → attribute_operation_stats (attribute_operation_stats_values x) ≡ ok x
unfolding attribute_operation_stats
attribute_operation_stats-values x = refl

pub inode_clustering_stats-values :
    (x : InodeClusteringStats) → inode_clustering_stats (inode_clustering_stats_values x) ≡ ok x
unfolding inode_clustering_stats
inode_clustering_stats-values x = refl

pub vnode_stats-values : (x : VnodeStats) → vnode_stats (vnode_stats_values x) ≡ ok x
unfolding vnode_stats
vnode_stats-values x = refl

pub buffer_stats-values : (x : BufferStats) → buffer_stats (buffer_stats_values x) ≡ ok x
unfolding buffer_stats
buffer_stats-values x = refl

pub extended_precision_stats-values :
    (x : ExtendedPrecisionStats)
    → extended_precision_stats (extended_precision_stats_values x) ≡ ok x
unfolding extended_precision_stats
extended_precision_stats-values x = refl

pub push_ail_stats-values : (x : PushAilStats) → push_ail_stats (push_ail_stats_values x) ≡ ok x
unfolding push_ail_stats
push_ail_stats-values x = refl

pub x_strat_stats-values : (x : XstratStats) → x_strat_stats (xstrat_stats_values x) ≡ ok x
unfolding x_strat_stats
x_strat_stats-values x = refl

pub quota_manager_stats-values :
    (x : QuotaManagerStats) → quota_manager_stats (quota_manager_stats_values x) ≡ ok x
unfolding quota_manager_stats
quota_manager_stats-values x = refl

pub debug_stats-values : (x : DebugStats) → debug_stats (debug_stats_values x) ≡ ok x
unfolding debug_stats
debug_stats-values x = refl

pub btree_alloc_blocks2_stats-values :
    (x : BtreeAllocBlocks2Stats)
    → btree_alloc_blocks2_stats (btree_alloc_blocks2_stats_values x) ≡ ok x
unfolding btree_alloc_blocks2_stats
btree_alloc_blocks2_stats-values x = refl

pub btree_alloc_contig2_stats-values :
    (x : BtreeAllocContig2Stats)
    → btree_alloc_contig2_stats (btree_alloc_contig2_stats_values x) ≡ ok x
unfolding btree_alloc_contig2_stats
btree_alloc_contig2_stats-values x = refl

pub btree_block_map2_stats-values :
    (x : BtreeBlockMap2Stats) → btree_block_map2_stats (btree_block_map2_stats_values x) ≡ ok x
unfolding btree_block_map2_stats
btree_block_map2_stats-values x = refl

pub btree_inode2_stats-values :
    (x : BtreeInode2Stats) → btree_inode2_stats (btree_inode2_stats_values x) ≡ ok x
unfolding btree_inode2_stats
btree_inode2_stats-values x = refl

-- Older kernels print one number less, and that statistic is zero.
pub vnode_stats_older :
    (x : VnodeStats) → vnode_stats (take 7 (vnode_stats_values x)) ≡ ok (record x { free = 0 })
unfolding vnode_stats
vnode_stats_older x = refl

pub quota_manager_stats_older :
    (x : QuotaManagerStats)
    → quota_manager_stats (take 8 (quota_manager_stats_values x)) ≡ ok (record x { unused = 0 })
unfolding quota_manager_stats
quota_manager_stats_older x = refl
