-- ===== src/Xfs/Types.antt =====
-- xfs/xfs.go: all statistics of XFS.
mod Space
mod Operations
mod Caches
mod Btrees
pub use Space.*
pub use Operations.*
pub use Caches.*
pub use Btrees.*
use procfs.Base.{Bytes, []}

pub record Stats : Type 0 where
  pub name : Bytes
  pub extent_allocation : ExtentAllocationStats
  pub allocation_b_tree : BTreeStats
  pub block_mapping : BlockMappingStats
  pub block_map_b_tree : BTreeStats
  pub directory_operation : DirectoryOperationStats
  pub transaction : TransactionStats
  pub inode_operation : InodeOperationStats
  pub log_operation : LogOperationStats
  pub read_write : ReadWriteStats
  pub attribute_operation : AttributeOperationStats
  pub inode_clustering : InodeClusteringStats
  pub vnode : VnodeStats
  pub buffer : BufferStats
  pub extended_precision : ExtendedPrecisionStats
  pub xstrat : XstratStats
  pub push_ail : PushAilStats
  pub debug : DebugStats
  pub quota_manager : QuotaManagerStats
  pub btree_alloc_blocks2 : BtreeAllocBlocks2Stats
  pub btree_alloc_contig2 : BtreeAllocContig2Stats
  pub btree_block_map2 : BtreeBlockMap2Stats
  pub btree_inode2 : BtreeInode2Stats

abbrev pub zero_stats : Stats
zero_stats = record {
  name = [];
  extent_allocation = zero_extent_allocation_stats;
  allocation_b_tree = zero_btree_stats;
  block_mapping = zero_block_mapping_stats;
  block_map_b_tree = zero_btree_stats;
  directory_operation = zero_directory_operation_stats;
  transaction = zero_transaction_stats;
  inode_operation = zero_inode_operation_stats;
  log_operation = zero_log_operation_stats;
  read_write = zero_read_write_stats;
  attribute_operation = zero_attribute_operation_stats;
  inode_clustering = zero_inode_clustering_stats;
  vnode = zero_vnode_stats;
  buffer = zero_buffer_stats;
  extended_precision = zero_extended_precision_stats;
  xstrat = zero_xstrat_stats;
  push_ail = zero_push_ail_stats;
  debug = zero_debug_stats;
  quota_manager = zero_quota_manager_stats;
  btree_alloc_blocks2 = zero_btree_alloc_blocks2_stats;
  btree_alloc_contig2 = zero_btree_alloc_contig2_stats;
  btree_block_map2 = zero_btree_block_map2_stats;
  btree_inode2 = zero_btree_inode2_stats;
}
