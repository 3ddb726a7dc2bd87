-- ===== src/Xfs/Stats/Metric.antt =====
-- The lines of an XFS statistics file as the kernel prints them.
use procfs.Base.{
  ℕ, ◌^◌, ◌<◌, ◌≤◌, List, [], ◌∷◌, ◌≡◌, false, arith, Bytes, All, codes, length, bytes_eq, take,
}
use procfs.Go.Lines.{numbers, labelled-IsLine}
use procfs.Go.Scanner.{IsLine}
use procfs.Go.Text.Words.{IsWord, unwords}
use procfs.Xfs.Types.{
  Stats, ExtentAllocationStats, extent_allocation_stats_values, BTreeStats, btree_stats_values,
  BlockMappingStats, block_mapping_stats_values, DirectoryOperationStats,
  directory_operation_stats_values, TransactionStats, transaction_stats_values, InodeOperationStats,
  inode_operation_stats_values, LogOperationStats, log_operation_stats_values, ReadWriteStats,
  read_write_stats_values, AttributeOperationStats, attribute_operation_stats_values,
  InodeClusteringStats, inode_clustering_stats_values, VnodeStats, vnode_stats_values, BufferStats,
  buffer_stats_values, PushAilStats, push_ail_stats_values, XstratStats, xstrat_stats_values,
  BtreeAllocBlocks2Stats, btree_alloc_blocks2_stats_values, BtreeAllocContig2Stats,
  btree_alloc_contig2_stats_values, BtreeBlockMap2Stats, btree_block_map2_stats_values,
  BtreeInode2Stats, btree_inode2_stats_values, QuotaManagerStats, quota_manager_stats_values,
  DebugStats, debug_stats_values, ExtendedPrecisionStats, extended_precision_stats_values,
}

-- A line of the file; `unknown` has a label that the parser does not know. An older kernel prints a
-- "vnodes" line without its last number, and a "qm" line without its last one.
pub data Metric : Type 0 where
  extent_allocation : ExtentAllocationStats → Metric
  allocation_b_tree : BTreeStats → Metric
  block_mapping : BlockMappingStats → Metric
  block_map_b_tree : BTreeStats → Metric
  directory_operation : DirectoryOperationStats → Metric
  transaction : TransactionStats → Metric
  inode_operation : InodeOperationStats → Metric
  log_operation : LogOperationStats → Metric
  read_write : ReadWriteStats → Metric
  attribute_operation : AttributeOperationStats → Metric
  inode_clustering : InodeClusteringStats → Metric
  vnode : VnodeStats → Metric
  vnode_older : VnodeStats → Metric
  buffer : BufferStats → Metric
  push_ail : PushAilStats → Metric
  xstrat : XstratStats → Metric
  btree_alloc_blocks2 : BtreeAllocBlocks2Stats → Metric
  btree_alloc_contig2 : BtreeAllocContig2Stats → Metric
  btree_block_map2 : BtreeBlockMap2Stats → Metric
  btree_inode2 : BtreeInode2Stats → Metric
  quota_manager : QuotaManagerStats → Metric
  quota_manager_older : QuotaManagerStats → Metric
  debug : DebugStats → Metric
  extended_precision : ExtendedPrecisionStats → Metric
  unknown : Bytes → List ℕ → Metric

abbrev pub label_of : Metric → Bytes
label_of (extent_allocation x) = codes "extent_alloc"
label_of (allocation_b_tree x) = codes "abt"
label_of (block_mapping x) = codes "blk_map"
label_of (block_map_b_tree x) = codes "bmbt"
label_of (directory_operation x) = codes "dir"
label_of (transaction x) = codes "trans"
label_of (inode_operation x) = codes "ig"
label_of (log_operation x) = codes "log"
label_of (read_write x) = codes "rw"
label_of (attribute_operation x) = codes "attr"
label_of (inode_clustering x) = codes "icluster"
label_of (vnode x) = codes "vnodes"
label_of (vnode_older x) = codes "vnodes"
label_of (buffer x) = codes "buf"
label_of (push_ail x) = codes "push_ail"
label_of (xstrat x) = codes "xstrat"
label_of (btree_alloc_blocks2 x) = codes "abtb2"
label_of (btree_alloc_contig2 x) = codes "abtc2"
label_of (btree_block_map2 x) = codes "bmbt2"
label_of (btree_inode2 x) = codes "ibt2"
label_of (quota_manager x) = codes "qm"
label_of (quota_manager_older x) = codes "qm"
label_of (debug x) = codes "debug"
label_of (extended_precision x) = codes "xpc"
label_of (unknown label us) = label

abbrev pub values_of : Metric → List ℕ
values_of (extent_allocation x) = extent_allocation_stats_values x
values_of (allocation_b_tree x) = btree_stats_values x
values_of (block_mapping x) = block_mapping_stats_values x
values_of (block_map_b_tree x) = btree_stats_values x
values_of (directory_operation x) = directory_operation_stats_values x
values_of (transaction x) = transaction_stats_values x
values_of (inode_operation x) = inode_operation_stats_values x
values_of (log_operation x) = log_operation_stats_values x
values_of (read_write x) = read_write_stats_values x
values_of (attribute_operation x) = attribute_operation_stats_values x
values_of (inode_clustering x) = inode_clustering_stats_values x
values_of (vnode x) = vnode_stats_values x
values_of (vnode_older x) = take 7 (vnode_stats_values x)
values_of (buffer x) = buffer_stats_values x
values_of (push_ail x) = push_ail_stats_values x
values_of (xstrat x) = xstrat_stats_values x
values_of (btree_alloc_blocks2 x) = btree_alloc_blocks2_stats_values x
values_of (btree_alloc_contig2 x) = btree_alloc_contig2_stats_values x
values_of (btree_block_map2 x) = btree_block_map2_stats_values x
values_of (btree_inode2 x) = btree_inode2_stats_values x
values_of (quota_manager x) = quota_manager_stats_values x
values_of (quota_manager_older x) = take 8 (quota_manager_stats_values x)
values_of (debug x) = debug_stats_values x
values_of (extended_precision x) = extended_precision_stats_values x
values_of (unknown label us) = us

-- What a line sets.
abbrev pub apply : Stats → Metric → Stats
apply s (extent_allocation x) = record s { extent_allocation = x }
apply s (allocation_b_tree x) = record s { allocation_b_tree = x }
apply s (block_mapping x) = record s { block_mapping = x }
apply s (block_map_b_tree x) = record s { block_map_b_tree = x }
apply s (directory_operation x) = record s { directory_operation = x }
apply s (transaction x) = record s { transaction = x }
apply s (inode_operation x) = record s { inode_operation = x }
apply s (log_operation x) = record s { log_operation = x }
apply s (read_write x) = record s { read_write = x }
apply s (attribute_operation x) = record s { attribute_operation = x }
apply s (inode_clustering x) = record s { inode_clustering = x }
apply s (vnode x) = record s { vnode = x }
apply s (vnode_older x) = record s { vnode = record x { free = 0 } }
apply s (buffer x) = record s { buffer = x }
apply s (push_ail x) = record s { push_ail = x }
apply s (xstrat x) = record s { xstrat = x }
apply s (btree_alloc_blocks2 x) = record s { btree_alloc_blocks2 = x }
apply s (btree_alloc_contig2 x) = record s { btree_alloc_contig2 = x }
apply s (btree_block_map2 x) = record s { btree_block_map2 = x }
apply s (btree_inode2 x) = record s { btree_inode2 = x }
apply s (quota_manager x) = record s { quota_manager = x }
apply s (quota_manager_older x) = record s { quota_manager = record x { unused = 0 } }
apply s (debug x) = record s { debug = x }
apply s (extended_precision x) = record s { extended_precision = x }
apply s (unknown label us) = s

abbrev pub known_labels : List Bytes
known_labels =
    codes "xpc"
    ∷ codes "extent_alloc"
    ∷ codes "abt"
    ∷ codes "blk_map"
    ∷ codes "bmbt"
    ∷ codes "dir"
    ∷ codes "trans"
    ∷ codes "ig"
    ∷ codes "log"
    ∷ codes "rw"
    ∷ codes "attr"
    ∷ codes "icluster"
    ∷ codes "vnodes"
    ∷ codes "buf"
    ∷ codes "push_ail"
    ∷ codes "xstrat"
    ∷ codes "abtb2"
    ∷ codes "abtc2"
    ∷ codes "bmbt2"
    ∷ codes "ibt2"
    ∷ codes "qm"
    ∷ codes "debug"
    ∷ []

abbrev pub render : Metric → Bytes
render m = unwords (label_of m ∷ numbers (values_of m))

-- Counters have 32 bits, and the extended ones 64.
abbrev pub width : Metric → ℕ
width (extended_precision x) = 64
width _ = 32

-- A label that is a word, at most 100 bytes long, and none of the known ones, with 1 to 3000 numbers.
abbrev pub UnknownFits : Metric → Type 0
UnknownFits (unknown label us) =
    IsWord label
    × (length label ≤ 100)
    × All (λ k. bytes_eq label k ≡ false) known_labels
    × (0 < length us)
    × (length us ≤ 3000)
UnknownFits _ = Unit

pub record Fits (m : Metric) : Type 0 where
  pub numbers_fit : All (λ u. u < 2 ^ width m) (values_of m)
  pub unknown_fits : UnknownFits m

pub label_of-IsWord : (m : Metric) → UnknownFits m → IsWord (label_of m)
label_of-IsWord (debug x) h = (omega arith, cc)
label_of-IsWord (unknown label us) h = h.0
label_of-IsWord _ h = (omega arith, cc)

label_of_short : (m : Metric) → UnknownFits m → length (label_of m) ≤ 100
label_of_short (debug x) h = omega arith
label_of_short (unknown label us) h = h.1
label_of_short _ h = omega arith

pub values_of_bounds :
    (m : Metric) → UnknownFits m → (0 < length (values_of m)) × (length (values_of m) ≤ 3000)
values_of_bounds (debug x) h = omega arith
values_of_bounds (unknown label us) h = (h.3, h.4)
values_of_bounds _ h = omega arith

pub render-IsLine : (m : Metric) → Fits m → IsLine (render m)
render-IsLine m h =
    let k = h.unknown_fits in
    labelled-IsLine (label_of m) (values_of m) (label_of-IsWord m k) (label_of_short m k)
      (values_of_bounds m k).1
