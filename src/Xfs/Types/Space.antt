-- ===== src/Xfs/Types/Space.antt =====
-- xfs/xfs.go: the records of allocation and mapping of space, their zero values, and
-- their numbers in the order in which the kernel prints them.
use procfs.Base.{ℕ, List, [], ◌∷◌}

pub record ExtentAllocationStats : Type 0 where
  pub extents_allocated : ℕ
  pub blocks_allocated : ℕ
  pub extents_freed : ℕ
  pub blocks_freed : ℕ

abbrev pub zero_extent_allocation_stats : ExtentAllocationStats
zero_extent_allocation_stats = record {
  extents_allocated = 0;
  blocks_allocated = 0;
  extents_freed = 0;
  blocks_freed = 0;
}

abbrev pub extent_allocation_stats_values : ExtentAllocationStats → List ℕ
extent_allocation_stats_values x =
    x.extents_allocated ∷ x.blocks_allocated ∷ x.extents_freed ∷ x.blocks_freed ∷ []

pub record BTreeStats : Type 0 where
  pub lookups : ℕ
  pub compares : ℕ
  pub records_inserted : ℕ
  pub records_deleted : ℕ

abbrev pub zero_btree_stats : BTreeStats
zero_btree_stats = record { lookups = 0; compares = 0; records_inserted = 0; records_deleted = 0 }

abbrev pub btree_stats_values : BTreeStats → List ℕ
btree_stats_values x = x.lookups ∷ x.compares ∷ x.records_inserted ∷ x.records_deleted ∷ []

pub record BlockMappingStats : Type 0 where
  pub reads : ℕ
  pub writes : ℕ
  pub unmaps : ℕ
  pub extent_list_insertions : ℕ
  pub extent_list_deletions : ℕ
  pub extent_list_lookups : ℕ
  pub extent_list_compares : ℕ

abbrev pub zero_block_mapping_stats : BlockMappingStats
zero_block_mapping_stats = record {
  reads = 0;
  writes = 0;
  unmaps = 0;
  extent_list_insertions = 0;
  extent_list_deletions = 0;
  extent_list_lookups = 0;
  extent_list_compares = 0;
}

abbrev pub block_mapping_stats_values : BlockMappingStats → List ℕ
block_mapping_stats_values x =
    x.reads ∷ x.writes ∷ x.unmaps ∷ x.extent_list_insertions ∷ x.extent_list_deletions
    ∷ x.extent_list_lookups ∷ x.extent_list_compares ∷ []
