-- ===== src/Xfs/Parse/Space.antt =====
-- xfs/parse.go: allocation and mapping of space.
use procfs.Base.{ℕ, ◌!=◌, List, length}
use procfs.Go.Result.{Result, ok, errorf, ◌>>=◌, ◌>>◌, fail_if, ◌!!◌}
use procfs.Xfs.Types.{ExtentAllocationStats, BTreeStats, BlockMappingStats}

unfoldable pub extent_allocation_stats : List ℕ → Result ExtentAllocationStats
extent_allocation_stats us = do
  fail_if (length us != 4) (errorf "incorrect number of values for XFS extent allocation stats: %d")
  ok (record {
    extents_allocated = (← us !! 0);
    blocks_allocated = (← us !! 1);
    extents_freed = (← us !! 2);
    blocks_freed = (← us !! 3);
  })

unfoldable pub btree_stats : List ℕ → Result BTreeStats
btree_stats us = do
  fail_if (length us != 4) (errorf "incorrect number of values for XFS btree stats: %d")
  ok (record {
    lookups = (← us !! 0);
    compares = (← us !! 1);
    records_inserted = (← us !! 2);
    records_deleted = (← us !! 3);
  })

unfoldable pub block_mapping_stats : List ℕ → Result BlockMappingStats
block_mapping_stats us = do
  fail_if (length us != 7) (errorf "incorrect number of values for XFS block mapping stats: %d")
  ok (record {
    reads = (← us !! 0);
    writes = (← us !! 1);
    unmaps = (← us !! 2);
    extent_list_insertions = (← us !! 3);
    extent_list_deletions = (← us !! 4);
    extent_list_lookups = (← us !! 5);
    extent_list_compares = (← us !! 6);
  })
