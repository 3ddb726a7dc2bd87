-- ===== src/Xfs/Parse/Btrees.antt =====
-- xfs/parse.go: the second versions of the B-trees.
use procfs.Base.{ℕ, ◌!=◌, List, length}
use procfs.Go.Result.{Result, ok, errorf, ◌>>=◌, ◌>>◌, fail_if, ◌!!◌}
use procfs.Xfs.Types.{
  BtreeAllocBlocks2Stats, BtreeAllocContig2Stats, BtreeBlockMap2Stats, BtreeInode2Stats,
}

unfoldable pub btree_alloc_blocks2_stats : List ℕ → Result BtreeAllocBlocks2Stats
btree_alloc_blocks2_stats us = do
  fail_if (length us != 15) (errorf "incorrect number of values for abtb2 stats: %d")
  ok (record {
    lookup = (← us !! 0);
    compare = (← us !! 1);
    insrec = (← us !! 2);
    delrec = (← us !! 3);
    new_root = (← us !! 4);
    kill_root = (← us !! 5);
    increment = (← us !! 6);
    decrement = (← us !! 7);
    lshift = (← us !! 8);
    rshift = (← us !! 9);
    split = (← us !! 10);
    join = (← us !! 11);
    alloc = (← us !! 12);
    free = (← us !! 13);
    moves = (← us !! 14);
  })

unfoldable pub btree_alloc_contig2_stats : List ℕ → Result BtreeAllocContig2Stats
btree_alloc_contig2_stats us = do
  fail_if (length us != 15) (errorf "incorrect number of values for abtc2 stats: %d")
  ok (record {
    lookup = (← us !! 0);
    compare = (← us !! 1);
    insrec = (← us !! 2);
    delrec = (← us !! 3);
    new_root = (← us !! 4);
    kill_root = (← us !! 5);
    increment = (← us !! 6);
    decrement = (← us !! 7);
    lshift = (← us !! 8);
    rshift = (← us !! 9);
    split = (← us !! 10);
    join = (← us !! 11);
    alloc = (← us !! 12);
    free = (← us !! 13);
    moves = (← us !! 14);
  })

unfoldable pub btree_block_map2_stats : List ℕ → Result BtreeBlockMap2Stats
btree_block_map2_stats us = do
  fail_if (length us != 15) (errorf "incorrect number of values for bmbt2 stats: %d")
  ok (record {
    lookup = (← us !! 0);
    compare = (← us !! 1);
    insrec = (← us !! 2);
    delrec = (← us !! 3);
    new_root = (← us !! 4);
    kill_root = (← us !! 5);
    increment = (← us !! 6);
    decrement = (← us !! 7);
    lshift = (← us !! 8);
    rshift = (← us !! 9);
    split = (← us !! 10);
    join = (← us !! 11);
    alloc = (← us !! 12);
    free = (← us !! 13);
    moves = (← us !! 14);
  })

unfoldable pub btree_inode2_stats : List ℕ → Result BtreeInode2Stats
btree_inode2_stats us = do
  fail_if (length us != 15) (errorf "incorrect number of values for ibt2 stats: %d")
  ok (record {
    lookup = (← us !! 0);
    compare = (← us !! 1);
    insrec = (← us !! 2);
    delrec = (← us !! 3);
    new_root = (← us !! 4);
    kill_root = (← us !! 5);
    increment = (← us !! 6);
    decrement = (← us !! 7);
    lshift = (← us !! 8);
    rshift = (← us !! 9);
    split = (← us !! 10);
    join = (← us !! 11);
    alloc = (← us !! 12);
    free = (← us !! 13);
    moves = (← us !! 14);
  })
