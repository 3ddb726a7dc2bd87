-- ===== src/Xfs/Parse/Total.antt =====
-- xfs/parse.go: the length tests of the functions that build one record.
use procfs.Base.{ℕ, ◌!=◌, ◌==◌, ◌&&◌, ltb, List, inl, inr, arith, length, Bool-cases}
use procfs.Go.Cells.{exact_cells, every_exact_cell, cells, every_cell, Returns-exact}
use procfs.Go.Result.{Returns, Returns-fail_if, Returns-bind, Returns-!!, ◌!!◌}
use procfs.Xfs.Parse.Btrees.{
  btree_alloc_blocks2_stats, btree_alloc_contig2_stats, btree_block_map2_stats, btree_inode2_stats,
}
use procfs.Xfs.Parse.Caches.{
  vnode_stats_of, quota_manager_stats_of, inode_clustering_stats, vnode_stats, buffer_stats,
  extended_precision_stats, push_ail_stats, x_strat_stats, quota_manager_stats, debug_stats,
}
use procfs.Xfs.Parse.Operations.{
  directory_operation_stats, transaction_stats, inode_operation_stats, log_operation_stats,
  read_write_stats, attribute_operation_stats,
}
use procfs.Xfs.Parse.Space.{extent_allocation_stats, btree_stats, block_mapping_stats}

pub extent_allocation_stats-Returns : (us : List ℕ) → Returns (extent_allocation_stats us)
unfolding extent_allocation_stats
extent_allocation_stats-Returns = Returns-exact 4 _ _ (exact_cells 4 _ (every_exact_cell 4))

pub btree_stats-Returns : (us : List ℕ) → Returns (btree_stats us)
unfolding btree_stats
btree_stats-Returns = Returns-exact 4 _ _ (exact_cells 4 _ (every_exact_cell 4))

pub block_mapping_stats-Returns : (us : List ℕ) → Returns (block_mapping_stats us)
unfolding block_mapping_stats
block_mapping_stats-Returns = Returns-exact 7 _ _ (exact_cells 7 _ (every_exact_cell 7))

pub directory_operation_stats-Returns : (us : List ℕ) → Returns (directory_operation_stats us)
unfolding directory_operation_stats
directory_operation_stats-Returns = Returns-exact 4 _ _ (exact_cells 4 _ (every_exact_cell 4))

pub transaction_stats-Returns : (us : List ℕ) → Returns (transaction_stats us)
unfolding transaction_stats
transaction_stats-Returns = Returns-exact 3 _ _ (exact_cells 3 _ (every_exact_cell 3))

pub inode_operation_stats-Returns : (us : List ℕ) → Returns (inode_operation_stats us)
unfolding inode_operation_stats
inode_operation_stats-Returns = Returns-exact 7 _ _ (exact_cells 7 _ (every_exact_cell 7))

pub log_operation_stats-Returns : (us : List ℕ) → Returns (log_operation_stats us)
unfolding log_operation_stats
log_operation_stats-Returns = Returns-exact 5 _ _ (exact_cells 5 _ (every_exact_cell 5))

pub read_write_stats-Returns : (us : List ℕ) → Returns (read_write_stats us)
unfolding read_write_stats
read_write_stats-Returns = Returns-exact 2 _ _ (exact_cells 2 _ (every_exact_cell 2))

pub attribute_operation_stats-Returns : (us : List ℕ) → Returns (attribute_operation_stats us)
unfolding attribute_operation_stats
attribute_operation_stats-Returns = Returns-exact 4 _ _ (exact_cells 4 _ (every_exact_cell 4))

pub inode_clustering_stats-Returns : (us : List ℕ) → Returns (inode_clustering_stats us)
unfolding inode_clustering_stats
inode_clustering_stats-Returns = Returns-exact 3 _ _ (exact_cells 3 _ (every_exact_cell 3))

pub buffer_stats-Returns : (us : List ℕ) → Returns (buffer_stats us)
unfolding buffer_stats
buffer_stats-Returns = Returns-exact 9 _ _ (exact_cells 9 _ (every_exact_cell 9))

pub extended_precision_stats-Returns : (us : List ℕ) → Returns (extended_precision_stats us)
unfolding extended_precision_stats
extended_precision_stats-Returns = Returns-exact 3 _ _ (exact_cells 3 _ (every_exact_cell 3))

pub push_ail_stats-Returns : (us : List ℕ) → Returns (push_ail_stats us)
unfolding push_ail_stats
push_ail_stats-Returns = Returns-exact 10 _ _ (exact_cells 10 _ (every_exact_cell 10))

pub x_strat_stats-Returns : (us : List ℕ) → Returns (x_strat_stats us)
unfolding x_strat_stats
x_strat_stats-Returns = Returns-exact 2 _ _ (exact_cells 2 _ (every_exact_cell 2))

pub debug_stats-Returns : (us : List ℕ) → Returns (debug_stats us)
unfolding debug_stats
debug_stats-Returns = Returns-exact 1 _ _ (exact_cells 1 _ (every_exact_cell 1))

pub btree_alloc_blocks2_stats-Returns : (us : List ℕ) → Returns (btree_alloc_blocks2_stats us)
unfolding btree_alloc_blocks2_stats
btree_alloc_blocks2_stats-Returns = Returns-exact 15 _ _ (exact_cells 15 _ (every_exact_cell 15))

pub btree_alloc_contig2_stats-Returns : (us : List ℕ) → Returns (btree_alloc_contig2_stats us)
unfolding btree_alloc_contig2_stats
btree_alloc_contig2_stats-Returns = Returns-exact 15 _ _ (exact_cells 15 _ (every_exact_cell 15))

pub btree_block_map2_stats-Returns : (us : List ℕ) → Returns (btree_block_map2_stats us)
unfolding btree_block_map2_stats
btree_block_map2_stats-Returns = Returns-exact 15 _ _ (exact_cells 15 _ (every_exact_cell 15))

pub btree_inode2_stats-Returns : (us : List ℕ) → Returns (btree_inode2_stats us)
unfolding btree_inode2_stats
btree_inode2_stats-Returns = Returns-exact 15 _ _ (exact_cells 15 _ (every_exact_cell 15))

pub vnode_stats-Returns : (us : List ℕ) → Returns (vnode_stats us)
unfolding vnode_stats
vnode_stats-Returns us = Returns-fail_if (length us != 7 && length us != 8) _ _ λ good.
    Returns-bind (vnode_stats_of us) _
      (cells 7 (λ w. Returns (vnode_stats_of w)) (every_cell 7) us (ground arith))
      λ s. elim (Bool-cases (length us == 7)) [
        | inl seven ↦ rw seven tt
        | inr eight ↦ rw eight (Returns-bind (us !! 7) _ (Returns-!! us 7 (ground arith)) (λ _. tt))
      ]

pub quota_manager_stats-Returns : (us : List ℕ) → Returns (quota_manager_stats us)
unfolding quota_manager_stats
quota_manager_stats-Returns us = Returns-fail_if (length us != 8 && length us != 9) _ _ λ good.
    Returns-bind (quota_manager_stats_of us) _
      (cells 8 (λ w. Returns (quota_manager_stats_of w)) (every_cell 8) us (ground arith))
      λ s. elim (Bool-cases (ltb 8 (length us))) [
        | inl nine ↦ rw nine (Returns-bind (us !! 8) _ (Returns-!! us 8 (ground arith)) (λ _. tt))
        | inr eight ↦ rw eight tt
      ]
