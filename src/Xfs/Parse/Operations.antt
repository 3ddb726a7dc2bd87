-- ===== src/Xfs/Parse/Operations.antt =====
-- xfs/parse.go: operations on files.
use procfs.Base.{ℕ, ◌!=◌, List, length}
use procfs.Go.Result.{Result, ok, errorf, ◌>>=◌, ◌>>◌, fail_if, ◌!!◌}
use procfs.Xfs.Types.{
  DirectoryOperationStats, TransactionStats, InodeOperationStats, LogOperationStats, ReadWriteStats,
  AttributeOperationStats,
}

unfoldable pub directory_operation_stats : List ℕ → Result DirectoryOperationStats
directory_operation_stats us = do
  fail_if (length us != 4)
      (errorf "incorrect number of values for XFS directory operation stats: %d")
  ok (record {
    lookups = (← us !! 0);
    creates = (← us !! 1);
    removes = (← us !! 2);
    getdents = (← us !! 3);
  })

unfoldable pub transaction_stats : List ℕ → Result TransactionStats
transaction_stats us = do
  fail_if (length us != 3) (errorf "incorrect number of values for XFS transaction stats: %d")
  ok (record { sync = (← us !! 0); async = (← us !! 1); empty = (← us !! 2) })

unfoldable pub inode_operation_stats : List ℕ → Result InodeOperationStats
inode_operation_stats us = do
  fail_if (length us != 7) (errorf "incorrect number of values for XFS inode operation stats: %d")
  ok (record {
    attempts = (← us !! 0);
    found = (← us !! 1);
    recycle = (← us !! 2);
    missed = (← us !! 3);
    duplicate = (← us !! 4);
    reclaims = (← us !! 5);
    attribute_change = (← us !! 6);
  })

unfoldable pub log_operation_stats : List ℕ → Result LogOperationStats
log_operation_stats us = do
  fail_if (length us != 5) (errorf "incorrect number of values for XFS log operation stats: %d")
  ok (record {
    writes = (← us !! 0);
    blocks = (← us !! 1);
    no_internal_buffers = (← us !! 2);
    force = (← us !! 3);
    force_sleep = (← us !! 4);
  })

unfoldable pub read_write_stats : List ℕ → Result ReadWriteStats
read_write_stats us = do
  fail_if (length us != 2) (errorf "incorrect number of values for XFS read write stats: %d")
  ok (record { write = (← us !! 0); read = (← us !! 1) })

unfoldable pub attribute_operation_stats : List ℕ → Result AttributeOperationStats
attribute_operation_stats us = do
  fail_if (length us != 4)
      (errorf "incorrect number of values for XFS attribute operation stats: %d")
  ok (record { get = (← us !! 0); set = (← us !! 1); remove = (← us !! 2); list = (← us !! 3) })
