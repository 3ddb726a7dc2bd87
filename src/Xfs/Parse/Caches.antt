-- ===== src/Xfs/Parse/Caches.antt =====
-- xfs/parse.go: caches, buffers, the log tail and quota.
use procfs.Base.{ℕ, ◌==◌, ◌!=◌, List, ◌&&◌, length, ltb, if◌then◌else◌}
use procfs.Go.Result.{Result, ok, errorf, ◌>>=◌, ◌>>◌, fail_if, ◌!!◌}
use procfs.Xfs.Types.{
  InodeClusteringStats, VnodeStats, BufferStats, ExtendedPrecisionStats, PushAilStats, XstratStats,
  QuotaManagerStats, DebugStats,
}

unfoldable pub inode_clustering_stats : List ℕ → Result InodeClusteringStats
inode_clustering_stats us = do
  fail_if (length us != 3) (errorf "incorrect number of values for XFS inode clustering stats: %d")
  ok (record { iflush = (← us !! 0); flush = (← us !! 1); flush_inode = (← us !! 2) })

-- The literal of `vnodeStats`.
unfoldable pub vnode_stats_of : List ℕ → Result VnodeStats
vnode_stats_of us = do
  ok (record {
    active = (← us !! 0);
    allocate = (← us !! 1);
    get = (← us !! 2);
    hold = (← us !! 3);
    release = (← us !! 4);
    reclaim = (← us !! 5);
    remove = (← us !! 6);
    free = 0;
  })

unfoldable pub vnode_stats : List ℕ → Result VnodeStats
unfolding vnode_stats_of
vnode_stats us = do
  let l = length us
  fail_if (l != 7 && l != 8) (errorf "incorrect number of values for XFS vnode stats: %d")
  s ← vnode_stats_of us
  if l == 7 then ok s else (do free ← us !! 7; ok (record s { free = free }))

unfoldable pub buffer_stats : List ℕ → Result BufferStats
buffer_stats us = do
  fail_if (length us != 9) (errorf "incorrect number of values for XFS buffer stats: %d")
  ok (record {
    get = (← us !! 0);
    create = (← us !! 1);
    get_locked = (← us !! 2);
    get_locked_waited = (← us !! 3);
    busy_locked = (← us !! 4);
    miss_locked = (← us !! 5);
    page_retries = (← us !! 6);
    page_found = (← us !! 7);
    get_read = (← us !! 8);
  })

unfoldable pub extended_precision_stats : List ℕ → Result ExtendedPrecisionStats
extended_precision_stats us = do
  fail_if (length us != 3)
      (errorf "incorrect number of values for XFS extended precision stats: %d")
  ok (record { flush_bytes = (← us !! 0); write_bytes = (← us !! 1); read_bytes = (← us !! 2) })

unfoldable pub push_ail_stats : List ℕ → Result PushAilStats
push_ail_stats us = do
  fail_if (length us != 10) (errorf "incorrect number of values for XFS push ail stats: %d")
  ok (record {
    try_logspace = (← us !! 0);
    sleep_logspace = (← us !! 1);
    pushes = (← us !! 2);
    success = (← us !! 3);
    push_buf = (← us !! 4);
    pinned = (← us !! 5);
    locked = (← us !! 6);
    flushing = (← us !! 7);
    restarts = (← us !! 8);
    flush = (← us !! 9);
  })

unfoldable pub x_strat_stats : List ℕ → Result XstratStats
x_strat_stats us = do
  fail_if (length us != 2) (errorf "incorrect number of values for XFS  xstrat stats: %d")
  ok (record { quick = (← us !! 0); split = (← us !! 1) })

-- The literal of `quotaManagerStats`.
unfoldable pub quota_manager_stats_of : List ℕ → Result QuotaManagerStats
quota_manager_stats_of us = do
  ok (record {
    reclaims = (← us !! 0);
    reclaim_misses = (← us !! 1);
    dquote_dups = (← us !! 2);
    cache_misses = (← us !! 3);
    cache_hits = (← us !! 4);
    wants = (← us !! 5);
    shake_reclaims = (← us !! 6);
    inact_reclaims = (← us !! 7);
    unused = 0;
  })

unfoldable pub quota_manager_stats : List ℕ → Result QuotaManagerStats
unfolding quota_manager_stats_of
quota_manager_stats us = do
  let l = length us
  fail_if (l != 8 && l != 9) (errorf "incorrect number of values for XFS quota stats: %d")
  s ← quota_manager_stats_of us
  if ltb 8 l then (do unused ← us !! 8; ok (record s { unused = unused })) else ok s

unfoldable pub debug_stats : List ℕ → Result DebugStats
debug_stats us = do
  fail_if (length us != 1) (errorf "incorrect number of values for XFS debug stats: %d")
  ok (record { enabled = (← us !! 0) })
