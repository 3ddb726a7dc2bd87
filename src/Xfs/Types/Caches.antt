-- ===== src/Xfs/Types/Caches.antt =====
-- xfs/xfs.go: the records of caches, buffers, the log tail and quota, their zero values, and
-- their numbers in the order in which the kernel prints them.
use procfs.Base.{ℕ, List, [], ◌∷◌}

pub record InodeClusteringStats : Type 0 where
  pub iflush : ℕ
  pub flush : ℕ
  pub flush_inode : ℕ

abbrev pub zero_inode_clustering_stats : InodeClusteringStats
zero_inode_clustering_stats = record { iflush = 0; flush = 0; flush_inode = 0 }

abbrev pub inode_clustering_stats_values : InodeClusteringStats → List ℕ
inode_clustering_stats_values x = x.iflush ∷ x.flush ∷ x.flush_inode ∷ []

pub record VnodeStats : Type 0 where
  pub active : ℕ
  pub allocate : ℕ
  pub get : ℕ
  pub hold : ℕ
  pub release : ℕ
  pub reclaim : ℕ
  pub remove : ℕ
  pub free : ℕ

abbrev pub zero_vnode_stats : VnodeStats
zero_vnode_stats = record {
  active = 0;
  allocate = 0;
  get = 0;
  hold = 0;
  release = 0;
  reclaim = 0;
  remove = 0;
  free = 0;
}

abbrev pub vnode_stats_values : VnodeStats → List ℕ
vnode_stats_values x =
    x.active ∷ x.allocate ∷ x.get ∷ x.hold ∷ x.release ∷ x.reclaim ∷ x.remove ∷ x.free ∷ []

pub record BufferStats : Type 0 where
  pub get : ℕ
  pub create : ℕ
  pub get_locked : ℕ
  pub get_locked_waited : ℕ
  pub busy_locked : ℕ
  pub miss_locked : ℕ
  pub page_retries : ℕ
  pub page_found : ℕ
  pub get_read : ℕ

abbrev pub zero_buffer_stats : BufferStats
zero_buffer_stats = record {
  get = 0;
  create = 0;
  get_locked = 0;
  get_locked_waited = 0;
  busy_locked = 0;
  miss_locked = 0;
  page_retries = 0;
  page_found = 0;
  get_read = 0;
}

abbrev pub buffer_stats_values : BufferStats → List ℕ
buffer_stats_values x =
    x.get ∷ x.create ∷ x.get_locked ∷ x.get_locked_waited ∷ x.busy_locked ∷ x.miss_locked
    ∷ x.page_retries ∷ x.page_found ∷ x.get_read ∷ []

pub record ExtendedPrecisionStats : Type 0 where
  pub flush_bytes : ℕ
  pub write_bytes : ℕ
  pub read_bytes : ℕ

abbrev pub zero_extended_precision_stats : ExtendedPrecisionStats
zero_extended_precision_stats = record { flush_bytes = 0; write_bytes = 0; read_bytes = 0 }

abbrev pub extended_precision_stats_values : ExtendedPrecisionStats → List ℕ
extended_precision_stats_values x = x.flush_bytes ∷ x.write_bytes ∷ x.read_bytes ∷ []

pub record PushAilStats : Type 0 where
  pub try_logspace : ℕ
  pub sleep_logspace : ℕ
  pub pushes : ℕ
  pub success : ℕ
  pub push_buf : ℕ
  pub pinned : ℕ
  pub locked : ℕ
  pub flushing : ℕ
  pub restarts : ℕ
  pub flush : ℕ

abbrev pub zero_push_ail_stats : PushAilStats
zero_push_ail_stats = record {
  try_logspace = 0;
  sleep_logspace = 0;
  pushes = 0;
  success = 0;
  push_buf = 0;
  pinned = 0;
  locked = 0;
  flushing = 0;
  restarts = 0;
  flush = 0;
}

abbrev pub push_ail_stats_values : PushAilStats → List ℕ
push_ail_stats_values x =
    x.try_logspace ∷ x.sleep_logspace ∷ x.pushes ∷ x.success ∷ x.push_buf ∷ x.pinned ∷ x.locked
    ∷ x.flushing ∷ x.restarts ∷ x.flush ∷ []

pub record XstratStats : Type 0 where
  pub quick : ℕ
  pub split : ℕ

abbrev pub zero_xstrat_stats : XstratStats
zero_xstrat_stats = record { quick = 0; split = 0 }

abbrev pub xstrat_stats_values : XstratStats → List ℕ
xstrat_stats_values x = x.quick ∷ x.split ∷ []

pub record QuotaManagerStats : Type 0 where
  pub reclaims : ℕ
  pub reclaim_misses : ℕ
  pub dquote_dups : ℕ
  pub cache_misses : ℕ
  pub cache_hits : ℕ
  pub wants : ℕ
  pub shake_reclaims : ℕ
  pub inact_reclaims : ℕ
  pub unused : ℕ

abbrev pub zero_quota_manager_stats : QuotaManagerStats
zero_quota_manager_stats = record {
  reclaims = 0;
  reclaim_misses = 0;
  dquote_dups = 0;
  cache_misses = 0;
  cache_hits = 0;
  wants = 0;
  shake_reclaims = 0;
  inact_reclaims = 0;
  unused = 0;
}

abbrev pub quota_manager_stats_values : QuotaManagerStats → List ℕ
quota_manager_stats_values x =
    x.reclaims ∷ x.reclaim_misses ∷ x.dquote_dups ∷ x.cache_misses ∷ x.cache_hits ∷ x.wants
    ∷ x.shake_reclaims ∷ x.inact_reclaims ∷ x.unused ∷ []

pub record DebugStats : Type 0 where
  pub enabled : ℕ

abbrev pub zero_debug_stats : DebugStats
zero_debug_stats = record { enabled = 0 }

abbrev pub debug_stats_values : DebugStats → List ℕ
debug_stats_values x = x.enabled ∷ []
