-- ===== src/MountStats/Types.antt =====
-- mountstats.go: the records of a mount and of the lines of an NFS mount, their zero values, and the
-- numbers of a line in its order.
use procfs.Base.{ℕ, ℤ, Bytes, List, [], ◌∷◌, Option}
use procfs.Go.Map.{StringMap}

pub record NfsBytesStats : Type 0 where
  pub read : ℕ
  pub write : ℕ
  pub direct_read : ℕ
  pub direct_write : ℕ
  pub read_total : ℕ
  pub write_total : ℕ
  pub read_pages : ℕ
  pub write_pages : ℕ

abbrev pub zero_nfs_bytes_stats : NfsBytesStats
zero_nfs_bytes_stats = record {
  read = 0;
  write = 0;
  direct_read = 0;
  direct_write = 0;
  read_total = 0;
  write_total = 0;
  read_pages = 0;
  write_pages = 0;
}

abbrev pub nfs_bytes_stats_values : NfsBytesStats → List ℕ
nfs_bytes_stats_values x =
    x.read ∷ x.write ∷ x.direct_read ∷ x.direct_write ∷ x.read_total ∷ x.write_total ∷ x.read_pages
    ∷ x.write_pages ∷ []

pub record NfsEventsStats : Type 0 where
  pub inode_revalidate : ℕ
  pub dnode_revalidate : ℕ
  pub data_invalidate : ℕ
  pub attribute_invalidate : ℕ
  pub vfs_open : ℕ
  pub vfs_lookup : ℕ
  pub vfs_access : ℕ
  pub vfs_update_page : ℕ
  pub vfs_read_page : ℕ
  pub vfs_read_pages : ℕ
  pub vfs_write_page : ℕ
  pub vfs_write_pages : ℕ
  pub vfs_getdents : ℕ
  pub vfs_setattr : ℕ
  pub vfs_flush : ℕ
  pub vfs_fsync : ℕ
  pub vfs_lock : ℕ
  pub vfs_file_release : ℕ
  pub congestion_wait : ℕ
  pub truncation : ℕ
  pub write_extension : ℕ
  pub silly_rename : ℕ
  pub short_read : ℕ
  pub short_write : ℕ
  pub jukebox_delay : ℕ
  pub pnfs_read : ℕ
  pub pnfs_write : ℕ

abbrev pub zero_nfs_events_stats : NfsEventsStats
zero_nfs_events_stats = record {
  inode_revalidate = 0;
  dnode_revalidate = 0;
  data_invalidate = 0;
  attribute_invalidate = 0;
  vfs_open = 0;
  vfs_lookup = 0;
  vfs_access = 0;
  vfs_update_page = 0;
  vfs_read_page = 0;
  vfs_read_pages = 0;
  vfs_write_page = 0;
  vfs_write_pages = 0;
  vfs_getdents = 0;
  vfs_setattr = 0;
  vfs_flush = 0;
  vfs_fsync = 0;
  vfs_lock = 0;
  vfs_file_release = 0;
  congestion_wait = 0;
  truncation = 0;
  write_extension = 0;
  silly_rename = 0;
  short_read = 0;
  short_write = 0;
  jukebox_delay = 0;
  pnfs_read = 0;
  pnfs_write = 0;
}

abbrev pub nfs_events_stats_values : NfsEventsStats → List ℕ
nfs_events_stats_values x =
    x.inode_revalidate ∷ x.dnode_revalidate ∷ x.data_invalidate ∷ x.attribute_invalidate
    ∷ x.vfs_open ∷ x.vfs_lookup ∷ x.vfs_access ∷ x.vfs_update_page ∷ x.vfs_read_page
    ∷ x.vfs_read_pages ∷ x.vfs_write_page ∷ x.vfs_write_pages ∷ x.vfs_getdents ∷ x.vfs_setattr
    ∷ x.vfs_flush ∷ x.vfs_fsync ∷ x.vfs_lock ∷ x.vfs_file_release ∷ x.congestion_wait ∷ x.truncation
    ∷ x.write_extension ∷ x.silly_rename ∷ x.short_read ∷ x.short_write ∷ x.jukebox_delay
    ∷ x.pnfs_read ∷ x.pnfs_write ∷ []

pub record NfsOperationStats : Type 0 where
  pub operation : Bytes
  pub requests : ℕ
  pub transmissions : ℕ
  pub major_timeouts : ℕ
  pub bytes_sent : ℕ
  pub bytes_received : ℕ
  pub cumulative_queue_milliseconds : ℕ
  pub cumulative_total_response_milliseconds : ℕ
  pub cumulative_total_request_milliseconds : ℕ
  pub errors : ℕ

pub record NfsTransportStats : Type 0 where
  pub protocol : Bytes
  pub port : ℕ
  pub bind : ℕ
  pub connect : ℕ
  pub connect_idle_time : ℕ
  pub idle_time_seconds : ℕ
  pub sends : ℕ
  pub receives : ℕ
  pub bad_transaction_ids : ℕ
  pub cumulative_active_requests : ℕ
  pub cumulative_backlog : ℕ
  pub maximum_rpc_slots_used : ℕ
  pub cumulative_sending_queue : ℕ
  pub cumulative_pending_queue : ℕ
  pub read_chunk_count : ℕ
  pub write_chunk_count : ℕ
  pub reply_chunk_count : ℕ
  pub total_rdma_request : ℕ
  pub pullup_copy_count : ℕ
  pub hardway_register_count : ℕ
  pub failed_marshal_count : ℕ
  pub bad_reply_count : ℕ
  pub mrs_recovered : ℕ
  pub mrs_orphaned : ℕ
  pub mrs_allocated : ℕ
  pub empty_sendctx_q : ℕ
  pub total_rdma_reply : ℕ
  pub fixup_copy_count : ℕ
  pub reply_waits_for_send : ℕ
  pub local_inv_needed : ℕ
  pub nomsg_call_count : ℕ
  pub bcall_count : ℕ

-- The nil map is the empty one. The age is in nanoseconds.
pub record MountStatsNfs : Type 0 where
  pub stat_version : Bytes
  pub opts : StringMap
  pub age : ℤ
  pub bytes : NfsBytesStats
  pub events : NfsEventsStats
  pub operations : List NfsOperationStats
  pub transport : List NfsTransportStats

-- The only type that implements the interface `MountStats` is that of NFS mounts.
pub record Mount : Type 0 where
  pub device : Bytes
  pub mount : Bytes
  pub type : Bytes
  pub stats : Option MountStatsNfs
