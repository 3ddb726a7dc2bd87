-- ===== src/MountStats/Lines.antt =====
-- mountstats.go: the parsers of one line of an NFS mount.
use procfs.Base.{ℕ, Bytes, List, length, ltb, ◌!=◌, codes, if◌then◌else◌}
use procfs.Go.Result.{Result, ok, file_parse, wrap, ◌>>=◌, ◌>>◌, fail_if, ◌!!◌, slice}
use procfs.Go.Strconv.{parse_uint}
use procfs.Go.Text.{trim_suffix}
use procfs.MountStats.Types.{NfsBytesStats, NfsEventsStats, NfsOperationStats}
use procfs.Util.Parse.{collect}

-- The loop over `strconv.ParseUint` that the functions below have.
unfoldable pub parse_counters : List Bytes → Result (List ℕ)
parse_counters = collect (λ s. parse_uint s 10 64)

unfoldable pub parse_nfs_bytes_stats : List Bytes → Result NfsBytesStats
parse_nfs_bytes_stats ss = do
  fail_if (length ss != 8) (wrap "%w: Invalid NFS bytes stats: %v" file_parse)
  ns ← parse_counters ss
  ok (record {
    read = (← ns !! 0);
    write = (← ns !! 1);
    direct_read = (← ns !! 2);
    direct_write = (← ns !! 3);
    read_total = (← ns !! 4);
    write_total = (← ns !! 5);
    read_pages = (← ns !! 6);
    write_pages = (← ns !! 7);
  })

unfoldable pub parse_nfs_events_stats : List Bytes → Result NfsEventsStats
parse_nfs_events_stats ss = do
  fail_if (length ss != 27) (wrap "%w: invalid NFS events stats: %v" file_parse)
  ns ← parse_counters ss
  ok (record {
    inode_revalidate = (← ns !! 0);
    dnode_revalidate = (← ns !! 1);
    data_invalidate = (← ns !! 2);
    attribute_invalidate = (← ns !! 3);
    vfs_open = (← ns !! 4);
    vfs_lookup = (← ns !! 5);
    vfs_access = (← ns !! 6);
    vfs_update_page = (← ns !! 7);
    vfs_read_page = (← ns !! 8);
    vfs_read_pages = (← ns !! 9);
    vfs_write_page = (← ns !! 10);
    vfs_write_pages = (← ns !! 11);
    vfs_getdents = (← ns !! 12);
    vfs_setattr = (← ns !! 13);
    vfs_flush = (← ns !! 14);
    vfs_fsync = (← ns !! 15);
    vfs_lock = (← ns !! 16);
    vfs_file_release = (← ns !! 17);
    congestion_wait = (← ns !! 18);
    truncation = (← ns !! 19);
    write_extension = (← ns !! 20);
    silly_rename = (← ns !! 21);
    short_read = (← ns !! 22);
    short_write = (← ns !! 23);
    jukebox_delay = (← ns !! 24);
    pnfs_read = (← ns !! 25);
    pnfs_write = (← ns !! 26);
  })

-- The statistics of an operation with its number of errors.
unfoldable pub operation_of : Bytes → ℕ → List ℕ → Result NfsOperationStats
operation_of name errors ns = do
  ok (record {
    operation = trim_suffix name (codes ":");
    requests = (← ns !! 0);
    transmissions = (← ns !! 1);
    major_timeouts = (← ns !! 2);
    bytes_sent = (← ns !! 3);
    bytes_received = (← ns !! 4);
    cumulative_queue_milliseconds = (← ns !! 5);
    cumulative_total_response_milliseconds = (← ns !! 6);
    cumulative_total_request_milliseconds = (← ns !! 7);
    errors = errors;
  })

-- A round of the loop of `parseNFSOperationStats`, behind its test for a blank line. The ninth counter,
-- if there is one, counts errors.
unfoldable pub nfs_operation : List Bytes → Result NfsOperationStats
unfolding operation_of
nfs_operation ss = do
  fail_if (ltb (length ss) 9) (wrap "%w: invalid NFS per-operations stats: %v" file_parse)
  rest ← slice ss 1 (length ss)
  ns ← parse_counters rest
  name ← ss !! 0
  errors ← if ltb 8 (length ns) then ns !! 8 else ok 0
  operation_of name errors ns
