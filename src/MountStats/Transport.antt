-- ===== src/MountStats/Transport.antt =====
-- mountstats.go: the "xprt" line of an NFS mount.
use procfs.Base.{
  ℕ, Bytes, List, ◌++◌, ◌+◌, length, ltb, ◌!=◌, ◌&&◌, ◌||◌, bytes_eq, codes, replicate,
  if◌then◌else◌,
}
use procfs.Go.Result.{Result, ok, err, file_parse, wrap, ◌>>=◌, ◌>>◌, fail_if, ◌!!◌, slice, each}
use procfs.Go.Slices.{set_at}
use procfs.Go.Strconv.{parse_uint}
use procfs.MountStats.Types.{NfsTransportStats}

-- The number of counters that a protocol has in version 1.0 of the statistics.
unfoldable pub expected_length10 : Bytes → Result ℕ
expected_length10 protocol =
    if bytes_eq protocol (codes "tcp")
    then ok 10
    else if bytes_eq protocol (codes "udp")
    then ok 7
    else err (wrap "%w: Invalid NFS protocol \"%s\" in stats 1.0 statement: %v" file_parse)

-- The same in version 1.1, where that of "rdma" is the least.
unfoldable pub expected_length11 : Bytes → Result ℕ
expected_length11 protocol =
    if bytes_eq protocol (codes "tcp")
    then ok 13
    else if bytes_eq protocol (codes "udp")
    then ok 10
    else if bytes_eq protocol (codes "rdma")
    then ok 20
    else err (wrap "%w: invalid NFS protocol \"%s\" in stats 1.1 statement: %v" file_parse)

-- The switch over the version.
unfoldable pub check_transport : Bytes → Bytes → List Bytes → Result (Unit {0})
unfolding expected_length10 expected_length11
check_transport stat_version protocol ss =
    if bytes_eq stat_version (codes "1.0")
    then (do
      expected ← expected_length10 protocol
      fail_if (length ss != expected)
          (wrap "%w: Invalid NFS transport stats 1.0 statement: %v" file_parse))
    else if bytes_eq stat_version (codes "1.1")
    then (do
      expected ← expected_length11 protocol
      fail_if
          ((length ss != expected
              && (bytes_eq protocol (codes "tcp") || bytes_eq protocol (codes "udp")))
            || (bytes_eq protocol (codes "rdma") && ltb (length ss) expected))
          (wrap "%w: invalid NFS transport stats 1.1 statement: %v, protocol: %v" file_parse))
    else err (wrap "%w: Unrecognized NFS transport stats version: %q, protocol: %v" file_parse)

-- A round of the loop that fills the counters: the counters and the index.
unfoldable pub store_counter : List ℕ × ℕ → Bytes → Result (List ℕ × ℕ)
store_counter (ns, i) s = do n ← parse_uint s 10 64; stored ← set_at ns i n; ok (stored, i + 1)

-- The counters of a line in the places that the record has for them.
unfoldable pub spread : Bytes → List ℕ → Result (List ℕ)
spread protocol ns =
    if bytes_eq protocol (codes "udp")
    then (do
      first ← slice ns 0 2
      rest ← slice ns 2 (length ns)
      ok (first ++ (replicate 3 0 ++ rest)))
    else if bytes_eq protocol (codes "tcp")
    then (do first ← slice ns 0 13; ok (first ++ replicate 18 0))
    else if bytes_eq protocol (codes "rdma")
    then (do
      first ← slice ns 0 10
      rest ← slice ns 10 (length ns)
      ok (first ++ (replicate 3 0 ++ rest)))
    else ok ns

-- The record that `parseNFSTransportStats` returns.
unfoldable pub transport_of : Bytes → List ℕ → Result NfsTransportStats
transport_of protocol ns = do
  ok (record {
    protocol = protocol;
    port = (← ns !! 0);
    bind = (← ns !! 1);
    connect = (← ns !! 2);
    connect_idle_time = (← ns !! 3);
    idle_time_seconds = (← ns !! 4);
    sends = (← ns !! 5);
    receives = (← ns !! 6);
    bad_transaction_ids = (← ns !! 7);
    cumulative_active_requests = (← ns !! 8);
    cumulative_backlog = (← ns !! 9);
    maximum_rpc_slots_used = (← ns !! 10);
    cumulative_sending_queue = (← ns !! 11);
    cumulative_pending_queue = (← ns !! 12);
    read_chunk_count = (← ns !! 13);
    write_chunk_count = (← ns !! 14);
    reply_chunk_count = (← ns !! 15);
    total_rdma_request = (← ns !! 16);
    pullup_copy_count = (← ns !! 17);
    hardway_register_count = (← ns !! 18);
    failed_marshal_count = (← ns !! 19);
    bad_reply_count = (← ns !! 20);
    mrs_recovered = (← ns !! 21);
    mrs_orphaned = (← ns !! 22);
    mrs_allocated = (← ns !! 23);
    empty_sendctx_q = (← ns !! 24);
    total_rdma_reply = (← ns !! 25);
    fixup_copy_count = (← ns !! 26);
    reply_waits_for_send = (← ns !! 27);
    local_inv_needed = (← ns !! 28);
    nomsg_call_count = (← ns !! 29);
    bcall_count = (← ns !! 30);
  })

unfoldable pub parse_nfs_transport_stats : List Bytes → Bytes → Result NfsTransportStats
parse_nfs_transport_stats fields stat_version = do
  protocol ← fields !! 0
  ss ← slice fields 1 (length fields)
  check_transport stat_version protocol ss
  filled ← each store_counter (replicate 31 0, 0) ss
  ns ← spread protocol filled.0
  transport_of protocol ns
