-- ===== src/MountStats/Layout.antt =====
-- mountstats.go: what the parser reads from an "xprt" line, by its protocol and version.
use procfs.Base.{
  ℕ, ◌+◌, ◌-◌, ◌≤◌, ◌<◌, Bytes, List, [], ◌∷◌, ◌++◌, ◌≡◌, refl, ap, ◌∙◌, append_assoc, arith,
  length, length-append, codes, length-drop, get_or, take, drop, replicate, bytes_eq, fun_ext,
}
use procfs.Go.Cells.{cells, exact_cells}
use procfs.Go.Result.{ok, panic, slice_tail}
use procfs.Go.Slices.{
  slice_first, slice_rest, length-take, length-replicate, get_or-append_replicate,
}
use procfs.MountStats.Counters.{each-store_counter, each-store_counter_panic}
use procfs.MountStats.Transport.{check_transport, spread, transport_of, parse_nfs_transport_stats}
use procfs.MountStats.Types.{NfsTransportStats}
use procfs.Util.Parse.Slices.{AllParse, AllParse-length, uint}

-- A line by its version and protocol, with its counters.
pub data Xprt : Type 0 where
  tcp10 udp10 tcp11 udp11 rdma11 : List ℕ → Xprt

abbrev pub version_of : Xprt → Bytes
version_of (tcp10 us) = codes "1.0"
version_of (udp10 us) = codes "1.0"
version_of _ = codes "1.1"

abbrev pub protocol_of : Xprt → Bytes
protocol_of (tcp10 us) = codes "tcp"
protocol_of (tcp11 us) = codes "tcp"
protocol_of (rdma11 us) = codes "rdma"
protocol_of _ = codes "udp"

abbrev pub counters_of : Xprt → List ℕ
counters_of (tcp10 us) = us
counters_of (udp10 us) = us
counters_of (tcp11 us) = us
counters_of (udp11 us) = us
counters_of (rdma11 us) = us

-- How many counters a line has.
abbrev pub CountFits : Xprt → Type 0
CountFits (tcp10 us) = length us ≡ 10
CountFits (udp10 us) = length us ≡ 7
CountFits (tcp11 us) = length us ≡ 13
CountFits (udp11 us) = length us ≡ 10
CountFits (rdma11 us) = (20 ≤ length us) × (length us ≤ 31)

-- A connection-less protocol has no counters of connections; "rdma" has none of the slots and queues.
abbrev pub layout_of : Xprt → List ℕ
layout_of (tcp10 us) = us
layout_of (tcp11 us) = us
layout_of (udp10 us) = take 2 us ++ (replicate 3 0 ++ drop 2 us)
layout_of (udp11 us) = take 2 us ++ (replicate 3 0 ++ drop 2 us)
layout_of (rdma11 us) = take 10 us ++ (replicate 3 0 ++ drop 10 us)

abbrev row : Bytes → (ℕ → ℕ) → NfsTransportStats
row protocol column = record {
  protocol = protocol;
  port = column 0;
  bind = column 1;
  connect = column 2;
  connect_idle_time = column 3;
  idle_time_seconds = column 4;
  sends = column 5;
  receives = column 6;
  bad_transaction_ids = column 7;
  cumulative_active_requests = column 8;
  cumulative_backlog = column 9;
  maximum_rpc_slots_used = column 10;
  cumulative_sending_queue = column 11;
  cumulative_pending_queue = column 12;
  read_chunk_count = column 13;
  write_chunk_count = column 14;
  reply_chunk_count = column 15;
  total_rdma_request = column 16;
  pullup_copy_count = column 17;
  hardway_register_count = column 18;
  failed_marshal_count = column 19;
  bad_reply_count = column 20;
  mrs_recovered = column 21;
  mrs_orphaned = column 22;
  mrs_allocated = column 23;
  empty_sendctx_q = column 24;
  total_rdma_reply = column 25;
  fixup_copy_count = column 26;
  reply_waits_for_send = column 27;
  local_inv_needed = column 28;
  nomsg_call_count = column 29;
  bcall_count = column 30;
}

-- A counter that the line does not have is 0.
abbrev pub transport_stats_of : Xprt → NfsTransportStats
transport_stats_of x = row (protocol_of x) (λ i. get_or (layout_of x) i 0)

transport_of-row :
    (protocol : Bytes) (v : List ℕ)
    → 31 ≤ length v
    → transport_of protocol v ≡ ok (row protocol (λ i. get_or v i 0))
unfolding transport_of
transport_of-row protocol =
    cells 31 (λ v. transport_of protocol v ≡ ok (row protocol (λ i. get_or v i 0)))
      (λ x0 x1 x2 x3 x4 x5 x6 x7 x8 x9 x10 x11 x12 x13 x14 x15 x16 x17 x18 x19 x20 x21 x22 x23 x24
          x25 x26 x27 x28 x29 x30 r.
        refl)

transport_of-append :
    (protocol : Bytes) (v : List ℕ) (k : ℕ)
    → 31 ≤ length v + k
    → transport_of protocol (v ++ replicate k 0) ≡ ok (row protocol (λ i. get_or v i 0))
transport_of-append protocol v k h =
    transport_of-row protocol (v ++ replicate k 0)
      (omega (arith, length-append v (replicate k 0), length-replicate {A = ℕ} k 0))
    ∙ ap (λ column. ok (row protocol column)) (fun_ext (λ i. get_or-append_replicate v k i 0))

check_transport_lem :
    (x : Xprt) (ss : List Bytes)
    → CountFits x
    → length (counters_of x) ≡ length ss
    → check_transport (version_of x) (protocol_of x) ss ≡ ok tt
unfolding check_transport bytes_eq
check_transport_lem (tcp10 us) ss h e = ground arith
check_transport_lem (udp10 us) ss h e = ground arith
check_transport_lem (tcp11 us) ss h e = ground arith
check_transport_lem (udp11 us) ss h e = ground arith
check_transport_lem (rdma11 us) ss h e = ground arith

-- The counters are in their places, with some zeros behind them.
abbrev Spread : Xprt → ℕ → Type 0
Spread x k =
    (spread (protocol_of x) (counters_of x ++ replicate (31 - length (counters_of x)) 0)
      ≡ ok (layout_of x ++ replicate k 0))
    × (31 ≤ length (layout_of x) + k)

spread_lem : (x : Xprt) → CountFits x → (k : ℕ) × Spread x k
unfolding spread bytes_eq
spread_lem (tcp10 us) h = (
  21,
  exact_cells 10 (λ us. Spread (tcp10 us) 21) (λ a b c d e f g i j l. (refl, omega arith)) us h,
)
spread_lem (tcp11 us) h = (
  18,
  exact_cells 13 (λ us. Spread (tcp11 us) 18) (λ a b c d e f g i j l m n o. (refl, omega arith)) us
      h,
)
spread_lem (udp10 us) h =
    (24, exact_cells 7 (λ us. Spread (udp10 us) 24) (λ a b c d e f g. (refl, omega arith)) us h)
spread_lem (udp11 us) h = (
  21,
  exact_cells 10 (λ us. Spread (udp11 us) 21) (λ a b c d e f g i j l. (refl, omega arith)) us h,
)
spread_lem (rdma11 us) (low, high) =
    let z : List ℕ = replicate (31 - length us) 0 in
    (
      31 - length us,
      (
        rw (slice_first 10 us z (omega arith), slice_rest 10 us z (omega arith), append_assoc),
        omega (
          arith,
          length-append (take 10 us) (replicate 3 0 ++ drop 10 us),
          length-take 10 us (omega arith),
          length-drop 10 us,
        ),
      ),
    )

counters_of_few : (x : Xprt) → CountFits x → length (counters_of x) ≤ 31
counters_of_few (tcp10 us) h = omega arith
counters_of_few (udp10 us) h = omega arith
counters_of_few (tcp11 us) h = omega arith
counters_of_few (udp11 us) h = omega arith
counters_of_few (rdma11 us) h = h.1

-- The same for up to 31 counters of "rdma", of which the parser does not read those behind the 28th.
pub parse_nfs_transport_stats-cells :
    (x : Xprt) (ss : List Bytes)
    → CountFits x
    → AllParse (uint 64) ss (counters_of x)
    → parse_nfs_transport_stats (protocol_of x ∷ ss) (version_of x) ≡ ok (transport_stats_of x)
unfolding parse_nfs_transport_stats
parse_nfs_transport_stats-cells x ss h parsed =
    let (k, (placed, enough)) = spread_lem x h in
    rw (slice_tail (protocol_of x) ss) (
      rw (check_transport_lem x ss h (AllParse-length (uint 64) ss (counters_of x) parsed)) (
        rw (each-store_counter ss (counters_of x) [] 31 parsed (counters_of_few x h))
          (rw placed (transport_of-append (protocol_of x) (layout_of x) k enough))))

check_transport_rdma :
    (ss : List Bytes) → 20 ≤ length ss → check_transport (codes "1.1") (codes "rdma") ss ≡ ok tt
unfolding check_transport bytes_eq
check_transport_rdma ss h = ground arith

-- An "xprt" line with as many counters as its version and protocol have (`CountFits`), and at most the 28
-- that the code names as the most of "rdma", whose texts `ParseUint` reads, is parsed to the record of
-- these counters: behind the second one of "udp" and the tenth one of "rdma" there are three zeros, and
-- zeros stand for the counters that the line lacks.
pub parse_nfs_transport_stats-counters :
    (x : Xprt) (ss : List Bytes)
    → CountFits x
    → length (counters_of x) ≤ 28
    → AllParse (uint 64) ss (counters_of x)
    → parse_nfs_transport_stats (protocol_of x ∷ ss) (version_of x) ≡ ok (transport_stats_of x)
parse_nfs_transport_stats-counters x ss h known parsed =
    parse_nfs_transport_stats-cells x ss h parsed

-- An "rdma" line of version 1.1 with more than 31 counters, which `ParseUint` reads, makes the parser
-- panic: the slice for the counters has 31 cells.
pub parse_nfs_transport_stats_panic :
    (us : List ℕ) (ss : List Bytes)
    → 31 < length us
    → AllParse (uint 64) ss us
    → parse_nfs_transport_stats (codes "rdma" ∷ ss) (codes "1.1") ≡ panic
unfolding parse_nfs_transport_stats
parse_nfs_transport_stats_panic us ss h parsed =
    let same = AllParse-length (uint 64) ss us parsed in
    rw (slice_tail (codes "rdma") ss) (
      rw (check_transport_rdma ss (omega (arith, same)))
        (rw (each-store_counter_panic ss us [] 31 parsed h)))
