-- ===== src/Nfs/Parse/Common.antt =====
-- nfs/parse.go: the lines that every version has.
use procfs.Base.{ℕ, ◌!=◌, List, length}
use procfs.Go.Result.{Result, ok, errorf, ◌>>=◌, ◌>>◌, fail_if, ◌!!◌, slice}
use procfs.Nfs.Types.{
  ReplyCache, FileHandles, InputOutput, Threads, ReadAheadCache, Network, ClientRpc, ServerRpc,
}

unfoldable pub parse_reply_cache : List ℕ → Result ReplyCache
parse_reply_cache v = do
  fail_if (length v != 3) (errorf "invalid ReplyCache line %q")
  ok (record { hits = (← v !! 0); misses = (← v !! 1); no_cache = (← v !! 2) })

unfoldable pub parse_file_handles : List ℕ → Result FileHandles
parse_file_handles v = do
  fail_if (length v != 5) (errorf "invalid FileHandles, line %q")
  ok (record {
    stale = (← v !! 0);
    total_lookups = (← v !! 1);
    anon_lookups = (← v !! 2);
    dir_no_cache = (← v !! 3);
    no_dir_no_cache = (← v !! 4);
  })

unfoldable pub parse_input_output : List ℕ → Result InputOutput
parse_input_output v = do
  fail_if (length v != 2) (errorf "invalid InputOutput line %q")
  ok (record { read = (← v !! 0); write = (← v !! 1) })

unfoldable pub parse_threads : List ℕ → Result Threads
parse_threads v = do
  fail_if (length v != 2) (errorf "invalid Threads line %q")
  ok (record { threads = (← v !! 0); full_cnt = (← v !! 1) })

unfoldable pub parse_read_ahead_cache : List ℕ → Result ReadAheadCache
parse_read_ahead_cache v = do
  fail_if (length v != 12) (errorf "invalid ReadAheadCache line %q")
  ok (record {
    cache_size = (← v !! 0);
    cache_histogram = (← slice v 1 11);
    not_found = (← v !! 11);
  })

unfoldable pub parse_network : List ℕ → Result Network
parse_network v = do
  fail_if (length v != 4) (errorf "invalid Network line %q")
  ok (record {
    net_count = (← v !! 0);
    udp_count = (← v !! 1);
    tcp_count = (← v !! 2);
    tcp_connect = (← v !! 3);
  })

unfoldable pub parse_client_rpc : List ℕ → Result ClientRpc
parse_client_rpc v = do
  fail_if (length v != 3) (errorf "invalid RPC line %q")
  ok (record { rpc_count = (← v !! 0); retransmissions = (← v !! 1); auth_refreshes = (← v !! 2) })

unfoldable pub parse_server_rpc : List ℕ → Result ServerRpc
parse_server_rpc v = do
  fail_if (length v != 5) (errorf "invalid RPC line %q")
  ok (record {
    rpc_count = (← v !! 0);
    bad_cnt = (← v !! 1);
    bad_fmt = (← v !! 2);
    bad_auth = (← v !! 3);
    badc_int = (← v !! 4);
  })
