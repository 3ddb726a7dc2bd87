-- ===== src/Nfs/Types.antt =====
-- nfs/nfs.go: the statistics of a client and of a server.
mod Common
mod Versions
mod ClientV4
mod ServerV4
pub use Common.*
pub use Versions.*
pub use ClientV4.*
pub use ServerV4.*
use procfs.Base.{ℕ}

pub record ClientRpcStats : Type 0 where
  pub network : Network
  pub client_rpc : ClientRpc
  pub v2_stats : V2Stats
  pub v3_stats : V3Stats
  pub client_v4_stats : ClientV4Stats

abbrev pub zero_client_rpc_stats : ClientRpcStats
zero_client_rpc_stats = record {
  network = zero_network;
  client_rpc = zero_client_rpc;
  v2_stats = zero_v2_stats;
  v3_stats = zero_v3_stats;
  client_v4_stats = zero_client_v4_stats;
}

pub record ServerRpcStats : Type 0 where
  pub reply_cache : ReplyCache
  pub file_handles : FileHandles
  pub input_output : InputOutput
  pub threads : Threads
  pub read_ahead_cache : ReadAheadCache
  pub network : Network
  pub server_rpc : ServerRpc
  pub v2_stats : V2Stats
  pub v3_stats : V3Stats
  pub server_v4_stats : ServerV4Stats
  pub v4_ops : V4Ops
  pub wdeleg_getattr : ℕ

abbrev pub zero_server_rpc_stats : ServerRpcStats
zero_server_rpc_stats = record {
  reply_cache = zero_reply_cache;
  file_handles = zero_file_handles;
  input_output = zero_input_output;
  threads = zero_threads;
  read_ahead_cache = zero_read_ahead_cache;
  network = zero_network;
  server_rpc = zero_server_rpc;
  v2_stats = zero_v2_stats;
  v3_stats = zero_v3_stats;
  server_v4_stats = zero_server_v4_stats;
  v4_ops = zero_v4_ops;
  wdeleg_getattr = 0;
}
