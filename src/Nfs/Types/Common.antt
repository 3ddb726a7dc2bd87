-- ===== src/Nfs/Types/Common.antt =====
-- nfs/nfs.go: the records of the lines that every version has, their zero values, and their
-- numbers in the order in which the kernel prints them.
use procfs.Base.{ℕ, List, [], ◌∷◌, ◌++◌}

pub record ReplyCache : Type 0 where
  pub hits : ℕ
  pub misses : ℕ
  pub no_cache : ℕ

abbrev pub zero_reply_cache : ReplyCache
zero_reply_cache = record { hits = 0; misses = 0; no_cache = 0 }

abbrev pub reply_cache_values : ReplyCache → List ℕ
reply_cache_values x = x.hits ∷ x.misses ∷ x.no_cache ∷ []

pub record FileHandles : Type 0 where
  pub stale : ℕ
  pub total_lookups : ℕ
  pub anon_lookups : ℕ
  pub dir_no_cache : ℕ
  pub no_dir_no_cache : ℕ

abbrev pub zero_file_handles : FileHandles
zero_file_handles = record {
  stale = 0;
  total_lookups = 0;
  anon_lookups = 0;
  dir_no_cache = 0;
  no_dir_no_cache = 0;
}

abbrev pub file_handles_values : FileHandles → List ℕ
file_handles_values x =
    x.stale ∷ x.total_lookups ∷ x.anon_lookups ∷ x.dir_no_cache ∷ x.no_dir_no_cache ∷ []

pub record InputOutput : Type 0 where
  pub read : ℕ
  pub write : ℕ

abbrev pub zero_input_output : InputOutput
zero_input_output = record { read = 0; write = 0 }

abbrev pub input_output_values : InputOutput → List ℕ
input_output_values x = x.read ∷ x.write ∷ []

pub record Threads : Type 0 where
  pub threads : ℕ
  pub full_cnt : ℕ

abbrev pub zero_threads : Threads
zero_threads = record { threads = 0; full_cnt = 0 }

abbrev pub threads_values : Threads → List ℕ
threads_values x = x.threads ∷ x.full_cnt ∷ []

pub record ReadAheadCache : Type 0 where
  pub cache_size : ℕ
  pub cache_histogram : List ℕ
  pub not_found : ℕ

abbrev pub zero_read_ahead_cache : ReadAheadCache
zero_read_ahead_cache = record { cache_size = 0; cache_histogram = []; not_found = 0 }

abbrev pub read_ahead_cache_values : ReadAheadCache → List ℕ
read_ahead_cache_values x = x.cache_size ∷ (x.cache_histogram ++ x.not_found ∷ [])

pub record Network : Type 0 where
  pub net_count : ℕ
  pub udp_count : ℕ
  pub tcp_count : ℕ
  pub tcp_connect : ℕ

abbrev pub zero_network : Network
zero_network = record { net_count = 0; udp_count = 0; tcp_count = 0; tcp_connect = 0 }

abbrev pub network_values : Network → List ℕ
network_values x = x.net_count ∷ x.udp_count ∷ x.tcp_count ∷ x.tcp_connect ∷ []

pub record ClientRpc : Type 0 where
  pub rpc_count : ℕ
  pub retransmissions : ℕ
  pub auth_refreshes : ℕ

abbrev pub zero_client_rpc : ClientRpc
zero_client_rpc = record { rpc_count = 0; retransmissions = 0; auth_refreshes = 0 }

abbrev pub client_rpc_values : ClientRpc → List ℕ
client_rpc_values x = x.rpc_count ∷ x.retransmissions ∷ x.auth_refreshes ∷ []

pub record ServerRpc : Type 0 where
  pub rpc_count : ℕ
  pub bad_cnt : ℕ
  pub bad_fmt : ℕ
  pub bad_auth : ℕ
  pub badc_int : ℕ

abbrev pub zero_server_rpc : ServerRpc
zero_server_rpc = record { rpc_count = 0; bad_cnt = 0; bad_fmt = 0; bad_auth = 0; badc_int = 0 }

abbrev pub server_rpc_values : ServerRpc → List ℕ
server_rpc_values x = x.rpc_count ∷ x.bad_cnt ∷ x.bad_fmt ∷ x.bad_auth ∷ x.badc_int ∷ []
