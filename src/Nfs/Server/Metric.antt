-- ===== src/Nfs/Server/Metric.antt =====
-- The lines of /proc/net/rpc/nfsd as the kernel prints them.
use procfs.Base.{
  length-append, ℕ, take, ◌^◌, ◌<◌, ◌≤◌, List, [], ◌∷◌, ◌++◌, ◌≡◌, arith, Bytes, All, codes, length,
}
use procfs.Go.Lines.{numbers, extended-IsLine}
use procfs.Go.Scanner.{IsLine}
use procfs.Go.Text.Words.{IsWord, unwords, unwords_behind}
use procfs.Nfs.Types.{
  ReplyCache, reply_cache_values, FileHandles, file_handles_values, InputOutput,
  input_output_values, Threads, threads_values, ReadAheadCache, read_ahead_cache_values, Network,
  network_values, ServerRpc, server_rpc_values, V2Stats, v2_stats_values, V3Stats, v3_stats_values,
  ServerV4Stats, server_v4_stats_values, V4Ops, v4_ops_values, ServerRpcStats,
}

-- A line of the file. A "th" line may go on behind its two counters. A "proc4ops" line has the 40
-- counters that the parser knows and any later ones, or, from an older kernel, all of them but the last.
pub data ServerMetric : Type 0 where
  rc : ReplyCache → ServerMetric
  fh : FileHandles → ServerMetric
  io : InputOutput → ServerMetric
  th : Threads → List Bytes → ServerMetric
  ra : ReadAheadCache → ServerMetric
  net : Network → ServerMetric
  rpc : ServerRpc → ServerMetric
  proc2 : V2Stats → ServerMetric
  proc3 : V3Stats → ServerMetric
  proc4 : ServerV4Stats → ServerMetric
  proc4ops : V4Ops → List ℕ → ServerMetric
  proc4ops_older : V4Ops → ServerMetric
  wdeleg_getattr : ℕ → ServerMetric

abbrev pub label_of : ServerMetric → Bytes
label_of (rc x) = codes "rc"
label_of (fh x) = codes "fh"
label_of (io x) = codes "io"
label_of (th x more) = codes "th"
label_of (ra x) = codes "ra"
label_of (net x) = codes "net"
label_of (rpc x) = codes "rpc"
label_of (proc2 x) = codes "proc2"
label_of (proc3 x) = codes "proc3"
label_of (proc4 x) = codes "proc4"
label_of (proc4ops x later) = codes "proc4ops"
label_of (proc4ops_older x) = codes "proc4ops"
label_of (wdeleg_getattr x) = codes "wdeleg_getattr"

abbrev pub values_of : ServerMetric → List ℕ
values_of (rc x) = reply_cache_values x
values_of (fh x) = file_handles_values x
values_of (io x) = input_output_values x
values_of (th x more) = threads_values x
values_of (ra x) = read_ahead_cache_values x
values_of (net x) = network_values x
values_of (rpc x) = server_rpc_values x
values_of (proc2 x) = 18 ∷ v2_stats_values x
values_of (proc3 x) = 22 ∷ v3_stats_values x
values_of (proc4 x) = 2 ∷ server_v4_stats_values x
values_of (proc4ops x later) = length (v4_ops_values x ++ later) ∷ (v4_ops_values x ++ later)
values_of (proc4ops_older x) = 39 ∷ take 39 (v4_ops_values x)
values_of (wdeleg_getattr x) = x ∷ []

abbrev pub more_of : ServerMetric → List Bytes
more_of (th x more) = more
more_of _ = []

-- What a line sets.
abbrev pub apply : ServerRpcStats → ServerMetric → ServerRpcStats
apply s (rc x) = record s { reply_cache = x }
apply s (fh x) = record s { file_handles = x }
apply s (io x) = record s { input_output = x }
apply s (th x more) = record s { threads = x }
apply s (ra x) = record s { read_ahead_cache = x }
apply s (net x) = record s { network = x }
apply s (rpc x) = record s { server_rpc = x }
apply s (proc2 x) = record s { v2_stats = x }
apply s (proc3 x) = record s { v3_stats = x }
apply s (proc4 x) = record s { server_v4_stats = x }
apply s (proc4ops x later) = record s { v4_ops = x }
apply s (proc4ops_older x) = record s { v4_ops = record x { rel_lock_owner = 0 } }
apply s (wdeleg_getattr x) = record s { wdeleg_getattr = x }

abbrev pub texts_of : ServerMetric → List Bytes
texts_of m = numbers (values_of m) ++ more_of m

abbrev pub render : ServerMetric → Bytes
render m = unwords (label_of m ∷ texts_of m)

abbrev pub CountFits : ServerMetric → Type 0
CountFits (ra x) = length x.cache_histogram ≡ 10
CountFits (proc4ops x later) = length later ≤ 2000
CountFits _ = Unit

-- Every number is a uint64, a histogram has ten cells, there are at most 2000 later counters, and what follows the counters of a "th" line is
-- words of at most 1000 bytes.
pub record Fits (m : ServerMetric) : Type 0 where
  pub numbers_fit : All (λ u. u < 2 ^ 64) (values_of m)
  pub count_fits : CountFits m
  pub more_words : All IsWord (more_of m)
  pub more_short : length (unwords_behind (more_of m)) ≤ 1000

pub label_of-IsWord : (m : ServerMetric) → IsWord (label_of m)
label_of-IsWord (rc x) = (omega arith, cc)
label_of-IsWord _ = (omega arith, cc)

label_of_short : (m : ServerMetric) → length (label_of m) ≤ 100
label_of_short (rc x) = omega arith
label_of_short _ = omega arith

values_of_few : (m : ServerMetric) → CountFits m → length (values_of m) ≤ 3000
values_of_few (ra x) h = omega (arith, length-append x.cache_histogram (x.not_found ∷ []))
values_of_few (proc4ops x later) h = omega (arith, h, length-append (v4_ops_values x) later)
values_of_few (rc x) h = omega arith
values_of_few _ h = omega arith

pub texts_of_some : (m : ServerMetric) → 0 < length (texts_of m)
texts_of_some (rc x) = omega arith
texts_of_some _ = omega arith

pub render-IsLine : (m : ServerMetric) → Fits m → IsLine (render m)
render-IsLine m h =
    extended-IsLine (label_of m) (values_of m) (more_of m) (label_of-IsWord m) (label_of_short m)
      (values_of_few m h.count_fits) h.more_words h.more_short
