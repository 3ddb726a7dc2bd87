-- ===== src/Nfs/Client/RoundTrip.antt =====
-- The file of a client as the kernel prints it, in any order of its lines and with any of them
-- missing or repeated, and what the parser reads from it.
use procfs.Base.{
  bytes_eq, ℕ, ◌^◌, ◌<◌, ◌≤◌, List, [], ◌∷◌, ◌≡◌, refl, ◌∙◌, arith, Bytes, All, codes, length,
  length-append, ◌-◌, ◌++◌, replicate, map, foldl,
}
use procfs.Go.Lines.{numbers, labelled-IsLine}
use procfs.Go.Result.{ok, each}
use procfs.Go.Scanner.{reader, scan-unlines, unlines, IsLine}
use procfs.Go.Text.Words.{IsWord, unwords}
use procfs.Nfs.Client.Line.{client_line-unwords}
use procfs.Nfs.Client.{client_metric, client_line, parse_client_rpc_stats}
use procfs.Nfs.Parse.Values.{
  parse_network-values, parse_client_rpc-values, parse_v2_stats-values, parse_v3_stats-values,
  parse_client_v4_stats-later, parse_client_v4_stats-padded,
}
use procfs.Nfs.Types.{
  Network, network_values, ClientRpc, client_rpc_values, V2Stats, v2_stats_values, V3Stats,
  v3_stats_values, ClientV4Stats, client_v4_stats_values, ClientRpcStats, zero_client_rpc_stats,
}

-- A line of the file. A "proc4" line has the 59 counters that the parser knows and any later ones, or
-- fewer of them, those of a record that ends in zeros.
pub data ClientMetric : Type 0 where
  net : Network → ClientMetric
  rpc : ClientRpc → ClientMetric
  proc2 : V2Stats → ClientMetric
  proc3 : V3Stats → ClientMetric
  proc4 : ClientV4Stats → List ℕ → ClientMetric
  proc4_older : ClientV4Stats → List ℕ → ClientMetric

abbrev label_of : ClientMetric → Bytes
label_of (net x) = codes "net"
label_of (rpc x) = codes "rpc"
label_of (proc2 x) = codes "proc2"
label_of (proc3 x) = codes "proc3"
label_of (proc4 x later) = codes "proc4"
label_of (proc4_older x us) = codes "proc4"

abbrev values_of : ClientMetric → List ℕ
values_of (net x) = network_values x
values_of (rpc x) = client_rpc_values x
values_of (proc2 x) = 18 ∷ v2_stats_values x
values_of (proc3 x) = 22 ∷ v3_stats_values x
values_of (proc4 x later) =
    length (client_v4_stats_values x ++ later) ∷ (client_v4_stats_values x ++ later)
values_of (proc4_older x us) = length us ∷ us

-- What a line sets.
abbrev pub apply : ClientRpcStats → ClientMetric → ClientRpcStats
apply s (net x) = record s { network = x }
apply s (rpc x) = record s { client_rpc = x }
apply s (proc2 x) = record s { v2_stats = x }
apply s (proc3 x) = record s { v3_stats = x }
apply s (proc4 x later) = record s { client_v4_stats = x }
apply s (proc4_older x us) = record s { client_v4_stats = x }

abbrev pub render : ClientMetric → Bytes
render m = unwords (label_of m ∷ numbers (values_of m))

-- There are at most 2000 later counters; fewer than 59 counters are those of the record up to zeros.
abbrev pub CountFits : ClientMetric → Type 0
CountFits (proc4 x later) = length later ≤ 2000
CountFits (proc4_older x us) =
    (length us < 59) × (client_v4_stats_values x ≡ us ++ replicate (59 - length us) 0)
CountFits _ = Unit

-- Every number is a uint64, and the counters are as many as a kernel prints.
pub record Fits (m : ClientMetric) : Type 0 where
  pub numbers_fit : All (λ u. u < 2 ^ 64) (values_of m)
  pub count_fits : CountFits m

label_of-IsWord : (m : ClientMetric) → IsWord (label_of m)
label_of-IsWord (net x) = (omega arith, cc)
label_of-IsWord (rpc x) = (omega arith, cc)
label_of-IsWord _ = (omega arith, cc)

label_of_short : (m : ClientMetric) → length (label_of m) ≤ 100
label_of_short (net x) = omega arith
label_of_short _ = omega arith

values_of_bounds :
    (m : ClientMetric) → CountFits m → (0 < length (values_of m)) × (length (values_of m) ≤ 3000)
values_of_bounds (proc4 x later) h =
    omega (arith, h, length-append (client_v4_stats_values x) later)
values_of_bounds (proc4_older x us) h = let few = h.0 in omega (arith, few)
values_of_bounds (net x) h = omega arith
values_of_bounds _ h = omega arith

render-IsLine : (m : ClientMetric) → CountFits m → IsLine (render m)
render-IsLine m h =
    labelled-IsLine (label_of m) (values_of m) (label_of-IsWord m) (label_of_short m)
      (values_of_bounds m h).1

client_metric-values :
    (m : ClientMetric) (s : ClientRpcStats)
    → CountFits m
    → client_metric (label_of m) (values_of m) s ≡ ok (apply s m)
unfolding client_metric bytes_eq
client_metric-values (net x) s h = rw (parse_network-values x)
client_metric-values (rpc x) s h = rw (parse_client_rpc-values x)
client_metric-values (proc2 x) s h = rw (parse_v2_stats-values x)
client_metric-values (proc3 x) s h = rw (parse_v3_stats-values x)
client_metric-values (proc4 x later) s h = rw (parse_client_v4_stats-later x later h)
client_metric-values (proc4_older x us) s h = rw (parse_client_v4_stats-padded x us h.0 h.1)

client_line-render :
    (s : ClientRpcStats) (m : ClientMetric) → Fits m → client_line s (render m) ≡ ok (apply s m)
client_line-render s m h =
    client_line-unwords s (label_of m) (values_of m) (label_of-IsWord m)
      (values_of_bounds m h.count_fits).0 h.numbers_fit
    ∙ client_metric-values m s h.count_fits

each-render :
    (ms : List ClientMetric) (s : ClientRpcStats)
    → All Fits ms
    → each client_line s (map render ms) ≡ ok (foldl apply s ms)
unfolding each
each-render [] s h = refl
each-render (m ∷ ms) s (h, hs) = rw (client_line-render s m h) (each-render ms (apply s m) hs)

map-render-IsLine : (ms : List ClientMetric) → All Fits ms → All IsLine (map render ms)
map-render-IsLine [] h = tt
map-render-IsLine (m ∷ ms) (h, hs) = (render-IsLine m h.count_fits, map-render-IsLine ms hs)

-- The client parser reads the print of any list of metrics that fit (`Fits`: their numbers are
-- uint64, with at most 2000 counters behind the 59 known ones of a "proc4" line) as the statistics that
-- the metrics set one after the other: the order is free, a later line of a kind replaces an earlier
-- one, and what no line sets is zero. A "proc4" line has 59 counters, or more, of which those behind
-- the 59th set nothing, or fewer, and then those that it lacks are zero.
pub parse_client_rpc_stats-render :
    (ms : List ClientMetric)
    → All Fits ms
    → parse_client_rpc_stats (reader (unlines (map render ms)))
      ≡ ok (foldl apply zero_client_rpc_stats ms)
unfolding parse_client_rpc_stats
parse_client_rpc_stats-render ms h =
    rw (scan-unlines (map render ms) (map-render-IsLine ms h))
      (rw (each-render ms zero_client_rpc_stats h))

-- The lines of all statistics, in the kernel's order.
abbrev pub all_metrics : ClientRpcStats → List ClientMetric
all_metrics s =
    net s.network
    ∷ rpc s.client_rpc
    ∷ proc2 s.v2_stats
    ∷ proc3 s.v3_stats
    ∷ proc4 s.client_v4_stats []
    ∷ []

-- Statistics that are printed in full are read back.
pub parse_client_rpc_stats-all_metrics :
    (s : ClientRpcStats)
    → All Fits (all_metrics s)
    → parse_client_rpc_stats (reader (unlines (map render (all_metrics s)))) ≡ ok s
parse_client_rpc_stats-all_metrics s h = parse_client_rpc_stats-render (all_metrics s) h
