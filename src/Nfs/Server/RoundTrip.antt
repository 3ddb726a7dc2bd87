-- ===== src/Nfs/Server/RoundTrip.antt =====
-- The file of a server as the kernel prints it, in any order of its lines and with any of them
-- missing or repeated, and what the parser reads from it.
use procfs.Base.{
  suc, true, false, List, [], ◌∷◌, ◌++◌, ◌≡◌, refl, ap, ◌∙◌, arith, All, All-append, codes, length,
  map, foldl, bytes_eq, append-nil, ltb, leb,
}
use procfs.Go.Lines.{numbers, numbers-IsWord}
use procfs.Go.Result.{ok, each, slice_tail}
use procfs.Go.Scanner.{reader, scan-unlines, unlines, IsLine}
use procfs.Nfs.Server.Line.{server_line-unwords}
use procfs.Nfs.Server.{
  server_metric, server_version_metric, server_texts, server_line, parse_server_rpc_stats,
}
use procfs.Nfs.Parse.Values.{
  parse_reply_cache-values, parse_file_handles-values, parse_input_output-values,
  parse_threads-values, parse_read_ahead_cache-values, parse_network-values,
  parse_server_rpc-values, parse_v2_stats-values, parse_v3_stats-values,
  parse_server_v4_stats-values, parse_v4_ops-later, parse_v4_ops_older,
}
use procfs.Nfs.Types.{ServerRpcStats, zero_server_rpc_stats}
use procfs.Util.Parse.Slices.{parse_uint64s-numbers}
use procfs.Nfs.Server.Metric.{
  ServerMetric, rc, fh, io, th, ra, net, rpc, proc2, proc3, proc4, proc4ops, proc4ops_older,
  wdeleg_getattr, label_of, values_of, more_of, texts_of, CountFits, apply, render, Fits,
  label_of-IsWord, texts_of_some, render-IsLine,
}

server_metric-values :
    (m : ServerMetric) (s : ServerRpcStats)
    → CountFits m
    → server_metric (label_of m) (values_of m) s ≡ ok (apply s m)
unfolding server_metric server_version_metric bytes_eq
server_metric-values (rc x) s h = rw (parse_reply_cache-values x)
server_metric-values (fh x) s h = rw (parse_file_handles-values x)
server_metric-values (io x) s h = rw (parse_input_output-values x)
server_metric-values (th x more) s h = rw (parse_threads-values x)
server_metric-values (ra x) s h = rw (parse_read_ahead_cache-values x h)
server_metric-values (net x) s h = rw (parse_network-values x)
server_metric-values (rpc x) s h = rw (parse_server_rpc-values x)
server_metric-values (proc2 x) s h = rw (parse_v2_stats-values x)
server_metric-values (proc3 x) s h = rw (parse_v3_stats-values x)
server_metric-values (proc4 x) s h = rw (parse_server_v4_stats-values x)
server_metric-values (proc4ops x later) s h = rw (parse_v4_ops-later x later h)
server_metric-values (proc4ops_older x) s h = rw (parse_v4_ops_older x)
server_metric-values (wdeleg_getattr x) s h = refl

-- Only the counters of a "th" line are parsed.
server_texts-texts_of :
    (m : ServerMetric)
    → server_texts (label_of m) (label_of m ∷ texts_of m) ≡ ok (numbers (values_of m))
unfolding server_texts bytes_eq
server_texts-texts_of (th x more) =
    let enough : ltb (suc (suc (suc (length more)))) 3 ≡ false = ground arith in
    let within : leb 3 (suc (suc (suc (length more)))) ≡ true = ground arith in rw (enough, within)
server_texts-texts_of (ra x) =
    let texts = numbers (values_of (ra x)) in
    slice_tail (codes "ra") (texts ++ []) ∙ ap ok (append-nil texts)
server_texts-texts_of (proc4ops x later) =
    let texts = numbers (values_of (proc4ops x later)) in
    slice_tail (codes "proc4ops") (texts ++ []) ∙ ap ok (append-nil texts)
server_texts-texts_of (rc x) = refl
server_texts-texts_of _ = refl

server_line-render :
    (s : ServerRpcStats) (m : ServerMetric) → Fits m → server_line s (render m) ≡ ok (apply s m)
server_line-render s m h =
    server_line-unwords s (label_of m) (texts_of m) (numbers (values_of m)) (values_of m)
      (
        label_of-IsWord m,
        All-append _ (numbers (values_of m)) (more_of m) (numbers-IsWord (values_of m))
            h.more_words,
      )
      (texts_of_some m) (server_texts-texts_of m)
      (parse_uint64s-numbers (values_of m) h.numbers_fit)
    ∙ server_metric-values m s h.count_fits

each-render :
    (ms : List ServerMetric) (s : ServerRpcStats)
    → All Fits ms
    → each server_line s (map render ms) ≡ ok (foldl apply s ms)
unfolding each
each-render [] s h = refl
each-render (m ∷ ms) s (h, hs) = rw (server_line-render s m h) (each-render ms (apply s m) hs)

map-render-IsLine : (ms : List ServerMetric) → All Fits ms → All IsLine (map render ms)
map-render-IsLine [] h = tt
map-render-IsLine (m ∷ ms) (h, hs) = (render-IsLine m h, map-render-IsLine ms hs)

-- The server parser reads the print of any list of metrics that fit (`Fits`: uint64 numbers, ten
-- histogram cells, at most 2000 counters behind the 40 known ones of a "proc4ops" line, words behind
-- the counters of a "th" line of at most 1000 bytes) as the statistics that the metrics set one after
-- the other: the order is free, a later line of a kind replaces an earlier one, and what no line sets
-- is zero. A "proc4ops" line has 40 counters, or more, of which those behind the 40th set nothing, or
-- 39, which set the last one to zero.
pub parse_server_rpc_stats-render :
    (ms : List ServerMetric)
    → All Fits ms
    → parse_server_rpc_stats (reader (unlines (map render ms)))
      ≡ ok (foldl apply zero_server_rpc_stats ms)
unfolding parse_server_rpc_stats
parse_server_rpc_stats-render ms h =
    rw (scan-unlines (map render ms) (map-render-IsLine ms h))
      (rw (each-render ms zero_server_rpc_stats h))

-- The lines of all statistics, in the kernel's order.
abbrev pub all_metrics : ServerRpcStats → List ServerMetric
all_metrics s =
    rc s.reply_cache
    ∷ fh s.file_handles
    ∷ io s.input_output
    ∷ th s.threads []
    ∷ ra s.read_ahead_cache
    ∷ net s.network
    ∷ rpc s.server_rpc
    ∷ proc2 s.v2_stats
    ∷ proc3 s.v3_stats
    ∷ proc4 s.server_v4_stats
    ∷ proc4ops s.v4_ops []
    ∷ wdeleg_getattr s.wdeleg_getattr
    ∷ []

-- Statistics that are printed in full are read back.
pub parse_server_rpc_stats-all_metrics :
    (s : ServerRpcStats)
    → All Fits (all_metrics s)
    → parse_server_rpc_stats (reader (unlines (map render (all_metrics s)))) ≡ ok s
parse_server_rpc_stats-all_metrics s h = parse_server_rpc_stats-render (all_metrics s) h
