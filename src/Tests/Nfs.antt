-- ===== src/Tests/Nfs.antt =====
-- nfs: runs on files of the tests, and instances.
use procfs.Base.{All, List, [], ◌∷◌, ◌≡◌, refl, codes, arith, map, foldl, replicate, bytes_eq}
use procfs.Go.Result.{ok, err, errorf, each, Returns}
use procfs.Go.Scanner.{Reader, reader, unlines, scan}
use procfs.Go.Strconv.{parse_uint}
use procfs.Go.Text.{fields}
use procfs.Nfs.Client.Line.{parse_client_rpc_stats-Returns}
use procfs.Nfs.Client.RoundTrip as ClientFile
use procfs.Nfs.Client.RoundTrip.{ClientMetric, parse_client_rpc_stats-render}
use procfs.Nfs.Client.{parse_client_rpc_stats, client_line, client_metric}
use procfs.Nfs.Parse.ClientV4.{parse_client_v4_stats}
use procfs.Nfs.Parse.Values.{parse_client_v4_stats_older}
use procfs.Nfs.Server.Line.{parse_server_rpc_stats-Returns}
use procfs.Nfs.Server.Metric as ServerFile
use procfs.Nfs.Server.Metric.{ServerMetric}
use procfs.Nfs.Server.RoundTrip.{parse_server_rpc_stats-render}
use procfs.Nfs.Server.{parse_server_rpc_stats}
use procfs.Nfs.Types.{zero_client_rpc_stats, zero_server_rpc_stats, zero_client_v4_stats}
use procfs.Util.Parse.{parse_uint64s, collect}

-- Two "rpc" lines, and between them a "proc4" line of a newer kernel and one of an older kernel.
abbrev client_metrics : List ClientMetric
client_metrics =
    ClientMetric.rpc
      (record { rpc_count = 1218785755; retransmissions = 374636; auth_refreshes = 7 })
    ∷ ClientMetric.proc4 (record zero_client_v4_stats { null = 98; clone = 4 }) (5 ∷ 6 ∷ [])
    ∷ ClientMetric.proc4_older (record zero_client_v4_stats { null = 98; read = 51 }) (98 ∷ 51 ∷ [])
    ∷ ClientMetric.rpc (record { rpc_count = 8; retransmissions = 9; auth_refreshes = 10 })
    ∷ []

client_metrics-Fits : All ClientFile.Fits client_metrics
client_metrics-Fits = (
  record { numbers_fit = omega arith; count_fits = tt },
  (
    record { numbers_fit = omega arith; count_fits = omega arith },
    (
      record { numbers_fit = omega arith; count_fits = (omega arith, refl) },
      (record { numbers_fit = omega arith; count_fits = tt }, tt),
    ),
  ),
)

parse_client_rpc_stats-render_example :
    parse_client_rpc_stats (reader (unlines (map ClientFile.render client_metrics)))
    ≡ ok (foldl ClientFile.apply zero_client_rpc_stats client_metrics)
parse_client_rpc_stats-render_example =
    parse_client_rpc_stats-render client_metrics client_metrics-Fits

-- A "th" line with the histogram of older kernels.
abbrev server_metrics : List ServerMetric
server_metrics =
    ServerMetric.th (record { threads = 8; full_cnt = 0 }) (codes "0.000" ∷ codes "1.500" ∷ [])
    ∷ ServerMetric.ra (record {
      cache_size = 32;
      cache_histogram = 1 ∷ 2 ∷ 3 ∷ 4 ∷ 5 ∷ 6 ∷ 7 ∷ 8 ∷ 9 ∷ 10 ∷ [];
      not_found = 11;
    })
    ∷ ServerMetric.wdeleg_getattr 16
    ∷ []

th-Fits :
    ServerFile.Fits
      (ServerMetric.th (record { threads = 8; full_cnt = 0 }) (codes "0.000" ∷ codes "1.500" ∷ []))
th-Fits = record {
  numbers_fit = omega arith;
  count_fits = tt;
  more_words = ((omega arith, cc), ((omega arith, cc), tt));
  more_short = omega arith;
}

ra-Fits : ServerFile.Fits (
    ServerMetric.ra (record {
      cache_size = 32;
      cache_histogram = 1 ∷ 2 ∷ 3 ∷ 4 ∷ 5 ∷ 6 ∷ 7 ∷ 8 ∷ 9 ∷ 10 ∷ [];
      not_found = 11;
    }))
ra-Fits = record {
  numbers_fit = omega arith;
  count_fits = refl;
  more_words = tt;
  more_short = omega arith;
}

wdeleg-Fits : ServerFile.Fits (ServerMetric.wdeleg_getattr 16)
wdeleg-Fits = record {
  numbers_fit = omega arith;
  count_fits = tt;
  more_words = tt;
  more_short = omega arith;
}

parse_server_rpc_stats-render_example :
    parse_server_rpc_stats (reader (unlines (map ServerFile.render server_metrics)))
    ≡ ok (foldl ServerFile.apply zero_server_rpc_stats server_metrics)
parse_server_rpc_stats-render_example =
    parse_server_rpc_stats-render server_metrics (th-Fits, (ra-Fits, (wdeleg-Fits, tt)))

abbrev short_proc4 : Reader
short_proc4 = reader (codes "proc4 3 1\n")

parse_client_rpc_stats-Returns_example : Returns (parse_client_rpc_stats short_proc4)
parse_client_rpc_stats-Returns_example = parse_client_rpc_stats-Returns short_proc4

parse_server_rpc_stats-Returns_example : Returns (parse_server_rpc_stats short_proc4)
parse_server_rpc_stats-Returns_example = parse_server_rpc_stats-Returns short_proc4

parse_client_v4_stats_older_example :
    parse_client_v4_stats (2 ∷ 98 ∷ 51 ∷ []) ≡ parse_client_v4_stats (59 ∷ 98 ∷ 51 ∷ replicate 57 0)
parse_client_v4_stats_older_example = parse_client_v4_stats_older (98 ∷ 51 ∷ []) (omega arith)

invalid_file :
    (parse_client_rpc_stats (reader (codes "invalid\n"))
      ≡ err (errorf "invalid NFS metric line %q"))
    × (parse_client_rpc_stats (reader (codes "nope 1\n"))
        ≡ err (errorf "unknown NFS metric line %q"))
unfolding parse_client_rpc_stats client_line client_metric fields each scan bytes_eq parse_uint64s
    collect parse_uint
invalid_file = (refl, refl)
