-- ===== src/Tests/Xfs.antt =====
-- xfs: instances.
use procfs.Base.{List, [], ◌∷◌, ◌≡◌, codes, bytes_eq, arith, map, foldl}
use procfs.Go.Result.{ok, Returns}
use procfs.Go.Scanner.{reader, unlines}
use procfs.Xfs.Stats.Line.{parse_stats-Returns}
use procfs.Xfs.Stats.Metric
use procfs.Xfs.Stats.Metric.{Metric, UnknownFits}
use procfs.Xfs.Stats.RoundTrip.{parse_stats-render}
use procfs.Xfs.Stats.{parse_stats}
use procfs.Xfs.Types.{zero_stats}

-- An unknown label stands between the lines.
abbrev metrics : List Metric
metrics =
    Metric.read_write (record { write = 1; read = 4294967295 })
    ∷ Metric.unknown (codes "rmapbt") (1 ∷ 2 ∷ [])
    ∷ Metric.extended_precision
        (record { flush_bytes = 399724544; write_bytes = 92823103; read_bytes = 86219234 })
    ∷ []

rmapbt_fits : UnknownFits (Metric.unknown (codes "rmapbt") (1 ∷ 2 ∷ []))
unfolding bytes_eq
rmapbt_fits = ((omega arith, cc), omega arith, ground arith, omega arith, omega arith)

parse_stats-render_example :
    parse_stats (reader (unlines (map Metric.render metrics)))
    ≡ ok (foldl Metric.apply zero_stats metrics)
parse_stats-render_example = parse_stats-render metrics (
  record { numbers_fit = omega arith; unknown_fits = tt },
  (
    record { numbers_fit = omega arith; unknown_fits = rmapbt_fits },
    (record { numbers_fit = omega arith; unknown_fits = tt }, tt),
  ),
)

parse_stats-Returns_example : Returns (parse_stats (reader (codes "vnodes 1 2 3\n")))
parse_stats-Returns_example = parse_stats-Returns (reader (codes "vnodes 1 2 3\n"))
