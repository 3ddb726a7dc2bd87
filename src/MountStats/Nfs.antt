-- ===== src/MountStats/Nfs.antt =====
-- mountstats.go: the lines behind the device line of an NFS mount. The functions share one scanner: it
-- is the list of the lines that are left, and the error behind them. A scanner that has no line left
-- gives none when it is asked again, unless it has an error, and then it is not asked again. A reader
-- gives its whole content before its error, so that `Err` is nil as long as there are lines.
use procfs.Base.{
  ℤ, Bytes, List, [], ◌∷◌, ◌++◌, Option, length, ltb, ◌==◌, bytes_eq, codes, if◌then◌else◌,
}
use procfs.Go.Map.{StringMap, insert}
use procfs.Go.Result.{Result, ok, Error, file_parse, wrap, ◌>>=◌, ◌>>◌, fail_if, ◌!!◌, slice, each}
use procfs.Go.Scanner.{scan_err}
use procfs.Go.Text.{fields, split}
use procfs.MountStats.Lines.{parse_nfs_bytes_stats, parse_nfs_events_stats, nfs_operation}
use procfs.MountStats.Transport.{parse_nfs_transport_stats}
use procfs.MountStats.Types.{
  NfsOperationStats, MountStatsNfs, zero_nfs_bytes_stats, zero_nfs_events_stats,
}

-- `time.ParseDuration`, which computes with floats: a number of nanoseconds.
abbrev pub Durations : Type 0
Durations = Bytes → Result ℤ

-- A round of the loop over the options of an "opts:" line.
unfoldable pub nfs_option : StringMap → Bytes → Result StringMap
nfs_option opts opt = do
  let parts = split opt b'='
  if length parts == 2
      then (do key ← parts !! 0; value ← parts !! 1; ok (insert key value opts))
      else ok (insert opt [] opts)

incomplete : Error
incomplete = wrap "%w: Incomplete information for NFS stats: %v" file_parse

-- The switch over the first word of a line.
unfoldable pub nfs_line : Durations → Bytes → MountStatsNfs → List Bytes → Result MountStatsNfs
unfolding incomplete
nfs_line parse_duration stat_version stats ss = do
  label ← ss !! 0
  if bytes_eq label (codes "opts:")
      then (do
        fail_if (ltb (length ss) 2) incomplete
        text ← ss !! 1
        opts ← each nfs_option stats.opts (split text b',')
        ok (record stats { opts = opts }))
      else if bytes_eq label (codes "age:")
      then (do
        fail_if (ltb (length ss) 2) incomplete
        text ← ss !! 1
        d ← parse_duration (text ++ codes "s")
        ok (record stats { age = d }))
      else if bytes_eq label (codes "bytes:")
      then (do
        fail_if (ltb (length ss) 2) incomplete
        rest ← slice ss 1 (length ss)
        bstats ← parse_nfs_bytes_stats rest
        ok (record stats { bytes = bstats }))
      else if bytes_eq label (codes "events:")
      then (do
        fail_if (ltb (length ss) 2)
            (wrap "%w: Incomplete information for NFS events: %v" file_parse)
        rest ← slice ss 1 (length ss)
        estats ← parse_nfs_events_stats rest
        ok (record stats { events = estats }))
      else if bytes_eq label (codes "xprt:")
      then (do
        fail_if (ltb (length ss) 3)
            (wrap "%w: Incomplete information for NFS transport stats: %v" file_parse)
        rest ← slice ss 1 (length ss)
        tstats ← parse_nfs_transport_stats rest stat_version
        ok (record stats { transport = stats.transport ++ tstats ∷ [] }))
      else ok stats

-- The loop over the lines up to a blank line or the "per-op" line, and the lines behind it.
unfoldable pub nfs_lines :
    Durations
    → Bytes
    → Option Error
    → List Bytes
    → MountStatsNfs
    → Result (MountStatsNfs × List Bytes)
unfolding nfs_line
nfs_lines parse_duration stat_version fault [] stats = scan_err (λ e. e) fault (stats, [])
nfs_lines parse_duration stat_version fault (line ∷ lines) stats =
    let ss = fields line in
    let more = (do
      next ← nfs_line parse_duration stat_version stats ss
      label ← ss !! 0
      let rest = nfs_lines parse_duration stat_version fault lines next
      if bytes_eq label (codes "per-op") then ok (next, lines) else rest) in
    if length ss == 0 then ok (stats, lines) else more

-- The loop of `parseNFSOperationStats`, up to a blank line, and the lines behind it.
unfoldable pub nfs_operations :
    Option Error
    → List Bytes
    → List NfsOperationStats
    → Result (List NfsOperationStats × List Bytes)
nfs_operations fault [] ops = scan_err (λ e. e) fault (ops, [])
nfs_operations fault (line ∷ lines) ops =
    let ss = fields line in
    let more = (do
      op_stats ← nfs_operation ss
      nfs_operations fault lines (ops ++ op_stats ∷ [])) in
    if length ss == 0 then ok (ops, lines) else more

abbrev pub new_stats : Bytes → MountStatsNfs
new_stats stat_version = record {
  stat_version = stat_version;
  opts = [];
  age = ℤ.pos 0;
  bytes = zero_nfs_bytes_stats;
  events = zero_nfs_events_stats;
  operations = [];
  transport = [];
}

unfoldable pub parse_mount_stats_nfs :
    Durations → Option Error → List Bytes → Bytes → Result (MountStatsNfs × List Bytes)
unfolding nfs_lines nfs_operations
parse_mount_stats_nfs parse_duration fault lines stat_version = do
  (stats, rest) ← nfs_lines parse_duration stat_version fault lines (new_stats stat_version)
  (operations, behind) ← nfs_operations fault rest []
  ok (record stats { operations = operations }, behind)
