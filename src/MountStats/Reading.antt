-- ===== src/MountStats/Reading.antt =====
-- mountstats.go: what the parser reads from the lines of a mount.
use procfs.Base.{
  ℕ, suc, ◌*◌, ◌^◌, ◌<◌, pos, Bytes, List, [], ◌∷◌, ◌++◌, ◌≡◌, refl, sym, none, some, false, length,
  All, bytes_eq, codes, map, foldl, arith, ltb,
}
use procfs.Go.Lines.{numbers}
use procfs.Go.Map.{StringMap}
use procfs.Go.Result.{ok, each, slice_tail}
use procfs.Go.Strconv.Decimal.{format_uint}
use procfs.Go.Text.Affixes.{trim_suffix-append}
use procfs.Go.Text.Parts.{split-join, split_whole, split_at}
use procfs.MountInfo.Options.{Entry, render_entry, put, IsOption}
use procfs.MountStats.Blocks.{
  Item, words_of, ItemFits, apply, Operation, statistics_of, counters_of_operation, operation_words,
  OperationFits,
}
use procfs.MountStats.Layout.{
  Xprt, protocol_of, counters_of, CountFits, parse_nfs_transport_stats-cells,
}
use procfs.MountStats.Lines.{
  parse_counters, parse_nfs_bytes_stats, parse_nfs_events_stats, nfs_operation, operation_of,
}
use procfs.MountStats.Nfs.{Durations, nfs_option, nfs_line}
use procfs.MountStats.Types.{
  NfsBytesStats, nfs_bytes_stats_values, NfsEventsStats, nfs_events_stats_values, MountStatsNfs,
}
use procfs.Util.Parse.Slices.{collect_iff, AllParse-numbers, AllParse-length, uint}

parse_counters-numbers :
    (us : List ℕ) → All (λ u. u < 2 ^ 64) us → parse_counters (numbers us) ≡ ok us
unfolding parse_counters
parse_counters-numbers us h =
    (collect_iff _ us (numbers us)).1 (AllParse-numbers 64 us (omega arith) h)

nfs_option-render_entry :
    (m : StringMap) (o : Entry) → IsOption o → nfs_option m (render_entry b'=' o) ≡ ok (put m o)
unfolding nfs_option
nfs_option-render_entry m (k, none) (hk, hv) = rw (split_whole b'=' k hk)
nfs_option-render_entry m (k, some v) (hk, hv) =
    rw (split_at b'=' k v hk) (rw (split_whole b'=' v hv))

pub each-nfs_option :
    (os : List Entry) (m : StringMap)
    → All IsOption os
    → each nfs_option m (map (render_entry b'=') os) ≡ ok (foldl put m os)
unfolding each
each-nfs_option [] m h = refl
each-nfs_option (o ∷ os) m (h, hs) =
    rw (nfs_option-render_entry m o h) (each-nfs_option os (put m o) hs)

pub parse_nfs_bytes_stats-values :
    (x : NfsBytesStats)
    → All (λ u. u < 2 ^ 64) (nfs_bytes_stats_values x)
    → parse_nfs_bytes_stats (numbers (nfs_bytes_stats_values x)) ≡ ok x
unfolding parse_nfs_bytes_stats
parse_nfs_bytes_stats-values x h = rw (parse_counters-numbers (nfs_bytes_stats_values x) h)

pub parse_nfs_events_stats-values :
    (x : NfsEventsStats)
    → All (λ u. u < 2 ^ 64) (nfs_events_stats_values x)
    → parse_nfs_events_stats (numbers (nfs_events_stats_values x)) ≡ ok x
unfolding parse_nfs_events_stats
parse_nfs_events_stats-values x h = rw (parse_counters-numbers (nfs_events_stats_values x) h)

pub nfs_operation-words :
    (o : Operation) → OperationFits o → nfs_operation (operation_words o) ≡ ok (statistics_of o)
unfolding nfs_operation operation_of
nfs_operation-words (Operation.with_errors x) h =
    rw (parse_counters-numbers (counters_of_operation (Operation.with_errors x)) h)
      (rw (trim_suffix-append x.operation (codes ":")))
nfs_operation-words (Operation.without_errors x) (h, e) =
    rw (parse_counters-numbers (counters_of_operation (Operation.without_errors x)) h)
      (rw (trim_suffix-append x.operation (codes ":"), e))

counters_of_some : (x : Xprt) → CountFits x → 0 < length (counters_of x)
counters_of_some (Xprt.tcp10 us) h = omega arith
counters_of_some (Xprt.udp10 us) h = omega arith
counters_of_some (Xprt.tcp11 us) h = omega arith
counters_of_some (Xprt.udp11 us) h = omega arith
counters_of_some (Xprt.rdma11 us) h = omega arith

-- What every theorem on a file takes: `ParseDuration` reads a number of seconds.
abbrev pub ReadsSeconds : Durations → Type 0
ReadsSeconds d =
    (n : ℕ) → n * 10 ^ 9 < 2 ^ 63 → d (format_uint n ++ codes "s") ≡ ok (pos (n * 10 ^ 9))

pub nfs_line-words :
    (d : Durations) (version : Bytes) (stats : MountStatsNfs) (i : Item)
    → ReadsSeconds d
    → ItemFits version i
    → nfs_line d version stats (words_of i) ≡ ok (apply stats i)
unfolding nfs_line bytes_eq
nfs_line-words d version stats (Item.opts o os) seconds (h, commas) =
    rw (split-join b',' (render_entry b'=' o) (map (render_entry b'=') os) commas)
      (rw (each-nfs_option (o ∷ os) stats.opts h))
nfs_line-words d version stats (Item.age n) seconds h = rw (seconds n h)
nfs_line-words d version stats (Item.bytes x) seconds h = rw (parse_nfs_bytes_stats-values x h)
nfs_line-words d version stats (Item.events x) seconds h = rw (parse_nfs_events_stats-values x h)
nfs_line-words d version stats (Item.xprt x) seconds (counts, numbers_fit, same) =
    let us = counters_of x in
    let parsed = AllParse-numbers 64 us (omega arith) numbers_fit in
    let many = AllParse-length (uint 64) (numbers us) us parsed in
    let some_counters = counters_of_some x counts in
    let enough : ltb (suc (suc (length (numbers us)))) 3 ≡ false = ground arith in
    rw (enough, slice_tail (codes "xprt:") (protocol_of x ∷ numbers us), sym same)
      (rw (parse_nfs_transport_stats-cells x (numbers us) counts parsed))
nfs_line-words d version stats (Item.other label ws) seconds (a, b, c, e, f, g) = rw (a, b, c, e, f)
