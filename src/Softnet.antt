-- ===== src/Softnet.antt =====
-- net_softnet.go: the packet processing of each processor, from /proc/net/softnet_stat.
pub mod Total
pub mod Rows
use procfs.Base.{
  ℕ, ◌+◌, ◌%◌, ◌^◌, ltb, leb, length, List, [], ◌∷◌, ◌++◌, Bytes, String, if◌then◌else◌,
}
use procfs.Go.Files.{Files}
use procfs.Go.Result.{
  Result, ok, err, panic, Error, file_parse, wrap, wrap₂, ◌>>=◌, ◌>>◌, fail_if, ◌!!◌, slice, each,
}
use procfs.Go.Scanner.{Reader, reader, scan}
use procfs.Go.Strconv.{parse_uint}
use procfs.Go.Text.{fields}
use procfs.Util.Parse.{collect, read_file_no_stat}

pub record SoftnetStat : Type 0 where
  pub processed : ℕ
  pub dropped : ℕ
  pub time_squeezed : ℕ
  pub cpu_collision : ℕ
  pub received_rps : ℕ
  pub flow_limit_count : ℕ
  pub softnet_backlog_len : ℕ
  pub index : ℕ
  pub width : ℕ

abbrev pub zero_softnet_stat : SoftnetStat
zero_softnet_stat = record {
  processed = 0;
  dropped = 0;
  time_squeezed = 0;
  cpu_collision = 0;
  received_rps = 0;
  flow_limit_count = 0;
  softnet_backlog_len = 0;
  index = 0;
  width = 0;
}

unfoldable pub parse_hex_uint32s : List Bytes → Result (List ℕ)
parse_hex_uint32s = collect (λ s. do u ← parse_uint s 16 32; ok (u % 2 ^ 32))

-- The columns of every kernel.
unfoldable pub softnet_counts : List Bytes → SoftnetStat → Result SoftnetStat
softnet_counts columns stat =
    if leb 9 (length columns)
    then (do
      read ← slice columns 0 9
      us ← parse_hex_uint32s read
      processed ← us !! 0
      dropped ← us !! 1
      time_squeezed ← us !! 2
      cpu_collision ← us !! 8
      ok (record stat {
        processed = processed;
        dropped = dropped;
        time_squeezed = time_squeezed;
        cpu_collision = cpu_collision;
      }))
    else ok stat

-- The column that Linux 2.6.39 added.
unfoldable pub softnet_rps : List Bytes → SoftnetStat → Result SoftnetStat
softnet_rps columns stat =
    if leb 10 (length columns)
    then (do
      read ← slice columns 9 10
      us ← parse_hex_uint32s read
      received_rps ← us !! 0
      ok (record stat { received_rps = received_rps }))
    else ok stat

-- The column that Linux 4.18 added.
unfoldable pub softnet_flow_limit : List Bytes → SoftnetStat → Result SoftnetStat
softnet_flow_limit columns stat =
    if leb 11 (length columns)
    then (do
      read ← slice columns 10 11
      us ← parse_hex_uint32s read
      flow_limit_count ← us !! 0
      ok (record stat { flow_limit_count = flow_limit_count }))
    else ok stat

-- The columns that Linux 5.14 added; an older kernel has the number of the line as index.
unfoldable pub softnet_index : ℕ → List Bytes → SoftnetStat → Result SoftnetStat
softnet_index cpu_index columns stat =
    if leb 13 (length columns)
    then (do
      read ← slice columns 11 13
      us ← parse_hex_uint32s read
      softnet_backlog_len ← us !! 0
      index ← us !! 1
      ok (record stat { softnet_backlog_len = softnet_backlog_len; index = index }))
    else ok (record stat { index = cpu_index % 2 ^ 32 })

unfoldable pub softnet_stat : ℕ → List Bytes → Result SoftnetStat
softnet_stat cpu_index columns = do
  fail_if (ltb (length columns) 9)
      (wrap "%w: detected %d columns, but expected at least %d" file_parse)
  counts ← softnet_counts columns zero_softnet_stat
  rps ← softnet_rps columns counts
  flow_limit ← softnet_flow_limit columns rps
  stat ← softnet_index cpu_index columns flow_limit
  ok (record stat { width = length columns })

-- A round of the loop over the lines, whose state is the rows and the number of the line.
unfoldable pub softnet_line : List SoftnetStat × ℕ → Bytes → Result (List SoftnetStat × ℕ)
softnet_line (stats, cpu_index) line = do
  stat ← softnet_stat cpu_index (fields line)
  ok (stats ++ stat ∷ [], cpu_index + 1)

-- The error of the scanner is not looked at.
unfoldable pub parse_softnet : Reader → Result (List SoftnetStat)
parse_softnet r = do state ← each softnet_line ([], 0) (scan r).lines; ok state.0

-- `fmt.Errorf("%w: …: %w", ErrFileParse, err)`
abbrev entries_of : Result (List SoftnetStat) → Result (List SoftnetStat)
entries_of (ok entries) = ok entries
entries_of (err e) = err (wrap₂ "%w: /proc/net/softnet_stat: %w" file_parse e)
entries_of panic = panic

-- `FS.NetSoftnetStat` over the files below the mount point.
unfoldable pub net_softnet_stat : Files → Result (List SoftnetStat)
net_softnet_stat files = do
  b ← read_file_no_stat files "net/softnet_stat"
  entries_of (parse_softnet (reader b))
