-- ===== src/MountStats.antt =====
-- mountstats.go: the mounts of a process with the statistics of NFS mounts, from
-- /proc/<pid>/mountstats.
pub mod Types
pub mod Lines
pub mod Transport
pub mod Nfs
pub mod Counters
pub mod Layout
pub mod Runs
pub mod Rest
pub mod Bounds
pub mod Total
pub mod Blocks
pub mod Reading
pub mod RoundTrip
pub mod Files
use procfs.Base.{
  ℕ, zero, suc, Bytes, List, [], ◌∷◌, ◌++◌, Option, none, some, length, ltb, ◌==◌, ◌&&◌, not,
  bytes_eq, codes, if◌then◌else◌,
}
use procfs.Go.Result.{Result, ok, panic, Error, file_parse, wrap, ◌>>=◌, ◌>>◌, fail_if, ◌!!◌, each}
use procfs.Go.Scanner.{Reader, scan, scan_err}
use procfs.Go.Text.{fields, trim_prefix}
use procfs.MountStats.Nfs.{Durations, parse_mount_stats_nfs}
use procfs.MountStats.Types.{Mount}

invalid_device : Error
invalid_device = wrap "%w: Invalid device %q" file_parse

-- A round of the loop over the words that have to stand at some indices.
unfoldable pub check_word : List Bytes → ℕ × Bytes → Result (Unit {0})
unfolding invalid_device
check_word ss (i, s) = do word ← ss !! i; fail_if (not (bytes_eq word s)) invalid_device

unfoldable pub parse_mount : List Bytes → Result Mount
unfolding check_word invalid_device
parse_mount ss = do
  fail_if (ltb (length ss) 8) invalid_device
  each (λ _ f. check_word ss f) tt
      ((0, codes "device")
        ∷ (2, codes "mounted")
        ∷ (3, codes "on")
        ∷ (5, codes "with")
        ∷ (6, codes "fstype")
        ∷ [])
  device ← ss !! 1
  mount ← ss !! 4
  type ← ss !! 7
  ok (record { device = device; mount = mount; type = type; stats = none })

-- A device line, with the lines behind it that hold its statistics, and the lines behind those.
unfoldable pub parse_device :
    Durations → Option Error → List Bytes → List Bytes → Result (Mount × List Bytes)
unfolding parse_mount_stats_nfs
parse_device parse_duration fault ss lines = do
  m ← parse_mount ss
  if ltb 8 (length ss)
      then (do
        fail_if (not (bytes_eq m.type (codes "nfs")) && not (bytes_eq m.type (codes "nfs4")))
            (wrap "%w: Cannot parse MountStats for %q" file_parse)
        version ← ss !! 8
        (stats, rest) ←
            parse_mount_stats_nfs parse_duration fault lines
              (trim_prefix version (codes "statvers="))
        ok (record m { stats = some stats }, rest))
      else ok (m, lines)

-- The loop over the lines, which skips those of no device. The rounds are counted by fuel, since one
-- round takes a number of lines; no fuel left is a panic.
unfoldable pub mounts_loop :
    Durations → Option Error → ℕ → List Bytes → List Mount → Result (List Mount)
mounts_loop parse_duration fault zero lines mounts = panic
mounts_loop parse_duration fault (suc f) [] mounts = scan_err (λ e. e) fault mounts
mounts_loop parse_duration fault (suc f) (line ∷ lines) mounts =
    let ss = fields line in
    let skipped = mounts_loop parse_duration fault f lines mounts in
    let read = (do
      label ← ss !! 0
      let device = (do
        (m, rest) ← parse_device parse_duration fault ss lines
        mounts_loop parse_duration fault f rest (mounts ++ m ∷ []))
      if bytes_eq label (codes "device") then device else skipped) in
    if length ss == 0 then skipped else read

unfoldable pub parse_mount_stats : Durations → Reader → Result (List Mount)
parse_mount_stats parse_duration r =
    let s = scan r in mounts_loop parse_duration s.fault (suc (length s.lines)) s.lines []
