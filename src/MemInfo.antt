-- ===== src/MemInfo.antt =====
-- meminfo.go: the statistics of memory, from /proc/meminfo.
pub mod Types
pub mod Keys
pub mod Reading
use procfs.Base.{
  ℕ, ◌*◌, ◌%◌, ◌^◌, List, [], ◌∷◌, Bytes, String, Option, none, some, length, ◌==◌, not, codes,
  bytes_eq, if◌then◌else◌,
}
use procfs.Go.Files.{Files}
use procfs.Go.Result.{
  Result, ok, err, panic, file_parse, wrap, wrap₂, ◌>>=◌, ◌>>◌, fail_if, ◌!!◌, each,
}
use procfs.Go.Scanner.{Reader, reader, scan}
use procfs.Go.Strconv.{parse_uint}
use procfs.Go.Text.{fields}
use procfs.Go.Switch.{find_case}
use procfs.MemInfo.Keys.{cases, set_key}
use procfs.MemInfo.Types.{Meminfo, zero_meminfo}
use procfs.Util.Parse.{read_file_no_stat}

-- The switch.
unfoldable pub set_field : Bytes → ℕ → ℕ → Meminfo → Meminfo
unfolding find_case set_key
set_field label val val_bytes m = elim (find_case label cases) [
  | none ↦ m
  | some key ↦ set_key key val val_bytes m
]

-- The number of a line in bytes, by its words.
unfoldable pub bytes_of : List Bytes → ℕ → Result ℕ
bytes_of words val =
    if length words == 2
    then ok val
    else if length words == 3
    then (do
      unit ← words !! 2
      fail_if (not (bytes_eq unit (codes "kB")))
          (wrap "%w: Unsupported unit in optional 3rd field %q" file_parse)
      ok ((1024 * val) % 2 ^ 64))
    else err (wrap "%w: Malformed line %q" file_parse)

-- A round of the loop.
unfoldable pub meminfo_line : Meminfo → Bytes → Result Meminfo
unfolding bytes_of set_field
meminfo_line m line = do
  let words = fields line
  number ← words !! 1
  val ← parse_uint number 0 64
  val_bytes ← bytes_of words val
  label ← words !! 0
  ok (set_field label val val_bytes m)

-- The error of the scanner is not looked at.
unfoldable pub parse_mem_info : Reader → Result Meminfo
unfolding meminfo_line
parse_mem_info r = each meminfo_line zero_meminfo (scan r).lines

abbrev file_error : Result Meminfo → Result Meminfo
file_error (ok m) = ok m
file_error (err e) = err (wrap₂ "%w: %w" file_parse e)
file_error panic = panic

-- `FS.Meminfo` over the files below the mount point.
unfoldable pub meminfo : Files → Result Meminfo
unfolding parse_mem_info
meminfo files = do b ← read_file_no_stat files "meminfo"; file_error (parse_mem_info (reader b))
