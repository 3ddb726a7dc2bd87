-- ===== src/Util/Parse.antt =====
-- internal/util/parse.go, internal/util/readfile.go.
pub mod Slices
pub mod InFiles
pub mod Booleans
pub mod Limit
use procfs.Base.{
  ℕ, ℤ, ◌*◌, ◌%◌, ◌^◌, Bool, true, false, List, [], ◌∷◌, ◌++◌, Bytes, String, Option, none, some,
  bytes_eq, codes, drop, not, if◌then◌else◌,
}
use procfs.Go.Files.{Files, open_file, read_all, read_file, limit_reader}
use procfs.Go.Result.{Result, ok, err, errorf, each, ◌>>=◌, ◌>>◌, fail_if}
use procfs.Go.Strconv.{parse_uint, parse_int}
use procfs.Go.Text.{trim_space, has_prefix}

module _ {ℓ} {A : Type ℓ} where
  -- The loop of the functions below, which append one result for each text.
  unfoldable pub collect : (Bytes → Result A) → List Bytes → Result (List A)
  unfolding each
  collect f ss = each (λ us s. do u ← f s; ok (us ++ u ∷ [])) [] ss

unfoldable pub parse_uint32s : List Bytes → Result (List ℕ)
parse_uint32s = collect (λ s. do u ← parse_uint s 10 32; ok (u % 2 ^ 32))

unfoldable pub parse_uint64s : List Bytes → Result (List ℕ)
parse_uint64s = collect (λ s. parse_uint s 10 64)

-- The pointers that the slice holds are to distinct variables, and are modelled by what they point to.
unfoldable pub parse_p_int64s : List Bytes → Result (List ℤ)
parse_p_int64s = collect (λ s. parse_int s 10 64)

unfoldable pub parse_hex_uint64s : List Bytes → Result (List ℕ)
parse_hex_uint64s = collect (λ s. parse_uint s 16 64)

unfoldable pub read_uint_from_file : Files → String → Result ℕ
read_uint_from_file files path = do
  bytes ← read_file files path
  parse_uint (trim_space bytes) 10 64

unfoldable pub read_int_from_file : Files → String → Result ℤ
read_int_from_file files path = do bytes ← read_file files path; parse_int (trim_space bytes) 10 64

unfoldable pub parse_bool : Bytes → Option Bool
parse_bool b =
    if bytes_eq b (codes "enabled")
    then some true
    else if bytes_eq b (codes "disabled")
    then some false
    else none

unfoldable pub read_hex_from_file : Files → String → Result ℕ
read_hex_from_file files path = do
  bytes ← read_file files path
  let hex_string = trim_space bytes
  fail_if (not (has_prefix hex_string (codes "0x")))
      (errorf "invalid format: hex string does not start with '0x'")
  parse_uint (drop 2 hex_string) 16 64

-- `maxBufferSize`
abbrev pub max_buffer_size : ℕ
max_buffer_size = 1024 * 1024

unfoldable pub read_file_no_stat : Files → String → Result Bytes
read_file_no_stat files path = do
  f ← open_file files path
  let reader = limit_reader max_buffer_size f
  read_all reader
