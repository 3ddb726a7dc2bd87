-- ===== src/Util/Parse/InFiles.antt =====
-- internal/util/parse.go: numbers in files, each with a newline behind it.
use procfs.Base.{ℕ, ◌^◌, ◌<◌, inr, [], ◌∷◌, ◌++◌, ◌≡◌, arith, String}
use procfs.Go.Files.{Files}
use procfs.Go.Result.{ok}
use procfs.Go.Scanner.{reader}
use procfs.Go.Strconv.Decimal.{format_uint, format_uint-IsWord, parse_uint-format_uint}
use procfs.Go.Text.Trim.{trim_space-word}
use procfs.Util.Parse.{read_uint_from_file}

-- `ReadUintFromFile` gives n for a file that holds the decimal print of n and a newline, if n is
-- below 2 ^ 64.
pub read_uint_from_file-format_uint :
    (files : Files) (path : String) (n : ℕ)
    → files path ≡ inr (reader (format_uint n ++ b'\n' ∷ []))
    → n < 2 ^ 64
    → read_uint_from_file files path ≡ ok n
unfolding read_uint_from_file
read_uint_from_file-format_uint files path n e h = rw e (
    rw (trim_space-word (format_uint n) (format_uint-IsWord n))
      (parse_uint-format_uint 64 n (omega arith) (omega arith)))
