-- ===== src/Go/Files.antt =====
-- Files as the parsers see them: opening a path gives an error or a reader.
use procfs.Base.{◌⊎◌, inl, inr, none, some, ℕ, Bytes, String, leb, length, take, if◌then◌else◌}
use procfs.Go.Result.{Error, Result, ok, err, ◌>>=◌}
use procfs.Go.Scanner.{Reader}

-- What the operating system answers for each path below a mount point.
abbrev pub Files : Type 0
Files = String → Error ⊎ Reader

abbrev pub opened : Error ⊎ Reader → Result Reader
opened (inl e) = err e
opened (inr r) = ok r

-- `os.Open`
abbrev pub open_file : Files → String → Result Reader
open_file files path = opened (files path)

-- `io.ReadAll`
abbrev pub read_all : Reader → Result Bytes
read_all r = elim r.fault [ none ↦ ok r.content | some e ↦ err e ]

-- `os.ReadFile`
abbrev pub read_file : Files → String → Result Bytes
read_file files path = do r ← open_file files path; read_all r

-- `io.LimitReader`: an error behind the limit is not met.
abbrev pub limit_reader : ℕ → Reader → Reader
limit_reader n r =
    if leb n (length r.content) then record { content = take n r.content; fault = none } else r
