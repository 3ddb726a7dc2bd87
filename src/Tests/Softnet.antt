-- ===== src/Tests/Softnet.antt =====
-- /proc/net/softnet_stat: instances.
use procfs.Base.{ℕ, List, [], ◌∷◌, ◌≡◌, refl, codes, arith}
use procfs.Go.Result.{ok, each, Returns}
use procfs.Go.Scanner.{Reader, reader, scan}
use procfs.Go.Strconv.{parse_uint}
use procfs.Go.Text.{fields}
use procfs.Softnet.Rows.{Table, rows, parse_softnet-rows}
use procfs.Softnet.Total.{parse_softnet-Returns}
use procfs.Softnet.{parse_softnet}

-- A row of an old kernel, of 9 columns, and one of 13 columns.
abbrev two_rows : Reader
two_rows = reader (codes "00358fe3 1 0 0 0 0 0 0 ff\n10 0 0 0 0 0 0 0 0 2 3 4 5\n")

abbrev two_rows_columns : List (List ℕ)
two_rows_columns =
    (0x358fe3 ∷ 1 ∷ 0 ∷ 0 ∷ 0 ∷ 0 ∷ 0 ∷ 0 ∷ 255 ∷ [])
    ∷ (16 ∷ 0 ∷ 0 ∷ 0 ∷ 0 ∷ 0 ∷ 0 ∷ 0 ∷ 0 ∷ 2 ∷ 3 ∷ 4 ∷ 5 ∷ [])
    ∷ []

two_rows-Table : Table (scan two_rows).lines two_rows_columns
unfolding scan fields parse_uint each
two_rows-Table = (
  omega arith,
  (refl, (refl, (refl, (refl, (refl, (refl, (refl, (refl, (refl, tt))))))))),
  (
    omega arith,
    (
      refl,
      (
        refl,
        (refl, (refl, (refl, (refl, (refl, (refl, (refl, (refl, (refl, (refl, (refl, tt))))))))))),
      ),
    ),
    tt,
  ),
)

parse_softnet-rows_example : parse_softnet two_rows ≡ ok (rows 0 two_rows_columns)
parse_softnet-rows_example = parse_softnet-rows two_rows two_rows_columns two_rows-Table

parse_softnet-Returns_example : Returns (parse_softnet two_rows)
parse_softnet-Returns_example = parse_softnet-Returns two_rows
