-- ===== src/Tests/MemInfo.antt =====
-- Tests of meminfo.go.
use procfs.Base.{[], ◌∷◌, ◌≡◌, refl, none, List, codes, map, true, false, bytes_eq}
use procfs.Go.Result.{ok, each}
use procfs.Go.Scanner.{Reader, reader, scan}
use procfs.Go.Strconv.{parse_uint}
use procfs.Go.Switch.{last_of, shown}
use procfs.Go.Text.{fields}
use procfs.MemInfo.{parse_mem_info}
use procfs.MemInfo.Keys.{label_of, read, written}
use procfs.MemInfo.Reading.{Entry, assignment, parse_mem_info-read}
use procfs.MemInfo.Keys.{Key}
use procfs.MemInfo.Types.{Meminfo}

abbrev two_lines : Reader
two_lines = reader (codes "MemTotal:       16042172 kB\nHugePages_Total:       3\nOther: 4\n")

abbrev entries : List Entry
entries =
    record { label = codes "MemTotal:"; number = codes "16042172"; value = 16042172; in_kb = true }
    ∷ record { label = codes "HugePages_Total:"; number = codes "3"; value = 3; in_kb = false }
    ∷ record { label = codes "Other:"; number = codes "4"; value = 4; in_kb = false }
    ∷ []

parse_mem_info-read_example :
    (m : Meminfo) × (parse_mem_info two_lines ≡ ok m)
    × ((k : Key)
        → read k m
          ≡ shown (written k) (none, none) (last_of bytes_eq (label_of k) (map assignment entries)))
unfolding scan fields parse_uint each
parse_mem_info-read_example =
    parse_mem_info-read two_lines entries (refl, (refl, (refl, tt))) (refl, (refl, (refl, tt)))
