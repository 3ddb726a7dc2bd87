-- ===== src/Netstat/Reading.antt =====
-- proc_netstat.go: what parseProcNetstat reads from pairs of lines.
use procfs.Base.{List, ◌≡◌, ap, ◌∙◌, Bytes, none, some}
use procfs.Go.Reply.{returns}
use procfs.Go.Result.{Result}
use procfs.Go.Scanner.{Reader, scan}
use procfs.Go.Switch.{assign_all, find_in, last_of, shown, read-assign_all, same_pair}
use procfs.Go.Switch.Loop.{assignments_of}
use procfs.Netstat.{parse_proc_netstat}
use procfs.Netstat.Keys.{cases, set_key}
use procfs.Netstat.Keys.{label_of, read, set_key-Switch, read-zero_proc_netstat}
use procfs.Netstat.Keys.{Key}
use procfs.Netstat.Types.{ProcNetstat, zero_proc_netstat}
use procfs.Paired.Reading.{Block, Spells, AreRead, assignments, parse_pairs_lem}

module _ {F : Type 0} (parse_float : Bytes → Result F) where
  -- A file of pairs of lines, a protocol with a colon and names in the first, as many numbers that
  -- are read in the second, all split at single spaces, is read to its end without an error of a
  -- line; and every field that the switch knows has the value of the last column with its protocol
  -- and its name, and is unset where there is no such column.
  pub parse_proc_netstat-read :
      (r : Reader) (bs : List (Block F))
      → Spells (scan r).lines bs
      → AreRead parse_float bs
      → (m : ProcNetstat F) × (parse_proc_netstat parse_float r ≡ returns m (scan r).fault)
        × ((k : Key)
            → read k m
              ≡ shown some none (last_of same_pair (label_of k) (assignments_of assignments bs)))
  unfolding parse_proc_netstat
  parse_proc_netstat-read r bs h p = (
    assign_all set_key (find_in cases) (assignments_of assignments bs) zero_proc_netstat,
    parse_pairs_lem parse_float set_key (find_in cases) zero_proc_netstat r bs h p,
    λ k.
        read-assign_all set_key-Switch k (assignments_of assignments bs) zero_proc_netstat
        ∙ ap (λ w. shown some w (last_of same_pair (label_of k) (assignments_of assignments bs)))
            (read-zero_proc_netstat k),
  )
