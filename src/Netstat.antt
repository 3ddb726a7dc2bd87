-- ===== src/Netstat.antt =====
-- proc_netstat.go: the extended counters of TCP and IP, from /proc/<pid>/net/netstat. The numbers that
-- `strconv.ParseFloat` gives are a parameter.
pub mod Types
pub mod Keys
pub mod Reading
pub mod Unset
use procfs.Base.{ℤ, Bytes, none, some}
use procfs.Go.Files.{Files}
use procfs.Go.Reply.{Reply, panics, returns, replied}
use procfs.Go.Result.{Result, ok, err, panic}
use procfs.Go.Scanner.{Reader, reader}
use procfs.Go.Switch.{find_in}
use procfs.Netstat.Keys.{cases, set_key}
use procfs.Netstat.Types.{ProcNetstat, zero_proc_netstat}
use procfs.Paired.{parse_pairs}
use procfs.Util.Parse.{read_file_no_stat}

abbrev set_pid : {F : Type 0} → ℤ → ProcNetstat F → ProcNetstat F
set_pid pid m = record m { pid = pid }

module _ {F : Type 0} (parse_float : Bytes → Result F) where
  unfoldable pub parse_proc_netstat : Reader → Reply (ProcNetstat F)
  unfolding parse_pairs set_key
  parse_proc_netstat = parse_pairs parse_float set_key (find_in cases) zero_proc_netstat

  -- `Proc.Netstat` of the process whose files are given.
  unfoldable pub netstat : ℤ → Files → Reply (ProcNetstat F)
  unfolding parse_proc_netstat
  netstat pid files = elim (read_file_no_stat files "net/netstat") [
    | panic ↦ panics
    | err e ↦ returns (set_pid pid zero_proc_netstat) (some e)
    | ok content ↦ replied (set_pid pid) (parse_proc_netstat (reader content))
  ]
