-- ===== src/Snmp.antt =====
-- proc_snmp.go: the counters of IP, ICMP, TCP and UDP, from /proc/<pid>/net/snmp. The numbers that
-- `strconv.ParseFloat` gives are a parameter.
pub mod Types
pub mod Keys
pub mod Reading
use procfs.Base.{ℤ, Bytes, none, some}
use procfs.Go.Files.{Files}
use procfs.Go.Reply.{Reply, panics, returns, replied}
use procfs.Go.Result.{Result, ok, err, panic}
use procfs.Go.Scanner.{Reader, reader}
use procfs.Go.Switch.{find_in}
use procfs.Snmp.Keys.{cases, set_key}
use procfs.Snmp.Types.{ProcSnmp, zero_proc_snmp}
use procfs.Paired.{parse_pairs}
use procfs.Util.Parse.{read_file_no_stat}

abbrev set_pid : {F : Type 0} → ℤ → ProcSnmp F → ProcSnmp F
set_pid pid m = record m { pid = pid }

module _ {F : Type 0} (parse_float : Bytes → Result F) where
  unfoldable pub parse_snmp : Reader → Reply (ProcSnmp F)
  unfolding parse_pairs set_key
  parse_snmp = parse_pairs parse_float set_key (find_in cases) zero_proc_snmp

  -- `Proc.Snmp` of the process whose files are given.
  unfoldable pub snmp : ℤ → Files → Reply (ProcSnmp F)
  unfolding parse_snmp
  snmp pid files = elim (read_file_no_stat files "net/snmp") [
    | panic ↦ panics
    | err e ↦ returns (set_pid pid zero_proc_snmp) (some e)
    | ok content ↦ replied (set_pid pid) (parse_snmp (reader content))
  ]
