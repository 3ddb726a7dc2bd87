-- ===== src/Snmp6.antt =====
-- proc_snmp6.go: the counters of IPv6, from /proc/<pid>/net/snmp6. The numbers that
-- `strconv.ParseFloat` gives, and what `errors.Is(err, os.ErrNotExist)` answers, are parameters.
pub mod Types
pub mod Keys
pub mod Reading
pub mod Total
use procfs.Base.{ℕ, ◌+◌, ℤ, Bool, Bytes, List, length, ltb, Option, none, some, if◌then◌else◌}
use procfs.Go.Files.{Files}
use procfs.Go.Reply.{Reply, panics, returns, ◌then◌, trying, replied, each_reply}
use procfs.Go.Result.{Error, Result, ok, err, panic, ◌>>=◌, ◌!!◌, slice}
use procfs.Go.Scanner.{Reader, reader, scan}
use procfs.Go.Switch.{assign, find_in}
use procfs.Go.Text.Index.{index_byte}
use procfs.Go.Text.{fields}
use procfs.Snmp6.Keys.{cases, set_key}
use procfs.Snmp6.Types.{ProcSnmp6, zero_proc_snmp6}
use procfs.Util.Parse.{read_file_no_stat}

abbrev pub set_pid : {F : Type 0} → ℤ → ProcSnmp6 F → ProcSnmp6 F
set_pid pid m = record m { pid = pid }

module _ {F : Type 0} (parse_float : Bytes → Result F) where
  -- What a round does from the first "6" of the name on.
  unfoldable pub stat_at : ProcSnmp6 F → List Bytes → Bytes → ℕ → Reply (ProcSnmp6 F)
  unfolding set_key
  stat_at m stat name six = trying m (slice name 0 (six + 1)) λ protocol.
      trying m (slice name (six + 1) (length name)) λ key.
        trying m (stat !! 1 >>= parse_float)
          λ value. returns (assign set_key (find_in cases (protocol, key)) value m) none

  -- A round of the loop.
  unfoldable pub stat_line : ProcSnmp6 F → Bytes → Reply (ProcSnmp6 F)
  unfolding stat_at index_byte
  stat_line m line =
      let stat = fields line in
      if ltb (length stat) 2
      then returns m none
      else trying m (stat !! 0) λ name. elim (index_byte name b'6') [
        | none ↦ returns m none
        | some six ↦ stat_at m stat name six
      ]

  unfoldable pub parse_snmp6_stats : Reader → Reply (ProcSnmp6 F)
  unfolding stat_line each_reply
  parse_snmp6_stats r =
      each_reply stat_line zero_proc_snmp6 (scan r).lines then λ m. returns m (scan r).fault

  -- `Proc.Snmp6` of the process whose files are given.
  unfoldable pub snmp6 : (Error → Bool) → ℤ → Files → Reply (ProcSnmp6 F)
  unfolding parse_snmp6_stats
  snmp6 is_not_exist pid files = elim (read_file_no_stat files "net/snmp6") [
    | panic ↦ panics
    | err e ↦ returns (set_pid pid zero_proc_snmp6) (if is_not_exist e then none else some e)
    | ok content ↦ replied (set_pid pid) (parse_snmp6_stats (reader content))
  ]
