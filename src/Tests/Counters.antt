-- ===== src/Tests/Counters.antt =====
-- Tests of proc_snmp6.go, proc_snmp.go and proc_netstat.go. Numbers are read as integers.
use procfs.Base.{[], ◌∷◌, ◌≡◌, refl, none, some, ℕ, List, Bytes, codes, arith, replicate}
use procfs.Go.Reply.{Gives, Replies, returns}
use procfs.Go.Result.{Result, each}
use procfs.Go.Scanner.{Reader, reader, scan}
use procfs.Go.Strconv.{parse_uint}
use procfs.Go.Strconv.Bounds.{parse_uint-Returns}
use procfs.Go.Switch.{last_of, shown, find_in, same_pair}
use procfs.Go.Switch.Loop.{assignments_of}
use procfs.Go.Text.{fields, split}
use procfs.Netstat
use procfs.Paired.{parse_pairs}
use procfs.Paired.Reading.{Block, assignments}
use procfs.Paired.Total.{parse_pairs-Replies}
use procfs.Snmp
use procfs.Snmp6

abbrev number : Bytes → Result ℕ
number text = parse_uint text 10 64

abbrev snmp6_file : Reader
snmp6_file = reader (codes "Ip6InReceives   7\nIcmp6InMsgs 3\nshort\nOther 4\nIp6InReceives 9\n")

abbrev snmp6_lines : List (Snmp6.Reading.Line ℕ)
snmp6_lines =
    Snmp6.Reading.Line.stat (codes "Ip") (codes "InReceives") (codes "7") 7 []
    ∷ Snmp6.Reading.Line.stat (codes "Icmp") (codes "InMsgs") (codes "3") 3 []
    ∷ Snmp6.Reading.Line.other (codes "short" ∷ [])
    ∷ Snmp6.Reading.Line.other (codes "Other" ∷ codes "4" ∷ [])
    ∷ Snmp6.Reading.Line.stat (codes "Ip") (codes "InReceives") (codes "9") 9 []
    ∷ []

parse_snmp6_stats-read_example :
    (m : Snmp6.Types.ProcSnmp6 ℕ) × (Snmp6.parse_snmp6_stats number snmp6_file ≡ returns m none)
    × ((k : Snmp6.Keys.Key)
        → Snmp6.Keys.read k m
          ≡ shown some none (
              last_of same_pair
                (Snmp6.Keys.label_of k)
                (assignments_of Snmp6.Reading.assignments snmp6_lines)))
unfolding scan fields parse_uint each
parse_snmp6_stats-read_example =
    Snmp6.Reading.parse_snmp6_stats-read number snmp6_file snmp6_lines
      (refl, (refl, (refl, (refl, (refl, tt)))))
      ((omega arith, refl), ((omega arith, refl), (tt, (omega arith, ((omega arith, refl), tt)))))

parse_snmp6_stats-Replies_example : Replies (Snmp6.parse_snmp6_stats number snmp6_file)
parse_snmp6_stats-Replies_example =
    Snmp6.Total.parse_snmp6_stats-Replies number (λ text. parse_uint-Returns text 10 64) snmp6_file

abbrev netstat_file : Reader
netstat_file =
    reader (codes "TcpExt: TW Unknown\nTcpExt: 5 6\nIpExt: InOctets OutOctets\nIpExt: 17 18\n")

abbrev netstat_blocks : List (Block ℕ)
netstat_blocks =
    record {
      protocol = codes "TcpExt";
      corner = codes "TcpExt:";
      stats =
          record { name = codes "TW"; number = codes "5"; value = 5 }
          ∷ record { name = codes "Unknown"; number = codes "6"; value = 6 }
          ∷ [];
    }
    ∷ record {
      protocol = codes "IpExt";
      corner = codes "IpExt:";
      stats =
          record { name = codes "InOctets"; number = codes "17"; value = 17 }
          ∷ record { name = codes "OutOctets"; number = codes "18"; value = 18 }
          ∷ [];
    }
    ∷ []

parse_proc_netstat-read_example :
    (m : Netstat.Types.ProcNetstat ℕ) × (Netstat.parse_proc_netstat number netstat_file
      ≡ returns m none)
    × ((k : Netstat.Keys.Key)
        → Netstat.Keys.read k m
          ≡ shown some none (
              last_of same_pair
                (Netstat.Keys.label_of k)
                (assignments_of assignments netstat_blocks)))
unfolding scan split parse_uint each
parse_proc_netstat-read_example =
    Netstat.Reading.parse_proc_netstat-read number netstat_file netstat_blocks
      (refl, refl, (refl, refl, tt)) ((refl, (refl, tt)), ((refl, (refl, tt)), tt))

abbrev snmp_file : Reader
snmp_file = reader (codes "Udp: InDatagrams NoPorts\nUdp: 12 13\n")

abbrev snmp_blocks : List (Block ℕ)
snmp_blocks =
    record {
      protocol = codes "Udp";
      corner = codes "Udp:";
      stats =
          record { name = codes "InDatagrams"; number = codes "12"; value = 12 }
          ∷ record { name = codes "NoPorts"; number = codes "13"; value = 13 }
          ∷ [];
    }
    ∷ []

parse_snmp-read_example :
    (m : Snmp.Types.ProcSnmp ℕ) × (Snmp.parse_snmp number snmp_file ≡ returns m none)
    × ((k : Snmp.Keys.Key)
        → Snmp.Keys.read k m
          ≡ shown some none
              (last_of same_pair (Snmp.Keys.label_of k) (assignments_of assignments snmp_blocks)))
unfolding scan split parse_uint each
parse_snmp-read_example =
    Snmp.Reading.parse_snmp-read number snmp_file snmp_blocks (refl, refl, tt)
      ((refl, (refl, tt)), tt)

-- The names of a block without a line of values.
parse_pairs-Replies_example : Replies (
    parse_pairs number Snmp.Keys.set_key
      (find_in Snmp.Keys.cases)
      Snmp.Types.zero_proc_snmp
      (reader (codes "Udp: InDatagrams\n")))
parse_pairs-Replies_example =
    parse_pairs-Replies number Snmp.Keys.set_key (find_in Snmp.Keys.cases)
      (λ text. parse_uint-Returns text 10 64) Snmp.Types.zero_proc_snmp
      (reader (codes "Udp: InDatagrams\n"))

-- A column that the switch does not know.
abbrev abort_file : Reader
abort_file = reader (codes "TcpExt: TCPAbortOnMemory TW\nTcpExt: 5 6\n")

parse_proc_netstat-unset_example :
    Gives
      (Netstat.parse_proc_netstat number abort_file)
      (λ m. Netstat.Unset.without_case m ≡ replicate 19 none)
parse_proc_netstat-unset_example = Netstat.Unset.parse_proc_netstat-unset number abort_file
