-- ===== src/Netstat/Unset.antt =====
-- proc_netstat.go: the fields of TcpExt that have no case in the switch.
use procfs.Base.{List, [], ◌∷◌, ◌≡◌, refl, ◌∙◌, Bytes, Option, none, replicate}
use procfs.Go.Reply.{Gives}
use procfs.Go.Result.{Result}
use procfs.Go.Scanner.{Reader}
use procfs.Go.Switch.{find_in}
use procfs.Netstat.{parse_proc_netstat}
use procfs.Netstat.Keys.{Key, cases, set_key, tcp_ext_syncookies_sent}
use procfs.Netstat.Types.{ProcNetstat, zero_proc_netstat}
use procfs.Paired.Invariant.{parse_pairs-keeps}

module _ {F : Type 0} where
  abbrev pub without_case : ProcNetstat F → List (Option F)
  without_case m =
      m.tcp_ext.tcp_abort_on_memory ∷ m.tcp_ext.tcp_abort_on_timeout ∷ m.tcp_ext.tcp_abort_on_linger
      ∷ m.tcp_ext.tcp_abort_failed ∷ m.tcp_ext.tcp_memory_pressures
      ∷ m.tcp_ext.tcp_memory_pressures_chrono ∷ m.tcp_ext.tcpsack_discard
      ∷ m.tcp_ext.tcpdsack_ignored_old ∷ m.tcp_ext.tcpdsack_ignored_no_undo
      ∷ m.tcp_ext.tcp_spurious_rtos ∷ m.tcp_ext.tcpmd5_not_found ∷ m.tcp_ext.tcpmd5_unexpected
      ∷ m.tcp_ext.tcpmd5_failure ∷ m.tcp_ext.tcp_sack_shifted ∷ m.tcp_ext.tcp_sack_merged
      ∷ m.tcp_ext.tcp_sack_shift_fallback ∷ m.tcp_ext.tcp_backlog_drop ∷ m.tcp_ext.pf_memalloc_drop
      ∷ m.tcp_ext.tcp_min_ttl_drop ∷ []

  without_case-set_key :
      (k : Key) (v : F) (m : ProcNetstat F) → without_case (set_key k v m) ≡ without_case m
  unfolding set_key
  without_case-set_key tcp_ext_syncookies_sent v m = refl
  without_case-set_key _ v m = refl

  -- Whatever the file holds, the 19 fields from TCPAbortOnMemory to TCPMinTTLDrop, which have no case in
  -- the switch are nil in what the parser returns, with an error or without one, also where the
  -- file has columns with their names.
  pub parse_proc_netstat-unset :
      (parse_float : Bytes → Result F) (r : Reader)
      → Gives (parse_proc_netstat parse_float r) (λ m. without_case m ≡ replicate 19 none)
  unfolding parse_proc_netstat
  parse_proc_netstat-unset parse_float r =
      parse_pairs-keeps parse_float set_key (find_in cases)
        (λ m. without_case m ≡ replicate 19 none) (λ k v m h. without_case-set_key k v m ∙ h)
        zero_proc_netstat r refl
