-- ===== src/Netstat/Keys.antt =====
-- proc_netstat.go: what the record holds for each key, and which protocol and name stand for it.
pub mod Cases
unfoldable pub use Cases.*
use procfs.Base.{
  ℕ, zero, suc, ltb, length, get_or, map, List, [], ◌∷◌, ◌++◌, ◌≡◌, refl, ◌↔◌, Bytes, String,
  Option, none, some, codes, All, bytes_eq, Bool, true, false,
}
use procfs.Go.Switch.{Switch, find_case, find_in, found_in, check_in, same_pair, same_pair_iff}
use procfs.Go.Switch.Slots.{Numbered, Numbered-Switch, put, position, members}
use procfs.Netstat.Types.{ProcNetstat, zero_proc_netstat}

abbrev tcp_ext : String → Bytes × Bytes
tcp_ext name = (codes "TcpExt", codes name)

abbrev ip_ext : String → Bytes × Bytes
ip_ext name = (codes "IpExt", codes name)

-- The protocol and the name of a key.
unfoldable pub label_of : Key → Bytes × Bytes
label_of tcp_ext_syncookies_sent = tcp_ext "SyncookiesSent"
label_of tcp_ext_syncookies_recv = tcp_ext "SyncookiesRecv"
label_of tcp_ext_syncookies_failed = tcp_ext "SyncookiesFailed"
label_of tcp_ext_embryonic_rsts = tcp_ext "EmbryonicRsts"
label_of tcp_ext_prune_called = tcp_ext "PruneCalled"
label_of tcp_ext_rcv_pruned = tcp_ext "RcvPruned"
label_of tcp_ext_ofo_pruned = tcp_ext "OfoPruned"
label_of tcp_ext_out_of_window_icmps = tcp_ext "OutOfWindowIcmps"
label_of tcp_ext_lock_dropped_icmps = tcp_ext "LockDroppedIcmps"
label_of tcp_ext_arp_filter = tcp_ext "ArpFilter"
label_of tcp_ext_tw = tcp_ext "TW"
label_of tcp_ext_tw_recycled = tcp_ext "TWRecycled"
label_of tcp_ext_tw_killed = tcp_ext "TWKilled"
label_of tcp_ext_paws_active = tcp_ext "PAWSActive"
label_of tcp_ext_paws_estab = tcp_ext "PAWSEstab"
label_of tcp_ext_delayed_acks = tcp_ext "DelayedACKs"
label_of tcp_ext_delayed_ack_locked = tcp_ext "DelayedACKLocked"
label_of tcp_ext_delayed_ack_lost = tcp_ext "DelayedACKLost"
label_of tcp_ext_listen_overflows = tcp_ext "ListenOverflows"
label_of tcp_ext_listen_drops = tcp_ext "ListenDrops"
label_of tcp_ext_tcphp_hits = tcp_ext "TCPHPHits"
label_of tcp_ext_tcp_pure_acks = tcp_ext "TCPPureAcks"
label_of tcp_ext_tcphp_acks = tcp_ext "TCPHPAcks"
label_of tcp_ext_tcp_reno_recovery = tcp_ext "TCPRenoRecovery"
label_of tcp_ext_tcp_sack_recovery = tcp_ext "TCPSackRecovery"
label_of tcp_ext_tcpsack_reneging = tcp_ext "TCPSACKReneging"
label_of tcp_ext_tcpsack_reorder = tcp_ext "TCPSACKReorder"
label_of tcp_ext_tcp_reno_reorder = tcp_ext "TCPRenoReorder"
label_of tcp_ext_tcpts_reorder = tcp_ext "TCPTSReorder"
label_of tcp_ext_tcp_full_undo = tcp_ext "TCPFullUndo"
label_of tcp_ext_tcp_partial_undo = tcp_ext "TCPPartialUndo"
label_of tcp_ext_tcpdsack_undo = tcp_ext "TCPDSACKUndo"
label_of tcp_ext_tcp_loss_undo = tcp_ext "TCPLossUndo"
label_of tcp_ext_tcp_lost_retransmit = tcp_ext "TCPLostRetransmit"
label_of tcp_ext_tcp_reno_failures = tcp_ext "TCPRenoFailures"
label_of tcp_ext_tcp_sack_failures = tcp_ext "TCPSackFailures"
label_of tcp_ext_tcp_loss_failures = tcp_ext "TCPLossFailures"
label_of tcp_ext_tcp_fast_retrans = tcp_ext "TCPFastRetrans"
label_of tcp_ext_tcp_slow_start_retrans = tcp_ext "TCPSlowStartRetrans"
label_of tcp_ext_tcp_timeouts = tcp_ext "TCPTimeouts"
label_of tcp_ext_tcp_loss_probes = tcp_ext "TCPLossProbes"
label_of tcp_ext_tcp_loss_probe_recovery = tcp_ext "TCPLossProbeRecovery"
label_of tcp_ext_tcp_reno_recovery_fail = tcp_ext "TCPRenoRecoveryFail"
label_of tcp_ext_tcp_sack_recovery_fail = tcp_ext "TCPSackRecoveryFail"
label_of tcp_ext_tcp_rcv_collapsed = tcp_ext "TCPRcvCollapsed"
label_of tcp_ext_tcpdsack_old_sent = tcp_ext "TCPDSACKOldSent"
label_of tcp_ext_tcpdsack_ofo_sent = tcp_ext "TCPDSACKOfoSent"
label_of tcp_ext_tcpdsack_recv = tcp_ext "TCPDSACKRecv"
label_of tcp_ext_tcpdsack_ofo_recv = tcp_ext "TCPDSACKOfoRecv"
label_of tcp_ext_tcp_abort_on_data = tcp_ext "TCPAbortOnData"
label_of tcp_ext_tcp_abort_on_close = tcp_ext "TCPAbortOnClose"
label_of tcp_ext_tcp_defer_accept_drop = tcp_ext "TCPDeferAcceptDrop"
label_of tcp_ext_ip_reverse_path_filter = tcp_ext "IPReversePathFilter"
label_of tcp_ext_tcp_time_wait_overflow = tcp_ext "TCPTimeWaitOverflow"
label_of tcp_ext_tcp_req_q_full_do_cookies = tcp_ext "TCPReqQFullDoCookies"
label_of tcp_ext_tcp_req_q_full_drop = tcp_ext "TCPReqQFullDrop"
label_of tcp_ext_tcp_retrans_fail = tcp_ext "TCPRetransFail"
label_of tcp_ext_tcp_rcv_coalesce = tcp_ext "TCPRcvCoalesce"
label_of tcp_ext_tcp_rcv_q_drop = tcp_ext "TCPRcvQDrop"
label_of tcp_ext_tcpofo_queue = tcp_ext "TCPOFOQueue"
label_of tcp_ext_tcpofo_drop = tcp_ext "TCPOFODrop"
label_of tcp_ext_tcpofo_merge = tcp_ext "TCPOFOMerge"
label_of tcp_ext_tcp_challenge_ack = tcp_ext "TCPChallengeACK"
label_of tcp_ext_tcpsyn_challenge = tcp_ext "TCPSYNChallenge"
label_of tcp_ext_tcp_fast_open_active = tcp_ext "TCPFastOpenActive"
label_of tcp_ext_tcp_fast_open_active_fail = tcp_ext "TCPFastOpenActiveFail"
label_of tcp_ext_tcp_fast_open_passive = tcp_ext "TCPFastOpenPassive"
label_of tcp_ext_tcp_fast_open_passive_fail = tcp_ext "TCPFastOpenPassiveFail"
label_of tcp_ext_tcp_fast_open_listen_overflow = tcp_ext "TCPFastOpenListenOverflow"
label_of tcp_ext_tcp_fast_open_cookie_reqd = tcp_ext "TCPFastOpenCookieReqd"
label_of tcp_ext_tcp_fast_open_blackhole = tcp_ext "TCPFastOpenBlackhole"
label_of tcp_ext_tcp_spurious_rtx_host_queues = tcp_ext "TCPSpuriousRtxHostQueues"
label_of tcp_ext_busy_poll_rx_packets = tcp_ext "BusyPollRxPackets"
label_of tcp_ext_tcp_auto_corking = tcp_ext "TCPAutoCorking"
label_of tcp_ext_tcp_from_zero_window_adv = tcp_ext "TCPFromZeroWindowAdv"
label_of tcp_ext_tcp_to_zero_window_adv = tcp_ext "TCPToZeroWindowAdv"
label_of tcp_ext_tcp_want_zero_window_adv = tcp_ext "TCPWantZeroWindowAdv"
label_of tcp_ext_tcp_syn_retrans = tcp_ext "TCPSynRetrans"
label_of tcp_ext_tcp_orig_data_sent = tcp_ext "TCPOrigDataSent"
label_of tcp_ext_tcp_hystart_train_detect = tcp_ext "TCPHystartTrainDetect"
label_of tcp_ext_tcp_hystart_train_cwnd = tcp_ext "TCPHystartTrainCwnd"
label_of tcp_ext_tcp_hystart_delay_detect = tcp_ext "TCPHystartDelayDetect"
label_of tcp_ext_tcp_hystart_delay_cwnd = tcp_ext "TCPHystartDelayCwnd"
label_of tcp_ext_tcpack_skipped_syn_recv = tcp_ext "TCPACKSkippedSynRecv"
label_of tcp_ext_tcpack_skipped_paws = tcp_ext "TCPACKSkippedPAWS"
label_of tcp_ext_tcpack_skipped_seq = tcp_ext "TCPACKSkippedSeq"
label_of tcp_ext_tcpack_skipped_fin_wait2 = tcp_ext "TCPACKSkippedFinWait2"
label_of tcp_ext_tcpack_skipped_time_wait = tcp_ext "TCPACKSkippedTimeWait"
label_of tcp_ext_tcpack_skipped_challenge = tcp_ext "TCPACKSkippedChallenge"
label_of tcp_ext_tcp_win_probe = tcp_ext "TCPWinProbe"
label_of tcp_ext_tcp_keep_alive = tcp_ext "TCPKeepAlive"
label_of tcp_ext_tcpmtup_fail = tcp_ext "TCPMTUPFail"
label_of tcp_ext_tcpmtup_success = tcp_ext "TCPMTUPSuccess"
label_of tcp_ext_tcp_wqueue_too_big = tcp_ext "TCPWqueueTooBig"
label_of ip_ext_in_no_routes = ip_ext "InNoRoutes"
label_of ip_ext_in_truncated_pkts = ip_ext "InTruncatedPkts"
label_of ip_ext_in_mcast_pkts = ip_ext "InMcastPkts"
label_of ip_ext_out_mcast_pkts = ip_ext "OutMcastPkts"
label_of ip_ext_in_bcast_pkts = ip_ext "InBcastPkts"
label_of ip_ext_out_bcast_pkts = ip_ext "OutBcastPkts"
label_of ip_ext_in_octets = ip_ext "InOctets"
label_of ip_ext_out_octets = ip_ext "OutOctets"
label_of ip_ext_in_mcast_octets = ip_ext "InMcastOctets"
label_of ip_ext_out_mcast_octets = ip_ext "OutMcastOctets"
label_of ip_ext_in_bcast_octets = ip_ext "InBcastOctets"
label_of ip_ext_out_bcast_octets = ip_ext "OutBcastOctets"
label_of ip_ext_in_csum_errors = ip_ext "InCsumErrors"
label_of ip_ext_in_no_ect_pkts = ip_ext "InNoECTPkts"
label_of ip_ext_in_ect1_pkts = ip_ext "InECT1Pkts"
label_of ip_ext_in_ect0_pkts = ip_ext "InECT0Pkts"
label_of ip_ext_in_ce_pkts = ip_ext "InCEPkts"
label_of ip_ext_reasm_overlaps = ip_ext "ReasmOverlaps"

-- The value of a key.
unfoldable pub read : {F : Type 0} → Key → ProcNetstat F → Option F
read tcp_ext_syncookies_sent m = m.tcp_ext.syncookies_sent
read tcp_ext_syncookies_recv m = m.tcp_ext.syncookies_recv
read tcp_ext_syncookies_failed m = m.tcp_ext.syncookies_failed
read tcp_ext_embryonic_rsts m = m.tcp_ext.embryonic_rsts
read tcp_ext_prune_called m = m.tcp_ext.prune_called
read tcp_ext_rcv_pruned m = m.tcp_ext.rcv_pruned
read tcp_ext_ofo_pruned m = m.tcp_ext.ofo_pruned
read tcp_ext_out_of_window_icmps m = m.tcp_ext.out_of_window_icmps
read tcp_ext_lock_dropped_icmps m = m.tcp_ext.lock_dropped_icmps
read tcp_ext_arp_filter m = m.tcp_ext.arp_filter
read tcp_ext_tw m = m.tcp_ext.tw
read tcp_ext_tw_recycled m = m.tcp_ext.tw_recycled
read tcp_ext_tw_killed m = m.tcp_ext.tw_killed
read tcp_ext_paws_active m = m.tcp_ext.paws_active
read tcp_ext_paws_estab m = m.tcp_ext.paws_estab
read tcp_ext_delayed_acks m = m.tcp_ext.delayed_acks
read tcp_ext_delayed_ack_locked m = m.tcp_ext.delayed_ack_locked
read tcp_ext_delayed_ack_lost m = m.tcp_ext.delayed_ack_lost
read tcp_ext_listen_overflows m = m.tcp_ext.listen_overflows
read tcp_ext_listen_drops m = m.tcp_ext.listen_drops
read tcp_ext_tcphp_hits m = m.tcp_ext.tcphp_hits
read tcp_ext_tcp_pure_acks m = m.tcp_ext.tcp_pure_acks
read tcp_ext_tcphp_acks m = m.tcp_ext.tcphp_acks
read tcp_ext_tcp_reno_recovery m = m.tcp_ext.tcp_reno_recovery
read tcp_ext_tcp_sack_recovery m = m.tcp_ext.tcp_sack_recovery
read tcp_ext_tcpsack_reneging m = m.tcp_ext.tcpsack_reneging
read tcp_ext_tcpsack_reorder m = m.tcp_ext.tcpsack_reorder
read tcp_ext_tcp_reno_reorder m = m.tcp_ext.tcp_reno_reorder
read tcp_ext_tcpts_reorder m = m.tcp_ext.tcpts_reorder
read tcp_ext_tcp_full_undo m = m.tcp_ext.tcp_full_undo
read tcp_ext_tcp_partial_undo m = m.tcp_ext.tcp_partial_undo
read tcp_ext_tcpdsack_undo m = m.tcp_ext.tcpdsack_undo
read tcp_ext_tcp_loss_undo m = m.tcp_ext.tcp_loss_undo
read tcp_ext_tcp_lost_retransmit m = m.tcp_ext.tcp_lost_retransmit
read tcp_ext_tcp_reno_failures m = m.tcp_ext.tcp_reno_failures
read tcp_ext_tcp_sack_failures m = m.tcp_ext.tcp_sack_failures
read tcp_ext_tcp_loss_failures m = m.tcp_ext.tcp_loss_failures
read tcp_ext_tcp_fast_retrans m = m.tcp_ext.tcp_fast_retrans
read tcp_ext_tcp_slow_start_retrans m = m.tcp_ext.tcp_slow_start_retrans
read tcp_ext_tcp_timeouts m = m.tcp_ext.tcp_timeouts
read tcp_ext_tcp_loss_probes m = m.tcp_ext.tcp_loss_probes
read tcp_ext_tcp_loss_probe_recovery m = m.tcp_ext.tcp_loss_probe_recovery
read tcp_ext_tcp_reno_recovery_fail m = m.tcp_ext.tcp_reno_recovery_fail
read tcp_ext_tcp_sack_recovery_fail m = m.tcp_ext.tcp_sack_recovery_fail
read tcp_ext_tcp_rcv_collapsed m = m.tcp_ext.tcp_rcv_collapsed
read tcp_ext_tcpdsack_old_sent m = m.tcp_ext.tcpdsack_old_sent
read tcp_ext_tcpdsack_ofo_sent m = m.tcp_ext.tcpdsack_ofo_sent
read tcp_ext_tcpdsack_recv m = m.tcp_ext.tcpdsack_recv
read tcp_ext_tcpdsack_ofo_recv m = m.tcp_ext.tcpdsack_ofo_recv
read tcp_ext_tcp_abort_on_data m = m.tcp_ext.tcp_abort_on_data
read tcp_ext_tcp_abort_on_close m = m.tcp_ext.tcp_abort_on_close
read tcp_ext_tcp_defer_accept_drop m = m.tcp_ext.tcp_defer_accept_drop
read tcp_ext_ip_reverse_path_filter m = m.tcp_ext.ip_reverse_path_filter
read tcp_ext_tcp_time_wait_overflow m = m.tcp_ext.tcp_time_wait_overflow
read tcp_ext_tcp_req_q_full_do_cookies m = m.tcp_ext.tcp_req_q_full_do_cookies
read tcp_ext_tcp_req_q_full_drop m = m.tcp_ext.tcp_req_q_full_drop
read tcp_ext_tcp_retrans_fail m = m.tcp_ext.tcp_retrans_fail
read tcp_ext_tcp_rcv_coalesce m = m.tcp_ext.tcp_rcv_coalesce
read tcp_ext_tcp_rcv_q_drop m = m.tcp_ext.tcp_rcv_q_drop
read tcp_ext_tcpofo_queue m = m.tcp_ext.tcpofo_queue
read tcp_ext_tcpofo_drop m = m.tcp_ext.tcpofo_drop
read tcp_ext_tcpofo_merge m = m.tcp_ext.tcpofo_merge
read tcp_ext_tcp_challenge_ack m = m.tcp_ext.tcp_challenge_ack
read tcp_ext_tcpsyn_challenge m = m.tcp_ext.tcpsyn_challenge
read tcp_ext_tcp_fast_open_active m = m.tcp_ext.tcp_fast_open_active
read tcp_ext_tcp_fast_open_active_fail m = m.tcp_ext.tcp_fast_open_active_fail
read tcp_ext_tcp_fast_open_passive m = m.tcp_ext.tcp_fast_open_passive
read tcp_ext_tcp_fast_open_passive_fail m = m.tcp_ext.tcp_fast_open_passive_fail
read tcp_ext_tcp_fast_open_listen_overflow m = m.tcp_ext.tcp_fast_open_listen_overflow
read tcp_ext_tcp_fast_open_cookie_reqd m = m.tcp_ext.tcp_fast_open_cookie_reqd
read tcp_ext_tcp_fast_open_blackhole m = m.tcp_ext.tcp_fast_open_blackhole
read tcp_ext_tcp_spurious_rtx_host_queues m = m.tcp_ext.tcp_spurious_rtx_host_queues
read tcp_ext_busy_poll_rx_packets m = m.tcp_ext.busy_poll_rx_packets
read tcp_ext_tcp_auto_corking m = m.tcp_ext.tcp_auto_corking
read tcp_ext_tcp_from_zero_window_adv m = m.tcp_ext.tcp_from_zero_window_adv
read tcp_ext_tcp_to_zero_window_adv m = m.tcp_ext.tcp_to_zero_window_adv
read tcp_ext_tcp_want_zero_window_adv m = m.tcp_ext.tcp_want_zero_window_adv
read tcp_ext_tcp_syn_retrans m = m.tcp_ext.tcp_syn_retrans
read tcp_ext_tcp_orig_data_sent m = m.tcp_ext.tcp_orig_data_sent
read tcp_ext_tcp_hystart_train_detect m = m.tcp_ext.tcp_hystart_train_detect
read tcp_ext_tcp_hystart_train_cwnd m = m.tcp_ext.tcp_hystart_train_cwnd
read tcp_ext_tcp_hystart_delay_detect m = m.tcp_ext.tcp_hystart_delay_detect
read tcp_ext_tcp_hystart_delay_cwnd m = m.tcp_ext.tcp_hystart_delay_cwnd
read tcp_ext_tcpack_skipped_syn_recv m = m.tcp_ext.tcpack_skipped_syn_recv
read tcp_ext_tcpack_skipped_paws m = m.tcp_ext.tcpack_skipped_paws
read tcp_ext_tcpack_skipped_seq m = m.tcp_ext.tcpack_skipped_seq
read tcp_ext_tcpack_skipped_fin_wait2 m = m.tcp_ext.tcpack_skipped_fin_wait2
read tcp_ext_tcpack_skipped_time_wait m = m.tcp_ext.tcpack_skipped_time_wait
read tcp_ext_tcpack_skipped_challenge m = m.tcp_ext.tcpack_skipped_challenge
read tcp_ext_tcp_win_probe m = m.tcp_ext.tcp_win_probe
read tcp_ext_tcp_keep_alive m = m.tcp_ext.tcp_keep_alive
read tcp_ext_tcpmtup_fail m = m.tcp_ext.tcpmtup_fail
read tcp_ext_tcpmtup_success m = m.tcp_ext.tcpmtup_success
read tcp_ext_tcp_wqueue_too_big m = m.tcp_ext.tcp_wqueue_too_big
read ip_ext_in_no_routes m = m.ip_ext.in_no_routes
read ip_ext_in_truncated_pkts m = m.ip_ext.in_truncated_pkts
read ip_ext_in_mcast_pkts m = m.ip_ext.in_mcast_pkts
read ip_ext_out_mcast_pkts m = m.ip_ext.out_mcast_pkts
read ip_ext_in_bcast_pkts m = m.ip_ext.in_bcast_pkts
read ip_ext_out_bcast_pkts m = m.ip_ext.out_bcast_pkts
read ip_ext_in_octets m = m.ip_ext.in_octets
read ip_ext_out_octets m = m.ip_ext.out_octets
read ip_ext_in_mcast_octets m = m.ip_ext.in_mcast_octets
read ip_ext_out_mcast_octets m = m.ip_ext.out_mcast_octets
read ip_ext_in_bcast_octets m = m.ip_ext.in_bcast_octets
read ip_ext_out_bcast_octets m = m.ip_ext.out_bcast_octets
read ip_ext_in_csum_errors m = m.ip_ext.in_csum_errors
read ip_ext_in_no_ect_pkts m = m.ip_ext.in_no_ect_pkts
read ip_ext_in_ect1_pkts m = m.ip_ext.in_ect1_pkts
read ip_ext_in_ect0_pkts m = m.ip_ext.in_ect0_pkts
read ip_ext_in_ce_pkts m = m.ip_ext.in_ce_pkts
read ip_ext_reasm_overlaps m = m.ip_ext.reasm_overlaps

pub read-zero_proc_netstat : {F : Type 0} (k : Key) → read {F = F} k zero_proc_netstat ≡ none
unfolding read
read-zero_proc_netstat tcp_ext_syncookies_sent = refl
read-zero_proc_netstat _ = refl

-- The keys in the order of the cases, the place of each, and the fields in that order.
keys : List Key
unfolding members
keys = members cases

slot : Key → ℕ
unfolding position
slot key = position same_pair (label_of key) label_of keys

slots : {F : Type 0} → ProcNetstat F → List (Option F)
unfolding keys
slots m = map (λ key. read key m) keys

read-slots :
    {F : Type 0} (k : Key) (m : ProcNetstat F) (d : Option F)
    → read k m ≡ get_or (slots m) (slot k) d
unfolding read slots slot label_of bytes_eq
read-slots tcp_ext_syncookies_sent m d = refl
read-slots _ m d = refl

slots-set_key :
    {F : Type 0} (g : Key) (value : F) (m : ProcNetstat F)
    → slots (set_key g value m) ≡ put (slots m) (slot g) (some value)
unfolding set_key read slots slot put label_of bytes_eq
slots-set_key tcp_ext_syncookies_sent value m = refl
slots-set_key _ value m = refl

keys-slot : (k d : Key) → get_or keys (slot k) d ≡ k
unfolding keys slot label_of bytes_eq
keys-slot tcp_ext_syncookies_sent d = refl
keys-slot _ d = refl

slot-bound : {F : Type 0} (k : Key) (m : ProcNetstat F) → ltb (slot k) (length (slots m)) ≡ true
unfolding slots slot label_of bytes_eq
slot-bound tcp_ext_syncookies_sent m = refl
slot-bound _ m = refl

cases-finds : (k : Key) → find_in cases (label_of k) ≡ some k
unfolding label_of find_case bytes_eq
cases-finds tcp_ext_syncookies_sent = refl
cases-finds _ = refl

cases-found : check_in (λ label key. same_pair label (label_of key)) cases ≡ true
unfolding label_of bytes_eq check_in
cases-found = refl

pub set_key-Switch :
    {F : Type 0} → Switch same_pair (find_in cases) label_of (set_key {F = F}) read (λ k v. some v)
set_key-Switch = Numbered-Switch {slot = slot} {keys = keys} {slots = slots} (record {
  same_iff = same_pair_iff;
  found = λ l k e.
      (same_pair_iff l (label_of k)).0
        (found_in (λ label key. same_pair label (label_of key)) cases l cases-found e);
  finds = cases-finds;
  keys-slot = keys-slot;
  slot-bound = slot-bound;
  read-slots = read-slots;
  slots-set = slots-set_key;
})
