-- ===== src/Netstat/Keys/Cases.antt =====
-- proc_netstat.go: the switches: their labels, and what each case sets.
use procfs.Base.{List, [], ◌∷◌, Bytes, some, codes}
use procfs.Netstat.Types.{ProcNetstat}

-- A case: its protocol and its name.
pub data Key : Type 0 where
  tcp_ext_syncookies_sent tcp_ext_syncookies_recv tcp_ext_syncookies_failed tcp_ext_embryonic_rsts
        tcp_ext_prune_called tcp_ext_rcv_pruned tcp_ext_ofo_pruned tcp_ext_out_of_window_icmps
        tcp_ext_lock_dropped_icmps tcp_ext_arp_filter tcp_ext_tw tcp_ext_tw_recycled
        tcp_ext_tw_killed tcp_ext_paws_active tcp_ext_paws_estab tcp_ext_delayed_acks
        tcp_ext_delayed_ack_locked tcp_ext_delayed_ack_lost tcp_ext_listen_overflows
        tcp_ext_listen_drops tcp_ext_tcphp_hits tcp_ext_tcp_pure_acks tcp_ext_tcphp_acks
        tcp_ext_tcp_reno_recovery tcp_ext_tcp_sack_recovery tcp_ext_tcpsack_reneging
        tcp_ext_tcpsack_reorder tcp_ext_tcp_reno_reorder tcp_ext_tcpts_reorder tcp_ext_tcp_full_undo
        tcp_ext_tcp_partial_undo tcp_ext_tcpdsack_undo tcp_ext_tcp_loss_undo
        tcp_ext_tcp_lost_retransmit tcp_ext_tcp_reno_failures tcp_ext_tcp_sack_failures
        tcp_ext_tcp_loss_failures tcp_ext_tcp_fast_retrans tcp_ext_tcp_slow_start_retrans
        tcp_ext_tcp_timeouts tcp_ext_tcp_loss_probes tcp_ext_tcp_loss_probe_recovery
        tcp_ext_tcp_reno_recovery_fail tcp_ext_tcp_sack_recovery_fail tcp_ext_tcp_rcv_collapsed
        tcp_ext_tcpdsack_old_sent tcp_ext_tcpdsack_ofo_sent tcp_ext_tcpdsack_recv
        tcp_ext_tcpdsack_ofo_recv tcp_ext_tcp_abort_on_data tcp_ext_tcp_abort_on_close
        tcp_ext_tcp_defer_accept_drop tcp_ext_ip_reverse_path_filter tcp_ext_tcp_time_wait_overflow
        tcp_ext_tcp_req_q_full_do_cookies tcp_ext_tcp_req_q_full_drop tcp_ext_tcp_retrans_fail
        tcp_ext_tcp_rcv_coalesce tcp_ext_tcp_rcv_q_drop tcp_ext_tcpofo_queue tcp_ext_tcpofo_drop
        tcp_ext_tcpofo_merge tcp_ext_tcp_challenge_ack tcp_ext_tcpsyn_challenge
        tcp_ext_tcp_fast_open_active tcp_ext_tcp_fast_open_active_fail tcp_ext_tcp_fast_open_passive
        tcp_ext_tcp_fast_open_passive_fail tcp_ext_tcp_fast_open_listen_overflow
        tcp_ext_tcp_fast_open_cookie_reqd tcp_ext_tcp_fast_open_blackhole
        tcp_ext_tcp_spurious_rtx_host_queues tcp_ext_busy_poll_rx_packets tcp_ext_tcp_auto_corking
        tcp_ext_tcp_from_zero_window_adv tcp_ext_tcp_to_zero_window_adv
        tcp_ext_tcp_want_zero_window_adv tcp_ext_tcp_syn_retrans tcp_ext_tcp_orig_data_sent
        tcp_ext_tcp_hystart_train_detect tcp_ext_tcp_hystart_train_cwnd
        tcp_ext_tcp_hystart_delay_detect tcp_ext_tcp_hystart_delay_cwnd
        tcp_ext_tcpack_skipped_syn_recv tcp_ext_tcpack_skipped_paws tcp_ext_tcpack_skipped_seq
        tcp_ext_tcpack_skipped_fin_wait2 tcp_ext_tcpack_skipped_time_wait
        tcp_ext_tcpack_skipped_challenge tcp_ext_tcp_win_probe tcp_ext_tcp_keep_alive
        tcp_ext_tcpmtup_fail tcp_ext_tcpmtup_success tcp_ext_tcp_wqueue_too_big ip_ext_in_no_routes
        ip_ext_in_truncated_pkts ip_ext_in_mcast_pkts ip_ext_out_mcast_pkts ip_ext_in_bcast_pkts
        ip_ext_out_bcast_pkts ip_ext_in_octets ip_ext_out_octets ip_ext_in_mcast_octets
        ip_ext_out_mcast_octets ip_ext_in_bcast_octets ip_ext_out_bcast_octets ip_ext_in_csum_errors
        ip_ext_in_no_ect_pkts ip_ext_in_ect1_pkts ip_ext_in_ect0_pkts ip_ext_in_ce_pkts
        ip_ext_reasm_overlaps :
      Key

abbrev tcp_ext_cases : List (Bytes × Key)
tcp_ext_cases =
    (codes "SyncookiesSent", tcp_ext_syncookies_sent)
    ∷ (codes "SyncookiesRecv", tcp_ext_syncookies_recv)
    ∷ (codes "SyncookiesFailed", tcp_ext_syncookies_failed)
    ∷ (codes "EmbryonicRsts", tcp_ext_embryonic_rsts)
    ∷ (codes "PruneCalled", tcp_ext_prune_called)
    ∷ (codes "RcvPruned", tcp_ext_rcv_pruned)
    ∷ (codes "OfoPruned", tcp_ext_ofo_pruned)
    ∷ (codes "OutOfWindowIcmps", tcp_ext_out_of_window_icmps)
    ∷ (codes "LockDroppedIcmps", tcp_ext_lock_dropped_icmps)
    ∷ (codes "ArpFilter", tcp_ext_arp_filter)
    ∷ (codes "TW", tcp_ext_tw)
    ∷ (codes "TWRecycled", tcp_ext_tw_recycled)
    ∷ (codes "TWKilled", tcp_ext_tw_killed)
    ∷ (codes "PAWSActive", tcp_ext_paws_active)
    ∷ (codes "PAWSEstab", tcp_ext_paws_estab)
    ∷ (codes "DelayedACKs", tcp_ext_delayed_acks)
    ∷ (codes "DelayedACKLocked", tcp_ext_delayed_ack_locked)
    ∷ (codes "DelayedACKLost", tcp_ext_delayed_ack_lost)
    ∷ (codes "ListenOverflows", tcp_ext_listen_overflows)
    ∷ (codes "ListenDrops", tcp_ext_listen_drops)
    ∷ (codes "TCPHPHits", tcp_ext_tcphp_hits)
    ∷ (codes "TCPPureAcks", tcp_ext_tcp_pure_acks)
    ∷ (codes "TCPHPAcks", tcp_ext_tcphp_acks)
    ∷ (codes "TCPRenoRecovery", tcp_ext_tcp_reno_recovery)
    ∷ (codes "TCPSackRecovery", tcp_ext_tcp_sack_recovery)
    ∷ (codes "TCPSACKReneging", tcp_ext_tcpsack_reneging)
    ∷ (codes "TCPSACKReorder", tcp_ext_tcpsack_reorder)
    ∷ (codes "TCPRenoReorder", tcp_ext_tcp_reno_reorder)
    ∷ (codes "TCPTSReorder", tcp_ext_tcpts_reorder)
    ∷ (codes "TCPFullUndo", tcp_ext_tcp_full_undo)
    ∷ (codes "TCPPartialUndo", tcp_ext_tcp_partial_undo)
    ∷ (codes "TCPDSACKUndo", tcp_ext_tcpdsack_undo)
    ∷ (codes "TCPLossUndo", tcp_ext_tcp_loss_undo)
    ∷ (codes "TCPLostRetransmit", tcp_ext_tcp_lost_retransmit)
    ∷ (codes "TCPRenoFailures", tcp_ext_tcp_reno_failures)
    ∷ (codes "TCPSackFailures", tcp_ext_tcp_sack_failures)
    ∷ (codes "TCPLossFailures", tcp_ext_tcp_loss_failures)
    ∷ (codes "TCPFastRetrans", tcp_ext_tcp_fast_retrans)
    ∷ (codes "TCPSlowStartRetrans", tcp_ext_tcp_slow_start_retrans)
    ∷ (codes "TCPTimeouts", tcp_ext_tcp_timeouts)
    ∷ (codes "TCPLossProbes", tcp_ext_tcp_loss_probes)
    ∷ (codes "TCPLossProbeRecovery", tcp_ext_tcp_loss_probe_recovery)
    ∷ (codes "TCPRenoRecoveryFail", tcp_ext_tcp_reno_recovery_fail)
    ∷ (codes "TCPSackRecoveryFail", tcp_ext_tcp_sack_recovery_fail)
    ∷ (codes "TCPRcvCollapsed", tcp_ext_tcp_rcv_collapsed)
    ∷ (codes "TCPDSACKOldSent", tcp_ext_tcpdsack_old_sent)
    ∷ (codes "TCPDSACKOfoSent", tcp_ext_tcpdsack_ofo_sent)
    ∷ (codes "TCPDSACKRecv", tcp_ext_tcpdsack_recv)
    ∷ (codes "TCPDSACKOfoRecv", tcp_ext_tcpdsack_ofo_recv)
    ∷ (codes "TCPAbortOnData", tcp_ext_tcp_abort_on_data)
    ∷ (codes "TCPAbortOnClose", tcp_ext_tcp_abort_on_close)
    ∷ (codes "TCPDeferAcceptDrop", tcp_ext_tcp_defer_accept_drop)
    ∷ (codes "IPReversePathFilter", tcp_ext_ip_reverse_path_filter)
    ∷ (codes "TCPTimeWaitOverflow", tcp_ext_tcp_time_wait_overflow)
    ∷ (codes "TCPReqQFullDoCookies", tcp_ext_tcp_req_q_full_do_cookies)
    ∷ (codes "TCPReqQFullDrop", tcp_ext_tcp_req_q_full_drop)
    ∷ (codes "TCPRetransFail", tcp_ext_tcp_retrans_fail)
    ∷ (codes "TCPRcvCoalesce", tcp_ext_tcp_rcv_coalesce)
    ∷ (codes "TCPRcvQDrop", tcp_ext_tcp_rcv_q_drop)
    ∷ (codes "TCPOFOQueue", tcp_ext_tcpofo_queue)
    ∷ (codes "TCPOFODrop", tcp_ext_tcpofo_drop)
    ∷ (codes "TCPOFOMerge", tcp_ext_tcpofo_merge)
    ∷ (codes "TCPChallengeACK", tcp_ext_tcp_challenge_ack)
    ∷ (codes "TCPSYNChallenge", tcp_ext_tcpsyn_challenge)
    ∷ (codes "TCPFastOpenActive", tcp_ext_tcp_fast_open_active)
    ∷ (codes "TCPFastOpenActiveFail", tcp_ext_tcp_fast_open_active_fail)
    ∷ (codes "TCPFastOpenPassive", tcp_ext_tcp_fast_open_passive)
    ∷ (codes "TCPFastOpenPassiveFail", tcp_ext_tcp_fast_open_passive_fail)
    ∷ (codes "TCPFastOpenListenOverflow", tcp_ext_tcp_fast_open_listen_overflow)
    ∷ (codes "TCPFastOpenCookieReqd", tcp_ext_tcp_fast_open_cookie_reqd)
    ∷ (codes "TCPFastOpenBlackhole", tcp_ext_tcp_fast_open_blackhole)
    ∷ (codes "TCPSpuriousRtxHostQueues", tcp_ext_tcp_spurious_rtx_host_queues)
    ∷ (codes "BusyPollRxPackets", tcp_ext_busy_poll_rx_packets)
    ∷ (codes "TCPAutoCorking", tcp_ext_tcp_auto_corking)
    ∷ (codes "TCPFromZeroWindowAdv", tcp_ext_tcp_from_zero_window_adv)
    ∷ (codes "TCPToZeroWindowAdv", tcp_ext_tcp_to_zero_window_adv)
    ∷ (codes "TCPWantZeroWindowAdv", tcp_ext_tcp_want_zero_window_adv)
    ∷ (codes "TCPSynRetrans", tcp_ext_tcp_syn_retrans)
    ∷ (codes "TCPOrigDataSent", tcp_ext_tcp_orig_data_sent)
    ∷ (codes "TCPHystartTrainDetect", tcp_ext_tcp_hystart_train_detect)
    ∷ (codes "TCPHystartTrainCwnd", tcp_ext_tcp_hystart_train_cwnd)
    ∷ (codes "TCPHystartDelayDetect", tcp_ext_tcp_hystart_delay_detect)
    ∷ (codes "TCPHystartDelayCwnd", tcp_ext_tcp_hystart_delay_cwnd)
    ∷ (codes "TCPACKSkippedSynRecv", tcp_ext_tcpack_skipped_syn_recv)
    ∷ (codes "TCPACKSkippedPAWS", tcp_ext_tcpack_skipped_paws)
    ∷ (codes "TCPACKSkippedSeq", tcp_ext_tcpack_skipped_seq)
    ∷ (codes "TCPACKSkippedFinWait2", tcp_ext_tcpack_skipped_fin_wait2)
    ∷ (codes "TCPACKSkippedTimeWait", tcp_ext_tcpack_skipped_time_wait)
    ∷ (codes "TCPACKSkippedChallenge", tcp_ext_tcpack_skipped_challenge)
    ∷ (codes "TCPWinProbe", tcp_ext_tcp_win_probe)
    ∷ (codes "TCPKeepAlive", tcp_ext_tcp_keep_alive)
    ∷ (codes "TCPMTUPFail", tcp_ext_tcpmtup_fail)
    ∷ (codes "TCPMTUPSuccess", tcp_ext_tcpmtup_success)
    ∷ (codes "TCPWqueueTooBig", tcp_ext_tcp_wqueue_too_big)
    ∷ []

abbrev ip_ext_cases : List (Bytes × Key)
ip_ext_cases =
    (codes "InNoRoutes", ip_ext_in_no_routes)
    ∷ (codes "InTruncatedPkts", ip_ext_in_truncated_pkts)
    ∷ (codes "InMcastPkts", ip_ext_in_mcast_pkts)
    ∷ (codes "OutMcastPkts", ip_ext_out_mcast_pkts)
    ∷ (codes "InBcastPkts", ip_ext_in_bcast_pkts)
    ∷ (codes "OutBcastPkts", ip_ext_out_bcast_pkts)
    ∷ (codes "InOctets", ip_ext_in_octets)
    ∷ (codes "OutOctets", ip_ext_out_octets)
    ∷ (codes "InMcastOctets", ip_ext_in_mcast_octets)
    ∷ (codes "OutMcastOctets", ip_ext_out_mcast_octets)
    ∷ (codes "InBcastOctets", ip_ext_in_bcast_octets)
    ∷ (codes "OutBcastOctets", ip_ext_out_bcast_octets)
    ∷ (codes "InCsumErrors", ip_ext_in_csum_errors)
    ∷ (codes "InNoECTPkts", ip_ext_in_no_ect_pkts)
    ∷ (codes "InECT1Pkts", ip_ext_in_ect1_pkts)
    ∷ (codes "InECT0Pkts", ip_ext_in_ect0_pkts)
    ∷ (codes "InCEPkts", ip_ext_in_ce_pkts)
    ∷ (codes "ReasmOverlaps", ip_ext_reasm_overlaps)
    ∷ []

-- The labels, in the order of the cases.
abbrev pub cases : List (Bytes × List (Bytes × Key))
cases = (codes "TcpExt", tcp_ext_cases) ∷ (codes "IpExt", ip_ext_cases) ∷ []

-- The body of a case.
unfoldable pub set_key : {F : Type 0} → Key → F → ProcNetstat F → ProcNetstat F
set_key tcp_ext_syncookies_sent value m = record m {
  tcp_ext = record m.tcp_ext { syncookies_sent = some value };
}
set_key tcp_ext_syncookies_recv value m = record m {
  tcp_ext = record m.tcp_ext { syncookies_recv = some value };
}
set_key tcp_ext_syncookies_failed value m = record m {
  tcp_ext = record m.tcp_ext { syncookies_failed = some value };
}
set_key tcp_ext_embryonic_rsts value m = record m {
  tcp_ext = record m.tcp_ext { embryonic_rsts = some value };
}
set_key tcp_ext_prune_called value m = record m {
  tcp_ext = record m.tcp_ext { prune_called = some value };
}
set_key tcp_ext_rcv_pruned value m = record m {
  tcp_ext = record m.tcp_ext { rcv_pruned = some value };
}
set_key tcp_ext_ofo_pruned value m = record m {
  tcp_ext = record m.tcp_ext { ofo_pruned = some value };
}
set_key tcp_ext_out_of_window_icmps value m = record m {
  tcp_ext = record m.tcp_ext { out_of_window_icmps = some value };
}
set_key tcp_ext_lock_dropped_icmps value m = record m {
  tcp_ext = record m.tcp_ext { lock_dropped_icmps = some value };
}
set_key tcp_ext_arp_filter value m = record m {
  tcp_ext = record m.tcp_ext { arp_filter = some value };
}
set_key tcp_ext_tw value m = record m { tcp_ext = record m.tcp_ext { tw = some value } }
set_key tcp_ext_tw_recycled value m = record m {
  tcp_ext = record m.tcp_ext { tw_recycled = some value };
}
set_key tcp_ext_tw_killed value m = record m {
  tcp_ext = record m.tcp_ext { tw_killed = some value };
}
set_key tcp_ext_paws_active value m = record m {
  tcp_ext = record m.tcp_ext { paws_active = some value };
}
set_key tcp_ext_paws_estab value m = record m {
  tcp_ext = record m.tcp_ext { paws_estab = some value };
}
set_key tcp_ext_delayed_acks value m = record m {
  tcp_ext = record m.tcp_ext { delayed_acks = some value };
}
set_key tcp_ext_delayed_ack_locked value m = record m {
  tcp_ext = record m.tcp_ext { delayed_ack_locked = some value };
}
set_key tcp_ext_delayed_ack_lost value m = record m {
  tcp_ext = record m.tcp_ext { delayed_ack_lost = some value };
}
set_key tcp_ext_listen_overflows value m = record m {
  tcp_ext = record m.tcp_ext { listen_overflows = some value };
}
set_key tcp_ext_listen_drops value m = record m {
  tcp_ext = record m.tcp_ext { listen_drops = some value };
}
set_key tcp_ext_tcphp_hits value m = record m {
  tcp_ext = record m.tcp_ext { tcphp_hits = some value };
}
set_key tcp_ext_tcp_pure_acks value m = record m {
  tcp_ext = record m.tcp_ext { tcp_pure_acks = some value };
}
set_key tcp_ext_tcphp_acks value m = record m {
  tcp_ext = record m.tcp_ext { tcphp_acks = some value };
}
set_key tcp_ext_tcp_reno_recovery value m = record m {
  tcp_ext = record m.tcp_ext { tcp_reno_recovery = some value };
}
set_key tcp_ext_tcp_sack_recovery value m = record m {
  tcp_ext = record m.tcp_ext { tcp_sack_recovery = some value };
}
set_key tcp_ext_tcpsack_reneging value m = record m {
  tcp_ext = record m.tcp_ext { tcpsack_reneging = some value };
}
set_key tcp_ext_tcpsack_reorder value m = record m {
  tcp_ext = record m.tcp_ext { tcpsack_reorder = some value };
}
set_key tcp_ext_tcp_reno_reorder value m = record m {
  tcp_ext = record m.tcp_ext { tcp_reno_reorder = some value };
}
set_key tcp_ext_tcpts_reorder value m = record m {
  tcp_ext = record m.tcp_ext { tcpts_reorder = some value };
}
set_key tcp_ext_tcp_full_undo value m = record m {
  tcp_ext = record m.tcp_ext { tcp_full_undo = some value };
}
set_key tcp_ext_tcp_partial_undo value m = record m {
  tcp_ext = record m.tcp_ext { tcp_partial_undo = some value };
}
set_key tcp_ext_tcpdsack_undo value m = record m {
  tcp_ext = record m.tcp_ext { tcpdsack_undo = some value };
}
set_key tcp_ext_tcp_loss_undo value m = record m {
  tcp_ext = record m.tcp_ext { tcp_loss_undo = some value };
}
set_key tcp_ext_tcp_lost_retransmit value m = record m {
  tcp_ext = record m.tcp_ext { tcp_lost_retransmit = some value };
}
set_key tcp_ext_tcp_reno_failures value m = record m {
  tcp_ext = record m.tcp_ext { tcp_reno_failures = some value };
}
set_key tcp_ext_tcp_sack_failures value m = record m {
  tcp_ext = record m.tcp_ext { tcp_sack_failures = some value };
}
set_key tcp_ext_tcp_loss_failures value m = record m {
  tcp_ext = record m.tcp_ext { tcp_loss_failures = some value };
}
set_key tcp_ext_tcp_fast_retrans value m = record m {
  tcp_ext = record m.tcp_ext { tcp_fast_retrans = some value };
}
set_key tcp_ext_tcp_slow_start_retrans value m = record m {
  tcp_ext = record m.tcp_ext { tcp_slow_start_retrans = some value };
}
set_key tcp_ext_tcp_timeouts value m = record m {
  tcp_ext = record m.tcp_ext { tcp_timeouts = some value };
}
set_key tcp_ext_tcp_loss_probes value m = record m {
  tcp_ext = record m.tcp_ext { tcp_loss_probes = some value };
}
set_key tcp_ext_tcp_loss_probe_recovery value m = record m {
  tcp_ext = record m.tcp_ext { tcp_loss_probe_recovery = some value };
}
set_key tcp_ext_tcp_reno_recovery_fail value m = record m {
  tcp_ext = record m.tcp_ext { tcp_reno_recovery_fail = some value };
}
set_key tcp_ext_tcp_sack_recovery_fail value m = record m {
  tcp_ext = record m.tcp_ext { tcp_sack_recovery_fail = some value };
}
set_key tcp_ext_tcp_rcv_collapsed value m = record m {
  tcp_ext = record m.tcp_ext { tcp_rcv_collapsed = some value };
}
set_key tcp_ext_tcpdsack_old_sent value m = record m {
  tcp_ext = record m.tcp_ext { tcpdsack_old_sent = some value };
}
set_key tcp_ext_tcpdsack_ofo_sent value m = record m {
  tcp_ext = record m.tcp_ext { tcpdsack_ofo_sent = some value };
}
set_key tcp_ext_tcpdsack_recv value m = record m {
  tcp_ext = record m.tcp_ext { tcpdsack_recv = some value };
}
set_key tcp_ext_tcpdsack_ofo_recv value m = record m {
  tcp_ext = record m.tcp_ext { tcpdsack_ofo_recv = some value };
}
set_key tcp_ext_tcp_abort_on_data value m = record m {
  tcp_ext = record m.tcp_ext { tcp_abort_on_data = some value };
}
set_key tcp_ext_tcp_abort_on_close value m = record m {
  tcp_ext = record m.tcp_ext { tcp_abort_on_close = some value };
}
set_key tcp_ext_tcp_defer_accept_drop value m = record m {
  tcp_ext = record m.tcp_ext { tcp_defer_accept_drop = some value };
}
set_key tcp_ext_ip_reverse_path_filter value m = record m {
  tcp_ext = record m.tcp_ext { ip_reverse_path_filter = some value };
}
set_key tcp_ext_tcp_time_wait_overflow value m = record m {
  tcp_ext = record m.tcp_ext { tcp_time_wait_overflow = some value };
}
set_key tcp_ext_tcp_req_q_full_do_cookies value m = record m {
  tcp_ext = record m.tcp_ext { tcp_req_q_full_do_cookies = some value };
}
set_key tcp_ext_tcp_req_q_full_drop value m = record m {
  tcp_ext = record m.tcp_ext { tcp_req_q_full_drop = some value };
}
set_key tcp_ext_tcp_retrans_fail value m = record m {
  tcp_ext = record m.tcp_ext { tcp_retrans_fail = some value };
}
set_key tcp_ext_tcp_rcv_coalesce value m = record m {
  tcp_ext = record m.tcp_ext { tcp_rcv_coalesce = some value };
}
set_key tcp_ext_tcp_rcv_q_drop value m = record m {
  tcp_ext = record m.tcp_ext { tcp_rcv_q_drop = some value };
}
set_key tcp_ext_tcpofo_queue value m = record m {
  tcp_ext = record m.tcp_ext { tcpofo_queue = some value };
}
set_key tcp_ext_tcpofo_drop value m = record m {
  tcp_ext = record m.tcp_ext { tcpofo_drop = some value };
}
set_key tcp_ext_tcpofo_merge value m = record m {
  tcp_ext = record m.tcp_ext { tcpofo_merge = some value };
}
set_key tcp_ext_tcp_challenge_ack value m = record m {
  tcp_ext = record m.tcp_ext { tcp_challenge_ack = some value };
}
set_key tcp_ext_tcpsyn_challenge value m = record m {
  tcp_ext = record m.tcp_ext { tcpsyn_challenge = some value };
}
set_key tcp_ext_tcp_fast_open_active value m = record m {
  tcp_ext = record m.tcp_ext { tcp_fast_open_active = some value };
}
set_key tcp_ext_tcp_fast_open_active_fail value m = record m {
  tcp_ext = record m.tcp_ext { tcp_fast_open_active_fail = some value };
}
set_key tcp_ext_tcp_fast_open_passive value m = record m {
  tcp_ext = record m.tcp_ext { tcp_fast_open_passive = some value };
}
set_key tcp_ext_tcp_fast_open_passive_fail value m = record m {
  tcp_ext = record m.tcp_ext { tcp_fast_open_passive_fail = some value };
}
set_key tcp_ext_tcp_fast_open_listen_overflow value m = record m {
  tcp_ext = record m.tcp_ext { tcp_fast_open_listen_overflow = some value };
}
set_key tcp_ext_tcp_fast_open_cookie_reqd value m = record m {
  tcp_ext = record m.tcp_ext { tcp_fast_open_cookie_reqd = some value };
}
set_key tcp_ext_tcp_fast_open_blackhole value m = record m {
  tcp_ext = record m.tcp_ext { tcp_fast_open_blackhole = some value };
}
set_key tcp_ext_tcp_spurious_rtx_host_queues value m = record m {
  tcp_ext = record m.tcp_ext { tcp_spurious_rtx_host_queues = some value };
}
set_key tcp_ext_busy_poll_rx_packets value m = record m {
  tcp_ext = record m.tcp_ext { busy_poll_rx_packets = some value };
}
set_key tcp_ext_tcp_auto_corking value m = record m {
  tcp_ext = record m.tcp_ext { tcp_auto_corking = some value };
}
set_key tcp_ext_tcp_from_zero_window_adv value m = record m {
  tcp_ext = record m.tcp_ext { tcp_from_zero_window_adv = some value };
}
set_key tcp_ext_tcp_to_zero_window_adv value m = record m {
  tcp_ext = record m.tcp_ext { tcp_to_zero_window_adv = some value };
}
set_key tcp_ext_tcp_want_zero_window_adv value m = record m {
  tcp_ext = record m.tcp_ext { tcp_want_zero_window_adv = some value };
}
set_key tcp_ext_tcp_syn_retrans value m = record m {
  tcp_ext = record m.tcp_ext { tcp_syn_retrans = some value };
}
set_key tcp_ext_tcp_orig_data_sent value m = record m {
  tcp_ext = record m.tcp_ext { tcp_orig_data_sent = some value };
}
set_key tcp_ext_tcp_hystart_train_detect value m = record m {
  tcp_ext = record m.tcp_ext { tcp_hystart_train_detect = some value };
}
set_key tcp_ext_tcp_hystart_train_cwnd value m = record m {
  tcp_ext = record m.tcp_ext { tcp_hystart_train_cwnd = some value };
}
set_key tcp_ext_tcp_hystart_delay_detect value m = record m {
  tcp_ext = record m.tcp_ext { tcp_hystart_delay_detect = some value };
}
set_key tcp_ext_tcp_hystart_delay_cwnd value m = record m {
  tcp_ext = record m.tcp_ext { tcp_hystart_delay_cwnd = some value };
}
set_key tcp_ext_tcpack_skipped_syn_recv value m = record m {
  tcp_ext = record m.tcp_ext { tcpack_skipped_syn_recv = some value };
}
set_key tcp_ext_tcpack_skipped_paws value m = record m {
  tcp_ext = record m.tcp_ext { tcpack_skipped_paws = some value };
}
set_key tcp_ext_tcpack_skipped_seq value m = record m {
  tcp_ext = record m.tcp_ext { tcpack_skipped_seq = some value };
}
set_key tcp_ext_tcpack_skipped_fin_wait2 value m = record m {
  tcp_ext = record m.tcp_ext { tcpack_skipped_fin_wait2 = some value };
}
set_key tcp_ext_tcpack_skipped_time_wait value m = record m {
  tcp_ext = record m.tcp_ext { tcpack_skipped_time_wait = some value };
}
set_key tcp_ext_tcpack_skipped_challenge value m = record m {
  tcp_ext = record m.tcp_ext { tcpack_skipped_challenge = some value };
}
set_key tcp_ext_tcp_win_probe value m = record m {
  tcp_ext = record m.tcp_ext { tcp_win_probe = some value };
}
set_key tcp_ext_tcp_keep_alive value m = record m {
  tcp_ext = record m.tcp_ext { tcp_keep_alive = some value };
}
set_key tcp_ext_tcpmtup_fail value m = record m {
  tcp_ext = record m.tcp_ext { tcpmtup_fail = some value };
}
set_key tcp_ext_tcpmtup_success value m = record m {
  tcp_ext = record m.tcp_ext { tcpmtup_success = some value };
}
set_key tcp_ext_tcp_wqueue_too_big value m = record m {
  tcp_ext = record m.tcp_ext { tcp_wqueue_too_big = some value };
}
set_key ip_ext_in_no_routes value m = record m {
  ip_ext = record m.ip_ext { in_no_routes = some value };
}
set_key ip_ext_in_truncated_pkts value m = record m {
  ip_ext = record m.ip_ext { in_truncated_pkts = some value };
}
set_key ip_ext_in_mcast_pkts value m = record m {
  ip_ext = record m.ip_ext { in_mcast_pkts = some value };
}
set_key ip_ext_out_mcast_pkts value m = record m {
  ip_ext = record m.ip_ext { out_mcast_pkts = some value };
}
set_key ip_ext_in_bcast_pkts value m = record m {
  ip_ext = record m.ip_ext { in_bcast_pkts = some value };
}
set_key ip_ext_out_bcast_pkts value m = record m {
  ip_ext = record m.ip_ext { out_bcast_pkts = some value };
}
set_key ip_ext_in_octets value m = record m { ip_ext = record m.ip_ext { in_octets = some value } }
set_key ip_ext_out_octets value m = record m {
  ip_ext = record m.ip_ext { out_octets = some value };
}
set_key ip_ext_in_mcast_octets value m = record m {
  ip_ext = record m.ip_ext { in_mcast_octets = some value };
}
set_key ip_ext_out_mcast_octets value m = record m {
  ip_ext = record m.ip_ext { out_mcast_octets = some value };
}
set_key ip_ext_in_bcast_octets value m = record m {
  ip_ext = record m.ip_ext { in_bcast_octets = some value };
}
set_key ip_ext_out_bcast_octets value m = record m {
  ip_ext = record m.ip_ext { out_bcast_octets = some value };
}
set_key ip_ext_in_csum_errors value m = record m {
  ip_ext = record m.ip_ext { in_csum_errors = some value };
}
set_key ip_ext_in_no_ect_pkts value m = record m {
  ip_ext = record m.ip_ext { in_no_ect_pkts = some value };
}
set_key ip_ext_in_ect1_pkts value m = record m {
  ip_ext = record m.ip_ext { in_ect1_pkts = some value };
}
set_key ip_ext_in_ect0_pkts value m = record m {
  ip_ext = record m.ip_ext { in_ect0_pkts = some value };
}
set_key ip_ext_in_ce_pkts value m = record m {
  ip_ext = record m.ip_ext { in_ce_pkts = some value };
}
set_key ip_ext_reasm_overlaps value m = record m {
  ip_ext = record m.ip_ext { reasm_overlaps = some value };
}
