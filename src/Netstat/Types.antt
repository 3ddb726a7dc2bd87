-- ===== src/Netstat/Types.antt =====
-- proc_netstat.go: the records, and the cases of the switches over a protocol and a name.
use procfs.Base.{ℤ, pos, Option, none}

pub record TcpExt (F : Type 0) : Type 0 where
  pub syncookies_sent : Option F
  pub syncookies_recv : Option F
  pub syncookies_failed : Option F
  pub embryonic_rsts : Option F
  pub prune_called : Option F
  pub rcv_pruned : Option F
  pub ofo_pruned : Option F
  pub out_of_window_icmps : Option F
  pub lock_dropped_icmps : Option F
  pub arp_filter : Option F
  pub tw : Option F
  pub tw_recycled : Option F
  pub tw_killed : Option F
  pub paws_active : Option F
  pub paws_estab : Option F
  pub delayed_acks : Option F
  pub delayed_ack_locked : Option F
  pub delayed_ack_lost : Option F
  pub listen_overflows : Option F
  pub listen_drops : Option F
  pub tcphp_hits : Option F
  pub tcp_pure_acks : Option F
  pub tcphp_acks : Option F
  pub tcp_reno_recovery : Option F
  pub tcp_sack_recovery : Option F
  pub tcpsack_reneging : Option F
  pub tcpsack_reorder : Option F
  pub tcp_reno_reorder : Option F
  pub tcpts_reorder : Option F
  pub tcp_full_undo : Option F
  pub tcp_partial_undo : Option F
  pub tcpdsack_undo : Option F
  pub tcp_loss_undo : Option F
  pub tcp_lost_retransmit : Option F
  pub tcp_reno_failures : Option F
  pub tcp_sack_failures : Option F
  pub tcp_loss_failures : Option F
  pub tcp_fast_retrans : Option F
  pub tcp_slow_start_retrans : Option F
  pub tcp_timeouts : Option F
  pub tcp_loss_probes : Option F
  pub tcp_loss_probe_recovery : Option F
  pub tcp_reno_recovery_fail : Option F
  pub tcp_sack_recovery_fail : Option F
  pub tcp_rcv_collapsed : Option F
  pub tcpdsack_old_sent : Option F
  pub tcpdsack_ofo_sent : Option F
  pub tcpdsack_recv : Option F
  pub tcpdsack_ofo_recv : Option F
  pub tcp_abort_on_data : Option F
  pub tcp_abort_on_close : Option F
  pub tcp_abort_on_memory : Option F
  pub tcp_abort_on_timeout : Option F
  pub tcp_abort_on_linger : Option F
  pub tcp_abort_failed : Option F
  pub tcp_memory_pressures : Option F
  pub tcp_memory_pressures_chrono : Option F
  pub tcpsack_discard : Option F
  pub tcpdsack_ignored_old : Option F
  pub tcpdsack_ignored_no_undo : Option F
  pub tcp_spurious_rtos : Option F
  pub tcpmd5_not_found : Option F
  pub tcpmd5_unexpected : Option F
  pub tcpmd5_failure : Option F
  pub tcp_sack_shifted : Option F
  pub tcp_sack_merged : Option F
  pub tcp_sack_shift_fallback : Option F
  pub tcp_backlog_drop : Option F
  pub pf_memalloc_drop : Option F
  pub tcp_min_ttl_drop : Option F
  pub tcp_defer_accept_drop : Option F
  pub ip_reverse_path_filter : Option F
  pub tcp_time_wait_overflow : Option F
  pub tcp_req_q_full_do_cookies : Option F
  pub tcp_req_q_full_drop : Option F
  pub tcp_retrans_fail : Option F
  pub tcp_rcv_coalesce : Option F
  pub tcp_rcv_q_drop : Option F
  pub tcpofo_queue : Option F
  pub tcpofo_drop : Option F
  pub tcpofo_merge : Option F
  pub tcp_challenge_ack : Option F
  pub tcpsyn_challenge : Option F
  pub tcp_fast_open_active : Option F
  pub tcp_fast_open_active_fail : Option F
  pub tcp_fast_open_passive : Option F
  pub tcp_fast_open_passive_fail : Option F
  pub tcp_fast_open_listen_overflow : Option F
  pub tcp_fast_open_cookie_reqd : Option F
  pub tcp_fast_open_blackhole : Option F
  pub tcp_spurious_rtx_host_queues : Option F
  pub busy_poll_rx_packets : Option F
  pub tcp_auto_corking : Option F
  pub tcp_from_zero_window_adv : Option F
  pub tcp_to_zero_window_adv : Option F
  pub tcp_want_zero_window_adv : Option F
  pub tcp_syn_retrans : Option F
  pub tcp_orig_data_sent : Option F
  pub tcp_hystart_train_detect : Option F
  pub tcp_hystart_train_cwnd : Option F
  pub tcp_hystart_delay_detect : Option F
  pub tcp_hystart_delay_cwnd : Option F
  pub tcpack_skipped_syn_recv : Option F
  pub tcpack_skipped_paws : Option F
  pub tcpack_skipped_seq : Option F
  pub tcpack_skipped_fin_wait2 : Option F
  pub tcpack_skipped_time_wait : Option F
  pub tcpack_skipped_challenge : Option F
  pub tcp_win_probe : Option F
  pub tcp_keep_alive : Option F
  pub tcpmtup_fail : Option F
  pub tcpmtup_success : Option F
  pub tcp_wqueue_too_big : Option F

pub record IpExt (F : Type 0) : Type 0 where
  pub in_no_routes : Option F
  pub in_truncated_pkts : Option F
  pub in_mcast_pkts : Option F
  pub out_mcast_pkts : Option F
  pub in_bcast_pkts : Option F
  pub out_bcast_pkts : Option F
  pub in_octets : Option F
  pub out_octets : Option F
  pub in_mcast_octets : Option F
  pub out_mcast_octets : Option F
  pub in_bcast_octets : Option F
  pub out_bcast_octets : Option F
  pub in_csum_errors : Option F
  pub in_no_ect_pkts : Option F
  pub in_ect1_pkts : Option F
  pub in_ect0_pkts : Option F
  pub in_ce_pkts : Option F
  pub reasm_overlaps : Option F

pub record ProcNetstat (F : Type 0) : Type 0 where
  pub pid : ℤ
  pub tcp_ext : TcpExt F
  pub ip_ext : IpExt F

abbrev zero_tcp_ext : {F : Type 0} → TcpExt F
zero_tcp_ext = record {
  syncookies_sent = none;
  syncookies_recv = none;
  syncookies_failed = none;
  embryonic_rsts = none;
  prune_called = none;
  rcv_pruned = none;
  ofo_pruned = none;
  out_of_window_icmps = none;
  lock_dropped_icmps = none;
  arp_filter = none;
  tw = none;
  tw_recycled = none;
  tw_killed = none;
  paws_active = none;
  paws_estab = none;
  delayed_acks = none;
  delayed_ack_locked = none;
  delayed_ack_lost = none;
  listen_overflows = none;
  listen_drops = none;
  tcphp_hits = none;
  tcp_pure_acks = none;
  tcphp_acks = none;
  tcp_reno_recovery = none;
  tcp_sack_recovery = none;
  tcpsack_reneging = none;
  tcpsack_reorder = none;
  tcp_reno_reorder = none;
  tcpts_reorder = none;
  tcp_full_undo = none;
  tcp_partial_undo = none;
  tcpdsack_undo = none;
  tcp_loss_undo = none;
  tcp_lost_retransmit = none;
  tcp_reno_failures = none;
  tcp_sack_failures = none;
  tcp_loss_failures = none;
  tcp_fast_retrans = none;
  tcp_slow_start_retrans = none;
  tcp_timeouts = none;
  tcp_loss_probes = none;
  tcp_loss_probe_recovery = none;
  tcp_reno_recovery_fail = none;
  tcp_sack_recovery_fail = none;
  tcp_rcv_collapsed = none;
  tcpdsack_old_sent = none;
  tcpdsack_ofo_sent = none;
  tcpdsack_recv = none;
  tcpdsack_ofo_recv = none;
  tcp_abort_on_data = none;
  tcp_abort_on_close = none;
  tcp_abort_on_memory = none;
  tcp_abort_on_timeout = none;
  tcp_abort_on_linger = none;
  tcp_abort_failed = none;
  tcp_memory_pressures = none;
  tcp_memory_pressures_chrono = none;
  tcpsack_discard = none;
  tcpdsack_ignored_old = none;
  tcpdsack_ignored_no_undo = none;
  tcp_spurious_rtos = none;
  tcpmd5_not_found = none;
  tcpmd5_unexpected = none;
  tcpmd5_failure = none;
  tcp_sack_shifted = none;
  tcp_sack_merged = none;
  tcp_sack_shift_fallback = none;
  tcp_backlog_drop = none;
  pf_memalloc_drop = none;
  tcp_min_ttl_drop = none;
  tcp_defer_accept_drop = none;
  ip_reverse_path_filter = none;
  tcp_time_wait_overflow = none;
  tcp_req_q_full_do_cookies = none;
  tcp_req_q_full_drop = none;
  tcp_retrans_fail = none;
  tcp_rcv_coalesce = none;
  tcp_rcv_q_drop = none;
  tcpofo_queue = none;
  tcpofo_drop = none;
  tcpofo_merge = none;
  tcp_challenge_ack = none;
  tcpsyn_challenge = none;
  tcp_fast_open_active = none;
  tcp_fast_open_active_fail = none;
  tcp_fast_open_passive = none;
  tcp_fast_open_passive_fail = none;
  tcp_fast_open_listen_overflow = none;
  tcp_fast_open_cookie_reqd = none;
  tcp_fast_open_blackhole = none;
  tcp_spurious_rtx_host_queues = none;
  busy_poll_rx_packets = none;
  tcp_auto_corking = none;
  tcp_from_zero_window_adv = none;
  tcp_to_zero_window_adv = none;
  tcp_want_zero_window_adv = none;
  tcp_syn_retrans = none;
  tcp_orig_data_sent = none;
  tcp_hystart_train_detect = none;
  tcp_hystart_train_cwnd = none;
  tcp_hystart_delay_detect = none;
  tcp_hystart_delay_cwnd = none;
  tcpack_skipped_syn_recv = none;
  tcpack_skipped_paws = none;
  tcpack_skipped_seq = none;
  tcpack_skipped_fin_wait2 = none;
  tcpack_skipped_time_wait = none;
  tcpack_skipped_challenge = none;
  tcp_win_probe = none;
  tcp_keep_alive = none;
  tcpmtup_fail = none;
  tcpmtup_success = none;
  tcp_wqueue_too_big = none;
}

abbrev zero_ip_ext : {F : Type 0} → IpExt F
zero_ip_ext = record {
  in_no_routes = none;
  in_truncated_pkts = none;
  in_mcast_pkts = none;
  out_mcast_pkts = none;
  in_bcast_pkts = none;
  out_bcast_pkts = none;
  in_octets = none;
  out_octets = none;
  in_mcast_octets = none;
  out_mcast_octets = none;
  in_bcast_octets = none;
  out_bcast_octets = none;
  in_csum_errors = none;
  in_no_ect_pkts = none;
  in_ect1_pkts = none;
  in_ect0_pkts = none;
  in_ce_pkts = none;
  reasm_overlaps = none;
}

abbrev pub zero_proc_netstat : {F : Type 0} → ProcNetstat F
zero_proc_netstat = record { pid = pos 0; tcp_ext = zero_tcp_ext; ip_ext = zero_ip_ext }
