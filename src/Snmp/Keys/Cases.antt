-- ===== src/Snmp/Keys/Cases.antt =====
-- proc_snmp.go: the switches: their labels, and what each case sets.
use procfs.Base.{List, [], ◌∷◌, Bytes, some, codes}
use procfs.Snmp.Types.{ProcSnmp}

-- A case: its protocol and its name.
pub data Key : Type 0 where
  ip_forwarding ip_default_ttl ip_in_receives ip_in_hdr_errors ip_in_addr_errors ip_forw_datagrams
        ip_in_unknown_protos ip_in_discards ip_in_delivers ip_out_requests ip_out_discards
        ip_out_no_routes ip_reasm_timeout ip_reasm_reqds ip_reasm_oks ip_reasm_fails ip_frag_oks
        ip_frag_fails ip_frag_creates icmp_in_msgs icmp_in_errors icmp_in_csum_errors
        icmp_in_dest_unreachs icmp_in_time_excds icmp_in_parm_probs icmp_in_src_quenchs
        icmp_in_redirects icmp_in_echos icmp_in_echo_reps icmp_in_timestamps icmp_in_timestamp_reps
        icmp_in_addr_masks icmp_in_addr_mask_reps icmp_out_msgs icmp_out_errors
        icmp_out_dest_unreachs icmp_out_time_excds icmp_out_parm_probs icmp_out_src_quenchs
        icmp_out_redirects icmp_out_echos icmp_out_echo_reps icmp_out_timestamps
        icmp_out_timestamp_reps icmp_out_addr_masks icmp_out_addr_mask_reps icmp_msg_in_type3
        icmp_msg_out_type3 tcp_rto_algorithm tcp_rto_min tcp_rto_max tcp_max_conn tcp_active_opens
        tcp_passive_opens tcp_attempt_fails tcp_estab_resets tcp_curr_estab tcp_in_segs tcp_out_segs
        tcp_retrans_segs tcp_in_errs tcp_out_rsts tcp_in_csum_errors udp_in_datagrams udp_no_ports
        udp_in_errors udp_out_datagrams udp_rcvbuf_errors udp_sndbuf_errors udp_in_csum_errors
        udp_ignored_multi udp_lite_in_datagrams udp_lite_no_ports udp_lite_in_errors
        udp_lite_out_datagrams udp_lite_rcvbuf_errors udp_lite_sndbuf_errors udp_lite_in_csum_errors
        udp_lite_ignored_multi :
      Key

abbrev ip_cases : List (Bytes × Key)
ip_cases =
    (codes "Forwarding", ip_forwarding)
    ∷ (codes "DefaultTTL", ip_default_ttl)
    ∷ (codes "InReceives", ip_in_receives)
    ∷ (codes "InHdrErrors", ip_in_hdr_errors)
    ∷ (codes "InAddrErrors", ip_in_addr_errors)
    ∷ (codes "ForwDatagrams", ip_forw_datagrams)
    ∷ (codes "InUnknownProtos", ip_in_unknown_protos)
    ∷ (codes "InDiscards", ip_in_discards)
    ∷ (codes "InDelivers", ip_in_delivers)
    ∷ (codes "OutRequests", ip_out_requests)
    ∷ (codes "OutDiscards", ip_out_discards)
    ∷ (codes "OutNoRoutes", ip_out_no_routes)
    ∷ (codes "ReasmTimeout", ip_reasm_timeout)
    ∷ (codes "ReasmReqds", ip_reasm_reqds)
    ∷ (codes "ReasmOKs", ip_reasm_oks)
    ∷ (codes "ReasmFails", ip_reasm_fails)
    ∷ (codes "FragOKs", ip_frag_oks)
    ∷ (codes "FragFails", ip_frag_fails)
    ∷ (codes "FragCreates", ip_frag_creates)
    ∷ []

abbrev icmp_cases : List (Bytes × Key)
icmp_cases =
    (codes "InMsgs", icmp_in_msgs)
    ∷ (codes "InErrors", icmp_in_errors)
    ∷ (codes "InCsumErrors", icmp_in_csum_errors)
    ∷ (codes "InDestUnreachs", icmp_in_dest_unreachs)
    ∷ (codes "InTimeExcds", icmp_in_time_excds)
    ∷ (codes "InParmProbs", icmp_in_parm_probs)
    ∷ (codes "InSrcQuenchs", icmp_in_src_quenchs)
    ∷ (codes "InRedirects", icmp_in_redirects)
    ∷ (codes "InEchos", icmp_in_echos)
    ∷ (codes "InEchoReps", icmp_in_echo_reps)
    ∷ (codes "InTimestamps", icmp_in_timestamps)
    ∷ (codes "InTimestampReps", icmp_in_timestamp_reps)
    ∷ (codes "InAddrMasks", icmp_in_addr_masks)
    ∷ (codes "InAddrMaskReps", icmp_in_addr_mask_reps)
    ∷ (codes "OutMsgs", icmp_out_msgs)
    ∷ (codes "OutErrors", icmp_out_errors)
    ∷ (codes "OutDestUnreachs", icmp_out_dest_unreachs)
    ∷ (codes "OutTimeExcds", icmp_out_time_excds)
    ∷ (codes "OutParmProbs", icmp_out_parm_probs)
    ∷ (codes "OutSrcQuenchs", icmp_out_src_quenchs)
    ∷ (codes "OutRedirects", icmp_out_redirects)
    ∷ (codes "OutEchos", icmp_out_echos)
    ∷ (codes "OutEchoReps", icmp_out_echo_reps)
    ∷ (codes "OutTimestamps", icmp_out_timestamps)
    ∷ (codes "OutTimestampReps", icmp_out_timestamp_reps)
    ∷ (codes "OutAddrMasks", icmp_out_addr_masks)
    ∷ (codes "OutAddrMaskReps", icmp_out_addr_mask_reps)
    ∷ []

abbrev icmp_msg_cases : List (Bytes × Key)
icmp_msg_cases = (codes "InType3", icmp_msg_in_type3) ∷ (codes "OutType3", icmp_msg_out_type3) ∷ []

abbrev tcp_cases : List (Bytes × Key)
tcp_cases =
    (codes "RtoAlgorithm", tcp_rto_algorithm)
    ∷ (codes "RtoMin", tcp_rto_min)
    ∷ (codes "RtoMax", tcp_rto_max)
    ∷ (codes "MaxConn", tcp_max_conn)
    ∷ (codes "ActiveOpens", tcp_active_opens)
    ∷ (codes "PassiveOpens", tcp_passive_opens)
    ∷ (codes "AttemptFails", tcp_attempt_fails)
    ∷ (codes "EstabResets", tcp_estab_resets)
    ∷ (codes "CurrEstab", tcp_curr_estab)
    ∷ (codes "InSegs", tcp_in_segs)
    ∷ (codes "OutSegs", tcp_out_segs)
    ∷ (codes "RetransSegs", tcp_retrans_segs)
    ∷ (codes "InErrs", tcp_in_errs)
    ∷ (codes "OutRsts", tcp_out_rsts)
    ∷ (codes "InCsumErrors", tcp_in_csum_errors)
    ∷ []

abbrev udp_cases : List (Bytes × Key)
udp_cases =
    (codes "InDatagrams", udp_in_datagrams)
    ∷ (codes "NoPorts", udp_no_ports)
    ∷ (codes "InErrors", udp_in_errors)
    ∷ (codes "OutDatagrams", udp_out_datagrams)
    ∷ (codes "RcvbufErrors", udp_rcvbuf_errors)
    ∷ (codes "SndbufErrors", udp_sndbuf_errors)
    ∷ (codes "InCsumErrors", udp_in_csum_errors)
    ∷ (codes "IgnoredMulti", udp_ignored_multi)
    ∷ []

abbrev udp_lite_cases : List (Bytes × Key)
udp_lite_cases =
    (codes "InDatagrams", udp_lite_in_datagrams)
    ∷ (codes "NoPorts", udp_lite_no_ports)
    ∷ (codes "InErrors", udp_lite_in_errors)
    ∷ (codes "OutDatagrams", udp_lite_out_datagrams)
    ∷ (codes "RcvbufErrors", udp_lite_rcvbuf_errors)
    ∷ (codes "SndbufErrors", udp_lite_sndbuf_errors)
    ∷ (codes "InCsumErrors", udp_lite_in_csum_errors)
    ∷ (codes "IgnoredMulti", udp_lite_ignored_multi)
    ∷ []

-- The labels, in the order of the cases.
abbrev pub cases : List (Bytes × List (Bytes × Key))
cases =
    (codes "Ip", ip_cases)
    ∷ (codes "Icmp", icmp_cases)
    ∷ (codes "IcmpMsg", icmp_msg_cases)
    ∷ (codes "Tcp", tcp_cases)
    ∷ (codes "Udp", udp_cases)
    ∷ (codes "UdpLite", udp_lite_cases)
    ∷ []

-- The body of a case.
unfoldable pub set_key : {F : Type 0} → Key → F → ProcSnmp F → ProcSnmp F
set_key ip_forwarding value m = record m { ip = record m.ip { forwarding = some value } }
set_key ip_default_ttl value m = record m { ip = record m.ip { default_ttl = some value } }
set_key ip_in_receives value m = record m { ip = record m.ip { in_receives = some value } }
set_key ip_in_hdr_errors value m = record m { ip = record m.ip { in_hdr_errors = some value } }
set_key ip_in_addr_errors value m = record m { ip = record m.ip { in_addr_errors = some value } }
set_key ip_forw_datagrams value m = record m { ip = record m.ip { forw_datagrams = some value } }
set_key ip_in_unknown_protos value m = record m {
  ip = record m.ip { in_unknown_protos = some value };
}
set_key ip_in_discards value m = record m { ip = record m.ip { in_discards = some value } }
set_key ip_in_delivers value m = record m { ip = record m.ip { in_delivers = some value } }
set_key ip_out_requests value m = record m { ip = record m.ip { out_requests = some value } }
set_key ip_out_discards value m = record m { ip = record m.ip { out_discards = some value } }
set_key ip_out_no_routes value m = record m { ip = record m.ip { out_no_routes = some value } }
set_key ip_reasm_timeout value m = record m { ip = record m.ip { reasm_timeout = some value } }
set_key ip_reasm_reqds value m = record m { ip = record m.ip { reasm_reqds = some value } }
set_key ip_reasm_oks value m = record m { ip = record m.ip { reasm_oks = some value } }
set_key ip_reasm_fails value m = record m { ip = record m.ip { reasm_fails = some value } }
set_key ip_frag_oks value m = record m { ip = record m.ip { frag_oks = some value } }
set_key ip_frag_fails value m = record m { ip = record m.ip { frag_fails = some value } }
set_key ip_frag_creates value m = record m { ip = record m.ip { frag_creates = some value } }
set_key icmp_in_msgs value m = record m { icmp = record m.icmp { in_msgs = some value } }
set_key icmp_in_errors value m = record m { icmp = record m.icmp { in_errors = some value } }
set_key icmp_in_csum_errors value m = record m {
  icmp = record m.icmp { in_csum_errors = some value };
}
set_key icmp_in_dest_unreachs value m = record m {
  icmp = record m.icmp { in_dest_unreachs = some value };
}
set_key icmp_in_time_excds value m = record m {
  icmp = record m.icmp { in_time_excds = some value };
}
set_key icmp_in_parm_probs value m = record m {
  icmp = record m.icmp { in_parm_probs = some value };
}
set_key icmp_in_src_quenchs value m = record m {
  icmp = record m.icmp { in_src_quenchs = some value };
}
set_key icmp_in_redirects value m = record m { icmp = record m.icmp { in_redirects = some value } }
set_key icmp_in_echos value m = record m { icmp = record m.icmp { in_echos = some value } }
set_key icmp_in_echo_reps value m = record m { icmp = record m.icmp { in_echo_reps = some value } }
set_key icmp_in_timestamps value m = record m {
  icmp = record m.icmp { in_timestamps = some value };
}
set_key icmp_in_timestamp_reps value m = record m {
  icmp = record m.icmp { in_timestamp_reps = some value };
}
set_key icmp_in_addr_masks value m = record m {
  icmp = record m.icmp { in_addr_masks = some value };
}
set_key icmp_in_addr_mask_reps value m = record m {
  icmp = record m.icmp { in_addr_mask_reps = some value };
}
set_key icmp_out_msgs value m = record m { icmp = record m.icmp { out_msgs = some value } }
set_key icmp_out_errors value m = record m { icmp = record m.icmp { out_errors = some value } }
set_key icmp_out_dest_unreachs value m = record m {
  icmp = record m.icmp { out_dest_unreachs = some value };
}
set_key icmp_out_time_excds value m = record m {
  icmp = record m.icmp { out_time_excds = some value };
}
set_key icmp_out_parm_probs value m = record m {
  icmp = record m.icmp { out_parm_probs = some value };
}
set_key icmp_out_src_quenchs value m = record m {
  icmp = record m.icmp { out_src_quenchs = some value };
}
set_key icmp_out_redirects value m = record m {
  icmp = record m.icmp { out_redirects = some value };
}
set_key icmp_out_echos value m = record m { icmp = record m.icmp { out_echos = some value } }
set_key icmp_out_echo_reps value m = record m {
  icmp = record m.icmp { out_echo_reps = some value };
}
set_key icmp_out_timestamps value m = record m {
  icmp = record m.icmp { out_timestamps = some value };
}
set_key icmp_out_timestamp_reps value m = record m {
  icmp = record m.icmp { out_timestamp_reps = some value };
}
set_key icmp_out_addr_masks value m = record m {
  icmp = record m.icmp { out_addr_masks = some value };
}
set_key icmp_out_addr_mask_reps value m = record m {
  icmp = record m.icmp { out_addr_mask_reps = some value };
}
set_key icmp_msg_in_type3 value m = record m {
  icmp_msg = record m.icmp_msg { in_type3 = some value };
}
set_key icmp_msg_out_type3 value m = record m {
  icmp_msg = record m.icmp_msg { out_type3 = some value };
}
set_key tcp_rto_algorithm value m = record m { tcp = record m.tcp { rto_algorithm = some value } }
set_key tcp_rto_min value m = record m { tcp = record m.tcp { rto_min = some value } }
set_key tcp_rto_max value m = record m { tcp = record m.tcp { rto_max = some value } }
set_key tcp_max_conn value m = record m { tcp = record m.tcp { max_conn = some value } }
set_key tcp_active_opens value m = record m { tcp = record m.tcp { active_opens = some value } }
set_key tcp_passive_opens value m = record m { tcp = record m.tcp { passive_opens = some value } }
set_key tcp_attempt_fails value m = record m { tcp = record m.tcp { attempt_fails = some value } }
set_key tcp_estab_resets value m = record m { tcp = record m.tcp { estab_resets = some value } }
set_key tcp_curr_estab value m = record m { tcp = record m.tcp { curr_estab = some value } }
set_key tcp_in_segs value m = record m { tcp = record m.tcp { in_segs = some value } }
set_key tcp_out_segs value m = record m { tcp = record m.tcp { out_segs = some value } }
set_key tcp_retrans_segs value m = record m { tcp = record m.tcp { retrans_segs = some value } }
set_key tcp_in_errs value m = record m { tcp = record m.tcp { in_errs = some value } }
set_key tcp_out_rsts value m = record m { tcp = record m.tcp { out_rsts = some value } }
set_key tcp_in_csum_errors value m = record m { tcp = record m.tcp { in_csum_errors = some value } }
set_key udp_in_datagrams value m = record m { udp = record m.udp { in_datagrams = some value } }
set_key udp_no_ports value m = record m { udp = record m.udp { no_ports = some value } }
set_key udp_in_errors value m = record m { udp = record m.udp { in_errors = some value } }
set_key udp_out_datagrams value m = record m { udp = record m.udp { out_datagrams = some value } }
set_key udp_rcvbuf_errors value m = record m { udp = record m.udp { rcvbuf_errors = some value } }
set_key udp_sndbuf_errors value m = record m { udp = record m.udp { sndbuf_errors = some value } }
set_key udp_in_csum_errors value m = record m { udp = record m.udp { in_csum_errors = some value } }
set_key udp_ignored_multi value m = record m { udp = record m.udp { ignored_multi = some value } }
set_key udp_lite_in_datagrams value m = record m {
  udp_lite = record m.udp_lite { in_datagrams = some value };
}
set_key udp_lite_no_ports value m = record m {
  udp_lite = record m.udp_lite { no_ports = some value };
}
set_key udp_lite_in_errors value m = record m {
  udp_lite = record m.udp_lite { in_errors = some value };
}
set_key udp_lite_out_datagrams value m = record m {
  udp_lite = record m.udp_lite { out_datagrams = some value };
}
set_key udp_lite_rcvbuf_errors value m = record m {
  udp_lite = record m.udp_lite { rcvbuf_errors = some value };
}
set_key udp_lite_sndbuf_errors value m = record m {
  udp_lite = record m.udp_lite { sndbuf_errors = some value };
}
set_key udp_lite_in_csum_errors value m = record m {
  udp_lite = record m.udp_lite { in_csum_errors = some value };
}
set_key udp_lite_ignored_multi value m = record m {
  udp_lite = record m.udp_lite { ignored_multi = some value };
}
