-- ===== src/Snmp6/Keys/Cases.antt =====
-- proc_snmp6.go: the switches: their labels, and what each case sets.
use procfs.Base.{List, [], ◌∷◌, Bytes, some, codes}
use procfs.Snmp6.Types.{ProcSnmp6}

-- A case: its protocol and its name.
pub data Key : Type 0 where
  ip6_in_receives ip6_in_hdr_errors ip6_in_too_big_errors ip6_in_no_routes ip6_in_addr_errors
        ip6_in_unknown_protos ip6_in_truncated_pkts ip6_in_discards ip6_in_delivers
        ip6_out_forw_datagrams ip6_out_requests ip6_out_discards ip6_out_no_routes ip6_reasm_timeout
        ip6_reasm_reqds ip6_reasm_oks ip6_reasm_fails ip6_frag_oks ip6_frag_fails ip6_frag_creates
        ip6_in_mcast_pkts ip6_out_mcast_pkts ip6_in_octets ip6_out_octets ip6_in_mcast_octets
        ip6_out_mcast_octets ip6_in_bcast_octets ip6_out_bcast_octets ip6_in_no_ect_pkts
        ip6_in_ect1_pkts ip6_in_ect0_pkts ip6_in_ce_pkts icmp6_in_msgs icmp6_in_errors
        icmp6_out_msgs icmp6_out_errors icmp6_in_csum_errors icmp6_in_dest_unreachs
        icmp6_in_pkt_too_bigs icmp6_in_time_excds icmp6_in_parm_problems icmp6_in_echos
        icmp6_in_echo_replies icmp6_in_group_memb_queries icmp6_in_group_memb_responses
        icmp6_in_group_memb_reductions icmp6_in_router_solicits icmp6_in_router_advertisements
        icmp6_in_neighbor_solicits icmp6_in_neighbor_advertisements icmp6_in_redirects
        icmp6_in_ml_dv2_reports icmp6_out_dest_unreachs icmp6_out_pkt_too_bigs icmp6_out_time_excds
        icmp6_out_parm_problems icmp6_out_echos icmp6_out_echo_replies icmp6_out_group_memb_queries
        icmp6_out_group_memb_responses icmp6_out_group_memb_reductions icmp6_out_router_solicits
        icmp6_out_router_advertisements icmp6_out_neighbor_solicits
        icmp6_out_neighbor_advertisements icmp6_out_redirects icmp6_out_ml_dv2_reports
        icmp6_in_type1 icmp6_in_type134 icmp6_in_type135 icmp6_in_type136 icmp6_in_type143
        icmp6_out_type133 icmp6_out_type135 icmp6_out_type136 icmp6_out_type143 udp6_in_datagrams
        udp6_no_ports udp6_in_errors udp6_out_datagrams udp6_rcvbuf_errors udp6_sndbuf_errors
        udp6_in_csum_errors udp6_ignored_multi udp_lite6_in_datagrams udp_lite6_no_ports
        udp_lite6_in_errors udp_lite6_out_datagrams udp_lite6_rcvbuf_errors udp_lite6_sndbuf_errors
        udp_lite6_in_csum_errors :
      Key

abbrev ip6_cases : List (Bytes × Key)
ip6_cases =
    (codes "InReceives", ip6_in_receives)
    ∷ (codes "InHdrErrors", ip6_in_hdr_errors)
    ∷ (codes "InTooBigErrors", ip6_in_too_big_errors)
    ∷ (codes "InNoRoutes", ip6_in_no_routes)
    ∷ (codes "InAddrErrors", ip6_in_addr_errors)
    ∷ (codes "InUnknownProtos", ip6_in_unknown_protos)
    ∷ (codes "InTruncatedPkts", ip6_in_truncated_pkts)
    ∷ (codes "InDiscards", ip6_in_discards)
    ∷ (codes "InDelivers", ip6_in_delivers)
    ∷ (codes "OutForwDatagrams", ip6_out_forw_datagrams)
    ∷ (codes "OutRequests", ip6_out_requests)
    ∷ (codes "OutDiscards", ip6_out_discards)
    ∷ (codes "OutNoRoutes", ip6_out_no_routes)
    ∷ (codes "ReasmTimeout", ip6_reasm_timeout)
    ∷ (codes "ReasmReqds", ip6_reasm_reqds)
    ∷ (codes "ReasmOKs", ip6_reasm_oks)
    ∷ (codes "ReasmFails", ip6_reasm_fails)
    ∷ (codes "FragOKs", ip6_frag_oks)
    ∷ (codes "FragFails", ip6_frag_fails)
    ∷ (codes "FragCreates", ip6_frag_creates)
    ∷ (codes "InMcastPkts", ip6_in_mcast_pkts)
    ∷ (codes "OutMcastPkts", ip6_out_mcast_pkts)
    ∷ (codes "InOctets", ip6_in_octets)
    ∷ (codes "OutOctets", ip6_out_octets)
    ∷ (codes "InMcastOctets", ip6_in_mcast_octets)
    ∷ (codes "OutMcastOctets", ip6_out_mcast_octets)
    ∷ (codes "InBcastOctets", ip6_in_bcast_octets)
    ∷ (codes "OutBcastOctets", ip6_out_bcast_octets)
    ∷ (codes "InNoECTPkts", ip6_in_no_ect_pkts)
    ∷ (codes "InECT1Pkts", ip6_in_ect1_pkts)
    ∷ (codes "InECT0Pkts", ip6_in_ect0_pkts)
    ∷ (codes "InCEPkts", ip6_in_ce_pkts)
    ∷ []

abbrev icmp6_cases : List (Bytes × Key)
icmp6_cases =
    (codes "InMsgs", icmp6_in_msgs)
    ∷ (codes "InErrors", icmp6_in_errors)
    ∷ (codes "OutMsgs", icmp6_out_msgs)
    ∷ (codes "OutErrors", icmp6_out_errors)
    ∷ (codes "InCsumErrors", icmp6_in_csum_errors)
    ∷ (codes "InDestUnreachs", icmp6_in_dest_unreachs)
    ∷ (codes "InPktTooBigs", icmp6_in_pkt_too_bigs)
    ∷ (codes "InTimeExcds", icmp6_in_time_excds)
    ∷ (codes "InParmProblems", icmp6_in_parm_problems)
    ∷ (codes "InEchos", icmp6_in_echos)
    ∷ (codes "InEchoReplies", icmp6_in_echo_replies)
    ∷ (codes "InGroupMembQueries", icmp6_in_group_memb_queries)
    ∷ (codes "InGroupMembResponses", icmp6_in_group_memb_responses)
    ∷ (codes "InGroupMembReductions", icmp6_in_group_memb_reductions)
    ∷ (codes "InRouterSolicits", icmp6_in_router_solicits)
    ∷ (codes "InRouterAdvertisements", icmp6_in_router_advertisements)
    ∷ (codes "InNeighborSolicits", icmp6_in_neighbor_solicits)
    ∷ (codes "InNeighborAdvertisements", icmp6_in_neighbor_advertisements)
    ∷ (codes "InRedirects", icmp6_in_redirects)
    ∷ (codes "InMLDv2Reports", icmp6_in_ml_dv2_reports)
    ∷ (codes "OutDestUnreachs", icmp6_out_dest_unreachs)
    ∷ (codes "OutPktTooBigs", icmp6_out_pkt_too_bigs)
    ∷ (codes "OutTimeExcds", icmp6_out_time_excds)
    ∷ (codes "OutParmProblems", icmp6_out_parm_problems)
    ∷ (codes "OutEchos", icmp6_out_echos)
    ∷ (codes "OutEchoReplies", icmp6_out_echo_replies)
    ∷ (codes "OutGroupMembQueries", icmp6_out_group_memb_queries)
    ∷ (codes "OutGroupMembResponses", icmp6_out_group_memb_responses)
    ∷ (codes "OutGroupMembReductions", icmp6_out_group_memb_reductions)
    ∷ (codes "OutRouterSolicits", icmp6_out_router_solicits)
    ∷ (codes "OutRouterAdvertisements", icmp6_out_router_advertisements)
    ∷ (codes "OutNeighborSolicits", icmp6_out_neighbor_solicits)
    ∷ (codes "OutNeighborAdvertisements", icmp6_out_neighbor_advertisements)
    ∷ (codes "OutRedirects", icmp6_out_redirects)
    ∷ (codes "OutMLDv2Reports", icmp6_out_ml_dv2_reports)
    ∷ (codes "InType1", icmp6_in_type1)
    ∷ (codes "InType134", icmp6_in_type134)
    ∷ (codes "InType135", icmp6_in_type135)
    ∷ (codes "InType136", icmp6_in_type136)
    ∷ (codes "InType143", icmp6_in_type143)
    ∷ (codes "OutType133", icmp6_out_type133)
    ∷ (codes "OutType135", icmp6_out_type135)
    ∷ (codes "OutType136", icmp6_out_type136)
    ∷ (codes "OutType143", icmp6_out_type143)
    ∷ []

abbrev udp6_cases : List (Bytes × Key)
udp6_cases =
    (codes "InDatagrams", udp6_in_datagrams)
    ∷ (codes "NoPorts", udp6_no_ports)
    ∷ (codes "InErrors", udp6_in_errors)
    ∷ (codes "OutDatagrams", udp6_out_datagrams)
    ∷ (codes "RcvbufErrors", udp6_rcvbuf_errors)
    ∷ (codes "SndbufErrors", udp6_sndbuf_errors)
    ∷ (codes "InCsumErrors", udp6_in_csum_errors)
    ∷ (codes "IgnoredMulti", udp6_ignored_multi)
    ∷ []

abbrev udp_lite6_cases : List (Bytes × Key)
udp_lite6_cases =
    (codes "InDatagrams", udp_lite6_in_datagrams)
    ∷ (codes "NoPorts", udp_lite6_no_ports)
    ∷ (codes "InErrors", udp_lite6_in_errors)
    ∷ (codes "OutDatagrams", udp_lite6_out_datagrams)
    ∷ (codes "RcvbufErrors", udp_lite6_rcvbuf_errors)
    ∷ (codes "SndbufErrors", udp_lite6_sndbuf_errors)
    ∷ (codes "InCsumErrors", udp_lite6_in_csum_errors)
    ∷ []

-- The labels, in the order of the cases.
abbrev pub cases : List (Bytes × List (Bytes × Key))
cases =
    (codes "Ip6", ip6_cases)
    ∷ (codes "Icmp6", icmp6_cases)
    ∷ (codes "Udp6", udp6_cases)
    ∷ (codes "UdpLite6", udp_lite6_cases)
    ∷ []

-- The body of a case.
unfoldable pub set_key : {F : Type 0} → Key → F → ProcSnmp6 F → ProcSnmp6 F
set_key ip6_in_receives value m = record m { ip6 = record m.ip6 { in_receives = some value } }
set_key ip6_in_hdr_errors value m = record m { ip6 = record m.ip6 { in_hdr_errors = some value } }
set_key ip6_in_too_big_errors value m = record m {
  ip6 = record m.ip6 { in_too_big_errors = some value };
}
set_key ip6_in_no_routes value m = record m { ip6 = record m.ip6 { in_no_routes = some value } }
set_key ip6_in_addr_errors value m = record m { ip6 = record m.ip6 { in_addr_errors = some value } }
set_key ip6_in_unknown_protos value m = record m {
  ip6 = record m.ip6 { in_unknown_protos = some value };
}
set_key ip6_in_truncated_pkts value m = record m {
  ip6 = record m.ip6 { in_truncated_pkts = some value };
}
set_key ip6_in_discards value m = record m { ip6 = record m.ip6 { in_discards = some value } }
set_key ip6_in_delivers value m = record m { ip6 = record m.ip6 { in_delivers = some value } }
set_key ip6_out_forw_datagrams value m = record m {
  ip6 = record m.ip6 { out_forw_datagrams = some value };
}
set_key ip6_out_requests value m = record m { ip6 = record m.ip6 { out_requests = some value } }
set_key ip6_out_discards value m = record m { ip6 = record m.ip6 { out_discards = some value } }
set_key ip6_out_no_routes value m = record m { ip6 = record m.ip6 { out_no_routes = some value } }
set_key ip6_reasm_timeout value m = record m { ip6 = record m.ip6 { reasm_timeout = some value } }
set_key ip6_reasm_reqds value m = record m { ip6 = record m.ip6 { reasm_reqds = some value } }
set_key ip6_reasm_oks value m = record m { ip6 = record m.ip6 { reasm_oks = some value } }
set_key ip6_reasm_fails value m = record m { ip6 = record m.ip6 { reasm_fails = some value } }
set_key ip6_frag_oks value m = record m { ip6 = record m.ip6 { frag_oks = some value } }
set_key ip6_frag_fails value m = record m { ip6 = record m.ip6 { frag_fails = some value } }
set_key ip6_frag_creates value m = record m { ip6 = record m.ip6 { frag_creates = some value } }
set_key ip6_in_mcast_pkts value m = record m { ip6 = record m.ip6 { in_mcast_pkts = some value } }
set_key ip6_out_mcast_pkts value m = record m { ip6 = record m.ip6 { out_mcast_pkts = some value } }
set_key ip6_in_octets value m = record m { ip6 = record m.ip6 { in_octets = some value } }
set_key ip6_out_octets value m = record m { ip6 = record m.ip6 { out_octets = some value } }
set_key ip6_in_mcast_octets value m = record m {
  ip6 = record m.ip6 { in_mcast_octets = some value };
}
set_key ip6_out_mcast_octets value m = record m {
  ip6 = record m.ip6 { out_mcast_octets = some value };
}
set_key ip6_in_bcast_octets value m = record m {
  ip6 = record m.ip6 { in_bcast_octets = some value };
}
set_key ip6_out_bcast_octets value m = record m {
  ip6 = record m.ip6 { out_bcast_octets = some value };
}
set_key ip6_in_no_ect_pkts value m = record m { ip6 = record m.ip6 { in_no_ect_pkts = some value } }
set_key ip6_in_ect1_pkts value m = record m { ip6 = record m.ip6 { in_ect1_pkts = some value } }
set_key ip6_in_ect0_pkts value m = record m { ip6 = record m.ip6 { in_ect0_pkts = some value } }
set_key ip6_in_ce_pkts value m = record m { ip6 = record m.ip6 { in_ce_pkts = some value } }
set_key icmp6_in_msgs value m = record m { icmp6 = record m.icmp6 { in_msgs = some value } }
set_key icmp6_in_errors value m = record m { icmp6 = record m.icmp6 { in_errors = some value } }
set_key icmp6_out_msgs value m = record m { icmp6 = record m.icmp6 { out_msgs = some value } }
set_key icmp6_out_errors value m = record m { icmp6 = record m.icmp6 { out_errors = some value } }
set_key icmp6_in_csum_errors value m = record m {
  icmp6 = record m.icmp6 { in_csum_errors = some value };
}
set_key icmp6_in_dest_unreachs value m = record m {
  icmp6 = record m.icmp6 { in_dest_unreachs = some value };
}
set_key icmp6_in_pkt_too_bigs value m = record m {
  icmp6 = record m.icmp6 { in_pkt_too_bigs = some value };
}
set_key icmp6_in_time_excds value m = record m {
  icmp6 = record m.icmp6 { in_time_excds = some value };
}
set_key icmp6_in_parm_problems value m = record m {
  icmp6 = record m.icmp6 { in_parm_problems = some value };
}
set_key icmp6_in_echos value m = record m { icmp6 = record m.icmp6 { in_echos = some value } }
set_key icmp6_in_echo_replies value m = record m {
  icmp6 = record m.icmp6 { in_echo_replies = some value };
}
set_key icmp6_in_group_memb_queries value m = record m {
  icmp6 = record m.icmp6 { in_group_memb_queries = some value };
}
set_key icmp6_in_group_memb_responses value m = record m {
  icmp6 = record m.icmp6 { in_group_memb_responses = some value };
}
set_key icmp6_in_group_memb_reductions value m = record m {
  icmp6 = record m.icmp6 { in_group_memb_reductions = some value };
}
set_key icmp6_in_router_solicits value m = record m {
  icmp6 = record m.icmp6 { in_router_solicits = some value };
}
set_key icmp6_in_router_advertisements value m = record m {
  icmp6 = record m.icmp6 { in_router_advertisements = some value };
}
set_key icmp6_in_neighbor_solicits value m = record m {
  icmp6 = record m.icmp6 { in_neighbor_solicits = some value };
}
set_key icmp6_in_neighbor_advertisements value m = record m {
  icmp6 = record m.icmp6 { in_neighbor_advertisements = some value };
}
set_key icmp6_in_redirects value m = record m {
  icmp6 = record m.icmp6 { in_redirects = some value };
}
set_key icmp6_in_ml_dv2_reports value m = record m {
  icmp6 = record m.icmp6 { in_ml_dv2_reports = some value };
}
set_key icmp6_out_dest_unreachs value m = record m {
  icmp6 = record m.icmp6 { out_dest_unreachs = some value };
}
set_key icmp6_out_pkt_too_bigs value m = record m {
  icmp6 = record m.icmp6 { out_pkt_too_bigs = some value };
}
set_key icmp6_out_time_excds value m = record m {
  icmp6 = record m.icmp6 { out_time_excds = some value };
}
set_key icmp6_out_parm_problems value m = record m {
  icmp6 = record m.icmp6 { out_parm_problems = some value };
}
set_key icmp6_out_echos value m = record m { icmp6 = record m.icmp6 { out_echos = some value } }
set_key icmp6_out_echo_replies value m = record m {
  icmp6 = record m.icmp6 { out_echo_replies = some value };
}
set_key icmp6_out_group_memb_queries value m = record m {
  icmp6 = record m.icmp6 { out_group_memb_queries = some value };
}
set_key icmp6_out_group_memb_responses value m = record m {
  icmp6 = record m.icmp6 { out_group_memb_responses = some value };
}
set_key icmp6_out_group_memb_reductions value m = record m {
  icmp6 = record m.icmp6 { out_group_memb_reductions = some value };
}
set_key icmp6_out_router_solicits value m = record m {
  icmp6 = record m.icmp6 { out_router_solicits = some value };
}
set_key icmp6_out_router_advertisements value m = record m {
  icmp6 = record m.icmp6 { out_router_advertisements = some value };
}
set_key icmp6_out_neighbor_solicits value m = record m {
  icmp6 = record m.icmp6 { out_neighbor_solicits = some value };
}
set_key icmp6_out_neighbor_advertisements value m = record m {
  icmp6 = record m.icmp6 { out_neighbor_advertisements = some value };
}
set_key icmp6_out_redirects value m = record m {
  icmp6 = record m.icmp6 { out_redirects = some value };
}
set_key icmp6_out_ml_dv2_reports value m = record m {
  icmp6 = record m.icmp6 { out_ml_dv2_reports = some value };
}
set_key icmp6_in_type1 value m = record m { icmp6 = record m.icmp6 { in_type1 = some value } }
set_key icmp6_in_type134 value m = record m { icmp6 = record m.icmp6 { in_type134 = some value } }
set_key icmp6_in_type135 value m = record m { icmp6 = record m.icmp6 { in_type135 = some value } }
set_key icmp6_in_type136 value m = record m { icmp6 = record m.icmp6 { in_type136 = some value } }
set_key icmp6_in_type143 value m = record m { icmp6 = record m.icmp6 { in_type143 = some value } }
set_key icmp6_out_type133 value m = record m { icmp6 = record m.icmp6 { out_type133 = some value } }
set_key icmp6_out_type135 value m = record m { icmp6 = record m.icmp6 { out_type135 = some value } }
set_key icmp6_out_type136 value m = record m { icmp6 = record m.icmp6 { out_type136 = some value } }
set_key icmp6_out_type143 value m = record m { icmp6 = record m.icmp6 { out_type143 = some value } }
set_key udp6_in_datagrams value m = record m { udp6 = record m.udp6 { in_datagrams = some value } }
set_key udp6_no_ports value m = record m { udp6 = record m.udp6 { no_ports = some value } }
set_key udp6_in_errors value m = record m { udp6 = record m.udp6 { in_errors = some value } }
set_key udp6_out_datagrams value m = record m {
  udp6 = record m.udp6 { out_datagrams = some value };
}
set_key udp6_rcvbuf_errors value m = record m {
  udp6 = record m.udp6 { rcvbuf_errors = some value };
}
set_key udp6_sndbuf_errors value m = record m {
  udp6 = record m.udp6 { sndbuf_errors = some value };
}
set_key udp6_in_csum_errors value m = record m {
  udp6 = record m.udp6 { in_csum_errors = some value };
}
set_key udp6_ignored_multi value m = record m {
  udp6 = record m.udp6 { ignored_multi = some value };
}
set_key udp_lite6_in_datagrams value m = record m {
  udp_lite6 = record m.udp_lite6 { in_datagrams = some value };
}
set_key udp_lite6_no_ports value m = record m {
  udp_lite6 = record m.udp_lite6 { no_ports = some value };
}
set_key udp_lite6_in_errors value m = record m {
  udp_lite6 = record m.udp_lite6 { in_errors = some value };
}
set_key udp_lite6_out_datagrams value m = record m {
  udp_lite6 = record m.udp_lite6 { out_datagrams = some value };
}
set_key udp_lite6_rcvbuf_errors value m = record m {
  udp_lite6 = record m.udp_lite6 { rcvbuf_errors = some value };
}
set_key udp_lite6_sndbuf_errors value m = record m {
  udp_lite6 = record m.udp_lite6 { sndbuf_errors = some value };
}
set_key udp_lite6_in_csum_errors value m = record m {
  udp_lite6 = record m.udp_lite6 { in_csum_errors = some value };
}
