-- ===== src/Snmp6/Types.antt =====
-- proc_snmp6.go: the records, and the cases of the switches over a protocol and a name.
use procfs.Base.{ℤ, pos, Option, none}

pub record Ip6 (F : Type 0) : Type 0 where
  pub in_receives : Option F
  pub in_hdr_errors : Option F
  pub in_too_big_errors : Option F
  pub in_no_routes : Option F
  pub in_addr_errors : Option F
  pub in_unknown_protos : Option F
  pub in_truncated_pkts : Option F
  pub in_discards : Option F
  pub in_delivers : Option F
  pub out_forw_datagrams : Option F
  pub out_requests : Option F
  pub out_discards : Option F
  pub out_no_routes : Option F
  pub reasm_timeout : Option F
  pub reasm_reqds : Option F
  pub reasm_oks : Option F
  pub reasm_fails : Option F
  pub frag_oks : Option F
  pub frag_fails : Option F
  pub frag_creates : Option F
  pub in_mcast_pkts : Option F
  pub out_mcast_pkts : Option F
  pub in_octets : Option F
  pub out_octets : Option F
  pub in_mcast_octets : Option F
  pub out_mcast_octets : Option F
  pub in_bcast_octets : Option F
  pub out_bcast_octets : Option F
  pub in_no_ect_pkts : Option F
  pub in_ect1_pkts : Option F
  pub in_ect0_pkts : Option F
  pub in_ce_pkts : Option F

pub record Icmp6 (F : Type 0) : Type 0 where
  pub in_msgs : Option F
  pub in_errors : Option F
  pub out_msgs : Option F
  pub out_errors : Option F
  pub in_csum_errors : Option F
  pub in_dest_unreachs : Option F
  pub in_pkt_too_bigs : Option F
  pub in_time_excds : Option F
  pub in_parm_problems : Option F
  pub in_echos : Option F
  pub in_echo_replies : Option F
  pub in_group_memb_queries : Option F
  pub in_group_memb_responses : Option F
  pub in_group_memb_reductions : Option F
  pub in_router_solicits : Option F
  pub in_router_advertisements : Option F
  pub in_neighbor_solicits : Option F
  pub in_neighbor_advertisements : Option F
  pub in_redirects : Option F
  pub in_ml_dv2_reports : Option F
  pub out_dest_unreachs : Option F
  pub out_pkt_too_bigs : Option F
  pub out_time_excds : Option F
  pub out_parm_problems : Option F
  pub out_echos : Option F
  pub out_echo_replies : Option F
  pub out_group_memb_queries : Option F
  pub out_group_memb_responses : Option F
  pub out_group_memb_reductions : Option F
  pub out_router_solicits : Option F
  pub out_router_advertisements : Option F
  pub out_neighbor_solicits : Option F
  pub out_neighbor_advertisements : Option F
  pub out_redirects : Option F
  pub out_ml_dv2_reports : Option F
  pub in_type1 : Option F
  pub in_type134 : Option F
  pub in_type135 : Option F
  pub in_type136 : Option F
  pub in_type143 : Option F
  pub out_type133 : Option F
  pub out_type135 : Option F
  pub out_type136 : Option F
  pub out_type143 : Option F

pub record Udp6 (F : Type 0) : Type 0 where
  pub in_datagrams : Option F
  pub no_ports : Option F
  pub in_errors : Option F
  pub out_datagrams : Option F
  pub rcvbuf_errors : Option F
  pub sndbuf_errors : Option F
  pub in_csum_errors : Option F
  pub ignored_multi : Option F

pub record UdpLite6 (F : Type 0) : Type 0 where
  pub in_datagrams : Option F
  pub no_ports : Option F
  pub in_errors : Option F
  pub out_datagrams : Option F
  pub rcvbuf_errors : Option F
  pub sndbuf_errors : Option F
  pub in_csum_errors : Option F

pub record ProcSnmp6 (F : Type 0) : Type 0 where
  pub pid : ℤ
  pub ip6 : Ip6 F
  pub icmp6 : Icmp6 F
  pub udp6 : Udp6 F
  pub udp_lite6 : UdpLite6 F

abbrev zero_ip6 : {F : Type 0} → Ip6 F
zero_ip6 = record {
  in_receives = none;
  in_hdr_errors = none;
  in_too_big_errors = none;
  in_no_routes = none;
  in_addr_errors = none;
  in_unknown_protos = none;
  in_truncated_pkts = none;
  in_discards = none;
  in_delivers = none;
  out_forw_datagrams = none;
  out_requests = none;
  out_discards = none;
  out_no_routes = none;
  reasm_timeout = none;
  reasm_reqds = none;
  reasm_oks = none;
  reasm_fails = none;
  frag_oks = none;
  frag_fails = none;
  frag_creates = none;
  in_mcast_pkts = none;
  out_mcast_pkts = none;
  in_octets = none;
  out_octets = none;
  in_mcast_octets = none;
  out_mcast_octets = none;
  in_bcast_octets = none;
  out_bcast_octets = none;
  in_no_ect_pkts = none;
  in_ect1_pkts = none;
  in_ect0_pkts = none;
  in_ce_pkts = none;
}

abbrev zero_icmp6 : {F : Type 0} → Icmp6 F
zero_icmp6 = record {
  in_msgs = none;
  in_errors = none;
  out_msgs = none;
  out_errors = none;
  in_csum_errors = none;
  in_dest_unreachs = none;
  in_pkt_too_bigs = none;
  in_time_excds = none;
  in_parm_problems = none;
  in_echos = none;
  in_echo_replies = none;
  in_group_memb_queries = none;
  in_group_memb_responses = none;
  in_group_memb_reductions = none;
  in_router_solicits = none;
  in_router_advertisements = none;
  in_neighbor_solicits = none;
  in_neighbor_advertisements = none;
  in_redirects = none;
  in_ml_dv2_reports = none;
  out_dest_unreachs = none;
  out_pkt_too_bigs = none;
  out_time_excds = none;
  out_parm_problems = none;
  out_echos = none;
  out_echo_replies = none;
  out_group_memb_queries = none;
  out_group_memb_responses = none;
  out_group_memb_reductions = none;
  out_router_solicits = none;
  out_router_advertisements = none;
  out_neighbor_solicits = none;
  out_neighbor_advertisements = none;
  out_redirects = none;
  out_ml_dv2_reports = none;
  in_type1 = none;
  in_type134 = none;
  in_type135 = none;
  in_type136 = none;
  in_type143 = none;
  out_type133 = none;
  out_type135 = none;
  out_type136 = none;
  out_type143 = none;
}

abbrev zero_udp6 : {F : Type 0} → Udp6 F
zero_udp6 = record {
  in_datagrams = none;
  no_ports = none;
  in_errors = none;
  out_datagrams = none;
  rcvbuf_errors = none;
  sndbuf_errors = none;
  in_csum_errors = none;
  ignored_multi = none;
}

abbrev zero_udp_lite6 : {F : Type 0} → UdpLite6 F
zero_udp_lite6 = record {
  in_datagrams = none;
  no_ports = none;
  in_errors = none;
  out_datagrams = none;
  rcvbuf_errors = none;
  sndbuf_errors = none;
  in_csum_errors = none;
}

abbrev pub zero_proc_snmp6 : {F : Type 0} → ProcSnmp6 F
zero_proc_snmp6 = record {
  pid = pos 0;
  ip6 = zero_ip6;
  icmp6 = zero_icmp6;
  udp6 = zero_udp6;
  udp_lite6 = zero_udp_lite6;
}
