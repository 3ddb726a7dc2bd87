-- ===== src/Snmp/Types.antt =====
-- proc_snmp.go: the records, and the cases of the switches over a protocol and a name.
use procfs.Base.{ℤ, pos, Option, none}

pub record Ip (F : Type 0) : Type 0 where
  pub forwarding : Option F
  pub default_ttl : Option F
  pub in_receives : Option F
  pub in_hdr_errors : Option F
  pub in_addr_errors : Option F
  pub forw_datagrams : Option F
  pub in_unknown_protos : Option F
  pub in_discards : Option F
  pub in_delivers : Option F
  pub out_requests : Option F
  pub out_discards : Option F
  pub out_no_routes : Option F
  pub reasm_timeout : Option F
  pub reasm_reqds : Option F
  pub reasm_oks : Option F
  pub reasm_fails : Option F
  pub frag_oks : Option F
  pub frag_fails : Option F
  pub frag_creates : Option F

pub record Icmp (F : Type 0) : Type 0 where
  pub in_msgs : Option F
  pub in_errors : Option F
  pub in_csum_errors : Option F
  pub in_dest_unreachs : Option F
  pub in_time_excds : Option F
  pub in_parm_probs : Option F
  pub in_src_quenchs : Option F
  pub in_redirects : Option F
  pub in_echos : Option F
  pub in_echo_reps : Option F
  pub in_timestamps : Option F
  pub in_timestamp_reps : Option F
  pub in_addr_masks : Option F
  pub in_addr_mask_reps : Option F
  pub out_msgs : Option F
  pub out_errors : Option F
  pub out_dest_unreachs : Option F
  pub out_time_excds : Option F
  pub out_parm_probs : Option F
  pub out_src_quenchs : Option F
  pub out_redirects : Option F
  pub out_echos : Option F
  pub out_echo_reps : Option F
  pub out_timestamps : Option F
  pub out_timestamp_reps : Option F
  pub out_addr_masks : Option F
  pub out_addr_mask_reps : Option F

pub record IcmpMsg (F : Type 0) : Type 0 where
  pub in_type3 : Option F
  pub out_type3 : Option F

pub record Tcp (F : Type 0) : Type 0 where
  pub rto_algorithm : Option F
  pub rto_min : Option F
  pub rto_max : Option F
  pub max_conn : Option F
  pub active_opens : Option F
  pub passive_opens : Option F
  pub attempt_fails : Option F
  pub estab_resets : Option F
  pub curr_estab : Option F
  pub in_segs : Option F
  pub out_segs : Option F
  pub retrans_segs : Option F
  pub in_errs : Option F
  pub out_rsts : Option F
  pub in_csum_errors : Option F

pub record Udp (F : Type 0) : Type 0 where
  pub in_datagrams : Option F
  pub no_ports : Option F
  pub in_errors : Option F
  pub out_datagrams : Option F
  pub rcvbuf_errors : Option F
  pub sndbuf_errors : Option F
  pub in_csum_errors : Option F
  pub ignored_multi : Option F

pub record UdpLite (F : Type 0) : Type 0 where
  pub in_datagrams : Option F
  pub no_ports : Option F
  pub in_errors : Option F
  pub out_datagrams : Option F
  pub rcvbuf_errors : Option F
  pub sndbuf_errors : Option F
  pub in_csum_errors : Option F
  pub ignored_multi : Option F

pub record ProcSnmp (F : Type 0) : Type 0 where
  pub pid : ℤ
  pub ip : Ip F
  pub icmp : Icmp F
  pub icmp_msg : IcmpMsg F
  pub tcp : Tcp F
  pub udp : Udp F
  pub udp_lite : UdpLite F

abbrev zero_ip : {F : Type 0} → Ip F
zero_ip = record {
  forwarding = none;
  default_ttl = none;
  in_receives = none;
  in_hdr_errors = none;
  in_addr_errors = none;
  forw_datagrams = none;
  in_unknown_protos = none;
  in_discards = none;
  in_delivers = none;
  out_requests = none;
  out_discards = none;
  out_no_routes = none;
  reasm_timeout = none;
  reasm_reqds = none;
  reasm_oks = none;
  reasm_fails = none;
  frag_oks = none;
  frag_fails = none;
  frag_creates = none;
}

abbrev zero_icmp : {F : Type 0} → Icmp F
zero_icmp = record {
  in_msgs = none;
  in_errors = none;
  in_csum_errors = none;
  in_dest_unreachs = none;
  in_time_excds = none;
  in_parm_probs = none;
  in_src_quenchs = none;
  in_redirects = none;
  in_echos = none;
  in_echo_reps = none;
  in_timestamps = none;
  in_timestamp_reps = none;
  in_addr_masks = none;
  in_addr_mask_reps = none;
  out_msgs = none;
  out_errors = none;
  out_dest_unreachs = none;
  out_time_excds = none;
  out_parm_probs = none;
  out_src_quenchs = none;
  out_redirects = none;
  out_echos = none;
  out_echo_reps = none;
  out_timestamps = none;
  out_timestamp_reps = none;
  out_addr_masks = none;
  out_addr_mask_reps = none;
}

abbrev zero_icmp_msg : {F : Type 0} → IcmpMsg F
zero_icmp_msg = record { in_type3 = none; out_type3 = none }

abbrev zero_tcp : {F : Type 0} → Tcp F
zero_tcp = record {
  rto_algorithm = none;
  rto_min = none;
  rto_max = none;
  max_conn = none;
  active_opens = none;
  passive_opens = none;
  attempt_fails = none;
  estab_resets = none;
  curr_estab = none;
  in_segs = none;
  out_segs = none;
  retrans_segs = none;
  in_errs = none;
  out_rsts = none;
  in_csum_errors = none;
}

abbrev zero_udp : {F : Type 0} → Udp F
zero_udp = record {
  in_datagrams = none;
  no_ports = none;
  in_errors = none;
  out_datagrams = none;
  rcvbuf_errors = none;
  sndbuf_errors = none;
  in_csum_errors = none;
  ignored_multi = none;
}

abbrev zero_udp_lite : {F : Type 0} → UdpLite F
zero_udp_lite = record {
  in_datagrams = none;
  no_ports = none;
  in_errors = none;
  out_datagrams = none;
  rcvbuf_errors = none;
  sndbuf_errors = none;
  in_csum_errors = none;
  ignored_multi = none;
}

abbrev pub zero_proc_snmp : {F : Type 0} → ProcSnmp F
zero_proc_snmp = record {
  pid = pos 0;
  ip = zero_ip;
  icmp = zero_icmp;
  icmp_msg = zero_icmp_msg;
  tcp = zero_tcp;
  udp = zero_udp;
  udp_lite = zero_udp_lite;
}
