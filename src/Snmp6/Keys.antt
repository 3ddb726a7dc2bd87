-- ===== src/Snmp6/Keys.antt =====
-- proc_snmp6.go: what the record holds for each key, and which protocol and name stand for it.
pub mod Cases
unfoldable pub use Cases.*
use procfs.Base.{
  ℕ, zero, suc, ltb, length, get_or, map, List, [], ◌∷◌, ◌++◌, ◌≡◌, refl, ◌↔◌, Bytes, String,
  Option, none, some, codes, All, bytes_eq, Bool, true, false,
}
use procfs.Go.Switch.{Switch, find_case, find_in, found_in, check_in, same_pair, same_pair_iff}
use procfs.Go.Switch.Slots.{Numbered, Numbered-Switch, put, position, members}
use procfs.Snmp6.Types.{ProcSnmp6, zero_proc_snmp6}

abbrev ip6 : String → Bytes × Bytes
ip6 name = (codes "Ip6", codes name)

abbrev icmp6 : String → Bytes × Bytes
icmp6 name = (codes "Icmp6", codes name)

abbrev udp6 : String → Bytes × Bytes
udp6 name = (codes "Udp6", codes name)

abbrev udp_lite6 : String → Bytes × Bytes
udp_lite6 name = (codes "UdpLite6", codes name)

-- The protocol and the name of a key.
unfoldable pub label_of : Key → Bytes × Bytes
label_of ip6_in_receives = ip6 "InReceives"
label_of ip6_in_hdr_errors = ip6 "InHdrErrors"
label_of ip6_in_too_big_errors = ip6 "InTooBigErrors"
label_of ip6_in_no_routes = ip6 "InNoRoutes"
label_of ip6_in_addr_errors = ip6 "InAddrErrors"
label_of ip6_in_unknown_protos = ip6 "InUnknownProtos"
label_of ip6_in_truncated_pkts = ip6 "InTruncatedPkts"
label_of ip6_in_discards = ip6 "InDiscards"
label_of ip6_in_delivers = ip6 "InDelivers"
label_of ip6_out_forw_datagrams = ip6 "OutForwDatagrams"
label_of ip6_out_requests = ip6 "OutRequests"
label_of ip6_out_discards = ip6 "OutDiscards"
label_of ip6_out_no_routes = ip6 "OutNoRoutes"
label_of ip6_reasm_timeout = ip6 "ReasmTimeout"
label_of ip6_reasm_reqds = ip6 "ReasmReqds"
label_of ip6_reasm_oks = ip6 "ReasmOKs"
label_of ip6_reasm_fails = ip6 "ReasmFails"
label_of ip6_frag_oks = ip6 "FragOKs"
label_of ip6_frag_fails = ip6 "FragFails"
label_of ip6_frag_creates = ip6 "FragCreates"
label_of ip6_in_mcast_pkts = ip6 "InMcastPkts"
label_of ip6_out_mcast_pkts = ip6 "OutMcastPkts"
label_of ip6_in_octets = ip6 "InOctets"
label_of ip6_out_octets = ip6 "OutOctets"
label_of ip6_in_mcast_octets = ip6 "InMcastOctets"
label_of ip6_out_mcast_octets = ip6 "OutMcastOctets"
label_of ip6_in_bcast_octets = ip6 "InBcastOctets"
label_of ip6_out_bcast_octets = ip6 "OutBcastOctets"
label_of ip6_in_no_ect_pkts = ip6 "InNoECTPkts"
label_of ip6_in_ect1_pkts = ip6 "InECT1Pkts"
label_of ip6_in_ect0_pkts = ip6 "InECT0Pkts"
label_of ip6_in_ce_pkts = ip6 "InCEPkts"
label_of icmp6_in_msgs = icmp6 "InMsgs"
label_of icmp6_in_errors = icmp6 "InErrors"
label_of icmp6_out_msgs = icmp6 "OutMsgs"
label_of icmp6_out_errors = icmp6 "OutErrors"
label_of icmp6_in_csum_errors = icmp6 "InCsumErrors"
label_of icmp6_in_dest_unreachs = icmp6 "InDestUnreachs"
label_of icmp6_in_pkt_too_bigs = icmp6 "InPktTooBigs"
label_of icmp6_in_time_excds = icmp6 "InTimeExcds"
label_of icmp6_in_parm_problems = icmp6 "InParmProblems"
label_of icmp6_in_echos = icmp6 "InEchos"
label_of icmp6_in_echo_replies = icmp6 "InEchoReplies"
label_of icmp6_in_group_memb_queries = icmp6 "InGroupMembQueries"
label_of icmp6_in_group_memb_responses = icmp6 "InGroupMembResponses"
label_of icmp6_in_group_memb_reductions = icmp6 "InGroupMembReductions"
label_of icmp6_in_router_solicits = icmp6 "InRouterSolicits"
label_of icmp6_in_router_advertisements = icmp6 "InRouterAdvertisements"
label_of icmp6_in_neighbor_solicits = icmp6 "InNeighborSolicits"
label_of icmp6_in_neighbor_advertisements = icmp6 "InNeighborAdvertisements"
label_of icmp6_in_redirects = icmp6 "InRedirects"
label_of icmp6_in_ml_dv2_reports = icmp6 "InMLDv2Reports"
label_of icmp6_out_dest_unreachs = icmp6 "OutDestUnreachs"
label_of icmp6_out_pkt_too_bigs = icmp6 "OutPktTooBigs"
label_of icmp6_out_time_excds = icmp6 "OutTimeExcds"
label_of icmp6_out_parm_problems = icmp6 "OutParmProblems"
label_of icmp6_out_echos = icmp6 "OutEchos"
label_of icmp6_out_echo_replies = icmp6 "OutEchoReplies"
label_of icmp6_out_group_memb_queries = icmp6 "OutGroupMembQueries"
label_of icmp6_out_group_memb_responses = icmp6 "OutGroupMembResponses"
label_of icmp6_out_group_memb_reductions = icmp6 "OutGroupMembReductions"
label_of icmp6_out_router_solicits = icmp6 "OutRouterSolicits"
label_of icmp6_out_router_advertisements = icmp6 "OutRouterAdvertisements"
label_of icmp6_out_neighbor_solicits = icmp6 "OutNeighborSolicits"
label_of icmp6_out_neighbor_advertisements = icmp6 "OutNeighborAdvertisements"
label_of icmp6_out_redirects = icmp6 "OutRedirects"
label_of icmp6_out_ml_dv2_reports = icmp6 "OutMLDv2Reports"
label_of icmp6_in_type1 = icmp6 "InType1"
label_of icmp6_in_type134 = icmp6 "InType134"
label_of icmp6_in_type135 = icmp6 "InType135"
label_of icmp6_in_type136 = icmp6 "InType136"
label_of icmp6_in_type143 = icmp6 "InType143"
label_of icmp6_out_type133 = icmp6 "OutType133"
label_of icmp6_out_type135 = icmp6 "OutType135"
label_of icmp6_out_type136 = icmp6 "OutType136"
label_of icmp6_out_type143 = icmp6 "OutType143"
label_of udp6_in_datagrams = udp6 "InDatagrams"
label_of udp6_no_ports = udp6 "NoPorts"
label_of udp6_in_errors = udp6 "InErrors"
label_of udp6_out_datagrams = udp6 "OutDatagrams"
label_of udp6_rcvbuf_errors = udp6 "RcvbufErrors"
label_of udp6_sndbuf_errors = udp6 "SndbufErrors"
label_of udp6_in_csum_errors = udp6 "InCsumErrors"
label_of udp6_ignored_multi = udp6 "IgnoredMulti"
label_of udp_lite6_in_datagrams = udp_lite6 "InDatagrams"
label_of udp_lite6_no_ports = udp_lite6 "NoPorts"
label_of udp_lite6_in_errors = udp_lite6 "InErrors"
label_of udp_lite6_out_datagrams = udp_lite6 "OutDatagrams"
label_of udp_lite6_rcvbuf_errors = udp_lite6 "RcvbufErrors"
label_of udp_lite6_sndbuf_errors = udp_lite6 "SndbufErrors"
label_of udp_lite6_in_csum_errors = udp_lite6 "InCsumErrors"

-- The value of a key.
unfoldable pub read : {F : Type 0} → Key → ProcSnmp6 F → Option F
read ip6_in_receives m = m.ip6.in_receives
read ip6_in_hdr_errors m = m.ip6.in_hdr_errors
read ip6_in_too_big_errors m = m.ip6.in_too_big_errors
read ip6_in_no_routes m = m.ip6.in_no_routes
read ip6_in_addr_errors m = m.ip6.in_addr_errors
read ip6_in_unknown_protos m = m.ip6.in_unknown_protos
read ip6_in_truncated_pkts m = m.ip6.in_truncated_pkts
read ip6_in_discards m = m.ip6.in_discards
read ip6_in_delivers m = m.ip6.in_delivers
read ip6_out_forw_datagrams m = m.ip6.out_forw_datagrams
read ip6_out_requests m = m.ip6.out_requests
read ip6_out_discards m = m.ip6.out_discards
read ip6_out_no_routes m = m.ip6.out_no_routes
read ip6_reasm_timeout m = m.ip6.reasm_timeout
read ip6_reasm_reqds m = m.ip6.reasm_reqds
read ip6_reasm_oks m = m.ip6.reasm_oks
read ip6_reasm_fails m = m.ip6.reasm_fails
read ip6_frag_oks m = m.ip6.frag_oks
read ip6_frag_fails m = m.ip6.frag_fails
read ip6_frag_creates m = m.ip6.frag_creates
read ip6_in_mcast_pkts m = m.ip6.in_mcast_pkts
read ip6_out_mcast_pkts m = m.ip6.out_mcast_pkts
read ip6_in_octets m = m.ip6.in_octets
read ip6_out_octets m = m.ip6.out_octets
read ip6_in_mcast_octets m = m.ip6.in_mcast_octets
read ip6_out_mcast_octets m = m.ip6.out_mcast_octets
read ip6_in_bcast_octets m = m.ip6.in_bcast_octets
read ip6_out_bcast_octets m = m.ip6.out_bcast_octets
read ip6_in_no_ect_pkts m = m.ip6.in_no_ect_pkts
read ip6_in_ect1_pkts m = m.ip6.in_ect1_pkts
read ip6_in_ect0_pkts m = m.ip6.in_ect0_pkts
read ip6_in_ce_pkts m = m.ip6.in_ce_pkts
read icmp6_in_msgs m = m.icmp6.in_msgs
read icmp6_in_errors m = m.icmp6.in_errors
read icmp6_out_msgs m = m.icmp6.out_msgs
read icmp6_out_errors m = m.icmp6.out_errors
read icmp6_in_csum_errors m = m.icmp6.in_csum_errors
read icmp6_in_dest_unreachs m = m.icmp6.in_dest_unreachs
read icmp6_in_pkt_too_bigs m = m.icmp6.in_pkt_too_bigs
read icmp6_in_time_excds m = m.icmp6.in_time_excds
read icmp6_in_parm_problems m = m.icmp6.in_parm_problems
read icmp6_in_echos m = m.icmp6.in_echos
read icmp6_in_echo_replies m = m.icmp6.in_echo_replies
read icmp6_in_group_memb_queries m = m.icmp6.in_group_memb_queries
read icmp6_in_group_memb_responses m = m.icmp6.in_group_memb_responses
read icmp6_in_group_memb_reductions m = m.icmp6.in_group_memb_reductions
read icmp6_in_router_solicits m = m.icmp6.in_router_solicits
read icmp6_in_router_advertisements m = m.icmp6.in_router_advertisements
read icmp6_in_neighbor_solicits m = m.icmp6.in_neighbor_solicits
read icmp6_in_neighbor_advertisements m = m.icmp6.in_neighbor_advertisements
read icmp6_in_redirects m = m.icmp6.in_redirects
read icmp6_in_ml_dv2_reports m = m.icmp6.in_ml_dv2_reports
read icmp6_out_dest_unreachs m = m.icmp6.out_dest_unreachs
read icmp6_out_pkt_too_bigs m = m.icmp6.out_pkt_too_bigs
read icmp6_out_time_excds m = m.icmp6.out_time_excds
read icmp6_out_parm_problems m = m.icmp6.out_parm_problems
read icmp6_out_echos m = m.icmp6.out_echos
read icmp6_out_echo_replies m = m.icmp6.out_echo_replies
read icmp6_out_group_memb_queries m = m.icmp6.out_group_memb_queries
read icmp6_out_group_memb_responses m = m.icmp6.out_group_memb_responses
read icmp6_out_group_memb_reductions m = m.icmp6.out_group_memb_reductions
read icmp6_out_router_solicits m = m.icmp6.out_router_solicits
read icmp6_out_router_advertisements m = m.icmp6.out_router_advertisements
read icmp6_out_neighbor_solicits m = m.icmp6.out_neighbor_solicits
read icmp6_out_neighbor_advertisements m = m.icmp6.out_neighbor_advertisements
read icmp6_out_redirects m = m.icmp6.out_redirects
read icmp6_out_ml_dv2_reports m = m.icmp6.out_ml_dv2_reports
read icmp6_in_type1 m = m.icmp6.in_type1
read icmp6_in_type134 m = m.icmp6.in_type134
read icmp6_in_type135 m = m.icmp6.in_type135
read icmp6_in_type136 m = m.icmp6.in_type136
read icmp6_in_type143 m = m.icmp6.in_type143
read icmp6_out_type133 m = m.icmp6.out_type133
read icmp6_out_type135 m = m.icmp6.out_type135
read icmp6_out_type136 m = m.icmp6.out_type136
read icmp6_out_type143 m = m.icmp6.out_type143
read udp6_in_datagrams m = m.udp6.in_datagrams
read udp6_no_ports m = m.udp6.no_ports
read udp6_in_errors m = m.udp6.in_errors
read udp6_out_datagrams m = m.udp6.out_datagrams
read udp6_rcvbuf_errors m = m.udp6.rcvbuf_errors
read udp6_sndbuf_errors m = m.udp6.sndbuf_errors
read udp6_in_csum_errors m = m.udp6.in_csum_errors
read udp6_ignored_multi m = m.udp6.ignored_multi
read udp_lite6_in_datagrams m = m.udp_lite6.in_datagrams
read udp_lite6_no_ports m = m.udp_lite6.no_ports
read udp_lite6_in_errors m = m.udp_lite6.in_errors
read udp_lite6_out_datagrams m = m.udp_lite6.out_datagrams
read udp_lite6_rcvbuf_errors m = m.udp_lite6.rcvbuf_errors
read udp_lite6_sndbuf_errors m = m.udp_lite6.sndbuf_errors
read udp_lite6_in_csum_errors m = m.udp_lite6.in_csum_errors

pub read-zero_proc_snmp6 : {F : Type 0} (k : Key) → read {F = F} k zero_proc_snmp6 ≡ none
unfolding read
read-zero_proc_snmp6 ip6_in_receives = refl
read-zero_proc_snmp6 _ = refl

-- The keys in the order of the cases, the place of each, and the fields in that order.
keys : List Key
unfolding members
keys = members cases

slot : Key → ℕ
unfolding position
slot key = position same_pair (label_of key) label_of keys

slots : {F : Type 0} → ProcSnmp6 F → List (Option F)
unfolding keys
slots m = map (λ key. read key m) keys

read-slots :
    {F : Type 0} (k : Key) (m : ProcSnmp6 F) (d : Option F) → read k m ≡ get_or (slots m) (slot k) d
unfolding read slots slot label_of bytes_eq
read-slots ip6_in_receives m d = refl
read-slots _ m d = refl

slots-set_key :
    {F : Type 0} (g : Key) (value : F) (m : ProcSnmp6 F)
    → slots (set_key g value m) ≡ put (slots m) (slot g) (some value)
unfolding set_key read slots slot put label_of bytes_eq
slots-set_key ip6_in_receives value m = refl
slots-set_key _ value m = refl

keys-slot : (k d : Key) → get_or keys (slot k) d ≡ k
unfolding keys slot label_of bytes_eq
keys-slot ip6_in_receives d = refl
keys-slot _ d = refl

slot-bound : {F : Type 0} (k : Key) (m : ProcSnmp6 F) → ltb (slot k) (length (slots m)) ≡ true
unfolding slots slot label_of bytes_eq
slot-bound ip6_in_receives m = refl
slot-bound _ m = refl

cases-finds : (k : Key) → find_in cases (label_of k) ≡ some k
unfolding label_of find_case bytes_eq
cases-finds ip6_in_receives = refl
cases-finds _ = refl

cases-found : check_in (λ label key. same_pair label (label_of key)) cases ≡ true
unfolding label_of bytes_eq check_in
cases-found = refl

pub set_key-Switch :
    {F : Type 0} → Switch same_pair (find_in cases) label_of (set_key {F = F}) read (λ k v. some v)
set_key-Switch = Numbered-Switch {slot = slot} {keys = keys} {slots = slots} (record {
  same_iff = same_pair_iff;
  found = λ l k e.
      (same_pair_iff l (label_of k)).0
        (found_in (λ label key. same_pair label (label_of key)) cases l cases-found e);
  finds = cases-finds;
  keys-slot = keys-slot;
  slot-bound = slot-bound;
  read-slots = read-slots;
  slots-set = slots-set_key;
})
