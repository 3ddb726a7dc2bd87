-- ===== src/Snmp/Keys.antt =====
-- proc_snmp.go: what the record holds for each key, and which protocol and name stand for it.
pub mod Cases
unfoldable pub use Cases.*
use procfs.Base.{
  ℕ, zero, suc, ltb, length, get_or, map, List, [], ◌∷◌, ◌++◌, ◌≡◌, refl, ◌↔◌, Bytes, String,
  Option, none, some, codes, All, bytes_eq, Bool, true, false,
}
use procfs.Go.Switch.{Switch, find_case, find_in, found_in, check_in, same_pair, same_pair_iff}
use procfs.Go.Switch.Slots.{Numbered, Numbered-Switch, put, position, members}
use procfs.Snmp.Types.{ProcSnmp, zero_proc_snmp}

abbrev ip : String → Bytes × Bytes
ip name = (codes "Ip", codes name)

abbrev icmp : String → Bytes × Bytes
icmp name = (codes "Icmp", codes name)

abbrev icmp_msg : String → Bytes × Bytes
icmp_msg name = (codes "IcmpMsg", codes name)

abbrev tcp : String → Bytes × Bytes
tcp name = (codes "Tcp", codes name)

abbrev udp : String → Bytes × Bytes
udp name = (codes "Udp", codes name)

abbrev udp_lite : String → Bytes × Bytes
udp_lite name = (codes "UdpLite", codes name)

-- The protocol and the name of a key.
unfoldable pub label_of : Key → Bytes × Bytes
label_of ip_forwarding = ip "Forwarding"
label_of ip_default_ttl = ip "DefaultTTL"
label_of ip_in_receives = ip "InReceives"
label_of ip_in_hdr_errors = ip "InHdrErrors"
label_of ip_in_addr_errors = ip "InAddrErrors"
label_of ip_forw_datagrams = ip "ForwDatagrams"
label_of ip_in_unknown_protos = ip "InUnknownProtos"
label_of ip_in_discards = ip "InDiscards"
label_of ip_in_delivers = ip "InDelivers"
label_of ip_out_requests = ip "OutRequests"
label_of ip_out_discards = ip "OutDiscards"
label_of ip_out_no_routes = ip "OutNoRoutes"
label_of ip_reasm_timeout = ip "ReasmTimeout"
label_of ip_reasm_reqds = ip "ReasmReqds"
label_of ip_reasm_oks = ip "ReasmOKs"
label_of ip_reasm_fails = ip "ReasmFails"
label_of ip_frag_oks = ip "FragOKs"
label_of ip_frag_fails = ip "FragFails"
label_of ip_frag_creates = ip "FragCreates"
label_of icmp_in_msgs = icmp "InMsgs"
label_of icmp_in_errors = icmp "InErrors"
label_of icmp_in_csum_errors = icmp "InCsumErrors"
label_of icmp_in_dest_unreachs = icmp "InDestUnreachs"
label_of icmp_in_time_excds = icmp "InTimeExcds"
label_of icmp_in_parm_probs = icmp "InParmProbs"
label_of icmp_in_src_quenchs = icmp "InSrcQuenchs"
label_of icmp_in_redirects = icmp "InRedirects"
label_of icmp_in_echos = icmp "InEchos"
label_of icmp_in_echo_reps = icmp "InEchoReps"
label_of icmp_in_timestamps = icmp "InTimestamps"
label_of icmp_in_timestamp_reps = icmp "InTimestampReps"
label_of icmp_in_addr_masks = icmp "InAddrMasks"
label_of icmp_in_addr_mask_reps = icmp "InAddrMaskReps"
label_of icmp_out_msgs = icmp "OutMsgs"
label_of icmp_out_errors = icmp "OutErrors"
label_of icmp_out_dest_unreachs = icmp "OutDestUnreachs"
label_of icmp_out_time_excds = icmp "OutTimeExcds"
label_of icmp_out_parm_probs = icmp "OutParmProbs"
label_of icmp_out_src_quenchs = icmp "OutSrcQuenchs"
label_of icmp_out_redirects = icmp "OutRedirects"
label_of icmp_out_echos = icmp "OutEchos"
label_of icmp_out_echo_reps = icmp "OutEchoReps"
label_of icmp_out_timestamps = icmp "OutTimestamps"
label_of icmp_out_timestamp_reps = icmp "OutTimestampReps"
label_of icmp_out_addr_masks = icmp "OutAddrMasks"
label_of icmp_out_addr_mask_reps = icmp "OutAddrMaskReps"
label_of icmp_msg_in_type3 = icmp_msg "InType3"
label_of icmp_msg_out_type3 = icmp_msg "OutType3"
label_of tcp_rto_algorithm = tcp "RtoAlgorithm"
label_of tcp_rto_min = tcp "RtoMin"
label_of tcp_rto_max = tcp "RtoMax"
label_of tcp_max_conn = tcp "MaxConn"
label_of tcp_active_opens = tcp "ActiveOpens"
label_of tcp_passive_opens = tcp "PassiveOpens"
label_of tcp_attempt_fails = tcp "AttemptFails"
label_of tcp_estab_resets = tcp "EstabResets"
label_of tcp_curr_estab = tcp "CurrEstab"
label_of tcp_in_segs = tcp "InSegs"
label_of tcp_out_segs = tcp "OutSegs"
label_of tcp_retrans_segs = tcp "RetransSegs"
label_of tcp_in_errs = tcp "InErrs"
label_of tcp_out_rsts = tcp "OutRsts"
label_of tcp_in_csum_errors = tcp "InCsumErrors"
label_of udp_in_datagrams = udp "InDatagrams"
label_of udp_no_ports = udp "NoPorts"
label_of udp_in_errors = udp "InErrors"
label_of udp_out_datagrams = udp "OutDatagrams"
label_of udp_rcvbuf_errors = udp "RcvbufErrors"
label_of udp_sndbuf_errors = udp "SndbufErrors"
label_of udp_in_csum_errors = udp "InCsumErrors"
label_of udp_ignored_multi = udp "IgnoredMulti"
label_of udp_lite_in_datagrams = udp_lite "InDatagrams"
label_of udp_lite_no_ports = udp_lite "NoPorts"
label_of udp_lite_in_errors = udp_lite "InErrors"
label_of udp_lite_out_datagrams = udp_lite "OutDatagrams"
label_of udp_lite_rcvbuf_errors = udp_lite "RcvbufErrors"
label_of udp_lite_sndbuf_errors = udp_lite "SndbufErrors"
label_of udp_lite_in_csum_errors = udp_lite "InCsumErrors"
label_of udp_lite_ignored_multi = udp_lite "IgnoredMulti"

-- The value of a key.
unfoldable pub read : {F : Type 0} → Key → ProcSnmp F → Option F
read ip_forwarding m = m.ip.forwarding
read ip_default_ttl m = m.ip.default_ttl
read ip_in_receives m = m.ip.in_receives
read ip_in_hdr_errors m = m.ip.in_hdr_errors
read ip_in_addr_errors m = m.ip.in_addr_errors
read ip_forw_datagrams m = m.ip.forw_datagrams
read ip_in_unknown_protos m = m.ip.in_unknown_protos
read ip_in_discards m = m.ip.in_discards
read ip_in_delivers m = m.ip.in_delivers
read ip_out_requests m = m.ip.out_requests
read ip_out_discards m = m.ip.out_discards
read ip_out_no_routes m = m.ip.out_no_routes
read ip_reasm_timeout m = m.ip.reasm_timeout
read ip_reasm_reqds m = m.ip.reasm_reqds
read ip_reasm_oks m = m.ip.reasm_oks
read ip_reasm_fails m = m.ip.reasm_fails
read ip_frag_oks m = m.ip.frag_oks
read ip_frag_fails m = m.ip.frag_fails
read ip_frag_creates m = m.ip.frag_creates
read icmp_in_msgs m = m.icmp.in_msgs
read icmp_in_errors m = m.icmp.in_errors
read icmp_in_csum_errors m = m.icmp.in_csum_errors
read icmp_in_dest_unreachs m = m.icmp.in_dest_unreachs
read icmp_in_time_excds m = m.icmp.in_time_excds
read icmp_in_parm_probs m = m.icmp.in_parm_probs
read icmp_in_src_quenchs m = m.icmp.in_src_quenchs
read icmp_in_redirects m = m.icmp.in_redirects
read icmp_in_echos m = m.icmp.in_echos
read icmp_in_echo_reps m = m.icmp.in_echo_reps
read icmp_in_timestamps m = m.icmp.in_timestamps
read icmp_in_timestamp_reps m = m.icmp.in_timestamp_reps
read icmp_in_addr_masks m = m.icmp.in_addr_masks
read icmp_in_addr_mask_reps m = m.icmp.in_addr_mask_reps
read icmp_out_msgs m = m.icmp.out_msgs
read icmp_out_errors m = m.icmp.out_errors
read icmp_out_dest_unreachs m = m.icmp.out_dest_unreachs
read icmp_out_time_excds m = m.icmp.out_time_excds
read icmp_out_parm_probs m = m.icmp.out_parm_probs
read icmp_out_src_quenchs m = m.icmp.out_src_quenchs
read icmp_out_redirects m = m.icmp.out_redirects
read icmp_out_echos m = m.icmp.out_echos
read icmp_out_echo_reps m = m.icmp.out_echo_reps
read icmp_out_timestamps m = m.icmp.out_timestamps
read icmp_out_timestamp_reps m = m.icmp.out_timestamp_reps
read icmp_out_addr_masks m = m.icmp.out_addr_masks
read icmp_out_addr_mask_reps m = m.icmp.out_addr_mask_reps
read icmp_msg_in_type3 m = m.icmp_msg.in_type3
read icmp_msg_out_type3 m = m.icmp_msg.out_type3
read tcp_rto_algorithm m = m.tcp.rto_algorithm
read tcp_rto_min m = m.tcp.rto_min
read tcp_rto_max m = m.tcp.rto_max
read tcp_max_conn m = m.tcp.max_conn
read tcp_active_opens m = m.tcp.active_opens
read tcp_passive_opens m = m.tcp.passive_opens
read tcp_attempt_fails m = m.tcp.attempt_fails
read tcp_estab_resets m = m.tcp.estab_resets
read tcp_curr_estab m = m.tcp.curr_estab
read tcp_in_segs m = m.tcp.in_segs
read tcp_out_segs m = m.tcp.out_segs
read tcp_retrans_segs m = m.tcp.retrans_segs
read tcp_in_errs m = m.tcp.in_errs
read tcp_out_rsts m = m.tcp.out_rsts
read tcp_in_csum_errors m = m.tcp.in_csum_errors
read udp_in_datagrams m = m.udp.in_datagrams
read udp_no_ports m = m.udp.no_ports
read udp_in_errors m = m.udp.in_errors
read udp_out_datagrams m = m.udp.out_datagrams
read udp_rcvbuf_errors m = m.udp.rcvbuf_errors
read udp_sndbuf_errors m = m.udp.sndbuf_errors
read udp_in_csum_errors m = m.udp.in_csum_errors
read udp_ignored_multi m = m.udp.ignored_multi
read udp_lite_in_datagrams m = m.udp_lite.in_datagrams
read udp_lite_no_ports m = m.udp_lite.no_ports
read udp_lite_in_errors m = m.udp_lite.in_errors
read udp_lite_out_datagrams m = m.udp_lite.out_datagrams
read udp_lite_rcvbuf_errors m = m.udp_lite.rcvbuf_errors
read udp_lite_sndbuf_errors m = m.udp_lite.sndbuf_errors
read udp_lite_in_csum_errors m = m.udp_lite.in_csum_errors
read udp_lite_ignored_multi m = m.udp_lite.ignored_multi

pub read-zero_proc_snmp : {F : Type 0} (k : Key) → read {F = F} k zero_proc_snmp ≡ none
unfolding read
read-zero_proc_snmp ip_forwarding = refl
read-zero_proc_snmp _ = refl

-- The keys in the order of the cases, the place of each, and the fields in that order.
keys : List Key
unfolding members
keys = members cases

slot : Key → ℕ
unfolding position
slot key = position same_pair (label_of key) label_of keys

slots : {F : Type 0} → ProcSnmp F → List (Option F)
unfolding keys
slots m = map (λ key. read key m) keys

read-slots :
    {F : Type 0} (k : Key) (m : ProcSnmp F) (d : Option F) → read k m ≡ get_or (slots m) (slot k) d
unfolding read slots slot label_of bytes_eq
read-slots ip_forwarding m d = refl
read-slots _ m d = refl

slots-set_key :
    {F : Type 0} (g : Key) (value : F) (m : ProcSnmp F)
    → slots (set_key g value m) ≡ put (slots m) (slot g) (some value)
unfolding set_key read slots slot put label_of bytes_eq
slots-set_key ip_forwarding value m = refl
slots-set_key _ value m = refl

keys-slot : (k d : Key) → get_or keys (slot k) d ≡ k
unfolding keys slot label_of bytes_eq
keys-slot ip_forwarding d = refl
keys-slot _ d = refl

slot-bound : {F : Type 0} (k : Key) (m : ProcSnmp F) → ltb (slot k) (length (slots m)) ≡ true
unfolding slots slot label_of bytes_eq
slot-bound ip_forwarding m = refl
slot-bound _ m = refl

cases-finds : (k : Key) → find_in cases (label_of k) ≡ some k
unfolding label_of find_case bytes_eq
cases-finds ip_forwarding = refl
cases-finds _ = refl

cases-found : check_in (λ label key. same_pair label (label_of key)) cases ≡ true
unfolding label_of bytes_eq check_in
cases-found = refl

pub set_key-Switch :
    {F : Type 0} → Switch same_pair (find_in cases) label_of (set_key {F = F}) read (λ k v. some v)
set_key-Switch = Numbered-Switch {slot = slot} {keys = keys} {slots = slots} (record {
  same_iff = same_pair_iff;
  found = λ l k e.
      (same_pair_iff l (label_of k)).0
        (found_in (λ label key. same_pair label (label_of key)) cases l cases-found e);
  finds = cases-finds;
  keys-slot = keys-slot;
  slot-bound = slot-bound;
  read-slots = read-slots;
  slots-set = slots-set_key;
})
