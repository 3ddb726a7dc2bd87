-- ===== src/Sockets.antt =====
-- net_ip_socket.go, net_tcp.go and net_udp.go: the TCP and UDP sockets from /proc/net/{t,u}dp{,6}. A
-- method reads a file below the mount point; `path` is the method `Path` of the mount point.
pub mod Line
pub mod Summary
pub mod Addresses
pub mod Rows
pub mod Total
use procfs.Base.{
  ℕ, ◌+◌, ◌%◌, ◌^◌, Bool, List, [], ◌∷◌, ◌++◌, Bytes, String, codes, Option, none, some,
  if◌then◌else◌,
}
use procfs.Go.Files.{Files, open_file, limit_reader}
use procfs.Go.Result.{Result, ok, panic, ◌>>=◌, each}
use procfs.Go.Scanner.{scan_rest, scan_err}
use procfs.Go.Text.{fields, contains}
use procfs.Sockets.Line.{NetIpSocketLine, parse_net_ip_socket_line}

abbrev pub read_limit : ℕ
read_limit = 4294967296

pub record NetIpSocketSummary : Type 0 where
  pub tx_queue_length : ℕ
  pub rx_queue_length : ℕ
  pub used_sockets : ℕ
  pub drops : Option ℕ

-- A round of the loop of `newNetIPSocket`.
unfoldable pub socket_line : Bool → List NetIpSocketLine → Bytes → Result (List NetIpSocketLine)
socket_line is_udp net_ip_socket text = do
  line ← parse_net_ip_socket_line (fields text) is_udp
  ok (net_ip_socket ++ line ∷ [])

unfoldable pub new_net_ip_socket : Files → String → Result (List NetIpSocketLine)
unfolding socket_line
new_net_ip_socket files file = do
  f ← open_file files file
  let is_udp = contains (codes file) (codes "udp")
  let s = scan_rest (limit_reader read_limit f)
  net_ip_socket ← each (socket_line is_udp) [] s.lines
  scan_err (λ e. e) s.fault net_ip_socket

-- `*p`
abbrev pub deref : Option ℕ → Result ℕ
deref none = panic
deref (some n) = ok n

-- A round of the loop of `newNetIPSocketSummary`. The pointer `Drops` is to the variable
-- `udpPacketDrops`, so that it is set to the sum in every round.
unfoldable pub summary_line :
    Bool → NetIpSocketSummary × ℕ → Bytes → Result (NetIpSocketSummary × ℕ)
summary_line is_udp (summary, udp_packet_drops) text = do
  line ← parse_net_ip_socket_line (fields text) is_udp
  let queues = record summary {
    tx_queue_length = (summary.tx_queue_length + line.tx_queue) % 2 ^ 64;
    rx_queue_length = (summary.rx_queue_length + line.rx_queue) % 2 ^ 64;
    used_sockets = (summary.used_sockets + 1) % 2 ^ 64;
  }
  if is_udp
      then (do
        drops ← deref line.drops
        let sum = (udp_packet_drops + drops) % 2 ^ 64
        ok (record queues { drops = some sum }, sum))
      else ok (queues, udp_packet_drops)

abbrev pub zero_net_ip_socket_summary : NetIpSocketSummary
zero_net_ip_socket_summary = record {
  tx_queue_length = 0;
  rx_queue_length = 0;
  used_sockets = 0;
  drops = none;
}

unfoldable pub new_net_ip_socket_summary : Files → String → Result NetIpSocketSummary
unfolding summary_line
new_net_ip_socket_summary files file = do
  f ← open_file files file
  let is_udp = contains (codes file) (codes "udp")
  let s = scan_rest (limit_reader read_limit f)
  state ← each (summary_line is_udp) (zero_net_ip_socket_summary, 0) s.lines
  scan_err (λ e. e) s.fault state.0

-- The conversions between the types of net_tcp.go, net_udp.go and net_ip_socket.go keep the value.
unfoldable pub new_net_tcp : Files → String → Result (List NetIpSocketLine)
unfolding new_net_ip_socket
new_net_tcp = new_net_ip_socket

unfoldable pub new_net_tcp_summary : Files → String → Result NetIpSocketSummary
unfolding new_net_ip_socket_summary
new_net_tcp_summary = new_net_ip_socket_summary

unfoldable pub new_net_udp : Files → String → Result (List NetIpSocketLine)
unfolding new_net_ip_socket
new_net_udp = new_net_ip_socket

unfoldable pub new_net_udp_summary : Files → String → Result NetIpSocketSummary
unfolding new_net_ip_socket_summary
new_net_udp_summary = new_net_ip_socket_summary

module _ (path : String → String) (files : Files) where
  unfoldable pub net_tcp : Result (List NetIpSocketLine)
  unfolding new_net_tcp
  net_tcp = new_net_tcp files (path "net/tcp")

  unfoldable pub net_tcp6 : Result (List NetIpSocketLine)
  unfolding new_net_tcp
  net_tcp6 = new_net_tcp files (path "net/tcp6")

  unfoldable pub net_tcp_summary : Result NetIpSocketSummary
  unfolding new_net_tcp_summary
  net_tcp_summary = new_net_tcp_summary files (path "net/tcp")

  unfoldable pub net_tcp6_summary : Result NetIpSocketSummary
  unfolding new_net_tcp_summary
  net_tcp6_summary = new_net_tcp_summary files (path "net/tcp6")

  unfoldable pub net_udp : Result (List NetIpSocketLine)
  unfolding new_net_udp
  net_udp = new_net_udp files (path "net/udp")

  unfoldable pub net_udp6 : Result (List NetIpSocketLine)
  unfolding new_net_udp
  net_udp6 = new_net_udp files (path "net/udp6")

  unfoldable pub net_udp_summary : Result NetIpSocketSummary
  unfolding new_net_udp_summary
  net_udp_summary = new_net_udp_summary files (path "net/udp")

  unfoldable pub net_udp6_summary : Result NetIpSocketSummary
  unfolding new_net_udp_summary
  net_udp6_summary = new_net_udp_summary files (path "net/udp6")
