-- ===== src/Tests/Sockets.antt =====
-- /proc/net/tcp and /proc/net/udp: runs and instances.
use procfs.Base.{
  [], ◌∷◌, ◌++◌, Bytes, ◌≡◌, refl, codes, arith, inl, inr, some, true, map, All, subst,
}
use procfs.Go.Files.{Files, limit_reader}
use procfs.Go.Hex.{decode_string}
use procfs.Go.Lines.{Spelled}
use procfs.Go.Result.{ok, panic, Returns, ok-injective, ◌>>=◌, each}
use procfs.Go.Scanner.{Reader, reader, scan_rest}
use procfs.Go.Strconv.{parse_uint}
use procfs.Go.Text.{fields, contains, split}
use procfs.Sockets.Addresses.{ip_text, parse_ip-ip_text}
use procfs.Sockets.Line.{NetIpSocketLine, parse_ip, parse_net_ip_socket_line}
use procfs.Sockets.Rows.{Row, words_of, Describes, new_net_ip_socket-rows}
use procfs.Sockets.Summary.{summary_of, new_net_ip_socket_summary-new_net_ip_socket}
use procfs.Sockets.Total.{NoneOrAll, new_net_ip_socket-Returns}
use procfs.Sockets.{new_net_ip_socket, new_net_ip_socket_summary, read_limit}

-- 127.0.0.1
abbrev localhost : Bytes
localhost = 127 ∷ 0 ∷ 0 ∷ 1 ∷ []

localhost_test : ip_text localhost ≡ codes "0100007F"
localhost_test = refl

parse_ip-ip_text_example : parse_ip (ip_text localhost) ≡ ok localhost
parse_ip-ip_text_example = parse_ip-ip_text localhost (inl refl, omega arith)

abbrev row : Row
row = record {
  sl = codes "0";
  sl_end = [];
  local_addr = 10 ∷ 0 ∷ 0 ∷ 5 ∷ [];
  local_port = codes "0016";
  rem_addr = 0 ∷ 0 ∷ 0 ∷ 0 ∷ [];
  rem_port = codes "0000";
  st = codes "0A";
  tx_queue = codes "00000000";
  rx_queue = codes "00000001";
  tr_tm_when = codes "00:00000000";
  retrnsmt = codes "00000000";
  uid = codes "0";
  timeout = codes "0";
  inode = codes "2740";
  more = codes "1" ∷ codes "ffff88003d3af3c0" ∷ codes "100" ∷ [];
}

abbrev socket : NetIpSocketLine
socket = record {
  sl = 0;
  local_addr = 10 ∷ 0 ∷ 0 ∷ 5 ∷ [];
  local_port = 22;
  rem_addr = 0 ∷ 0 ∷ 0 ∷ 0 ∷ [];
  rem_port = 0;
  st = 10;
  tx_queue = 0;
  rx_queue = 1;
  uid = 0;
  inode = 2740;
  drops = some 100;
}

abbrev input : Reader
input = reader (
    codes "  sl  local_address rem_address   st\n"
    ++ codes
        "   0: 0500000A:0016 00000000:0000 0A 00000000:00000001 00:00000000 00000000     0        0 2740 1 ffff88003d3af3c0 100\n")

-- Every file is this one.
abbrev files : Files
files path = inr input

row-Describes : Describes true row socket
unfolding parse_uint each
row-Describes = record {
  sl = refl;
  local_addr = refl;
  local_port = refl;
  rem_addr = refl;
  rem_port = refl;
  st = refl;
  tx_queue = refl;
  rx_queue = refl;
  uid = refl;
  inode = refl;
  drops = refl;
  addresses = ((inl refl, omega arith), (inl refl, omega arith));
  no_colon = (omega arith, omega arith, omega arith, omega arith, omega arith, omega arith);
}

input-Spelled : Spelled (scan_rest (limit_reader read_limit input)).lines (map words_of (row ∷ []))
unfolding scan_rest fields
input-Spelled = (refl, tt)

input-NoneOrAll : All NoneOrAll (scan_rest (limit_reader read_limit input)).lines
unfolding scan_rest fields
input-NoneOrAll = (inr (omega arith), tt)

new_net_ip_socket-rows_example : new_net_ip_socket files "/proc/net/udp" ≡ ok (socket ∷ [])
unfolding scan_rest contains
new_net_ip_socket-rows_example =
    new_net_ip_socket-rows files "/proc/net/udp" input ((row, socket) ∷ []) refl refl input-Spelled
      (row-Describes, tt)

new_net_ip_socket_summary-new_net_ip_socket_example :
    new_net_ip_socket_summary files "/proc/net/udp" ≡ (
      new_net_ip_socket files "/proc/net/udp" >>= λ sockets.
      ok (summary_of (contains (codes "/proc/net/udp") (codes "udp")) sockets))
new_net_ip_socket_summary-new_net_ip_socket_example =
    new_net_ip_socket_summary-new_net_ip_socket files "/proc/net/udp"

new_net_ip_socket-Returns_example : Returns (new_net_ip_socket files "/proc/net/udp")
new_net_ip_socket-Returns_example = new_net_ip_socket-Returns files "/proc/net/udp" λ f opens udp.
    subst (λ f. All NoneOrAll (scan_rest (limit_reader read_limit f)).lines) (ok-injective opens)
      input-NoneOrAll

-- A UDP line of ten columns.
narrow_test :
    parse_net_ip_socket_line
      (fields
        (codes "0: 0500000A:0016 00000000:0000 0A 00000000:00000001 00:00000000 00000000 0 0 2740"))
      true
    ≡ panic
unfolding parse_net_ip_socket_line fields split parse_uint each decode_string
narrow_test = refl
