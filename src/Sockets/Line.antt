-- ===== src/Sockets/Line.antt =====
-- net_ip_socket.go: a line of a socket file.
use procfs.Base.{
  ℕ, Bool, List, [], ◌∷◌, Bytes, String, Option, none, some, length, ltb, ◌==◌, ◌!=◌, if◌then◌else◌,
}
use procfs.Go.Hex.{decode_string}
use procfs.Go.Result.{Result, ok, err, panic, file_parse, wrap, wrap₂, ◌>>=◌, ◌>>◌, fail_if, ◌!!◌}
use procfs.Go.Strconv.{parse_uint}
use procfs.Go.Text.{split}

pub record NetIpSocketLine : Type 0 where
  pub sl : ℕ
  pub local_addr : Bytes
  pub local_port : ℕ
  pub rem_addr : Bytes
  pub rem_port : ℕ
  pub st : ℕ
  pub tx_queue : ℕ
  pub rx_queue : ℕ
  pub uid : ℕ
  pub inode : ℕ
  pub drops : Option ℕ

-- `if err != nil { return nil, fmt.Errorf("%w: …: %w", ErrFileParse, …, err) }`
abbrev pub reporting : {A : Type 0} → String → Result A → Result A
reporting text (ok a) = ok a
reporting text (err e) = err (wrap₂ text file_parse e)
reporting text panic = panic

-- The cells of a literal that stand at some indices.
unfoldable pub picked : List ℕ → List ℕ → Result (List ℕ)
picked v [] = ok []
picked v (i ∷ is) = do x ← v !! i; rest ← picked v is; ok (x ∷ rest)

unfoldable pub parse_ip : Bytes → Result Bytes
unfolding picked
parse_ip hex_ip = do
  byte_ip ← reporting "%w: Cannot parse socket field in %q: %w" (decode_string hex_ip)
  if length byte_ip == 4
      then picked byte_ip (3 ∷ 2 ∷ 1 ∷ 0 ∷ [])
      else if length byte_ip == 16
      then picked byte_ip (3 ∷ 2 ∷ 1 ∷ 0 ∷ 7 ∷ 6 ∷ 5 ∷ 4 ∷ 11 ∷ 10 ∷ 9 ∷ 8 ∷ 15 ∷ 14 ∷ 13 ∷ 12 ∷ [])
      else err (wrap "%w: Unable to parse IP %s: %v" file_parse)

-- The two parts of a field with one colon.
unfoldable pub colon_parts : String → Bytes → Result (Bytes × Bytes)
colon_parts text field = do
  let parts = split field b':'
  fail_if (length parts != 2) (wrap text file_parse)
  first ← parts !! 0
  second ← parts !! 1
  ok (first, second)

-- An address with its port.
unfoldable pub address_port : String → String → Bytes → Result (Bytes × ℕ)
unfolding parse_ip colon_parts
address_port parts_text port_text field = do
  (addr_text, port) ← colon_parts parts_text field
  addr ← parse_ip addr_text
  n ← reporting port_text (parse_uint port 16 64)
  ok (addr, n)

-- The column that only UDP has.
unfoldable pub drops_field : List Bytes → Bool → Result (Option ℕ)
drops_field fs is_udp =
    if is_udp
    then (do
      text ← fs !! 12
      drops ← reporting "%w: Cannot parse drops value in %q: %w" (parse_uint text 0 64)
      ok (some drops))
    else ok none

-- The columns that all files have.
unfoldable pub socket_columns : List Bytes → Result NetIpSocketLine
unfolding colon_parts address_port
socket_columns fs = do
  fail_if (ltb (length fs) 10) (wrap "%w: Less than 10 columns found %q" file_parse)
  sl_field ← fs !! 0
  (s, _) ← colon_parts "%w: Unable to parse sl field in line %q" sl_field
  sl ← reporting "%w: Unable to parse sl field in %q: %w" (parse_uint s 0 64)
  local ← fs !! 1
  (local_addr, local_port) ←
      address_port "%w: Unable to parse local_address field in %q"
        "%w: Unable to parse local_address port value line %q: %w" local
  rem ← fs !! 2
  (rem_addr, rem_port) ←
      address_port "%w: Unable to parse rem_address field in %q"
        "%w: Cannot parse rem_address port value in %q: %w" rem
  st_field ← fs !! 3
  st ← reporting "%w: Cannot parse st value in %q: %w" (parse_uint st_field 16 64)
  queues ← fs !! 4
  (tx, rx) ← colon_parts "%w: Missing colon for tx/rx queues in socket line %q" queues
  tx_queue ← reporting "%w: Cannot parse tx_queue value in %q: %w" (parse_uint tx 16 64)
  rx_queue ← reporting "%w: Cannot parse trx_queue value in %q: %w" (parse_uint rx 16 64)
  uid_field ← fs !! 7
  uid ← reporting "%w: Cannot parse UID value in %q: %w" (parse_uint uid_field 0 64)
  inode_field ← fs !! 9
  inode ← reporting "%w: Cannot parse inode value in %q: %w" (parse_uint inode_field 0 64)
  ok (record {
    sl = sl;
    local_addr = local_addr;
    local_port = local_port;
    rem_addr = rem_addr;
    rem_port = rem_port;
    st = st;
    tx_queue = tx_queue;
    rx_queue = rx_queue;
    uid = uid;
    inode = inode;
    drops = none;
  })

unfoldable pub parse_net_ip_socket_line : List Bytes → Bool → Result NetIpSocketLine
unfolding socket_columns drops_field
parse_net_ip_socket_line fs is_udp = do
  line ← socket_columns fs
  drops ← drops_field fs is_udp
  ok (record line { drops = drops })
