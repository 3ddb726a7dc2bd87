-- ===== src/Sockets/Rows.antt =====
-- net_ip_socket.go: socket files by the columns of their lines.
use procfs.Base.{
  ℕ, Bool, true, false, List, [], ◌∷◌, ◌++◌, Bytes, String, codes, Option, none, some, map, All,
  length, ltb, arith, ◌≡◌, refl, append-nil, append_assoc,
}
use procfs.Go.Files.{Files, open_file, limit_reader}
use procfs.Go.Lines.{Spelled}
use procfs.Go.Result.{ok, each}
use procfs.Go.Scanner.{Reader, scan_rest}
use procfs.Go.Strconv.{parse_uint}
use procfs.Go.Text.Parts.{Lacks, split_at, split_whole}
use procfs.Go.Text.{contains}
use procfs.Sockets.Addresses.{IsIp, ip_text, ip_text-Lacks, parse_ip-ip_text}
use procfs.Sockets.Line.{
  NetIpSocketLine, colon_parts, address_port, drops_field, socket_columns, parse_net_ip_socket_line,
}
use procfs.Sockets.{new_net_ip_socket, socket_line, read_limit}

-- A line: the texts of its numbers, and its addresses.
pub record Row : Type 0 where
  pub sl : Bytes
  pub sl_end : Bytes
  pub local_addr : Bytes
  pub local_port : Bytes
  pub rem_addr : Bytes
  pub rem_port : Bytes
  pub st : Bytes
  pub tx_queue : Bytes
  pub rx_queue : Bytes
  pub tr_tm_when : Bytes
  pub retrnsmt : Bytes
  pub uid : Bytes
  pub timeout : Bytes
  pub inode : Bytes
  pub more : List Bytes

abbrev colon : Bytes → Bytes → Bytes
colon p q = p ++ (b':' ∷ q)

abbrev pub words_of : Row → List Bytes
words_of r =
    colon r.sl r.sl_end
    ∷ colon (ip_text r.local_addr) r.local_port
    ∷ colon (ip_text r.rem_addr) r.rem_port
    ∷ r.st
    ∷ colon r.tx_queue r.rx_queue
    ∷ r.tr_tm_when
    ∷ r.retrnsmt
    ∷ r.uid
    ∷ r.timeout
    ∷ r.inode
    ∷ r.more

abbrev Number : ℕ → Bytes → ℕ → Type 0
Number base text n = parse_uint text base 64 ≡ ok n

-- The third word behind the inode of a UDP socket, and nothing of a TCP socket.
abbrev pub DropsRead : Bool → List Bytes → Option ℕ → Type 0
DropsRead true (x ∷ y ∷ text ∷ more) (some n) = Number 0 text n
DropsRead true _ _ = ⊥
DropsRead false more drops = drops ≡ none

-- A line describes a socket: `ParseUint` reads its numbers, and colons only stand between parts.
pub record Describes (is_udp : Bool) (r : Row) (s : NetIpSocketLine) : Type 0 where
  pub sl : Number 0 r.sl s.sl
  pub local_addr : r.local_addr ≡ s.local_addr
  pub local_port : Number 16 r.local_port s.local_port
  pub rem_addr : r.rem_addr ≡ s.rem_addr
  pub rem_port : Number 16 r.rem_port s.rem_port
  pub st : Number 16 r.st s.st
  pub tx_queue : Number 16 r.tx_queue s.tx_queue
  pub rx_queue : Number 16 r.rx_queue s.rx_queue
  pub uid : Number 0 r.uid s.uid
  pub inode : Number 0 r.inode s.inode
  pub drops : DropsRead is_udp r.more s.drops
  pub addresses : IsIp r.local_addr × IsIp r.rem_addr
  pub no_colon :
      Lacks b':' r.sl
      × Lacks b':' r.sl_end
      × Lacks b':' r.local_port
      × Lacks b':' r.rem_port
      × Lacks b':' r.tx_queue
      × Lacks b':' r.rx_queue

colon_parts-colon :
    (text : String) (p q : Bytes)
    → Lacks b':' p
    → Lacks b':' q
    → colon_parts text (colon p q) ≡ ok (p, q)
unfolding colon_parts
colon_parts-colon text p q h k = rw (split_at b':' p q h, split_whole b':' q k) refl

address_port-colon :
    (text text' : String) (ip port : Bytes) (n : ℕ)
    → IsIp ip
    → Lacks b':' port
    → Number 16 port n
    → address_port text text' (colon (ip_text ip) port) ≡ ok (ip, n)
unfolding address_port
address_port-colon text text' ip port n good h read =
    rw
      (
        colon_parts-colon text (ip_text ip) port (ip_text-Lacks ip good) h,
        parse_ip-ip_text ip good,
        read,
      )
      refl

socket_columns-words_of :
    (is_udp : Bool) (r : Row) (s : NetIpSocketLine)
    → Describes is_udp r s
    → socket_columns (words_of r) ≡ ok (record s { drops = none })
unfolding socket_columns
socket_columns-words_of is_udp r s d =
    let (a, b, c, e, f, g) = d.no_colon in
    let enough : ltb (length (words_of r)) 10 ≡ false = ground arith in
    rw
      (
        enough,
        colon_parts-colon "%w: Unable to parse sl field in line %q" r.sl r.sl_end a b,
        d.sl,
        address_port-colon _ _ r.local_addr r.local_port s.local_port d.addresses.0 c d.local_port,
        address_port-colon _ _ r.rem_addr r.rem_port s.rem_port d.addresses.1 e d.rem_port,
        d.st,
        colon_parts-colon "%w: Missing colon for tx/rx queues in socket line %q" r.tx_queue
            r.rx_queue f g,
        d.tx_queue,
        d.rx_queue,
        d.uid,
        d.inode,
        d.local_addr,
        d.rem_addr,
      )
      refl

drops_field-DropsRead :
    (is_udp : Bool) (r : Row) (drops : Option ℕ)
    → DropsRead is_udp r.more drops
    → drops_field (words_of r) is_udp ≡ ok drops
unfolding drops_field
drops_field-DropsRead is_udp r drops h = go is_udp r r.more refl drops h
  where
    go :
        (is_udp : Bool) (r : Row) (more : List Bytes)
        → r.more ≡ more
        → (drops : Option ℕ) → DropsRead is_udp more drops
        → drops_field (words_of r) is_udp ≡ ok drops
    go true r [] e drops h = absurd h
    go true r (x ∷ []) e drops h = absurd h
    go true r (x ∷ y ∷ []) e drops h = absurd h
    go true r (x ∷ y ∷ text ∷ more) e none h = absurd h
    go true r (x ∷ y ∷ text ∷ more) e (some n) h = rw (e, h) refl
    go false r more e drops h = rw h refl

parse_net_ip_socket_line-words_of :
    (is_udp : Bool) (r : Row) (s : NetIpSocketLine)
    → Describes is_udp r s
    → parse_net_ip_socket_line (words_of r) is_udp ≡ ok s
unfolding parse_net_ip_socket_line
parse_net_ip_socket_line-words_of is_udp r s d =
    rw (socket_columns-words_of is_udp r s d, drops_field-DropsRead is_udp r s.drops d.drops) refl

each-socket_line :
    (is_udp : Bool) (rows : List (Row × NetIpSocketLine)) (lines : List Bytes)
    (sockets : List NetIpSocketLine)
    → Spelled lines (map (λ (p : Row × NetIpSocketLine). words_of p.0) rows)
    → All (λ (p : Row × NetIpSocketLine). Describes is_udp p.0 p.1) rows
    → each (socket_line is_udp) sockets lines ≡ ok (sockets ++ map (λ p. p.1) rows)
unfolding each socket_line
each-socket_line is_udp [] [] sockets spelled h = rw (append-nil sockets) refl
each-socket_line is_udp [] (line ∷ lines) sockets spelled h = absurd spelled
each-socket_line is_udp (p ∷ rows) [] sockets spelled h = absurd spelled
each-socket_line is_udp ((r, s) ∷ rows) (line ∷ lines) sockets (e, spelled) (d, h) =
    let rest = each-socket_line is_udp rows lines (sockets ++ s ∷ []) spelled h in
    let same : (sockets ++ s ∷ []) ++ map (λ p. p.1) rows ≡ sockets ++ (s ∷ map (λ p. p.1) rows) =
      simp append_assoc in
    rw (e, parse_net_ip_socket_line-words_of is_udp r s d, rest, same) refl

-- A socket file that opens and is read without an error, each of whose lines behind the header describes a socket
-- (`Describes`), is parsed to these sockets in order; a UDP file, whose path holds "udp", has the drops of its sockets.
pub new_net_ip_socket-rows :
    (files : Files) (file : String) (f : Reader) (rows : List (Row × NetIpSocketLine))
    → open_file files file ≡ ok f
    → (scan_rest (limit_reader read_limit f)).fault ≡ none
    → Spelled
        (scan_rest (limit_reader read_limit f)).lines
        (map (λ (p : Row × NetIpSocketLine). words_of p.0) rows)
    → All
        (λ (p : Row × NetIpSocketLine). Describes (contains (codes file) (codes "udp")) p.0 p.1)
        rows
    → new_net_ip_socket files file ≡ ok (map (λ p. p.1) rows)
unfolding new_net_ip_socket
new_net_ip_socket-rows files file f rows opens no_fault spelled h =
    rw
      (
        opens,
        each-socket_line (contains (codes file) (codes "udp")) rows
            (scan_rest (limit_reader read_limit f)).lines [] spelled h,
        no_fault,
      )
      refl
