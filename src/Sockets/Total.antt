-- ===== src/Sockets/Total.antt =====
-- net_ip_socket.go: the tests that guard the indices.
use procfs.Base.{
  ℕ, ◌≤◌, ◌<◌, Bool, true, false, List, [], ◌∷◌, Bytes, String, codes, All, length, ltb, ◌==◌, ◌!=◌,
  arith, ◌≡◌, refl, ◌⊎◌, inl, inr,
}
use procfs.Go.Files.{Files, opened, open_file, limit_reader}
use procfs.Go.Hex.{decode_string, decode_string-Returns}
use procfs.Go.Result.{
  Error, Result, ok, err, panic, each, ◌!!◌, wrap, file_parse, Returns, Returns-bind,
  Returns-bind_eq, Returns-fail_if, Returns-!!,
}
use procfs.Go.Scanner.{Reader, scan_rest, scan_err-Returns}
use procfs.Go.Strconv.Bounds.{parse_uint-Returns}
use procfs.Go.Strconv.{parse_uint}
use procfs.Go.Text.{fields, contains, split}
use procfs.Go.Yields.{Returns-if}
use procfs.Sockets.Line.{
  NetIpSocketLine, reporting, picked, parse_ip, colon_parts, address_port, drops_field,
  socket_columns, parse_net_ip_socket_line,
}
use procfs.Sockets.{new_net_ip_socket, socket_line, read_limit}

reporting-Returns :
    {A : Type 0} (text : String) (m : Result A) → Returns m → Returns (reporting text m)
reporting-Returns text (ok a) h = tt
reporting-Returns text (err e) h = tt
reporting-Returns text panic h = h

number-Returns :
    (text : String) (s : Bytes) (base : ℕ) → Returns (reporting text (parse_uint s base 64))
number-Returns text s base = reporting-Returns text _ (parse_uint-Returns s base 64)

picked-Returns : (v is : List ℕ) → All (λ i. i < length v) is → Returns (picked v is)
unfolding picked
picked-Returns v [] h = tt
picked-Returns v (i ∷ is) (h, hs) =
    Returns-bind (v !! i) _ (Returns-!! v i h)
      λ x. Returns-bind (picked v is) _ (picked-Returns v is hs) λ rest. tt

parse_ip-Returns : (s : Bytes) → Returns (parse_ip s)
unfolding parse_ip
parse_ip-Returns s =
    Returns-bind (reporting "%w: Cannot parse socket field in %q: %w" (decode_string s)) _
      (reporting-Returns _ (decode_string s) (decode_string-Returns s))
      λ v.
        Returns-if (length v == 4) _ _
          (λ four.
            let e : length v ≡ 4 = ground arith in
            picked-Returns v (3 ∷ 2 ∷ 1 ∷ 0 ∷ []) (omega arith))
          (λ _.
            Returns-if (length v == 16) _ _
              (λ sixteen.
                let e : length v ≡ 16 = ground arith in
                picked-Returns v
                  (3 ∷ 2 ∷ 1 ∷ 0 ∷ 7 ∷ 6 ∷ 5 ∷ 4 ∷ 11 ∷ 10 ∷ 9 ∷ 8 ∷ 15 ∷ 14 ∷ 13 ∷ 12 ∷ [])
                  (omega arith))
              (λ _. tt))

colon_parts-Returns : (text : String) (s : Bytes) → Returns (colon_parts text s)
unfolding colon_parts
colon_parts-Returns text s = Returns-fail_if (length (split s b':') != 2) _ _ λ two.
    let e : length (split s b':') ≡ 2 = ground arith in
    Returns-bind _ _ (Returns-!! (split s b':') 0 (omega arith))
      λ p. Returns-bind _ _ (Returns-!! (split s b':') 1 (omega arith)) λ q. tt

address_port-Returns : (text text' : String) (s : Bytes) → Returns (address_port text text' s)
unfolding address_port
address_port-Returns text text' s =
    Returns-bind (colon_parts text s) _ (colon_parts-Returns text s) λ p.
      Returns-bind (parse_ip p.0) _ (parse_ip-Returns p.0) λ addr.
        Returns-bind (reporting text' (parse_uint p.1 16 64)) _ (number-Returns text' p.1 16)
          λ n. tt

pub socket_columns-Returns : (fs : List Bytes) → Returns (socket_columns fs)
unfolding socket_columns
socket_columns-Returns fs = Returns-fail_if (ltb (length fs) 10) _ _ λ enough.
    let field = λ (i : ℕ) (h : i < 10). Returns-!! fs i (ground arith) in
    Returns-bind (fs !! 0) _ (field 0 (omega arith)) λ sl_field.
      Returns-bind (colon_parts _ sl_field) _ (colon_parts-Returns _ sl_field) λ p.
        Returns-bind (reporting _ (parse_uint p.0 0 64)) _ (number-Returns _ p.0 0) λ sl.
          Returns-bind (fs !! 1) _ (field 1 (omega arith)) λ local.
            Returns-bind (address_port _ _ local) _ (address_port-Returns _ _ local) λ l.
              Returns-bind (fs !! 2) _ (field 2 (omega arith)) λ rem.
                Returns-bind (address_port _ _ rem) _ (address_port-Returns _ _ rem) λ r.
                  Returns-bind (fs !! 3) _ (field 3 (omega arith)) λ st_field.
                    Returns-bind (reporting _ (parse_uint st_field 16 64)) _
                      (number-Returns _ st_field 16)
                      λ st. Returns-bind (fs !! 4) _ (field 4 (omega arith)) λ queues.
                        Returns-bind (colon_parts _ queues) _ (colon_parts-Returns _ queues) λ q.
                          Returns-bind (reporting _ (parse_uint q.0 16 64)) _
                            (number-Returns _ q.0 16)
                            λ tx.
                              Returns-bind (reporting _ (parse_uint q.1 16 64)) _
                                (number-Returns _ q.1 16)
                                λ rx. Returns-bind (fs !! 7) _ (field 7 (omega arith)) λ uid_field.
                                  Returns-bind (reporting _ (parse_uint uid_field 0 64)) _
                                    (number-Returns _ uid_field 0)
                                    λ uid.
                                      Returns-bind (fs !! 9) _ (field 9 (omega arith))
                                        λ inode_field.
                                          Returns-bind (reporting _ (parse_uint inode_field 0 64)) _
                                            (number-Returns _ inode_field 0) λ inode. tt

-- A line has too few columns for any socket, or all that the parser reads of a UDP socket.
abbrev pub NoneOrAll : Bytes → Type 0
NoneOrAll line = (length (fields line) < 10) ⊎ (13 ≤ length (fields line))

socket_columns_short :
    (fs : List Bytes) → length fs < 10 → (e : Error) × (socket_columns fs ≡ err e)
unfolding socket_columns
socket_columns_short fs h =
    let short : ltb (length fs) 10 ≡ true = ground arith in
    (wrap "%w: Less than 10 columns found %q" file_parse, rw short refl)

parse_net_ip_socket_line-Returns :
    (is_udp : Bool) (line : Bytes)
    → (is_udp ≡ true → NoneOrAll line)
    → Returns (parse_net_ip_socket_line (fields line) is_udp)
unfolding parse_net_ip_socket_line drops_field
parse_net_ip_socket_line-Returns false line h =
    Returns-bind (socket_columns (fields line)) _ (socket_columns-Returns (fields line)) λ s. tt
parse_net_ip_socket_line-Returns true line h = elim (h refl) [
  | inl short ↦ let (e, failed) = socket_columns_short (fields line) short in rw failed tt
  | inr wide ↦
      Returns-bind (socket_columns (fields line)) _ (socket_columns-Returns (fields line)) λ s.
        Returns-bind _ _
          (Returns-bind (fields line !! 12) _ (Returns-!! (fields line) 12 (omega arith)) λ text.
            Returns-bind (reporting _ (parse_uint text 0 64)) _ (number-Returns _ text 0) λ n. tt)
          λ drops. tt
]

each-socket_line-Returns :
    (is_udp : Bool) (lines : List Bytes) (sockets : List NetIpSocketLine)
    → (is_udp ≡ true → All NoneOrAll lines)
    → Returns (each (socket_line is_udp) sockets lines)
unfolding each socket_line
each-socket_line-Returns is_udp [] sockets h = tt
each-socket_line-Returns is_udp (line ∷ lines) sockets h =
    Returns-bind _ _
      (Returns-bind (parse_net_ip_socket_line (fields line) is_udp) _
        (parse_net_ip_socket_line-Returns is_udp line (λ e. (h e).0)) λ s. tt)
      λ v. each-socket_line-Returns is_udp lines v (λ e. (h e).1)

open_file-Returns : (files : Files) (file : String) → Returns (open_file files file)
open_file-Returns files file = elim (files file) as (λ o. Returns (opened o)) [
  | inl e ↦ tt
  | inr r ↦ tt
]

-- The parser of a socket file returns sockets or an error for every file without "udp" in its path, and for one with
-- "udp" in its path if no line behind its header has 10, 11 or 12 columns.
pub new_net_ip_socket-Returns :
    (files : Files) (file : String)
    → ((f : Reader)
        → open_file files file ≡ ok f
        → contains (codes file) (codes "udp") ≡ true
        → All NoneOrAll (scan_rest (limit_reader read_limit f)).lines)
    → Returns (new_net_ip_socket files file)
unfolding new_net_ip_socket
new_net_ip_socket-Returns files file h =
    let is_udp = contains (codes file) (codes "udp") in
    Returns-bind_eq (open_file files file) _ (open_file-Returns files file) λ f opens.
      let s = scan_rest (limit_reader read_limit f) in
      Returns-bind _ _ (each-socket_line-Returns is_udp s.lines [] (h f opens))
        λ v. scan_err-Returns _ s.fault v
