-- ===== src/Sockets/Summary.antt =====
-- net_ip_socket.go: the summary of a socket file beside its list of sockets.
use procfs.Base.{
  ℕ, ◌+◌, ◌%◌, ◌^◌, Bool, true, false, List, [], ◌∷◌, ◌++◌, Bytes, String, codes, Option, none,
  some, map, length, length-append, arith, refl, ◌≡◌, sym, if◌then◌else◌,
}
use procfs.Go.Files.{Files, open_file, limit_reader}
use procfs.Go.Result.{Error, Result, ok, err, panic, ◌>>=◌, each, ◌!!◌}
use procfs.Go.Scanner.{scan_rest, scan_err}
use procfs.Go.Strconv.{parse_uint}
use procfs.Go.Text.{fields, contains}
use procfs.Go.Yields.{Yields, Yields-bind, Yields-after, >>=-assoc, each-simulates}
use procfs.Sockets.Line.{
  NetIpSocketLine, parse_net_ip_socket_line, drops_field, socket_columns, reporting,
}
use procfs.Sockets.{
  NetIpSocketSummary, new_net_ip_socket, new_net_ip_socket_summary, socket_line, summary_line,
  deref, zero_net_ip_socket_summary, read_limit,
}

abbrev pub sum : List ℕ → ℕ
sum [] = 0
sum (n ∷ ns) = n + sum ns

abbrev drops_of : NetIpSocketLine → ℕ
drops_of line = elim line.drops [ none ↦ 0 | some n ↦ n ]

abbrev total : (NetIpSocketLine → ℕ) → List NetIpSocketLine → ℕ
total f sockets = sum (map f sockets) % 2 ^ 64

abbrev drops_sum : Bool → List NetIpSocketLine → Option ℕ
drops_sum is_udp [] = none
drops_sum true (s ∷ sockets) = some (total drops_of (s ∷ sockets))
drops_sum false (s ∷ sockets) = none

-- What a list of sockets adds up to, in uint64s.
abbrev pub summary_of : Bool → List NetIpSocketLine → NetIpSocketSummary
summary_of is_udp sockets = record {
  tx_queue_length = total (λ s. s.tx_queue) sockets;
  rx_queue_length = total (λ s. s.rx_queue) sockets;
  used_sockets = length sockets % 2 ^ 64;
  drops = drops_sum is_udp sockets;
}

sum-append :
    (f : NetIpSocketLine → ℕ) (v : List NetIpSocketLine) (s : NetIpSocketLine)
    → sum (map f (v ++ s ∷ [])) ≡ sum (map f v) + f s
sum-append f [] s = omega arith
sum-append f (x ∷ v) s = omega (arith, sum-append f v s)

total-append :
    (f : NetIpSocketLine → ℕ) (v : List NetIpSocketLine) (s : NetIpSocketLine)
    → total f (v ++ s ∷ []) ≡ (total f v + f s) % 2 ^ 64
total-append f v s = omega (arith, sum-append f v s)

length-snoc :
    (v : List NetIpSocketLine) (s : NetIpSocketLine)
    → length (v ++ s ∷ []) % 2 ^ 64 ≡ (length v % 2 ^ 64 + 1) % 2 ^ 64
length-snoc v s =
    let e : length (v ++ s ∷ []) ≡ length v + 1 = length-append v (s ∷ []) in omega (arith, e)

drops_sum-append :
    (v : List NetIpSocketLine) (s : NetIpSocketLine)
    → drops_sum true (v ++ s ∷ []) ≡ some (total drops_of (v ++ s ∷ []))
drops_sum-append [] s = refl
drops_sum-append (x ∷ v) s = refl

-- The state of the loop of the summary behind some sockets.
abbrev state_of : Bool → List NetIpSocketLine → NetIpSocketSummary × ℕ
state_of is_udp sockets = (summary_of is_udp sockets, if is_udp then total drops_of sockets else 0)

abbrev HasDrop : Option ℕ → Type 0
HasDrop drops = (n : ℕ) × (drops ≡ some n)

abbrev HasDrops : NetIpSocketLine → Type 0
HasDrops line = HasDrop line.drops

drops_field-HasDrop : (fs : List Bytes) → Yields (drops_field fs true) HasDrop
unfolding drops_field
drops_field-HasDrop fs = Yields-bind (fs !! 12) _ HasDrop λ text.
    Yields-bind (reporting "%w: Cannot parse drops value in %q: %w" (parse_uint text 0 64)) _
      HasDrop λ n. (n, refl)

parse_net_ip_socket_line-HasDrops :
    (fs : List Bytes) → Yields (parse_net_ip_socket_line fs true) HasDrops
unfolding parse_net_ip_socket_line
parse_net_ip_socket_line-HasDrops fs = Yields-bind (socket_columns fs) _ HasDrops λ line.
    Yields-after (drops_field fs true) _ HasDrop HasDrops (drops_field-HasDrop fs) λ drops h. h

deref_lem :
    (drops : Option ℕ) → HasDrop drops → deref drops ≡ ok (elim drops [ none ↦ 0 | some n ↦ n ])
deref_lem none (n, e) = cc
deref_lem (some n) h = refl

drops_sum_tcp : (v : List NetIpSocketLine) → drops_sum false v ≡ none
drops_sum_tcp [] = refl
drops_sum_tcp (x ∷ v) = refl

anything : {A : Type 0} (m : Result A) → Yields m (λ _. Unit {0})
anything (ok a) = tt
anything (err e) = tt
anything panic = tt

summary_line-state_of :
    (is_udp : Bool) (sockets : List NetIpSocketLine) (text : Bytes)
    → summary_line is_udp (state_of is_udp sockets) text
      ≡ (socket_line is_udp sockets text >>= λ v. ok (state_of is_udp v))
unfolding summary_line socket_line
summary_line-state_of true sockets text =
    >>=-assoc (parse_net_ip_socket_line (fields text) true) _ _ _ HasDrops
      (parse_net_ip_socket_line-HasDrops (fields text))
      λ line h.
        rw
          (
            deref_lem line.drops h,
            drops_sum-append sockets line,
            total-append (λ s. s.tx_queue) sockets line,
            total-append (λ s. s.rx_queue) sockets line,
            total-append drops_of sockets line,
            length-snoc sockets line,
          )
          refl
summary_line-state_of false sockets text =
    >>=-assoc (parse_net_ip_socket_line (fields text) false) _ _ _ (λ line. Unit {0})
      (anything (parse_net_ip_socket_line (fields text) false))
      λ line h.
        rw
          (
            total-append (λ s. s.tx_queue) sockets line,
            total-append (λ s. s.rx_queue) sockets line,
            length-snoc sockets line,
            drops_sum_tcp (sockets ++ line ∷ []),
            drops_sum_tcp sockets,
          )
          refl

no_sockets : (is_udp : Bool) → state_of is_udp [] ≡ (zero_net_ip_socket_summary, 0)
no_sockets true = refl
no_sockets false = refl

scan_err-summary_of :
    (is_udp : Bool) (fault : Option Error) (m : Result (List NetIpSocketLine))
    → ((m >>= λ v. ok (state_of is_udp v)) >>= λ state. scan_err (λ e. e) fault state.0)
      ≡ ((m >>= λ v. scan_err (λ e. e) fault v) >>= λ v. ok (summary_of is_udp v))
scan_err-summary_of is_udp none (ok v) = refl
scan_err-summary_of is_udp (some e) (ok v) = refl
scan_err-summary_of is_udp fault (err e) = refl
scan_err-summary_of is_udp fault panic = refl

each-summary_line :
    (is_udp : Bool) (lines : List Bytes) (fault : Option Error)
    → (each (summary_line is_udp) (zero_net_ip_socket_summary, 0) lines >>= λ state.
        scan_err (λ e. e) fault state.0)
      ≡ ((each (socket_line is_udp) [] lines >>= λ v. scan_err (λ e. e) fault v) >>= λ v.
          ok (summary_of is_udp v))
each-summary_line is_udp lines fault = rw (sym (no_sockets is_udp)) (
    rw
      (each-simulates (state_of is_udp) (summary_line is_udp) (socket_line is_udp)
        (summary_line-state_of is_udp) [] lines)
      (scan_err-summary_of is_udp fault (each (socket_line is_udp) [] lines)))

-- The summary of a file is that of the sockets that the other parser lists: the sums of their queues and drops and
-- their number, in uint64s, and where that parser fails the same error or panic.
pub new_net_ip_socket_summary-new_net_ip_socket :
    (files : Files) (file : String)
    → new_net_ip_socket_summary files file ≡ (
        new_net_ip_socket files file >>= λ sockets.
        ok (summary_of (contains (codes file) (codes "udp")) sockets))
unfolding new_net_ip_socket_summary new_net_ip_socket
new_net_ip_socket_summary-new_net_ip_socket files file =
    let is_udp = contains (codes file) (codes "udp") in
    >>=-assoc (open_file files file) _ _ _ (λ _. Unit {0}) (anything (open_file files file))
      λ f _.
        let s = scan_rest (limit_reader read_limit f) in each-summary_line is_udp s.lines s.fault
