-- ===== src/Paired/Invariant.antt =====
-- proc_netstat.go, proc_snmp.go: what every assignment of the switch keeps, the loop keeps.
use procfs.Base.{
  ℕ, zero, suc, ◌+◌, ◌-◌, ◌==◌, Bytes, List, [], ◌∷◌, Option, none, some, length, Bool-cases, inl,
  inr, codes,
}
use procfs.Go.Reply.{Gives, Gives-then, Gives-trying}
use procfs.Go.Result.{Result, ◌>>=◌, ◌!!◌}
use procfs.Go.Scanner.{Reader, scan, scan_again}
use procfs.Go.Switch.{assign}
use procfs.Go.Text.{split, trim_suffix}
use procfs.Paired.{values_from, values_of, pair_of_lines, pairs, parse_pairs}

module _ {F S K : Type 0} (parse_float : Bytes → Result F) (set : K → F → S → S)
    (find : Bytes × Bytes → Option K) (P : S → Type 0)
    (keeps : (k : K) (v : F) (s : S) → P s → P (set k v s)) where
  assign-keeps : (f : Option K) (v : F) (s : S) → P s → P (assign set f v s)
  assign-keeps none v s h = h
  assign-keeps (some k) v s h = keeps k v s h

  values_from-keeps :
      (protocol : Bytes) (ns vs : List Bytes) (left i : ℕ) (m : S)
      → P m
      → Gives (values_from parse_float set find protocol ns vs left i m) P
  unfolding values_from
  values_from-keeps protocol ns vs zero i m h = h
  values_from-keeps protocol ns vs (suc left) i m h =
      Gives-trying m (vs !! i >>= parse_float) _ P h (λ value.
        Gives-trying m (ns !! i) _ P h (λ key.
          values_from-keeps protocol ns vs left (i + 1) (assign set (find (protocol, key)) value m)
            (assign-keeps (find (protocol, key)) value m h)))

  values_of-keeps :
      (protocol : Bytes) (ns vs : List Bytes) (m : S)
      → P m
      → Gives (values_of parse_float set find protocol ns vs m) P
  unfolding values_of
  values_of-keeps protocol ns vs m h = elim (Bool-cases (length ns == length vs)) [
    | inl e ↦ rw e (values_from-keeps protocol ns vs (length ns - 1) 1 m h)
    | inr e ↦ rw e h
  ]

  pair_of_lines-keeps :
      (m : S) (first second : Bytes)
      → P m
      → Gives (pair_of_lines parse_float set find m first second) P
  unfolding pair_of_lines
  pair_of_lines-keeps m first second h = Gives-trying m (split first b' ' !! 0) _ P h (λ label.
      values_of-keeps (trim_suffix label (codes ":")) (split first b' ') (split second b' ') m h)

  pairs-keeps :
      (again : List Bytes) (m : S) (lines : List Bytes)
      → P m
      → Gives (pairs parse_float set find again m lines) P
  unfolding pairs
  pairs-keeps again m [] h = h
  pairs-keeps [] m (first ∷ []) h =
      Gives-then (pair_of_lines parse_float set find m first []) _ P
        (pair_of_lines-keeps m first [] h) (λ t k. k)
  pairs-keeps (line ∷ rest) m (first ∷ []) h =
      Gives-then (pair_of_lines parse_float set find m first []) _ P
        (pair_of_lines-keeps m first [] h) (λ t k. pair_of_lines-keeps t line [] k)
  pairs-keeps again m (first ∷ second ∷ rest) h =
      Gives-then (pair_of_lines parse_float set find m first second) _ P
        (pair_of_lines-keeps m first second h) (λ t k. pairs-keeps again t rest k)

  pub parse_pairs-keeps :
      (start : S) (r : Reader) → P start → Gives (parse_pairs parse_float set find start r) P
  unfolding parse_pairs
  parse_pairs-keeps start r h =
      Gives-then (pairs parse_float set find (scan_again r) start (scan r).lines) _ P
        (pairs-keeps (scan_again r) start (scan r).lines h) (λ m k. k)
