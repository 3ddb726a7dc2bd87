-- ===== src/Paired/Total.antt =====
-- proc_netstat.go, proc_snmp.go: the loop ends on every input.
use procfs.Base.{
  ℕ, zero, suc, ◌+◌, ◌-◌, ◌==◌, ◌<◌, ◌≤◌, Bytes, List, [], ◌∷◌, ◌≡◌, Option, arith, length,
  Bool-cases, inl, inr, codes,
}
use procfs.Go.Reply.{Replies, Replies-then, Replies-trying}
use procfs.Go.Result.{Result, Returns, Returns-!!, Returns-bind, ◌>>=◌, ◌!!◌}
use procfs.Go.Scanner.{Reader, scan, scan_again}
use procfs.Go.Text.{split, trim_suffix}
use procfs.Go.Text.Parts.{split_some}
use procfs.Paired.{values_from, values_of, pair_of_lines, pairs, parse_pairs}

split-pos : (s : Bytes) (sep : ℕ) → 0 < length (split s sep)
split-pos s sep = let (p, ps, e) = split_some sep s in rw e (omega arith)

module _ {F S K : Type 0} (parse_float : Bytes → Result F) (set : K → F → S → S)
    (find : Bytes × Bytes → Option K) (total : (text : Bytes) → Returns (parse_float text)) where
  values_from-Replies :
      (protocol : Bytes) (ns vs : List Bytes) (left i : ℕ) (m : S)
      → i + left ≤ length ns
      → i + left ≤ length vs
      → Replies (values_from parse_float set find protocol ns vs left i m)
  unfolding values_from
  values_from-Replies protocol ns vs zero i m h k = tt
  values_from-Replies protocol ns vs (suc left) i m h k =
      Replies-trying m (vs !! i >>= parse_float) _
        (Returns-bind (vs !! i) parse_float (Returns-!! vs i (omega arith)) total)
        (λ value _.
          Replies-trying m (ns !! i) _ (Returns-!! ns i (omega arith)) (λ key _.
            values_from-Replies protocol ns vs left (i + 1) _ (omega arith) (omega arith)))

  values_of-Replies :
      (protocol : Bytes) (ns vs : List Bytes) (m : S)
      → 0 < length ns
      → Replies (values_of parse_float set find protocol ns vs m)
  unfolding values_of
  values_of-Replies protocol ns vs m h = elim (Bool-cases (length ns == length vs)) [
    | inl e ↦
        let same : length ns ≡ length vs = ground arith in
        rw e (
          values_from-Replies protocol ns vs (length ns - 1) 1 m (omega arith)
            (omega (arith, same)))
    | inr e ↦ rw e tt
  ]

  pair_of_lines-Replies :
      (m : S) (first second : Bytes) → Replies (pair_of_lines parse_float set find m first second)
  unfolding pair_of_lines
  pair_of_lines-Replies m first second =
      let some_word = split-pos first b' ' in
      Replies-trying m (split first b' ' !! 0) _ (Returns-!! (split first b' ') 0 some_word)
        (λ label _.
          values_of-Replies (trim_suffix label (codes ":")) (split first b' ') (split second b' ') m
            some_word)

  pairs-Replies :
      (again : List Bytes) (m : S) (lines : List Bytes)
      → Replies (pairs parse_float set find again m lines)
  unfolding pairs
  pairs-Replies again m [] = tt
  pairs-Replies [] m (first ∷ []) =
      Replies-then (pair_of_lines parse_float set find m first []) _
        (pair_of_lines-Replies m first []) (λ t. tt)
  pairs-Replies (line ∷ rest) m (first ∷ []) =
      Replies-then (pair_of_lines parse_float set find m first []) _
        (pair_of_lines-Replies m first []) (λ t. pair_of_lines-Replies t line [])
  pairs-Replies again m (first ∷ second ∷ rest) =
      Replies-then (pair_of_lines parse_float set find m first second) _
        (pair_of_lines-Replies m first second) (λ t. pairs-Replies again t rest)

  -- Whatever the file holds and whatever the switch is, the loop of proc_netstat.go and proc_snmp.go
  -- returns and does not panic, if the conversion of numbers does not: the indices into the names
  -- and the values are in range, also where the second line of a pair is missing or too long.
  pub parse_pairs-Replies :
      (start : S) (r : Reader) → Replies (parse_pairs parse_float set find start r)
  unfolding parse_pairs
  parse_pairs-Replies start r =
      Replies-then (pairs parse_float set find (scan_again r) start (scan r).lines) _
        (pairs-Replies (scan_again r) start (scan r).lines) (λ m. tt)
