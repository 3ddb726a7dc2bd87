-- ===== src/Paired.antt =====
-- The loop that proc_netstat.go and proc_snmp.go share: a line of names, and a line of values below
-- it. The switch of each of them is a parameter, and so are the numbers that `strconv.ParseFloat`
-- gives.
pub mod Reading
pub mod Total
pub mod Invariant
use procfs.Base.{
  ℕ, zero, suc, ◌+◌, ◌-◌, ◌==◌, Bytes, List, [], ◌∷◌, Option, none, some, codes, length,
  if◌then◌else◌,
}
use procfs.Go.Reply.{Reply, returns, ◌then◌, trying}
use procfs.Go.Result.{Result, file_parse, wrap, ◌>>=◌, ◌!!◌}
use procfs.Go.Scanner.{Reader, scan, scan_again}
use procfs.Go.Switch.{assign}
use procfs.Go.Text.{split, trim_suffix}

module _ {ℓ} {F S K : Type ℓ} (parse_float : Bytes → Result F) (set : K → F → S → S)
    (find : Bytes × Bytes → Option K) where
  -- `for i := 1; i < len(nameParts); i++ { … }`, by the number of rounds that are left.
  unfoldable pub values_from : Bytes → List Bytes → List Bytes → ℕ → ℕ → S → Reply S
  values_from protocol name_parts value_parts zero i m = returns m none
  values_from protocol name_parts value_parts (suc left) i m =
      trying m (value_parts !! i >>= parse_float) λ value. trying m (name_parts !! i) λ key.
        values_from protocol name_parts value_parts left (i + 1)
          (assign set (find (protocol, key)) value m)

  -- The rounds, if there are as many values as names.
  unfoldable pub values_of : Bytes → List Bytes → List Bytes → S → Reply S
  unfolding values_from
  values_of protocol name_parts value_parts m =
      if length name_parts == length value_parts
      then values_from protocol name_parts value_parts (length name_parts - 1) 1 m
      else returns m (some (wrap "%w: mismatch field count mismatch in %s: %s" file_parse))

  -- A round of the outer loop, by the text of the first and of the second line.
  unfoldable pub pair_of_lines : S → Bytes → Bytes → Reply S
  unfolding values_of
  pair_of_lines m first second =
      let name_parts = split first b' ' in
      let value_parts = split second b' ' in
      trying m (name_parts !! 0)
        λ label. values_of (trim_suffix label (codes ":")) name_parts value_parts m

  -- The outer loop. The result of the second `Scan` of a round is not looked at: where there is no
  -- second line, its text is empty, and the first `Scan` of the next round is one behind the end.
  unfoldable pub pairs : List Bytes → S → List Bytes → Reply S
  unfolding pair_of_lines
  pairs again m [] = returns m none
  pairs again m (first ∷ []) = pair_of_lines m first [] then λ t. elim again [
    | [] ↦ returns t none
    | line ∷ (rest → _) ↦ pair_of_lines t line []
  ]
  pairs again m (first ∷ second ∷ rest) = pair_of_lines m first second then λ t. pairs again t rest

  unfoldable pub parse_pairs : S → Reader → Reply S
  unfolding pairs
  parse_pairs start r = pairs (scan_again r) start (scan r).lines then λ m. returns m (scan r).fault
