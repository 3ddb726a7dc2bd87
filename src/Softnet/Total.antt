-- ===== src/Softnet/Total.antt =====
-- net_softnet.go: the tests that guard the indices and slices.
use procfs.Base.{
  ℕ, ◌+◌, ◌≤◌, ltb, leb, length, List, Bytes, arith, inl, inr, Bool-cases, ◌≡◌, take, drop, zero,
  suc, [], ◌∷◌, refl, ap, ◌∙◌,
}
use procfs.Go.Result.{
  Result, ok, Returns, Returns-bind, Returns-bind_eq, Returns-fail_if, Returns-!!, Returns-each,
  ◌>>=◌,
}
use procfs.Go.Scanner.{Reader, scan}
use procfs.Go.Strconv.Bounds.{parse_uint-Returns}
use procfs.Go.Text.{fields}
use procfs.Softnet.{
  SoftnetStat, parse_hex_uint32s, softnet_counts, softnet_rps, softnet_flow_limit, softnet_index,
  softnet_stat, softnet_line, parse_softnet,
}
use procfs.Util.Parse.Slices.{collect-Returns, collect_iff, AllParse-length}

pub parse_hex_uint32s-Returns : (ss : List Bytes) → Returns (parse_hex_uint32s ss)
unfolding parse_hex_uint32s
parse_hex_uint32s-Returns =
    collect-Returns _ (λ s. Returns-bind _ _ (parse_uint-Returns s 16 32) (λ _. tt))

length-parse_hex_uint32s :
    (ss : List Bytes) {us : List ℕ} → parse_hex_uint32s ss ≡ ok us → length us ≡ length ss
unfolding parse_hex_uint32s
length-parse_hex_uint32s ss {us} h = AllParse-length _ ss us ((collect_iff _ us ss).0 h)

length-take-drop :
    {A : Type 0} (lo n : ℕ) (v : List A) → lo + n ≤ length v → length (take n (drop lo v)) ≡ n
length-take-drop zero zero v h = refl
length-take-drop zero (suc n) [] h = absurd (omega arith)
length-take-drop zero (suc n) (x ∷ v) h = ap suc (length-take-drop zero n v (omega arith))
length-take-drop (suc lo) n [] h = absurd (omega arith)
length-take-drop (suc lo) n (x ∷ v) h = length-take-drop lo n v (omega arith)

-- The numbers of some columns, as many as the columns.
columns_read-Returns :
    {A : Type 0} (columns : List Bytes) (lo n : ℕ) (f : List ℕ → Result A)
    → lo + n ≤ length columns
    → ((us : List ℕ) → length us ≡ n → Returns (f us))
    → Returns (parse_hex_uint32s (take n (drop lo columns)) >>= f)
columns_read-Returns columns lo n f h k =
    Returns-bind_eq _ f (parse_hex_uint32s-Returns (take n (drop lo columns)))
      λ us read. k us (length-parse_hex_uint32s _ read ∙ length-take-drop lo n columns h)

softnet_counts-Returns :
    (columns : List Bytes) (stat : SoftnetStat) → Returns (softnet_counts columns stat)
unfolding softnet_counts
softnet_counts-Returns columns stat = elim (Bool-cases (leb 9 (length columns))) [
  | inl e ↦ rw e (
      columns_read-Returns columns 0 9 _ (ground arith) λ us h.
        Returns-bind _ _ (Returns-!! us 0 (omega arith)) λ _.
          Returns-bind _ _ (Returns-!! us 1 (omega arith)) λ _.
            Returns-bind _ _ (Returns-!! us 2 (omega arith))
              λ _. Returns-bind _ _ (Returns-!! us 8 (omega arith)) λ _. tt)
  | inr e ↦ rw e tt
]

softnet_rps-Returns :
    (columns : List Bytes) (stat : SoftnetStat) → Returns (softnet_rps columns stat)
unfolding softnet_rps
softnet_rps-Returns columns stat = elim (Bool-cases (leb 10 (length columns))) [
  | inl e ↦ rw e (
      columns_read-Returns columns 9 1 _ (ground arith)
        λ us h. Returns-bind _ _ (Returns-!! us 0 (omega arith)) λ _. tt)
  | inr e ↦ rw e tt
]

softnet_flow_limit-Returns :
    (columns : List Bytes) (stat : SoftnetStat) → Returns (softnet_flow_limit columns stat)
unfolding softnet_flow_limit
softnet_flow_limit-Returns columns stat = elim (Bool-cases (leb 11 (length columns))) [
  | inl e ↦ rw e (
      columns_read-Returns columns 10 1 _ (ground arith)
        λ us h. Returns-bind _ _ (Returns-!! us 0 (omega arith)) λ _. tt)
  | inr e ↦ rw e tt
]

softnet_index-Returns :
    (cpu_index : ℕ) (columns : List Bytes) (stat : SoftnetStat)
    → Returns (softnet_index cpu_index columns stat)
unfolding softnet_index
softnet_index-Returns cpu_index columns stat = elim (Bool-cases (leb 13 (length columns))) [
  | inl e ↦ rw e (
      columns_read-Returns columns 11 2 _ (ground arith) λ us h.
        Returns-bind _ _ (Returns-!! us 0 (omega arith))
          λ _. Returns-bind _ _ (Returns-!! us 1 (omega arith)) λ _. tt)
  | inr e ↦ rw e tt
]

softnet_stat-Returns :
    (cpu_index : ℕ) (columns : List Bytes) → Returns (softnet_stat cpu_index columns)
unfolding softnet_stat
softnet_stat-Returns cpu_index columns = Returns-fail_if (ltb (length columns) 9) _ _ λ _.
    Returns-bind _ _ (softnet_counts-Returns columns _) λ counts.
      Returns-bind _ _ (softnet_rps-Returns columns counts) λ rps.
        Returns-bind _ _ (softnet_flow_limit-Returns columns rps) λ flow_limit.
          Returns-bind _ _ (softnet_index-Returns cpu_index columns flow_limit) λ _. tt

softnet_line-Returns :
    (state : List SoftnetStat × ℕ) (line : Bytes) → Returns (softnet_line state line)
unfolding softnet_line
softnet_line-Returns (stats, cpu_index) line =
    Returns-bind _ _ (softnet_stat-Returns cpu_index (fields line)) (λ _. tt)

-- The parser of /proc/net/softnet_stat returns rows or an error for every reader: it does not panic.
pub parse_softnet-Returns : (r : Reader) → Returns (parse_softnet r)
unfolding parse_softnet
parse_softnet-Returns r =
    Returns-bind _ _ (Returns-each softnet_line softnet_line-Returns ([], 0) (scan r).lines)
      (λ _. tt)
