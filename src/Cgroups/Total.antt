-- ===== src/Cgroups/Total.antt =====
-- proc_cgroup.go and proc_cgroups.go: the tests that guard the indices.
use procfs.Base.{ℕ, ◌<◌, ltb, length, List, [], Bytes, String, codes, arith, Bool-cases, inl, inr}
use procfs.Cgroups.{
  atoi_at, parse_cgroup_string, parse_cgroups, parse_cgroup_summary_string, cgroup_summary_line,
  parse_cgroup_summary, CgroupSummary,
}
use procfs.Go.Result.{
  Returns, Returns-bind, Returns-fail_if, Returns-!!, Returns-replacing, Returns-each, ◌!!◌,
}
use procfs.Go.Scanner.{reader, scan, scan_err-Returns}
use procfs.Go.Strconv.Bounds.{parse_int-Returns}
use procfs.Go.Strconv.{atoi}
use procfs.Go.Text.{fields, split_three, has_prefix}
use procfs.Util.Parse.Slices.{collect-Returns}

atoi_at-Returns :
    (v : List Bytes) (i : ℕ) (text : String) → i < length v → Returns (atoi_at v i text)
atoi_at-Returns v i text h =
    Returns-bind (v !! i) _ (Returns-!! v i h)
      (λ s. Returns-replacing _ (atoi s) (parse_int-Returns s 10 64))

parse_cgroup_string-Returns : (s : Bytes) → Returns (parse_cgroup_string s)
unfolding parse_cgroup_string
parse_cgroup_string-Returns s =
    let parts = split_three s b':' in
    Returns-fail_if (ltb (length parts) 3) _ _ λ enough.
      Returns-bind _ _ (Returns-!! parts 2 (ground arith)) λ _.
        Returns-bind _ _ (atoi_at-Returns parts 0 _ (ground arith))
          λ _. Returns-bind _ _ (Returns-!! parts 1 (ground arith)) λ _. tt

-- The parser of /proc/<pid>/cgroup returns control groups or an error for every content of the file: it
-- does not panic.
pub parse_cgroups-Returns : (data_bytes : Bytes) → Returns (parse_cgroups data_bytes)
unfolding parse_cgroups
parse_cgroups-Returns data_bytes =
    Returns-bind _ _
      (collect-Returns parse_cgroup_string parse_cgroup_string-Returns
        (scan (reader data_bytes)).lines)
      (scan_err-Returns _ (scan (reader data_bytes)).fault)

parse_cgroup_summary_string-Returns : (s : Bytes) → Returns (parse_cgroup_summary_string s)
unfolding parse_cgroup_summary_string
parse_cgroup_summary_string-Returns s =
    let parts = fields s in
    Returns-fail_if (ltb (length parts) 4) _ _ λ enough.
      Returns-bind _ _ (Returns-!! parts 0 (ground arith)) λ _.
        Returns-bind _ _ (atoi_at-Returns parts 1 _ (ground arith)) λ _.
          Returns-bind _ _ (atoi_at-Returns parts 2 _ (ground arith))
            λ _. Returns-bind _ _ (atoi_at-Returns parts 3 _ (ground arith)) λ _. tt

cgroup_summary_line-Returns :
    (acc : List CgroupSummary) (line : Bytes) → Returns (cgroup_summary_line acc line)
unfolding cgroup_summary_line
cgroup_summary_line-Returns acc line = elim (Bool-cases (has_prefix line (codes "#"))) [
  | inl comment ↦ rw comment tt
  | inr other ↦ rw other (Returns-bind _ _ (parse_cgroup_summary_string-Returns line) (λ _. tt))
]

-- The parser of /proc/cgroups returns summaries or an error for every content of the file: it does not
-- panic.
pub parse_cgroup_summary-Returns : (data_bytes : Bytes) → Returns (parse_cgroup_summary data_bytes)
unfolding parse_cgroup_summary
parse_cgroup_summary-Returns data_bytes =
    Returns-bind _ _
      (Returns-each cgroup_summary_line cgroup_summary_line-Returns []
        (scan (reader data_bytes)).lines)
      (scan_err-Returns _ (scan (reader data_bytes)).fault)
