-- ===== src/Cgroups.antt =====
-- proc_cgroup.go: the control groups of a process, from /proc/<pid>/cgroup; proc_cgroups.go: the
-- controllers of the kernel, from /proc/cgroups.
pub mod Total
pub mod RoundTrip
pub mod Summaries
use procfs.Base.{
  ℕ, ℤ, ltb, length, List, [], ◌∷◌, ◌++◌, Bytes, bytes_eq, codes, if◌then◌else◌, String,
}
use procfs.Go.Files.{Files}
use procfs.Go.Result.{Result, ok, file_parse, wrap, ◌>>=◌, ◌>>◌, fail_if, ◌!!◌, each, replacing}
use procfs.Go.Scanner.{reader, scan, scan_err}
use procfs.Go.Strconv.{atoi}
use procfs.Go.Text.{split, split_three, fields, has_prefix}
use procfs.Util.Parse.{collect, read_file_no_stat}

-- A nil slice of controllers is the empty list.
pub record Cgroup : Type 0 where
  pub hierarchy_id : ℤ
  pub controllers : List Bytes
  pub path : Bytes

-- `strconv.Atoi` of a field, with an error that does not wrap that of Atoi.
abbrev pub atoi_at : List Bytes → ℕ → String → Result ℤ
atoi_at v i text = do s ← v !! i; replacing (wrap text file_parse) (atoi s)

unfoldable pub parse_cgroup_string : Bytes → Result Cgroup
parse_cgroup_string cgroup_str = do
  let parts = split_three cgroup_str b':'
  fail_if (ltb (length parts) 3)
      (wrap "%w: 3+ fields required, found %d fields in cgroup string: %s" file_parse)
  path ← parts !! 2
  hierarchy_id ← atoi_at parts 0 "%w: hierarchy ID: %q"
  ss_names ← parts !! 1
  ok (record {
    hierarchy_id = hierarchy_id;
    controllers = if bytes_eq ss_names [] then [] else split ss_names b',';
    path = path;
  })

unfoldable pub parse_cgroups : Bytes → Result (List Cgroup)
parse_cgroups data_bytes = do
  let s = scan (reader data_bytes)
  cgroups ← collect parse_cgroup_string s.lines
  scan_err (λ e. e) s.fault cgroups

-- `Proc.Cgroups` over the files below the directory of the process.
unfoldable pub cgroups : Files → Result (List Cgroup)
cgroups files = do data_bytes ← read_file_no_stat files "cgroup"; parse_cgroups data_bytes

pub record CgroupSummary : Type 0 where
  pub subsys_name : Bytes
  pub hierarchy : ℤ
  pub cgroups : ℤ
  pub enabled : ℤ

unfoldable pub parse_cgroup_summary_string : Bytes → Result CgroupSummary
parse_cgroup_summary_string cgroup_summary_str = do
  let parts = fields cgroup_summary_str
  fail_if (ltb (length parts) 4)
      (wrap "%w: 4+ fields required, found %d fields in cgroup info string: %s" file_parse)
  subsys_name ← parts !! 0
  hierarchy ← atoi_at parts 1 "%w: Unable to parse hierarchy ID from %q"
  cgroups ← atoi_at parts 2 "%w: Unable to parse Cgroup Num from %q"
  enabled ← atoi_at parts 3 "%w: Unable to parse Enabled from %q"
  ok (record {
    subsys_name = subsys_name;
    hierarchy = hierarchy;
    cgroups = cgroups;
    enabled = enabled;
  })

-- The body of the loop, which ignores comment lines.
unfoldable pub cgroup_summary_line : List CgroupSummary → Bytes → Result (List CgroupSummary)
cgroup_summary_line cgroup_summarys line =
    if has_prefix line (codes "#") then ok cgroup_summarys else (do
      cgroup_summary ← parse_cgroup_summary_string line
      ok (cgroup_summarys ++ cgroup_summary ∷ []))

unfoldable pub parse_cgroup_summary : Bytes → Result (List CgroupSummary)
parse_cgroup_summary data_bytes = do
  let s = scan (reader data_bytes)
  cgroup_summarys ← each cgroup_summary_line [] s.lines
  scan_err (λ e. e) s.fault cgroup_summarys

-- `FS.CgroupSummarys` over the files below the mount point.
unfoldable pub cgroup_summarys : Files → Result (List CgroupSummary)
cgroup_summarys files = do
  data_bytes ← read_file_no_stat files "cgroups"
  parse_cgroup_summary data_bytes
