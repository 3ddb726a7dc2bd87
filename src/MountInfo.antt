-- ===== src/MountInfo.antt =====
-- mountinfo.go: the mounts of a process, from /proc/<pid>/mountinfo.
pub mod Options
pub mod Indices
pub mod Total
pub mod RoundTrip
use procfs.Base.{
  String, ◌==◌, ℕ, ℤ, ◌-◌, Bool, true, false, not, ◌||◌, ltb, length, List, [], ◌∷◌, Bytes, Option,
  none, some, bytes_eq, codes, if◌then◌else◌,
}
use procfs.Go.Files.{Files}
use procfs.Go.Map.{StringMap, insert}
use procfs.Go.Result.{
  Result, ok, err, panic, Error, file_parse, wrap, ◌>>=◌, ◌>>◌, fail_if, ◌!!◌, slice, each,
  replacing,
}
use procfs.Go.Scanner.{Reader, reader, scan, scan_err}
use procfs.Go.Strconv.{atoi}
use procfs.Go.Text.{split, split_two}
use procfs.Util.Parse.{collect, read_file_no_stat}

pub record MountInfo : Type 0 where
  pub mount_id : ℤ
  pub parent_id : ℤ
  pub major_minor_ver : Bytes
  pub root : Bytes
  pub mount_point : Bytes
  pub options : StringMap
  -- nil is `none`
  pub optional_fields : Option StringMap
  pub fs_type : Bytes
  pub source : Bytes
  pub super_options : StringMap

unfoldable pub mount_options_is_valid_field : Bytes → Bool
mount_options_is_valid_field s =
    bytes_eq s (codes "shared")
    || bytes_eq s (codes "master")
    || bytes_eq s (codes "propagate_from")
    || bytes_eq s (codes "unbindable")

-- A round of the loop over the optional fields.
unfoldable pub optional_field : StringMap → Bytes → Result StringMap
unfolding mount_options_is_valid_field
optional_field optional_fields field = do
  let option_split = split_two field b':'
  value ← if length option_split == 2 then option_split !! 1 else ok []
  key ← option_split !! 0
  if mount_options_is_valid_field key
      then ok (insert key value optional_fields)
      else ok optional_fields

unfoldable pub mount_options_parse_optional_fields : List Bytes → Result StringMap
mount_options_parse_optional_fields o = each optional_field [] o

-- A round of the loop over the options.
unfoldable pub mount_option : StringMap → Bytes → Result StringMap
mount_option opts opt = do
  let split_option = split opt b'='
  if ltb (length split_option) 2
      then (do key ← split_option !! 0; ok (insert key [] opts))
      else (do key ← split_option !! 0; value ← split_option !! 1; ok (insert key value opts))

unfoldable pub mount_options_parser : Bytes → Result StringMap
mount_options_parser mount_options = each mount_option [] (split mount_options b',')

-- The optional fields, unless the first field behind the options is empty.
unfoldable pub mount_optional_fields : List Bytes → Result (Option StringMap)
mount_optional_fields mount_info = do
  first ← mount_info !! 6
  if not (bytes_eq first [])
      then (do
        o ← slice mount_info 6 (length mount_info - 4)
        m ← mount_options_parse_optional_fields o
        ok (some m))
      else ok none

-- The parts of a line that has enough of them.
unfoldable pub mount_of_parts : List Bytes → Result MountInfo
mount_of_parts mount_info = do
  let n = length mount_info
  separator ← mount_info !! (n - 4)
  fail_if (not (bytes_eq separator (codes "-")))
      (wrap "%w: couldn't find separator in expected field: %s" file_parse)
  major_minor_ver ← mount_info !! 2
  root ← mount_info !! 3
  mount_point ← mount_info !! 4
  options ← (do o ← mount_info !! 5; mount_options_parser o)
  fs_type ← mount_info !! (n - 3)
  source ← mount_info !! (n - 2)
  super_options ← (do o ← mount_info !! (n - 1); mount_options_parser o)
  mount_id ← (do s ← mount_info !! 0; replacing (wrap "%w: mount ID: %q" file_parse) (atoi s))
  parent_id ← (do s ← mount_info !! 1; replacing (wrap "%w: parent ID: %q" file_parse) (atoi s))
  optional_fields ← mount_optional_fields mount_info
  ok (record {
    mount_id = mount_id;
    parent_id = parent_id;
    major_minor_ver = major_minor_ver;
    root = root;
    mount_point = mount_point;
    options = options;
    optional_fields = optional_fields;
    fs_type = fs_type;
    source = source;
    super_options = super_options;
  })

unfoldable pub parse_mount_info_string : Bytes → Result MountInfo
parse_mount_info_string mount_string = do
  let mount_info = split mount_string b' '
  fail_if (ltb (length mount_info) 10) (wrap "%w: Too few fields in mount string: %s" file_parse)
  mount_of_parts mount_info

unfoldable pub parse_mount_info : Bytes → Result (List MountInfo)
parse_mount_info info = do
  let s = scan (reader info)
  mounts ← collect parse_mount_info_string s.lines
  scan_err (λ e. e) s.fault mounts

-- `GetMounts` over the files below the mount point.
unfoldable pub get_mounts : Files → Result (List MountInfo)
get_mounts files = do info ← read_file_no_stat files "self/mountinfo"; parse_mount_info info

-- The function `GetMounts` of the package, over all files.
unfoldable pub get_default_mounts : Files → Result (List MountInfo)
get_default_mounts files = do
  info ← read_file_no_stat files "/proc/self/mountinfo"
  parse_mount_info info

-- Both functions `GetProcMounts`; `path` is what they format the number of the process into.
unfoldable pub get_proc_mounts : (ℤ → String) → Files → ℤ → Result (List MountInfo)
get_proc_mounts path files pid = do info ← read_file_no_stat files (path pid); parse_mount_info info
