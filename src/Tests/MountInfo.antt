-- ===== src/Tests/MountInfo.antt =====
-- mountinfo: instances.
use procfs.Base.{String, List, [], ◌∷◌, ◌≡◌, refl, codes, bytes_eq, arith, none, some}
use procfs.Go.Map.{StringMap, lookup, insert}
use procfs.Go.Result.{each, ok, Returns}
use procfs.Go.Text.{split}
use procfs.MountInfo.Options.{Entry, last_value, lookup-mount_options_parser, render_options}
use procfs.MountInfo.RoundTrip.{MountLine}
use procfs.MountInfo.Total.{parse_mount_info-Returns}
use procfs.MountInfo.{mount_option, mount_options_parser, parse_mount_info}

abbrev flag : String → Entry
flag k = (codes k, none)

abbrev setting : String → String → Entry
setting k v = (codes k, some (codes v))

-- 194 16 0:42 / /sys/fs/bpf rw,mode=700 shared:7 - bpf none rw
abbrev line : MountLine
line = record {
  mount_id = 194;
  parent_id = 16;
  major_minor_ver = codes "0:42";
  root = codes "/";
  mount_point = codes "/sys/fs/bpf";
  options = (flag "rw", setting "mode" "700" ∷ []);
  optional_fields = setting "shared" "7" ∷ [];
  fs_type = codes "bpf";
  source = codes "none";
  super_options = (flag "rw", []);
}

parse_mount_info-Returns_example :
    Returns (parse_mount_info (codes "194 16 0:42 / - bpf none rw\n"))
parse_mount_info-Returns_example = parse_mount_info-Returns (codes "194 16 0:42 / - bpf none rw\n")

-- "rw,mode=700,mode=755"
abbrev repeated : List Entry
repeated = setting "mode" "700" ∷ setting "mode" "755" ∷ []

abbrev repeated_map : StringMap
repeated_map = (codes "rw", []) ∷ (codes "mode", codes "755") ∷ []

repeated_run : mount_options_parser (render_options (flag "rw" ∷ repeated)) ≡ ok repeated_map
unfolding mount_options_parser mount_option split each insert bytes_eq
repeated_run = refl

lookup-mount_options_parser_example :
    lookup (codes "mode") repeated_map ≡ last_value (codes "mode") none (flag "rw" ∷ repeated)
lookup-mount_options_parser_example =
    lookup-mount_options_parser (flag "rw") repeated (codes "mode") (omega arith) (omega arith)
      repeated_run
