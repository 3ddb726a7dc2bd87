-- ===== src/Tests/MountStats.antt =====
-- mountstats: runs and instances.
use procfs.Base.{
  ℕ, ◌*◌, ◌^◌, pos, Bytes, List, [], ◌∷◌, ◌++◌, ◌≡◌, refl, codes, bytes_eq, arith, replicate, All,
  inr,
}
use procfs.Go.Lines.{numbers}
use procfs.Go.Result.{ok, panic, Returns, Returns-bind, ◌>>=◌}
use procfs.Go.Scanner.{Reader, reader, scan}
use procfs.Go.Strconv.Bounds.{parse_uint-Returns}
use procfs.Go.Strconv.Decimal.{format_uint, parse_uint-format_uint}
use procfs.Go.Strconv.{parse_uint}
use procfs.Go.Text.Affixes.{trim_suffix-append}
use procfs.Go.Text.{trim_suffix, fields}
use procfs.Go.Lines.{Spelled}
use procfs.MountStats.Blocks.{Item, Operation, NfsBlock, Block, mounts_of, Fits, file_of}
use procfs.MountStats.Files.{parse_mount_stats-blocks}
use procfs.MountStats.Layout.{
  Xprt, transport_stats_of, parse_nfs_transport_stats-counters, parse_nfs_transport_stats_panic,
}
use procfs.MountStats.Nfs.{Durations}
use procfs.MountStats.Reading.{ReadsSeconds}
use procfs.MountStats.Runs.{Runs, parse_mount_stats-Runs}
use procfs.MountStats.Total.{FewCounters, parse_mount_stats-Returns}
use procfs.MountStats.Transport.{parse_nfs_transport_stats}
use procfs.Util.Parse.Slices.{AllParse-numbers}
use procfs.MountStats.{parse_mount_stats}

-- Whole seconds, in nanoseconds.
abbrev whole_seconds : Durations
whole_seconds s = parse_uint (trim_suffix s (codes "s")) 10 64 >>= λ n. ok (pos (n * 10 ^ 9))

whole_seconds-ReadsSeconds : ReadsSeconds whole_seconds
whole_seconds-ReadsSeconds n h =
    rw
      (
        trim_suffix-append (format_uint n) (codes "s"),
        parse_uint-format_uint 64 n (omega arith) (omega arith),
      )
      refl

whole_seconds-Returns : (s : Bytes) → Returns (whole_seconds s)
whole_seconds-Returns s =
    Returns-bind _ _ (parse_uint-Returns (trim_suffix s (codes "s")) 10 64) λ n. tt

abbrev seven : List ℕ
seven = 832 ∷ 1 ∷ 2 ∷ 3 ∷ 4 ∷ 5 ∷ 6 ∷ []

parse_nfs_transport_stats-counters_example :
    parse_nfs_transport_stats (codes "udp" ∷ numbers seven) (codes "1.0")
    ≡ ok (transport_stats_of (Xprt.udp10 seven))
parse_nfs_transport_stats-counters_example =
    parse_nfs_transport_stats-counters (Xprt.udp10 seven) (numbers seven) refl (omega arith)
      (AllParse-numbers 64 seven (omega arith) (omega arith))

parse_nfs_transport_stats_panic_example :
    parse_nfs_transport_stats (codes "rdma" ∷ numbers (replicate 32 7)) (codes "1.1") ≡ panic
parse_nfs_transport_stats_panic_example =
    parse_nfs_transport_stats_panic (replicate 32 7) (numbers (replicate 32 7)) (omega arith)
      (AllParse-numbers 64 (replicate 32 7) (omega arith) (omega arith))

abbrev block : NfsBlock
block = record {
  device = codes "192.168.1.1:/srv";
  mount = codes "/mnt/nfs";
  type = codes "nfs4";
  version = codes "1.1";
  items =
      Item.age 13968
      ∷ Item.xprt
          (Xprt.tcp11 (832 ∷ 1 ∷ 0 ∷ 0 ∷ 11 ∷ 6428 ∷ 6428 ∷ 0 ∷ 12154 ∷ 0 ∷ 24 ∷ 26 ∷ 5726 ∷ []))
      ∷ [];
  operations =
      Operation.without_errors (record {
        operation = codes "READ";
        requests = 1298;
        transmissions = 1298;
        major_timeouts = 0;
        bytes_sent = 207680;
        bytes_received = 1210292152;
        cumulative_queue_milliseconds = 6;
        cumulative_total_response_milliseconds = 79386;
        cumulative_total_request_milliseconds = 79407;
        errors = 0;
      })
      ∷ [];
}

-- A mount without statistics, then an NFS mount.
abbrev blocks : List Block
blocks = Block.plain (codes "rootfs") (codes "/") (codes "rootfs") ∷ Block.nfs block ∷ []

abbrev input : Reader
input = reader (
    codes "device rootfs mounted on / with fstype rootfs\n"
    ++ codes "device 192.168.1.1:/srv mounted on /mnt/nfs with fstype nfs4 statvers=1.1\n"
    ++ codes "\tage:\t13968\n"
    ++ codes "\txprt:\ttcp 832 1 0 0 11 6428 6428 0 12154 0 24 26 5726\n"
    ++ codes "\tper-op statistics\n"
    ++ codes "\tREAD: 1298 1298 0 207680 1210292152 6 79386 79407\n"
    ++ codes "\n")

input-Spelled : Spelled (scan input).lines (file_of blocks)
unfolding scan fields format_uint
input-Spelled = (refl, (refl, (refl, (refl, (refl, (refl, (refl, tt)))))))

blocks-Fit : All Fits blocks
blocks-Fit = (
  tt,
  ((inr refl, (omega arith, ((refl, omega arith, refl), tt)), ((omega arith, refl), tt)), tt),
)

input-Few : All (λ line. FewCounters (fields line)) (scan input).lines
unfolding scan fields bytes_eq
input-Few = ground arith

parse_mount_stats-blocks_example : parse_mount_stats whole_seconds input ≡ ok (mounts_of blocks)
unfolding scan
parse_mount_stats-blocks_example =
    parse_mount_stats-blocks whole_seconds input blocks whole_seconds-ReadsSeconds refl
      input-Spelled blocks-Fit

parse_mount_stats-Returns_example : Returns (parse_mount_stats whole_seconds input)
parse_mount_stats-Returns_example =
    parse_mount_stats-Returns whole_seconds whole_seconds-Returns input input-Few

parse_mount_stats-Runs_example :
    Runs whole_seconds
      (scan input).fault
      (scan input).lines
      []
      (parse_mount_stats whole_seconds input)
parse_mount_stats-Runs_example = parse_mount_stats-Runs whole_seconds input
