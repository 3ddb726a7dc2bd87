-- ===== src/MountStats/Blocks.antt =====
-- mountstats.go: a file as the kernel writes it, by the words of its lines, and the mounts that it
-- describes. What separates the words is left open.
use procfs.Base.{
  ℕ, ◌*◌, ◌^◌, ◌<◌, pos, Bytes, List, [], ◌∷◌, ◌++◌, ◌≡◌, none, some, false, All, bytes_eq, codes,
  map, foldl, ◌⊎◌,
}
use procfs.Go.Lines.{numbers}
use procfs.Go.Strconv.Decimal.{format_uint}
use procfs.Go.Text.Parts.{Lacks}
use procfs.MountInfo.Options.{Entry, render_entry, render_options, put, IsOption}
use procfs.MountStats.Layout.{
  Xprt, version_of, protocol_of, counters_of, CountFits, transport_stats_of,
}
use procfs.MountStats.Nfs.{new_stats}
use procfs.MountStats.Types.{
  NfsBytesStats, nfs_bytes_stats_values, NfsEventsStats, nfs_events_stats_values, NfsOperationStats,
  MountStatsNfs, Mount,
}

-- A line behind the device line of an NFS mount.
pub data Item : Type 0 where
  opts : Entry → List Entry → Item
  age : ℕ → Item
  bytes : NfsBytesStats → Item
  events : NfsEventsStats → Item
  xprt : Xprt → Item
  other : Bytes → List Bytes → Item

abbrev pub words_of : Item → List Bytes
words_of (opts o os) = codes "opts:" ∷ render_options (o ∷ os) ∷ []
words_of (age n) = codes "age:" ∷ format_uint n ∷ []
words_of (bytes x) = codes "bytes:" ∷ numbers (nfs_bytes_stats_values x)
words_of (events x) = codes "events:" ∷ numbers (nfs_events_stats_values x)
words_of (xprt x) = codes "xprt:" ∷ protocol_of x ∷ numbers (counters_of x)
words_of (other label ws) = label ∷ ws

abbrev Uint64s : List ℕ → Type 0
Uint64s = All (λ u. u < 2 ^ 64)

-- The numbers are uint64, the age fits a duration, an option has no comma and at most one equals sign,
-- an "xprt:" line is of the version of the mount, and another line has none of the known labels.
abbrev pub ItemFits : Bytes → Item → Type 0
ItemFits version (opts o os) =
    All IsOption (o ∷ os) × All (Lacks b',') (map (render_entry b'=') (o ∷ os))
ItemFits version (age n) = n * 10 ^ 9 < 2 ^ 63
ItemFits version (bytes x) = Uint64s (nfs_bytes_stats_values x)
ItemFits version (events x) = Uint64s (nfs_events_stats_values x)
ItemFits version (xprt x) = CountFits x × Uint64s (counters_of x) × (version_of x ≡ version)
ItemFits version (other label ws) =
    (bytes_eq label (codes "opts:") ≡ false)
    × (bytes_eq label (codes "age:") ≡ false)
    × (bytes_eq label (codes "bytes:") ≡ false)
    × (bytes_eq label (codes "events:") ≡ false)
    × (bytes_eq label (codes "xprt:") ≡ false)
    × (bytes_eq label (codes "per-op") ≡ false)

-- What a line sets; a transport is added to those before it.
abbrev pub apply : MountStatsNfs → Item → MountStatsNfs
apply s (opts o os) = record s { opts = foldl put s.opts (o ∷ os) }
apply s (age n) = record s { age = pos (n * 10 ^ 9) }
apply s (bytes x) = record s { bytes = x }
apply s (events x) = record s { events = x }
apply s (xprt x) = record s { transport = s.transport ++ transport_stats_of x ∷ [] }
apply s (other label ws) = s

-- A line of an operation: newer kernels count its errors.
pub data Operation : Type 0 where
  with_errors without_errors : NfsOperationStats → Operation

abbrev pub statistics_of : Operation → NfsOperationStats
statistics_of (with_errors x) = x
statistics_of (without_errors x) = x

abbrev operation_values : NfsOperationStats → List ℕ
operation_values x =
    x.requests ∷ x.transmissions ∷ x.major_timeouts ∷ x.bytes_sent ∷ x.bytes_received
    ∷ x.cumulative_queue_milliseconds ∷ x.cumulative_total_response_milliseconds
    ∷ x.cumulative_total_request_milliseconds ∷ []

abbrev pub counters_of_operation : Operation → List ℕ
counters_of_operation (with_errors x) = operation_values x ++ x.errors ∷ []
counters_of_operation (without_errors x) = operation_values x

abbrev pub operation_words : Operation → List Bytes
operation_words o = ((statistics_of o).operation ++ codes ":") ∷ numbers (counters_of_operation o)

abbrev pub OperationFits : Operation → Type 0
OperationFits (with_errors x) = Uint64s (operation_values x ++ x.errors ∷ [])
OperationFits (without_errors x) = Uint64s (operation_values x) × (x.errors ≡ 0)

-- An NFS mount with its statistics, a mount without, or a line of no mount.
pub record NfsBlock : Type 0 where
  pub device : Bytes
  pub mount : Bytes
  pub type : Bytes
  pub version : Bytes
  pub items : List Item
  pub operations : List Operation

pub data Block : Type 0 where
  nfs : NfsBlock → Block
  plain : Bytes → Bytes → Bytes → Block
  no_device : List Bytes → Block

abbrev pub device_words : Bytes → Bytes → Bytes → List Bytes → List Bytes
device_words device mount type more =
    codes "device"
    ∷ device
    ∷ codes "mounted"
    ∷ codes "on"
    ∷ mount
    ∷ codes "with"
    ∷ codes "fstype"
    ∷ type
    ∷ more

-- The words of the lines of a block, with those of the lines behind it.
abbrev pub nfs_words : NfsBlock → List (List Bytes) → List (List Bytes)
nfs_words b more =
    map words_of b.items
    ++ ((codes "per-op" ∷ codes "statistics" ∷ [])
        ∷ (map operation_words b.operations ++ ([] ∷ more)))

abbrev pub lines_of : Block → List (List Bytes) → List (List Bytes)
lines_of (nfs b) more =
    device_words b.device b.mount b.type ((codes "statvers=" ++ b.version) ∷ []) ∷ nfs_words b more
lines_of (plain device mount type) more = device_words device mount type [] ∷ more
lines_of (no_device ws) more = ws ∷ more

abbrev pub file_of : List Block → List (List Bytes)
file_of [] = []
file_of (b ∷ bs) = lines_of b (file_of bs)

abbrev NoDevice : List Bytes → Type 0
NoDevice [] = Unit
NoDevice (label ∷ ws) = bytes_eq label (codes "device") ≡ false

abbrev pub Fits : Block → Type 0
Fits (nfs b) =
    ((b.type ≡ codes "nfs") ⊎ (b.type ≡ codes "nfs4"))
    × All (ItemFits b.version) b.items
    × All OperationFits b.operations
Fits (plain device mount type) = Unit
Fits (no_device ws) = NoDevice ws

abbrev pub nfs_mount_of : NfsBlock → Mount
nfs_mount_of b = record {
  device = b.device;
  mount = b.mount;
  type = b.type;
  stats = some (record (foldl apply (new_stats b.version) b.items) {
    operations = map statistics_of b.operations;
  });
}

abbrev pub mounts_of : List Block → List Mount
mounts_of [] = []
mounts_of (nfs b ∷ bs) = nfs_mount_of b ∷ mounts_of bs
mounts_of (plain device mount type ∷ bs) =
    record { device = device; mount = mount; type = type; stats = none } ∷ mounts_of bs
mounts_of (no_device ws ∷ bs) = mounts_of bs
