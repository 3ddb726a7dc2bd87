-- ===== src/Nfs/Server.antt =====
-- nfs/parse_nfsd.go: `ParseServerRPCStats`, and `ServerRPCStats` of nfs/nfs.go.
pub mod Line
pub mod Metric
pub mod RoundTrip
use procfs.Base.{ℕ, ltb, length, List, Bytes, bytes_eq, codes, if◌then◌else◌}
use procfs.Go.Files.{Files, open_file}
use procfs.Go.Result.{
  Result, ok, err, errorf, wrap, ◌>>=◌, ◌>>◌, fail_if, ◌!!◌, slice, each, wrapping,
}
use procfs.Go.Scanner.{Reader, scan, scan_err}
use procfs.Go.Text.{fields}
use procfs.Nfs.Parse.Common.{
  parse_reply_cache, parse_file_handles, parse_input_output, parse_threads, parse_read_ahead_cache,
  parse_network, parse_server_rpc,
}
use procfs.Nfs.Parse.ServerV4.{parse_server_v4_stats, parse_v4_ops}
use procfs.Nfs.Parse.Versions.{parse_v2_stats, parse_v3_stats}
use procfs.Nfs.Types.{ServerRpcStats, zero_server_rpc_stats}
use procfs.Util.Parse.{parse_uint64s}

abbrev parsing {ℓ} : {A : Type ℓ} → Result A → Result A
parsing = wrapping "errors parsing NFSd metric line: %w"

-- The last cases of the switch over the label of a line: those of the NFS versions.
unfoldable pub server_version_metric : Bytes → List ℕ → ServerRpcStats → Result ServerRpcStats
server_version_metric label values stats =
    if bytes_eq label (codes "proc2")
    then (do x ← parsing (parse_v2_stats values); ok (record stats { v2_stats = x }))
    else if bytes_eq label (codes "proc3")
    then (do x ← parsing (parse_v3_stats values); ok (record stats { v3_stats = x }))
    else if bytes_eq label (codes "proc4")
    then (do x ← parsing (parse_server_v4_stats values); ok (record stats { server_v4_stats = x }))
    else if bytes_eq label (codes "proc4ops")
    then (do x ← parsing (parse_v4_ops values); ok (record stats { v4_ops = x }))
    else if bytes_eq label (codes "wdeleg_getattr")
    then (do x ← values !! 0; ok (record stats { wdeleg_getattr = x }))
    else err (errorf "unknown NFSd metric line %q")

-- The switch.
unfoldable pub server_metric : Bytes → List ℕ → ServerRpcStats → Result ServerRpcStats
server_metric label values stats =
    if bytes_eq label (codes "rc")
    then (do x ← parsing (parse_reply_cache values); ok (record stats { reply_cache = x }))
    else if bytes_eq label (codes "fh")
    then (do x ← parsing (parse_file_handles values); ok (record stats { file_handles = x }))
    else if bytes_eq label (codes "io")
    then (do x ← parsing (parse_input_output values); ok (record stats { input_output = x }))
    else if bytes_eq label (codes "th")
    then (do x ← parsing (parse_threads values); ok (record stats { threads = x }))
    else if bytes_eq label (codes "ra")
    then (do
      x ← parsing (parse_read_ahead_cache values)
      ok (record stats { read_ahead_cache = x }))
    else if bytes_eq label (codes "net")
    then (do x ← parsing (parse_network values); ok (record stats { network = x }))
    else if bytes_eq label (codes "rpc")
    then (do x ← parsing (parse_server_rpc values); ok (record stats { server_rpc = x }))
    else server_version_metric label values stats

-- The texts that are parsed as numbers: the first two of a "th" line, and all of another.
unfoldable pub server_texts : Bytes → List Bytes → Result (List Bytes)
server_texts label parts =
    if bytes_eq label (codes "th")
    then (do
      fail_if (ltb (length parts) 3) (errorf "invalid NFSd th metric line %q")
      slice parts 1 3)
    else slice parts 1 (length parts)

-- The body of the loop.
unfoldable pub server_line : ServerRpcStats → Bytes → Result ServerRpcStats
server_line stats line = do
  let parts = fields line
  fail_if (ltb (length parts) 2) (errorf "invalid NFSd metric line %q")
  label ← parts !! 0
  texts ← server_texts label parts
  values ← wrapping "error parsing NFSd metric line: %w" (parse_uint64s texts)
  server_metric label values stats

unfoldable pub parse_server_rpc_stats : Reader → Result ServerRpcStats
parse_server_rpc_stats r = do
  stats ← each server_line zero_server_rpc_stats (scan r).lines
  scan_err (wrap "error scanning NFSd file: %w") (scan r).fault stats

-- `FS.ServerRPCStats` over the files below the mount point.
unfoldable pub server_rpc_stats : Files → Result ServerRpcStats
server_rpc_stats files = do f ← open_file files "net/rpc/nfsd"; parse_server_rpc_stats f
