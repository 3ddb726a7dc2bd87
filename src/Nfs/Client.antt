-- ===== src/Nfs/Client.antt =====
-- nfs/parse_nfs.go: `ParseClientRPCStats`, and `ClientRPCStats` of nfs/nfs.go.
pub mod Line
pub mod RoundTrip
use procfs.Base.{ℕ, ltb, length, List, Bytes, String, bytes_eq, codes, if◌then◌else◌}
use procfs.Go.Files.{Files, open_file}
use procfs.Go.Result.{
  Result, ok, err, Error, errorf, wrap, ◌>>=◌, ◌>>◌, fail_if, ◌!!◌, slice, each, wrapping,
}
use procfs.Go.Scanner.{Reader, scan, scan_err}
use procfs.Go.Text.{fields}
use procfs.Nfs.Parse.ClientV4.{parse_client_v4_stats}
use procfs.Nfs.Parse.Common.{parse_network, parse_client_rpc}
use procfs.Nfs.Parse.Versions.{parse_v2_stats, parse_v3_stats}
use procfs.Nfs.Types.{ClientRpcStats, zero_client_rpc_stats}
use procfs.Util.Parse.{parse_uint64s}

abbrev parsing {ℓ} : {A : Type ℓ} → Result A → Result A
parsing = wrapping "errors parsing NFS metric line: %w"

-- The switch over the label of a line.
unfoldable pub client_metric : Bytes → List ℕ → ClientRpcStats → Result ClientRpcStats
client_metric label values stats =
    if bytes_eq label (codes "net")
    then (do x ← parsing (parse_network values); ok (record stats { network = x }))
    else if bytes_eq label (codes "rpc")
    then (do x ← parsing (parse_client_rpc values); ok (record stats { client_rpc = x }))
    else if bytes_eq label (codes "proc2")
    then (do x ← parsing (parse_v2_stats values); ok (record stats { v2_stats = x }))
    else if bytes_eq label (codes "proc3")
    then (do x ← parsing (parse_v3_stats values); ok (record stats { v3_stats = x }))
    else if bytes_eq label (codes "proc4")
    then (do x ← parsing (parse_client_v4_stats values); ok (record stats { client_v4_stats = x }))
    else err (errorf "unknown NFS metric line %q")

-- The body of the loop.
unfoldable pub client_line : ClientRpcStats → Bytes → Result ClientRpcStats
client_line stats line = do
  let parts = fields line
  fail_if (ltb (length parts) 2) (errorf "invalid NFS metric line %q")
  rest ← slice parts 1 (length parts)
  values ← wrapping "error parsing NFS metric line: %w" (parse_uint64s rest)
  metric_line ← parts !! 0
  client_metric metric_line values stats

unfoldable pub parse_client_rpc_stats : Reader → Result ClientRpcStats
parse_client_rpc_stats r = do
  stats ← each client_line zero_client_rpc_stats (scan r).lines
  scan_err (wrap "error scanning NFS file: %w") (scan r).fault stats

-- `FS.ClientRPCStats` over the files below the mount point.
unfoldable pub client_rpc_stats : Files → Result ClientRpcStats
client_rpc_stats files = do f ← open_file files "net/rpc/nfs"; parse_client_rpc_stats f
