-- ===== src/MountStats/Total.antt =====
-- mountstats.go: which files the parser accepts or refuses without a panic.
use procfs.Base.{
  ℕ, zero, suc, ◌≤◌, ◌<◌, Bytes, List, [], ◌∷◌, ◌++◌, ◌≡◌, Option, true, false, arith, length, All,
  ◌==◌, ◌&&◌, not, bytes_eq, codes, ltb, Bool,
}
use procfs.Go.Map.{StringMap}
use procfs.Go.Result.{
  Error, fail_if, each, slice_tail, ◌!!◌, Returns, Returns-bind, Returns-fail_if, Returns-!!,
  Returns-each,
}
use procfs.Go.Scanner.{Reader, scan, scan_err-Returns}
use procfs.Go.Text.{fields, split, trim_prefix}
use procfs.Go.Yields.{Returns-after, Returns-if}
use procfs.MountStats.Bounds.{
  parse_nfs_bytes_stats-Returns, parse_nfs_events_stats-Returns, nfs_operation-Returns,
  parse_nfs_transport_stats-Returns,
}
use procfs.MountStats.Nfs.{
  Durations, nfs_option, nfs_line, nfs_lines, nfs_operations, parse_mount_stats_nfs, new_stats,
}
use procfs.MountStats.Rest.{Shrinks, parse_device-Leaves}
use procfs.MountStats.Types.{MountStatsNfs, NfsOperationStats, Mount}
use procfs.MountStats.{check_word, parse_mount, parse_device, mounts_loop, parse_mount_stats}

nfs_option-Returns : (opts : StringMap) (opt : Bytes) → Returns (nfs_option opts opt)
unfolding nfs_option
nfs_option-Returns opts opt =
    let parts = split opt b'=' in
    Returns-if (length parts == 2) _ _
      (λ two.
        Returns-bind _ _ (Returns-!! parts 0 (ground arith))
          λ _. Returns-bind _ _ (Returns-!! parts 1 (ground arith)) λ _. tt)
      (λ _. tt)

-- An "xprt:" line has at most 31 counters behind its protocol.
abbrev pub FewCounters : List Bytes → Type 0
FewCounters [] = Unit
FewCounters (label ∷ ws) = bytes_eq label (codes "xprt:") ≡ true → length ws ≤ 32

fail_if-Returns : (b : Bool) (e : Error) → Returns (fail_if b e)
fail_if-Returns true e = tt
fail_if-Returns false e = tt

check_words-Returns :
    (ss : List Bytes) (fs : List (ℕ × Bytes))
    → All (λ (f : ℕ × Bytes). f.0 < length ss) fs
    → Returns (each (λ _ f. check_word ss f) tt fs)
unfolding each check_word
check_words-Returns ss [] h = tt
check_words-Returns ss ((i, s) ∷ fs) (within, h) =
    Returns-bind _ _
      (Returns-bind (ss !! i) _ (Returns-!! ss i within)
        (λ word. fail_if-Returns (not (bytes_eq word s)) _))
      (λ _. check_words-Returns ss fs h)

parse_mount-Returns : (ss : List Bytes) → Returns (parse_mount ss)
unfolding parse_mount
parse_mount-Returns ss = Returns-fail_if (ltb (length ss) 8) _ _ λ enough.
    Returns-bind _ _ (check_words-Returns ss _ (ground arith)) λ _.
      Returns-bind _ _ (Returns-!! ss 1 (ground arith)) λ _.
        Returns-bind _ _ (Returns-!! ss 4 (ground arith))
          λ _. Returns-bind _ _ (Returns-!! ss 7 (ground arith)) λ _. tt

module _ (d : Durations) (d-Returns : (s : Bytes) → Returns (d s)) where
  nfs_line-Returns :
      (version : Bytes) (stats : MountStatsNfs) (ss : List Bytes)
      → 0 < length ss
      → FewCounters ss
      → Returns (nfs_line d version stats ss)
  unfolding nfs_line
  nfs_line-Returns version stats [] h few = absurd (omega arith)
  nfs_line-Returns version stats (label ∷ ws) h few =
      let ss = label ∷ ws in
      rw (slice_tail label ws) (
        Returns-if (bytes_eq label (codes "opts:")) _ _
          (λ _. Returns-fail_if (ltb (length ss) 2) _ _ λ enough.
            Returns-bind _ _ (Returns-!! ss 1 (ground arith)) λ text.
              Returns-bind _ _
                (Returns-each nfs_option nfs_option-Returns stats.opts (split text b',')) (λ _. tt))
          λ _.
            Returns-if (bytes_eq label (codes "age:")) _ _
              (λ _. Returns-fail_if (ltb (length ss) 2) _ _ λ enough.
                Returns-bind _ _ (Returns-!! ss 1 (ground arith))
                  λ text. Returns-bind _ _ (d-Returns (text ++ codes "s")) (λ _. tt))
              λ _.
                Returns-if (bytes_eq label (codes "bytes:")) _ _
                  (λ _.
                    Returns-fail_if (ltb (length ss) 2) _ _
                      λ _. Returns-bind _ _ (parse_nfs_bytes_stats-Returns ws) (λ _. tt))
                  λ _.
                    Returns-if (bytes_eq label (codes "events:")) _ _
                      (λ _.
                        Returns-fail_if (ltb (length ss) 2) _ _
                          λ _. Returns-bind _ _ (parse_nfs_events_stats-Returns ws) (λ _. tt))
                      λ _.
                        Returns-if (bytes_eq label (codes "xprt:")) _ _
                          (λ xprt. Returns-fail_if (ltb (length ss) 3) _ _ λ enough.
                            Returns-bind _ _
                              (parse_nfs_transport_stats-Returns ws version (ground arith)
                                (few xprt))
                              (λ _. tt))
                          (λ _. tt))

  abbrev FewInLine : Bytes → Type 0
  FewInLine line = FewCounters (fields line)

  nfs_lines-Returns :
      (version : Bytes) (fault : Option Error) (lines : List Bytes) (stats : MountStatsNfs)
      → All FewInLine lines
      → Returns (nfs_lines d version fault lines stats)
  unfolding nfs_lines
  nfs_lines-Returns version fault [] stats h = scan_err-Returns _ fault (stats, [])
  nfs_lines-Returns version fault (line ∷ lines) stats (few, h) =
      let ss = fields line in
      let ih = λ (next : MountStatsNfs). nfs_lines-Returns version fault lines next h in
      Returns-if (length ss == 0) _ _ (λ _. tt)
        λ some_words.
          Returns-bind _ _ (nfs_line-Returns version stats ss (ground arith) few) λ next.
            Returns-bind _ _ (Returns-!! ss 0 (ground arith))
              λ label. Returns-if (bytes_eq label (codes "per-op")) _ _ (λ _. tt) (λ _. ih next)

  nfs_operations-Returns :
      (fault : Option Error) (lines : List Bytes) (ops : List NfsOperationStats)
      → Returns (nfs_operations fault lines ops)
  unfolding nfs_operations
  nfs_operations-Returns fault [] ops = scan_err-Returns _ fault (ops, [])
  nfs_operations-Returns fault (line ∷ lines) ops =
      let ih = nfs_operations-Returns fault lines in
      Returns-if (length (fields line) == 0) _ _ (λ _. tt)
        λ _. Returns-bind _ _ (nfs_operation-Returns (fields line)) (λ op. ih (ops ++ op ∷ []))

  parse_mount_stats_nfs-Returns :
      (fault : Option Error) (lines : List Bytes) (version : Bytes)
      → All FewInLine lines
      → Returns (parse_mount_stats_nfs d fault lines version)
  unfolding parse_mount_stats_nfs
  parse_mount_stats_nfs-Returns fault lines version h =
      Returns-bind _ _ (nfs_lines-Returns version fault lines (new_stats version) h)
        λ p. Returns-bind _ _ (nfs_operations-Returns fault p.1 []) (λ _. tt)

  parse_device-Returns :
      (fault : Option Error) (ss lines : List Bytes)
      → All FewInLine lines
      → Returns (parse_device d fault ss lines)
  unfolding parse_device
  parse_device-Returns fault ss lines h = Returns-bind _ _ (parse_mount-Returns ss) λ m.
      Returns-if (ltb 8 (length ss)) _ _
        (λ more.
          Returns-fail_if
            (not (bytes_eq m.type (codes "nfs")) && not (bytes_eq m.type (codes "nfs4"))) _ _
            λ _. Returns-bind _ _ (Returns-!! ss 8 (ground arith)) λ version.
              Returns-bind _ _
                (parse_mount_stats_nfs-Returns fault lines (trim_prefix version (codes "statvers="))
                  h)
                (λ _. tt))
        (λ _. tt)

  mounts_loop-Returns :
      (fault : Option Error) (f : ℕ) (lines : List Bytes) (mounts : List Mount)
      → length lines < f
      → All FewInLine lines
      → Returns (mounts_loop d fault f lines mounts)
  unfolding mounts_loop
  mounts_loop-Returns fault zero lines mounts lt h = absurd (omega arith)
  mounts_loop-Returns fault (suc f) [] mounts lt h = scan_err-Returns _ fault mounts
  mounts_loop-Returns fault (suc f) (line ∷ lines) mounts lt (few, h) =
      let ss = fields line in
      let skipped = mounts_loop-Returns fault f lines mounts (omega arith) h in
      let device =
        Returns-after (parse_device d fault ss lines)
          (λ (p : Mount × List Bytes). mounts_loop d fault f p.1 (mounts ++ p.0 ∷ []))
          (λ (p : Mount × List Bytes). Shrinks FewInLine lines p.1)
          (parse_device-Returns fault ss lines h) (parse_device-Leaves FewInLine d fault ss lines)
          λ (p : Mount × List Bytes) (shorter : Shrinks FewInLine lines p.1).
            let short = shorter.0 in
            mounts_loop-Returns fault f p.1 (mounts ++ p.0 ∷ []) (omega arith) (shorter.1 h) in
      Returns-if (length ss == 0) _ _ (λ _. skipped)
        λ some_words.
          Returns-bind _ _ (Returns-!! ss 0 (ground arith))
            λ label. Returns-if (bytes_eq label (codes "device")) _ _ (λ _. device) (λ _. skipped)

  -- If `ParseDuration` does not panic, the parser of mountstats returns mounts or an error for every
  -- reader in which no line that starts with "xprt:" has more than 32 further words: the fuel of its loop
  -- is enough, and no index is out of range.
  pub parse_mount_stats-Returns :
      (r : Reader) → All FewInLine (scan r).lines → Returns (parse_mount_stats d r)
  unfolding parse_mount_stats
  parse_mount_stats-Returns r h =
      mounts_loop-Returns (scan r).fault (suc (length (scan r).lines)) (scan r).lines []
        (omega arith) h
