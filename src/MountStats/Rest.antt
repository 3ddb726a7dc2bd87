-- ===== src/MountStats/Rest.antt =====
-- mountstats.go: the lines that the functions leave to their callers.
use procfs.Base.{
  ◌≤◌, Bytes, List, [], ◌∷◌, ◌++◌, Option, none, some, arith, length, All, ◌==◌, bytes_eq, codes,
  ltb, not, ◌&&◌, Bool, if◌then◌else◌,
}
use procfs.Go.Result.{Result, Error, ◌!!◌}
use procfs.Go.Scanner.{scan_err}
use procfs.Go.Text.{fields, trim_prefix}
use procfs.MountStats.Nfs.{
  Durations, nfs_line, nfs_lines, nfs_operations, parse_mount_stats_nfs, new_stats,
}
use procfs.MountStats.Lines.{nfs_operation}
use procfs.Go.Yields.{Yields, Yields-bind, Yields-after, Yields-map, Yields-if, Yields-fail_if}
use procfs.MountStats.{parse_mount, parse_device}
use procfs.MountStats.Types.{MountStatsNfs, NfsOperationStats, Mount}

module _ (F : Bytes → Type 0) where
  -- The rest is not longer, and keeps what every line has.
  abbrev pub Shrinks : List Bytes → List Bytes → Type 0
  Shrinks lines rest = (length rest ≤ length lines) × (All F lines → All F rest)

  Shrinks-refl : (lines : List Bytes) → Shrinks lines lines
  Shrinks-refl lines = (omega arith, λ h. h)

  Shrinks-cons :
      (line : Bytes) (lines rest : List Bytes) → Shrinks lines rest → Shrinks (line ∷ lines) rest
  Shrinks-cons line lines rest (short, keeps) = (omega arith, λ h. keeps h.1)

  abbrev Leaves : {A : Type 0} → List Bytes → Result (A × List Bytes) → Type 0
  Leaves {A} lines r = Yields r (λ (p : A × List Bytes). Shrinks lines p.1)

  Leaves-cons :
      {A : Type 0} (line : Bytes) (lines : List Bytes) (r : Result (A × List Bytes))
      → Leaves lines r
      → Leaves (line ∷ lines) r
  Leaves-cons line lines r = Yields-map _ _ (λ p. Shrinks-cons line lines p.1) r

  Leaves-if :
      {A : Type 0} (lines : List Bytes) (b : Bool) (m n : Result (A × List Bytes))
      → Leaves lines m
      → Leaves lines n
      → Leaves lines (if b then m else n)
  Leaves-if lines b m n = Yields-if (λ p. Shrinks lines p.1) b m n

  end-Leaves :
      {A : Type 0} (fault : Option Error) (a : A) → Leaves [] (scan_err (λ e. e) fault (a, []))
  end-Leaves none a = Shrinks-refl []
  end-Leaves (some _) a = tt

  pub nfs_lines-Leaves :
      (d : Durations) (version : Bytes) (fault : Option Error) (lines : List Bytes)
      (stats : MountStatsNfs)
      → Leaves lines (nfs_lines d version fault lines stats)
  unfolding nfs_lines
  nfs_lines-Leaves d version fault [] stats = end-Leaves fault stats
  nfs_lines-Leaves d version fault (line ∷ lines) stats =
      let ih = nfs_lines-Leaves d version fault lines in
      let here = Shrinks-cons line lines lines (Shrinks-refl lines) in
      Leaves-if (line ∷ lines) (length (fields line) == 0) _ _ here (
        Yields-bind (nfs_line d version stats (fields line)) _ _ λ next.
          Yields-bind (fields line !! 0) _ _ λ label.
            Leaves-if (line ∷ lines) (bytes_eq label (codes "per-op")) _ _ here
              (Leaves-cons line lines (nfs_lines d version fault lines next) (ih next)))

  pub nfs_operations-Leaves :
      (fault : Option Error) (lines : List Bytes) (ops : List NfsOperationStats)
      → Leaves lines (nfs_operations fault lines ops)
  unfolding nfs_operations
  nfs_operations-Leaves fault [] ops = end-Leaves fault ops
  nfs_operations-Leaves fault (line ∷ lines) ops =
      let ih = nfs_operations-Leaves fault lines in
      Leaves-if (line ∷ lines) (length (fields line) == 0) _ _
        (Shrinks-cons line lines lines (Shrinks-refl lines))
        (Yields-bind (nfs_operation (fields line)) _ _ λ op_stats.
          Leaves-cons line lines (nfs_operations fault lines (ops ++ op_stats ∷ []))
            (ih (ops ++ op_stats ∷ [])))

  Shrinks-trans : (a b c : List Bytes) → Shrinks a b → Shrinks b c → Shrinks a c
  Shrinks-trans a b c (short, keeps) (short', keeps') = (omega arith, λ h. keeps' (keeps h))

  pub parse_mount_stats_nfs-Leaves :
      (d : Durations) (fault : Option Error) (lines : List Bytes) (version : Bytes)
      → Leaves lines (parse_mount_stats_nfs d fault lines version)
  unfolding parse_mount_stats_nfs
  parse_mount_stats_nfs-Leaves d fault lines version =
      Yields-after (nfs_lines d version fault lines (new_stats version)) _ _ _
        (nfs_lines-Leaves d version fault lines (new_stats version))
        λ p shorter.
          Yields-after (nfs_operations fault p.1 []) _ _ _ (nfs_operations-Leaves fault p.1 [])
            λ q shortest. Shrinks-trans lines p.1 q.1 shorter shortest

  pub parse_device-Leaves :
      (d : Durations) (fault : Option Error) (ss lines : List Bytes)
      → Leaves lines (parse_device d fault ss lines)
  unfolding parse_device
  parse_device-Leaves d fault ss lines =
      let P = λ (p : Mount × List Bytes). Shrinks lines p.1 in
      Yields-bind (parse_mount ss) _ P λ m.
        Leaves-if lines (ltb 8 (length ss)) _ _
          (Yields-fail_if P
            (not (bytes_eq m.type (codes "nfs")) && not (bytes_eq m.type (codes "nfs4"))) _ _
            (Yields-bind (ss !! 8) _ P λ version.
              Yields-after
                (parse_mount_stats_nfs d fault lines (trim_prefix version (codes "statvers="))) _ _
                P
                (parse_mount_stats_nfs-Leaves d fault lines
                  (trim_prefix version (codes "statvers=")))
                λ p shorter. shorter))
          (Shrinks-refl lines)
