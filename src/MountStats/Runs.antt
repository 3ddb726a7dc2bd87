-- ===== src/MountStats/Runs.antt =====
-- mountstats.go: the loop over the lines as the runs that it can have, which no count of rounds bounds.
use procfs.Base.{
  ℕ, zero, suc, ◌<◌, Bytes, List, [], ◌∷◌, ◌++◌, ◌≡◌, refl, sym, subst, Option, Bool, true, false,
  arith, length, bytes_eq, codes, ◌==◌, if◌then◌else◌,
}
use procfs.Go.Result.{Result, Error, ok, err, panic, ◌!!◌, ◌>>=◌}
use procfs.Go.Scanner.{Reader, scan, scan_err}
use procfs.Go.Text.{fields}
use procfs.Go.Yields.{Yields}
use procfs.MountStats.Nfs.{Durations}
use procfs.MountStats.Rest.{Shrinks, parse_device-Leaves}
use procfs.MountStats.Types.{Mount}
use procfs.MountStats.{parse_device, mounts_loop, parse_mount_stats}

module _ (d : Durations) (fault : Option Error) where
  -- `Runs lines mounts r`: finitely many rounds of the loop take it from these lines that are left and
  -- these mounts to the return of `r`.
  pub data Runs : List Bytes → List Mount → Result (List Mount) → Type 0 where
    at_end : {mounts : List Mount} → Runs [] mounts (scan_err (λ e. e) fault mounts)
    blank :
        {line : Bytes} {lines : List Bytes} {mounts : List Mount} {r : Result (List Mount)}
        → fields line ≡ []
        → Runs lines mounts r
        → Runs (line ∷ lines) mounts r
    no_device :
        {line label : Bytes} {words lines : List Bytes} {mounts : List Mount}
        {r : Result (List Mount)}
        → fields line ≡ label ∷ words
        → bytes_eq label (codes "device") ≡ false
        → Runs lines mounts r
        → Runs (line ∷ lines) mounts r
    device :
        {line label : Bytes} {words lines rest : List Bytes} {mounts : List Mount} {m : Mount}
        {r : Result (List Mount)}
        → fields line ≡ label ∷ words
        → bytes_eq label (codes "device") ≡ true
        → parse_device d fault (fields line) lines ≡ ok (m, rest)
        → Runs rest (mounts ++ m ∷ []) r
        → Runs (line ∷ lines) mounts r
    failed :
        {line label : Bytes} {words lines : List Bytes} {mounts : List Mount} {e : Error}
        → fields line ≡ label ∷ words
        → bytes_eq label (codes "device") ≡ true
        → parse_device d fault (fields line) lines ≡ err e
        → Runs (line ∷ lines) mounts (err e)
    panics :
        {line label : Bytes} {words lines : List Bytes} {mounts : List Mount}
        → fields line ≡ label ∷ words
        → bytes_eq label (codes "device") ≡ true
        → parse_device d fault (fields line) lines ≡ panic
        → Runs (line ∷ lines) mounts panic

  -- What the loop runs to from fewer lines than there are rounds.
  abbrev Further : ℕ → Type 0
  Further f =
      (rest : List Bytes) (ms : List Mount)
      → length rest < f
      → Runs rest ms (mounts_loop d fault f rest ms)

  device-Runs :
      (f : ℕ) (line label : Bytes) (words lines : List Bytes) (mounts : List Mount)
      → length lines < f
      → fields line ≡ label ∷ words
      → bytes_eq label (codes "device") ≡ true
      → Further f
      → (r : Result (Mount × List Bytes)) → parse_device d fault (fields line) lines ≡ r
      → Yields r (λ (p : Mount × List Bytes). Shrinks (λ _. Unit) lines p.1)
      → Runs
          (line ∷ lines)
          mounts
          (r >>= λ (p : Mount × List Bytes). mounts_loop d fault f p.1 (mounts ++ p.0 ∷ []))
  device-Runs f line label words lines mounts enough h k next (ok (m, rest)) e (short, keeps) =
      Runs.device h k e (next rest (mounts ++ m ∷ []) (omega arith))
  device-Runs f line label words lines mounts enough h k next (err x) e y = Runs.failed h k e
  device-Runs f line label words lines mounts enough h k next panic e y = Runs.panics h k e

  label-Runs :
      (f : ℕ) (line label : Bytes) (words lines : List Bytes) (mounts : List Mount)
      → length lines < f
      → fields line ≡ label ∷ words
      → Further f
      → (is_device : Bool) → bytes_eq label (codes "device") ≡ is_device
      → Runs (line ∷ lines) mounts (
          if is_device
          then (parse_device d fault (fields line) lines >>= λ (p : Mount × List Bytes).
              mounts_loop d fault f p.1 (mounts ++ p.0 ∷ []))
          else mounts_loop d fault f lines mounts)
  label-Runs f line label words lines mounts enough h next true k =
      device-Runs f line label words lines mounts enough h k next
        (parse_device d fault (fields line) lines) refl
        (parse_device-Leaves (λ _. Unit) d fault (fields line) lines)
  label-Runs f line label words lines mounts enough h next false k =
      Runs.no_device h k (next lines mounts enough)

  line-Runs :
      (f : ℕ) (line : Bytes) (lines : List Bytes) (mounts : List Mount)
      → length lines < f
      → Further f
      → (ss : List Bytes) → fields line ≡ ss
      → Runs (line ∷ lines) mounts (mounts_loop d fault (suc f) (line ∷ lines) mounts)
  unfolding mounts_loop
  line-Runs f line lines mounts enough next [] h = rw h (Runs.blank h (next lines mounts enough))
  line-Runs f line lines mounts enough next (label ∷ words) h =
      let runs =
        label-Runs f line label words lines mounts enough h next (bytes_eq label (codes "device"))
          refl in
      let some_words : (length (label ∷ words) == 0) ≡ false = ground arith in
      subst
        (λ ss. Runs (line ∷ lines) mounts (
          if length ss == 0
          then mounts_loop d fault f lines mounts
          else ss !! 0 >>= λ l.
              if bytes_eq l (codes "device")
              then (parse_device d fault (fields line) lines >>= λ (p : Mount × List Bytes).
                  mounts_loop d fault f p.1 (mounts ++ p.0 ∷ []))
              else mounts_loop d fault f lines mounts))
        (sym h) (rw some_words runs)

  mounts_loop-Runs : (f : ℕ) → Further f
  unfolding mounts_loop
  mounts_loop-Runs zero lines mounts enough = absurd (omega arith)
  mounts_loop-Runs (suc f) [] mounts enough = Runs.at_end
  mounts_loop-Runs (suc f) (line ∷ lines) mounts enough =
      line-Runs f line lines mounts (omega arith) (mounts_loop-Runs f) (fields line) refl

module _ (d : Durations) where
  -- For every reader, the loop over the lines of mountstats ends (`Runs`), and what it returns when it
  -- starts with all lines and no mounts is what the parser returns: a line without words and a line of
  -- another label than "device" are left out, the mount of a "device" line is put behind those before it
  -- and the loop goes on behind the lines that were read for it, and an error or a panic of such a line
  -- ends the loop.
  pub parse_mount_stats-Runs :
      (r : Reader) → Runs d (scan r).fault (scan r).lines [] (parse_mount_stats d r)
  unfolding parse_mount_stats
  parse_mount_stats-Runs r =
      mounts_loop-Runs d (scan r).fault (suc (length (scan r).lines)) (scan r).lines []
        (omega arith)
