-- ===== src/MountStats/RoundTrip.antt =====
-- mountstats.go: the parser on a file whose lines spell the words of some blocks.
use procfs.Base.{
  Bytes, List, [], ◌∷◌, ◌++◌, ◌≡◌, ◌==◌, refl, ◌∙◌, Option, none, false, length, All, bytes_eq,
  codes, map, foldl, arith, if◌then◌else◌, append_assoc, append-nil, subst,
}
use procfs.Go.Lines.{numbers}
use procfs.Go.Result.{Result, ok, Error}
use procfs.Go.Text.{fields}
use procfs.Go.Lines.{Spelled}
use procfs.MountStats.Blocks.{
  Item, words_of, ItemFits, apply, Operation, statistics_of, operation_words, counters_of_operation,
  OperationFits, NfsBlock, nfs_words,
}
use procfs.MountStats.Nfs.{
  Durations, nfs_line, nfs_lines, nfs_operations, parse_mount_stats_nfs, new_stats,
}
use procfs.MountStats.Reading.{ReadsSeconds, nfs_line-words, nfs_operation-words}
use procfs.MountStats.Types.{MountStatsNfs, NfsOperationStats}

-- Reading some lines gives a value, and leaves lines that spell some words.
abbrev pub Reads : {A : Type 0} → Result (A × List Bytes) → A → List (List Bytes) → Type 0
Reads {A} r a more = (rest : List Bytes) × (r ≡ ok (a, rest)) × Spelled rest more

label_ne :
    (i : Item) (version : Bytes)
    → ItemFits version i
    → (label : Bytes) × (ws : List Bytes) × (words_of i ≡ label ∷ ws)
      × (bytes_eq label (codes "per-op") ≡ false)
unfolding bytes_eq
label_ne (Item.opts o os) version h = (_, _, refl, refl)
label_ne (Item.age n) version h = (_, _, refl, refl)
label_ne (Item.bytes x) version h = (_, _, refl, refl)
label_ne (Item.events x) version h = (_, _, refl, refl)
label_ne (Item.xprt x) version h = (_, _, refl, refl)
label_ne (Item.other label ws) version h = (label, ws, refl, h.5)

pub not_blank : (w : Bytes) (ws : List Bytes) → (length (w ∷ ws) == 0) ≡ false
not_blank w ws = ground arith

-- A line that is not blank, in the loop over the lines of a mount.
nfs_lines-next :
    (d : Durations) (version : Bytes) (fault : Option Error) (line : Bytes) (lines : List Bytes)
    (stats next : MountStatsNfs) (label : Bytes) (ws : List Bytes)
    → fields line ≡ label ∷ ws
    → nfs_line d version stats (label ∷ ws) ≡ ok next
    → nfs_lines d version fault (line ∷ lines) stats ≡ (
        if bytes_eq label (codes "per-op")
        then ok (next, lines)
        else nfs_lines d version fault lines next)
unfolding nfs_lines
nfs_lines-next d version fault line lines stats next label ws e f =
    rw (e, f, not_blank label ws) refl

nfs_line-per_op :
    (d : Durations) (version : Bytes) (stats : MountStatsNfs) (ws : List Bytes)
    → nfs_line d version stats (codes "per-op" ∷ ws) ≡ ok stats
unfolding nfs_line bytes_eq
nfs_line-per_op d version stats ws = refl

nfs_operations-words :
    (operations : List Operation) (lines : List Bytes) (ops : List NfsOperationStats)
    (more : List (List Bytes))
    → All OperationFits operations
    → Spelled lines (map operation_words operations ++ ([] ∷ more))
    → Reads (nfs_operations none lines ops) (ops ++ map statistics_of operations) more
unfolding nfs_operations
nfs_operations-words [] [] ops more h spelled = absurd spelled
nfs_operations-words [] (line ∷ lines) ops more h (e, spelled) =
    (lines, rw (e, append-nil ops) refl, spelled)
nfs_operations-words (o ∷ os) [] ops more h spelled = absurd spelled
nfs_operations-words (o ∷ os) (line ∷ lines) ops more (fits, h) (e, spelled) =
    let (rest, read, left) =
      nfs_operations-words os lines (ops ++ statistics_of o ∷ []) more h spelled in
    let same : (ops ++ statistics_of o ∷ []) ++ map statistics_of os
        ≡ ops ++ (statistics_of o ∷ map statistics_of os) =
      simp append_assoc in
    (
      rest,
      rw
          (
            e,
            not_blank _ (numbers (counters_of_operation o)),
            nfs_operation-words o fits,
            read,
            same,
          )
          refl,
      left,
    )

module _ (d : Durations) (seconds : ReadsSeconds d) where
  nfs_lines-items :
      (version : Bytes) (items : List Item) (lines : List Bytes) (stats : MountStatsNfs)
      (more : List (List Bytes))
      → All (ItemFits version) items
      → Spelled lines (map words_of items ++ ((codes "per-op" ∷ codes "statistics" ∷ []) ∷ more))
      → Reads (nfs_lines d version none lines stats) (foldl apply stats items) more
  unfolding bytes_eq
  nfs_lines-items version [] [] stats more h spelled = absurd spelled
  nfs_lines-items version [] (line ∷ lines) stats more h (e, spelled) =
      let per_op = nfs_line-per_op d version stats (codes "statistics" ∷ []) in
      (lines, nfs_lines-next d version none line lines stats stats _ _ e per_op, spelled)
  nfs_lines-items version (i ∷ items) [] stats more h spelled = absurd spelled
  nfs_lines-items version (i ∷ items) (line ∷ lines) stats more (fits, h) (e, spelled) =
      let (rest, read, left) = nfs_lines-items version items lines (apply stats i) more h spelled in
      let (label, ws, words, other) = label_ne i version fits in
      let step =
        nfs_lines-next d version none line lines stats (apply stats i) label ws (e ∙ words) (
          subst (λ w. nfs_line d version stats w ≡ ok (apply stats i)) words
            (nfs_line-words d version stats i seconds fits)) in
      (rest, step ∙ rw other read, left)

  pub parse_mount_stats_nfs-words :
      (b : NfsBlock) (lines : List Bytes) (more : List (List Bytes))
      → All (ItemFits b.version) b.items
      → All OperationFits b.operations
      → Spelled lines (nfs_words b more)
      → Reads
          (parse_mount_stats_nfs d none lines b.version)
          (record (foldl apply (new_stats b.version) b.items) {
            operations = map statistics_of b.operations;
          })
          more
  unfolding parse_mount_stats_nfs
  parse_mount_stats_nfs-words b lines more fits operations_fit spelled =
      let (rest, read, left) =
        nfs_lines-items b.version b.items lines (new_stats b.version)
          (map operation_words b.operations ++ ([] ∷ more)) fits spelled in
      let (behind, read', left') =
        nfs_operations-words b.operations rest [] more operations_fit left in
      (behind, rw (read, read') refl, left')
