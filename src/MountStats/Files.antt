-- ===== src/MountStats/Files.antt =====
-- mountstats.go: the mounts of a whole file.
use procfs.Base.{
  ℕ, zero, suc, ◌<◌, ◌≤◌, Bytes, List, [], ◌∷◌, ◌++◌, ◌≡◌, refl, inl, inr, ◌⊎◌, not, ◌&&◌, ltb,
  none, false, length, All, bytes_eq, codes, arith, append_assoc, append-nil, subst,
}
use procfs.Go.Result.{ok, each}
use procfs.Go.Scanner.{Reader, scan}
use procfs.Go.Text.Affixes.{trim_prefix-append}
use procfs.Go.Yields.{Yields}
use procfs.Go.Lines.{Spelled}
use procfs.MountStats.Blocks.{
  NfsBlock, Block, device_words, nfs_words, file_of, Fits, nfs_mount_of, mounts_of,
}
use procfs.MountStats.Nfs.{Durations}
use procfs.MountStats.Reading.{ReadsSeconds}
use procfs.MountStats.Rest.{Shrinks, parse_device-Leaves}
use procfs.MountStats.RoundTrip.{Reads, not_blank, parse_mount_stats_nfs-words}
use procfs.MountStats.Types.{Mount}
use procfs.MountStats.{parse_mount, check_word, parse_device, mounts_loop, parse_mount_stats}

parse_mount-words :
    (device mount type : Bytes) (more : List Bytes)
    → parse_mount (device_words device mount type more)
      ≡ ok (record { device = device; mount = mount; type = type; stats = none })
unfolding parse_mount check_word bytes_eq each
parse_mount-words device mount type more =
    let enough : ltb (suc (suc (suc (suc (suc (suc (suc (suc (length more))))))))) 8 ≡ false =
      ground arith in
    rw enough refl

is_nfs :
    (type : Bytes)
    → (type ≡ codes "nfs") ⊎ (type ≡ codes "nfs4")
    → (not (bytes_eq type (codes "nfs")) && not (bytes_eq type (codes "nfs4"))) ≡ false
unfolding bytes_eq
is_nfs type (inl e) = rw e refl
is_nfs type (inr e) = rw e refl

abbrev Anything : Bytes → Type 0
Anything line = Unit

module _ (d : Durations) (seconds : ReadsSeconds d) where
  parse_device-nfs :
      (b : NfsBlock) (lines : List Bytes) (more : List (List Bytes))
      → Fits (Block.nfs b)
      → Spelled lines (nfs_words b more)
      → Reads
          (parse_device d none
            (device_words b.device b.mount b.type ((codes "statvers=" ++ b.version) ∷ []))
            lines)
          (nfs_mount_of b)
          more
  unfolding parse_device bytes_eq
  parse_device-nfs b lines more (nfs_type, fits, operations_fit) spelled =
      let (rest, read, left) =
        parse_mount_stats_nfs-words d seconds b lines more fits operations_fit spelled in
      let parsed =
        parse_mount-words b.device b.mount b.type ((codes "statvers=" ++ b.version) ∷ []) in
      (
        rest,
        rw (parsed, is_nfs b.type nfs_type, trim_prefix-append (codes "statvers=") b.version, read)
            refl,
        left,
      )

  parse_device-plain :
      (device mount type : Bytes) (lines : List Bytes)
      → parse_device d none (device_words device mount type []) lines
        ≡ ok (record { device = device; mount = mount; type = type; stats = none }, lines)
  unfolding parse_device
  parse_device-plain device mount type lines = rw (parse_mount-words device mount type []) refl

  mounts_loop-blocks :
      (bs : List Block) (f : ℕ) (lines : List Bytes) (mounts : List Mount)
      → length lines < f
      → All Fits bs
      → Spelled lines (file_of bs)
      → mounts_loop d none f lines mounts ≡ ok (mounts ++ mounts_of bs)
  unfolding mounts_loop bytes_eq
  mounts_loop-blocks bs zero lines mounts enough h spelled = absurd (omega arith)
  mounts_loop-blocks [] (suc f) [] mounts enough h spelled = rw (append-nil mounts) refl
  mounts_loop-blocks [] (suc f) (line ∷ lines) mounts enough h spelled = absurd spelled
  mounts_loop-blocks (Block.nfs b ∷ bs) (suc f) [] mounts enough h spelled = absurd spelled
  mounts_loop-blocks (Block.plain device mount type ∷ bs) (suc f) [] mounts enough h spelled =
      absurd spelled
  mounts_loop-blocks (Block.no_device ws ∷ bs) (suc f) [] mounts enough h spelled = absurd spelled
  mounts_loop-blocks (Block.nfs b ∷ bs) (suc f) (line ∷ lines) mounts enough (fits, h)
        (e, spelled) =
      let (rest, read, left) = parse_device-nfs b lines (file_of bs) fits spelled in
      let shrinks =
        subst (λ r. Yields r (λ (p : Mount × List Bytes). Shrinks Anything lines p.1)) read
          (parse_device-Leaves Anything d none _ lines) in
      let short : length rest ≤ length lines = shrinks.0 in
      let ih = mounts_loop-blocks bs f rest (mounts ++ nfs_mount_of b ∷ []) (omega arith) h left in
      let same : (mounts ++ nfs_mount_of b ∷ []) ++ mounts_of bs
          ≡ mounts ++ (nfs_mount_of b ∷ mounts_of bs) =
        simp append_assoc in
      rw (e, read, ih, same) refl
  mounts_loop-blocks (Block.plain device mount type ∷ bs) (suc f) (line ∷ lines) mounts enough
        (fits, h) (e, spelled) =
      let m : Mount = record { device = device; mount = mount; type = type; stats = none } in
      let ih = mounts_loop-blocks bs f lines (mounts ++ m ∷ []) (omega arith) h spelled in
      let same : (mounts ++ m ∷ []) ++ mounts_of bs ≡ mounts ++ (m ∷ mounts_of bs) =
        simp append_assoc in
      rw (e, parse_device-plain device mount type lines, ih, same) refl
  mounts_loop-blocks (Block.no_device [] ∷ bs) (suc f) (line ∷ lines) mounts enough (fits, h)
        (e, spelled) =
      let ih = mounts_loop-blocks bs f lines mounts (omega arith) h spelled in rw (e, ih) refl
  mounts_loop-blocks (Block.no_device (w ∷ ws) ∷ bs) (suc f) (line ∷ lines) mounts enough (fits, h)
        (e, spelled) =
      let ih = mounts_loop-blocks bs f lines mounts (omega arith) h spelled in
      rw (e, not_blank w ws, fits, ih) refl

-- If `ParseDuration` reads a number of seconds as that number of seconds, a reader without an error
-- whose lines spell the words of some blocks, each of which fits, is parsed to the mounts of these blocks, in their order.
pub parse_mount_stats-blocks :
    (d : Durations) (r : Reader) (bs : List Block)
    → ReadsSeconds d
    → (scan r).fault ≡ none
    → Spelled (scan r).lines (file_of bs)
    → All Fits bs
    → parse_mount_stats d r ≡ ok (mounts_of bs)
unfolding parse_mount_stats
parse_mount_stats-blocks d r bs seconds no_fault spelled fits = rw no_fault (
    mounts_loop-blocks d seconds bs (suc (length (scan r).lines)) (scan r).lines [] (omega arith)
      fits spelled)
