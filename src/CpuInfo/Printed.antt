-- ===== src/CpuInfo/Printed.antt =====
-- cpuinfo.go: files of processors, each a line with its number and lines with its fields, and what the
-- loops of the parsers do with them.
pub mod X86
pub mod Ppc
pub mod Mips
use procfs.Base.{
  ℕ, suc, List, [], ◌∷◌, ◌++◌, ◌≡◌, refl, ap, ◌∙◌, map, foldl, All, Bytes, Option, none, some,
  codes, arith, length, Bool, true, false, bytes_eq, ◌⊎◌, ◌<◌,
}
use procfs.CpuInfo.{CpuInfo, Entry, line_entry, zero_cpu_info}
use procfs.CpuInfo.Processors
use procfs.CpuInfo.Numbered.Consecutive.{
  Entries, Consecutive, FromZero, processors, processors_from_zero,
}
use procfs.Go.Result.{Result, ok, ◌>>=◌}
use procfs.Go.Strconv.{parse_uint}
use procfs.Go.Text.{trim_space, contains, split_two_text}

-- A line that is of no known field: it has no colon, or another label than the known ones.
abbrev pub IsOther : List Bytes → Bytes → Type 0
IsOther known line =
    (contains line (codes ":") ≡ false)
    ⊎ ((label : Bytes) × (rest : List Bytes) × (contains line (codes ":") ≡ true)
        × (split_two_text line (codes ": ") ≡ label ∷ rest)
        × All (λ k. bytes_eq (trim_space label) k ≡ false) known)

-- A processor: its number, the text of that, and the lines below it.
pub record Block (L : Type 0) : Type 0 where
  pub number : ℕ
  pub text : Bytes
  pub lines : List L

module _ {F L : Type 0} (effect : L → Option (CpuInfo F → CpuInfo F)) where
  -- What a line says of the processor above it.
  abbrev pub apply : CpuInfo F → L → CpuInfo F
  apply cpu l = elim (effect l) [ none ↦ cpu | some f ↦ f cpu ]

  abbrev pub entry_of : L → Entry F
  entry_of l = elim (effect l) [ none ↦ Entry.nothing | some f ↦ Entry.set f ]

  abbrev pub entries_of : List (Block L) → List (Entry F)
  entries_of [] = []
  entries_of (b ∷ bs) = Entry.start b.number ∷ (map entry_of b.lines ++ entries_of bs)

module _ {L : Type 0} (start : Bytes) (printed : L → Bytes) where
  -- The lines of a file. A processor begins with the line `start` and its number.
  abbrev pub lines_of : List (Block L) → List Bytes
  lines_of [] = []
  lines_of (b ∷ bs) = (start ++ b.text) ∷ (map printed b.lines ++ lines_of bs)

-- The numbers of the processors are read, and so are the lines below them.
abbrev pub AreRead : {L : Type 0} → (L → Type 0) → List (Block L) → Type 0
AreRead IsRead = All (λ b. (parse_uint b.text 0 32 ≡ ok b.number) × All IsRead b.lines)

-- The processors are numbered one by one.
abbrev pub AreNumbered : {L : Type 0} → ℕ → List (Block L) → Type 0
AreNumbered n [] = Unit
AreNumbered n (b ∷ bs) = (b.number ≡ n) × AreNumbered (suc n) bs

module _ {F : Type 0} (zero_float : F) (parse_float : Bytes → Result F) {L : Type 0}
    (effect : L → Option (CpuInfo F → CpuInfo F)) (begin : ℕ → CpuInfo F → CpuInfo F) where
  -- The processor of a block.
  abbrev pub cpu_of : Block L → CpuInfo F
  cpu_of b = foldl (apply effect) (begin b.number (zero_cpu_info zero_float parse_float)) b.lines

  processors-lines :
      (ls : List L) (cpu : CpuInfo F) (es : List (Entry F))
      → processors zero_float parse_float begin cpu (map (entry_of effect) ls ++ es)
        ≡ processors zero_float parse_float begin (foldl (apply effect) cpu ls) es
  processors-lines [] cpu es = refl
  processors-lines (l ∷ ls) cpu es = go (effect l) (λ c. processors-lines ls c es)
    where
      go :
          (f : Option (CpuInfo F → CpuInfo F))
          → ((c : CpuInfo F)
              → processors zero_float parse_float begin c (map (entry_of effect) ls ++ es)
                ≡ processors zero_float parse_float begin (foldl (apply effect) c ls) es)
          → processors zero_float parse_float begin cpu (
              elim f [ none ↦ Entry.nothing | some g ↦ Entry.set g ]
              ∷ (map (entry_of effect) ls ++ es))
            ≡ processors zero_float parse_float begin
                (foldl (apply effect) (elim f [ none ↦ cpu | some g ↦ g cpu ]) ls)
                es
      go none h = h cpu
      go (some g) h = h (g cpu)

  processors-entries_of :
      (bs : List (Block L)) (cpu : CpuInfo F)
      → processors zero_float parse_float begin cpu (entries_of effect bs) ≡ cpu ∷ map cpu_of bs
  processors-entries_of [] cpu = refl
  processors-entries_of (b ∷ bs) cpu =
      ap (λ cpus. cpu ∷ cpus)
        (processors-lines b.lines (begin b.number (zero_cpu_info zero_float parse_float))
            (entries_of effect bs)
          ∙ processors-entries_of bs (cpu_of b))

  -- The processors that the lines of a first block and of others give.
  pub processors-blocks :
      (b : Block L) (bs : List (Block L))
      → processors zero_float parse_float begin
          (begin b.number (zero_cpu_info zero_float parse_float))
          (map (entry_of effect) b.lines ++ entries_of effect bs)
        ≡ cpu_of b ∷ map cpu_of bs
  processors-blocks b bs =
      processors-lines b.lines (begin b.number (zero_cpu_info zero_float parse_float))
        (entries_of effect bs)
      ∙ processors-entries_of bs (cpu_of b)

module _ {F L : Type 0} (effect : L → Option (CpuInfo F → CpuInfo F)) where
  Consecutive-lines :
      (ls : List L) (n : ℕ) (es : List (Entry F))
      → Consecutive n es
      → Consecutive n (map (entry_of effect) ls ++ es)
  Consecutive-lines [] n es h = h
  Consecutive-lines (l ∷ ls) n es h = go (effect l) (Consecutive-lines ls n es h)
    where
      go :
          (f : Option (CpuInfo F → CpuInfo F))
          → Consecutive n (map (entry_of effect) ls ++ es)
          → Consecutive n (
              elim f [ none ↦ Entry.nothing | some g ↦ Entry.set g ]
              ∷ (map (entry_of effect) ls ++ es))
      go none k = k
      go (some g) k = k

  pub Consecutive-entries_of :
      (bs : List (Block L)) (n : ℕ) → AreNumbered n bs → Consecutive n (entries_of effect bs)
  Consecutive-entries_of [] n h = tt
  Consecutive-entries_of (b ∷ bs) n (e, h) = (
    e,
    Consecutive-lines b.lines (suc n) (entries_of effect bs) (Consecutive-entries_of bs (suc n) h),
  )

  pub FromZero-entries_of :
      (bs : List (Block L)) → AreNumbered 0 bs → FromZero (entries_of effect bs)
  FromZero-entries_of [] h = tt
  FromZero-entries_of (b ∷ bs) (e, h) =
      (e, Consecutive-lines b.lines 1 (entries_of effect bs) (Consecutive-entries_of bs 1 h))

module _ {F : Type 0} (zero_float : F) (parse_float : Bytes → Result F) {L : Type 0}
    (effect : L → Option (CpuInfo F → CpuInfo F)) (field : Bytes → List Bytes → Result (Entry F))
    (start : Bytes) (printed : L → Bytes) (IsRead : L → Type 0)
    (reads : (l : L)
      → IsRead l
      → line_entry zero_float parse_float field (printed l) ≡ ok (entry_of effect l))
    (starts : (text : Bytes) (n : ℕ)
      → parse_uint text 0 32 ≡ ok n
      → line_entry zero_float parse_float field (start ++ text) ≡ ok (Entry.start n)) where
  Entries-lines :
      (ls : List L) (lines : List Bytes) (es : List (Entry F))
      → All IsRead ls
      → Entries zero_float parse_float field lines es
      → Entries zero_float parse_float field
          (map printed ls ++ lines)
          (map (entry_of effect) ls ++ es)
  Entries-lines [] lines es h k = k
  Entries-lines (l ∷ ls) lines es (h, hs) k = (reads l h, Entries-lines ls lines es hs k)

  -- What the lines of a file do.
  pub Entries-lines_of :
      (bs : List (Block L))
      → AreRead IsRead bs
      → Entries zero_float parse_float field (lines_of start printed bs) (entries_of effect bs)
  Entries-lines_of [] h = tt
  Entries-lines_of (b ∷ bs) ((n, h), hs) = (
    starts b.text b.number n,
    Entries-lines b.lines (lines_of start printed bs) (entries_of effect bs) h
        (Entries-lines_of bs hs),
  )

  -- The same below the number of a first processor.
  pub Entries-below :
      (b : Block L) (bs : List (Block L))
      → AreRead IsRead (b ∷ bs)
      → Entries zero_float parse_float field
          (map printed b.lines ++ lines_of start printed bs)
          (map (entry_of effect) b.lines ++ entries_of effect bs)
  Entries-below b bs ((n, h), hs) =
      Entries-lines b.lines (lines_of start printed bs) (entries_of effect bs) h
        (Entries-lines_of bs hs)

module _ {F : Type 0} (zero_float : F) (parse_float : Bytes → Result F) where
  -- The two descriptions of what lines do and of the processors that they give agree.
  pub entries-Entries :
      (field : Bytes → List Bytes → Result (Entry F)) (lines : List Bytes) (es : List (Entry F))
      → Entries zero_float parse_float field lines es
      → Processors.entries zero_float parse_float field lines ≡ ok es
  entries-Entries field [] [] h = refl
  entries-Entries field [] (e ∷ es) h = elim h [ ]
  entries-Entries field (line ∷ lines) [] h = elim h [ ]
  entries-Entries field (line ∷ lines) (e ∷ es) (h, hs) = rw (h, entries-Entries field lines es hs)

  pub processors-same :
      (cpu : CpuInfo F) (es : List (Entry F))
      → Processors.processors zero_float parse_float cpu es
        ≡ processors zero_float parse_float (λ v c. record c { processor = v }) cpu es
  processors-same cpu [] = refl
  processors-same cpu (Entry.nothing ∷ es) = processors-same cpu es
  processors-same cpu (Entry.start v ∷ es) =
      ap (λ cpus. cpu ∷ cpus)
        (processors-same (record (zero_cpu_info zero_float parse_float) { processor = v }) es)
  processors-same cpu (Entry.set f ∷ es) = processors-same (f cpu) es
