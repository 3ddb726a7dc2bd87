-- ===== src/CpuInfo/Printed/Ppc.antt =====
-- cpuinfo.go: what the parser for PowerPC reads from the lines of a file.
use procfs.Base.{
  ℕ, List, [], ◌∷◌, ◌++◌, ◌≡◌, refl, ap, ◌∙◌, map, All, Bytes, Option, none, some, codes, arith,
  false, bytes_eq, inl, inr,
}
use procfs.CpuInfo.{
  CpuInfo, Entry, line_entry, zero_cpu_info, first_non_empty_line, ppc_field, first_cpu,
  parse_cpu_info_ppc,
}
use procfs.CpuInfo.Printed.{
  IsOther, Block, entry_of, entries_of, lines_of, AreRead, cpu_of, processors-blocks,
  processors-same, entries-Entries, Entries-below,
}
use procfs.Go.Result.{Result, ok}
use procfs.Go.Scanner.{reader, scan}
use procfs.Go.Strconv.{parse_uint}
use procfs.Go.Text.{trim_space, trim_left, trim_right, contains, has_prefix, split_two_text}
use procfs.CpuInfo.Processors.{parse_cpu_info_ppc-processors}

-- A line below the number of a processor, with the text of its value where that is read further.
pub data Line (F : Type 0) : Type 0 where
  cpu : Bytes → Line F
  clock : Bytes → F → Line F
  other : Bytes → Line F

-- The labels that the parser knows.
abbrev pub known : List Bytes
known = codes "processor" ∷ codes "cpu" ∷ codes "clock" ∷ []

module _ {F : Type 0} where
  abbrev pub printed : Line F → Bytes
  printed (cpu v) = codes "cpu\t\t: " ++ v
  printed (clock text v) = codes "clock\t\t: " ++ text
  printed (other line) = line

  -- The field that a line sets.
  abbrev pub effect : Line F → Option (CpuInfo F → CpuInfo F)
  effect (cpu v) = some (λ cpu. record cpu { vendor_id = v })
  effect (clock text v) = some (λ cpu. record cpu { cpu_mhz = v })
  effect (other line) = none

module _ {F : Type 0} (zero_float : F) (parse_float : Bytes → Result F)
    (find_clock : Bytes → Bytes) where
  -- The text of a value is read as it.
  abbrev pub IsRead : Line F → Type 0
  IsRead (clock text v) = parse_float (find_clock (trim_space text)) ≡ ok v
  IsRead (other line) = IsOther known line
  IsRead _ = Unit

  ppc_field-known :
      (label : Bytes) (parts : List Bytes)
      → All (λ k. bytes_eq label k ≡ false) known
      → ppc_field zero_float parse_float find_clock label parts ≡ ok Entry.nothing
  unfolding ppc_field
  ppc_field-known label parts h = ground arith

  line_entry-other :
      (line : Bytes)
      → IsOther known line
      → line_entry zero_float parse_float (ppc_field zero_float parse_float find_clock) line
        ≡ ok Entry.nothing
  unfolding line_entry
  line_entry-other line (inl e) = rw e refl
  line_entry-other line (inr (label, rest, c, s, h)) =
      rw (c, s) (ppc_field-known (trim_space label) (label ∷ rest) h)

  line_entry-printed :
      (l : Line F)
      → IsRead l
      → line_entry zero_float parse_float (ppc_field zero_float parse_float find_clock) (printed l)
        ≡ ok (entry_of effect l)
  unfolding line_entry ppc_field contains has_prefix split_two_text trim_space bytes_eq
  line_entry-printed (cpu v) h = refl
  line_entry-printed (clock text v) h = rw h refl
  line_entry-printed (other line) h = line_entry-other line h

  line_entry-start :
      (text : Bytes) (n : ℕ)
      → parse_uint text 0 32 ≡ ok n
      → line_entry zero_float parse_float
          (ppc_field zero_float parse_float find_clock)
          (codes "processor\t: " ++ text)
        ≡ ok (Entry.start n)
  unfolding line_entry ppc_field contains has_prefix split_two_text trim_space bytes_eq
  line_entry-start text n h = rw h refl

  first_non_empty_line-start :
      (text : Bytes) (lines : List Bytes)
      → first_non_empty_line ((codes "processor\t: " ++ text) ∷ lines)
        ≡ (codes "processor\t: " ++ text, lines)
  unfolding first_non_empty_line trim_space trim_left trim_right
  first_non_empty_line-start text lines = ground arith

  first_cpu-start :
      (text : Bytes) (n : ℕ)
      → parse_uint text 0 32 ≡ ok n
      → first_cpu zero_float parse_float "%w: %q" (codes "processor\t: " ++ text)
        ≡ ok (record (zero_cpu_info zero_float parse_float) { processor = n })
  unfolding first_cpu has_prefix contains split_two_text
  first_cpu-start text n h = rw h refl

  -- A file for PowerPC of one or more processors, each a line with its number and below it lines of the
  -- vendor and the clock, in any order, missing or repeated, and other lines, all of whose numbers are
  -- read, is parsed to these processors in order: each has its number, the last vendor and, as the
  -- frequency, what is read of the number found in the last clock.
  pub parse_cpu_info_ppc-printed :
      (info : Bytes) (b : Block (Line F)) (bs : List (Block (Line F)))
      → (scan (reader info)).lines ≡ lines_of (codes "processor\t: ") printed (b ∷ bs)
      → AreRead IsRead (b ∷ bs)
      → parse_cpu_info_ppc zero_float parse_float find_clock info
        ≡ ok (
            map
              (cpu_of zero_float parse_float effect (λ v cpu. record cpu { processor = v }))
              (b ∷ bs))
  parse_cpu_info_ppc-printed info b bs lines h =
      let rest = map printed b.lines ++ lines_of (codes "processor\t: ") printed bs in
      let es = map (entry_of effect) b.lines ++ entries_of effect bs in
      let start = record (zero_cpu_info zero_float parse_float) { processor = b.number } in
      let found =
        entries-Entries zero_float parse_float (ppc_field zero_float parse_float find_clock) rest es
          (Entries-below zero_float parse_float effect (ppc_field zero_float parse_float find_clock)
            (codes "processor\t: ") printed IsRead line_entry-printed line_entry-start b bs h) in
      parse_cpu_info_ppc-processors zero_float parse_float find_clock info
      ∙ rw (lines, first_non_empty_line-start b.text rest)
          (rw (first_cpu-start b.text b.number h.0.0) (
            rw found (
              ap ok (
                processors-same zero_float parse_float start es
                ∙ processors-blocks zero_float parse_float effect
                    (λ v cpu. record cpu { processor = v }) b bs))))
