-- ===== src/CpuInfo/Printed/Mips.antt =====
-- cpuinfo.go: what the parser for MIPS reads from the lines of a file.
use procfs.Base.{
  ℕ, List, [], ◌∷◌, ◌++◌, ◌≡◌, refl, ap, ◌∙◌, map, All, Bytes, Option, none, some, codes, arith,
  false, bytes_eq, inl, inr,
}
use procfs.CpuInfo.{CpuInfo, Entry, line_entry, first_non_empty_line}
use procfs.CpuInfo.Printed.{
  IsOther, Block, entry_of, entries_of, lines_of, AreRead, AreNumbered, cpu_of, processors-blocks,
  Entries-lines_of, FromZero-entries_of,
}
use procfs.Go.Result.{Result, ok}
use procfs.Go.Scanner.{reader, scan}
use procfs.Go.Strconv.{parse_uint}
use procfs.Go.Text.{trim_space, trim_left, trim_right, contains, has_prefix, split_two_text}
use procfs.CpuInfo.Numbered.{mips_field, system_type_of, begin_system, parse_cpu_info_mips}
use procfs.CpuInfo.Numbered.Consecutive.{
  Entries, FromZero, processors_from_zero, parse_cpu_info_mips-processors,
}

-- A line below the number of a processor, with the text of its value where that is read further.
pub data Line (F : Type 0) : Type 0 where
  cpu_model : Bytes → Line F
  bogomips : Bytes → F → Line F
  other : Bytes → Line F

-- The labels that the parser knows.
abbrev pub known : List Bytes
known = codes "processor" ∷ codes "cpu model" ∷ codes "BogoMIPS" ∷ []

module _ {F : Type 0} where
  abbrev pub printed : Line F → Bytes
  printed (cpu_model v) = codes "cpu model\t\t: " ++ v
  printed (bogomips text v) = codes "BogoMIPS\t\t: " ++ text
  printed (other line) = line

  -- The field that a line sets.
  abbrev pub effect : Line F → Option (CpuInfo F → CpuInfo F)
  effect (cpu_model v) = some (λ cpu. record cpu { model_name = v })
  effect (bogomips text v) = some (λ cpu. record cpu { bogo_mips = v })
  effect (other line) = none

module _ {F : Type 0} (zero_float : F) (parse_float : Bytes → Result F) where
  -- The text of a value is read as it.
  abbrev pub IsRead : Line F → Type 0
  IsRead (bogomips text v) = parse_float text ≡ ok v
  IsRead (other line) = IsOther known line
  IsRead _ = Unit

  mips_field-known :
      (label : Bytes) (parts : List Bytes)
      → All (λ k. bytes_eq label k ≡ false) known
      → mips_field zero_float parse_float label parts ≡ ok Entry.nothing
  unfolding mips_field
  mips_field-known label parts h = ground arith

  line_entry-other :
      (line : Bytes)
      → IsOther known line
      → line_entry zero_float parse_float (mips_field zero_float parse_float) line
        ≡ ok Entry.nothing
  unfolding line_entry
  line_entry-other line (inl e) = rw e refl
  line_entry-other line (inr (label, rest, c, s, h)) =
      rw (c, s) (mips_field-known (trim_space label) (label ∷ rest) h)

  line_entry-printed :
      (l : Line F)
      → IsRead l
      → line_entry zero_float parse_float (mips_field zero_float parse_float) (printed l)
        ≡ ok (entry_of effect l)
  unfolding line_entry mips_field contains has_prefix split_two_text trim_space bytes_eq
  line_entry-printed (cpu_model v) h = refl
  line_entry-printed (bogomips text v) h = rw h refl
  line_entry-printed (other line) h = line_entry-other line h

  line_entry-start :
      (text : Bytes) (n : ℕ)
      → parse_uint text 0 32 ≡ ok n
      → line_entry zero_float parse_float
          (mips_field zero_float parse_float)
          (codes "processor\t\t: " ++ text)
        ≡ ok (Entry.start n)
  unfolding line_entry mips_field contains has_prefix split_two_text trim_space bytes_eq
  line_entry-start text n h = rw h refl

  first_non_empty_line-system :
      (text : Bytes) (lines : List Bytes)
      → first_non_empty_line ((codes "system type\t\t: " ++ text) ∷ lines)
        ≡ (codes "system type\t\t: " ++ text, lines)
  unfolding first_non_empty_line trim_space trim_left trim_right
  first_non_empty_line-system text lines = ground arith

  system_type_of-printed :
      (text : Bytes)
      → system_type_of zero_float parse_float (codes "system type\t\t: " ++ text) ≡ ok text
  unfolding system_type_of has_prefix contains split_two_text
  system_type_of-printed text = refl

  -- A processor of a system, by its number.
  abbrev pub of_system : Bytes → ℕ → CpuInfo F → CpuInfo F
  of_system system v cpu = record cpu { processor = v; vendor_id = system }

  -- Lines of no field above the first processor do nothing.
  abbrev heads_of : List Bytes → List (Entry F) → List (Entry F)
  heads_of [] es = es
  heads_of (head ∷ heads) es = Entry.nothing ∷ heads_of heads es

  Entries-heads :
      (heads lines : List Bytes) (es : List (Entry F))
      → All (IsOther known) heads
      → Entries zero_float parse_float (mips_field zero_float parse_float) lines es
      → Entries zero_float parse_float
          (mips_field zero_float parse_float)
          (heads ++ lines)
          (heads_of heads es)
  Entries-heads [] lines es h k = k
  Entries-heads (head ∷ heads) lines es (h, hs) k =
      (line_entry-other head h, Entries-heads heads lines es hs k)

  FromZero-heads :
      (heads : List Bytes) (es : List (Entry F)) → FromZero es → FromZero (heads_of heads es)
  FromZero-heads [] es h = h
  FromZero-heads (head ∷ heads) es h = FromZero-heads heads es h

  processors-heads :
      (system : Bytes) (heads : List Bytes) (bs : List (Block (Line F)))
      → processors_from_zero zero_float parse_float
          (begin_system zero_float parse_float system)
          (heads_of heads (entries_of effect bs))
        ≡ map (cpu_of zero_float parse_float effect (of_system system)) bs
  processors-heads system (head ∷ heads) bs = processors-heads system heads bs
  processors-heads system [] [] = refl
  processors-heads system [] (b ∷ bs) =
      processors-blocks zero_float parse_float effect (of_system system) b bs

  -- A file for MIPS of a line with the type of the system, lines of no known field, and processors that
  -- are numbered from 0 in order, each a line with its number and below it lines of the model and of
  -- BogoMIPS, in any order, missing or repeated, and other lines, all of whose numbers are read, is
  -- parsed to these processors: each has its number, the type of the system as its vendor, and the last
  -- model and BogoMIPS.
  pub parse_cpu_info_mips-printed :
      (info system : Bytes) (heads : List Bytes) (bs : List (Block (Line F)))
      → (scan (reader info)).lines
        ≡ (codes "system type\t\t: " ++ system)
          ∷ (heads ++ lines_of (codes "processor\t\t: ") printed bs)
      → All (IsOther known) heads
      → AreRead IsRead bs
      → AreNumbered 0 bs
      → parse_cpu_info_mips zero_float parse_float info
        ≡ ok (map (cpu_of zero_float parse_float effect (of_system system)) bs)
  parse_cpu_info_mips-printed info system heads bs lines others h numbered =
      let field = mips_field zero_float parse_float in
      let file = lines_of (codes "processor\t\t: ") printed bs in
      let es = entries_of effect bs in
      let first =
        ap first_non_empty_line lines ∙ first_non_empty_line-system system (heads ++ file) in
      parse_cpu_info_mips-processors zero_float parse_float info system (heads_of heads es)
        (rw first (system_type_of-printed system))
        (rw first (
          Entries-heads heads file es others (
            Entries-lines_of zero_float parse_float effect field (codes "processor\t\t: ") printed
              IsRead line_entry-printed line_entry-start bs h)))
        (FromZero-heads heads es (FromZero-entries_of effect bs numbered))
      ∙ ap ok (processors-heads system heads bs)
