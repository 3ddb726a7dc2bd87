-- ===== src/CpuInfo/Printed/X86.antt =====
-- cpuinfo.go: what the parser for x86 reads from the lines of a file.
use procfs.Base.{
  ℕ, List, [], ◌∷◌, ◌++◌, ◌≡◌, refl, ap, ◌∙◌, map, All, Bytes, Option, none, some, codes, arith,
  false, bytes_eq, inl, inr,
}
use procfs.CpuInfo.{
  CpuInfo, Entry, line_entry, zero_cpu_info, first_non_empty_line, x86_field, x86_later_field,
  first_cpu, parse_cpu_info_x86,
}
use procfs.CpuInfo.Printed.{
  IsOther, Block, entry_of, entries_of, lines_of, AreRead, cpu_of, processors-blocks,
  processors-same, entries-Entries, Entries-below,
}
use procfs.Go.Result.{Result, ok}
use procfs.Go.Scanner.{reader, scan}
use procfs.Go.Strconv.{parse_uint}
use procfs.Go.Text.{fields, trim_space, trim_left, trim_right, contains, has_prefix, split_two_text}
use procfs.CpuInfo.Processors.{parse_cpu_info_x86-processors}

-- A line below the number of a processor, with the text of its value where that is read further.
pub data Line (F : Type 0) : Type 0 where
  vendor : Bytes → Line F
  vendor_id : Bytes → Line F
  cpu_family : Bytes → Line F
  model : Bytes → Line F
  model_name : Bytes → Line F
  stepping : Bytes → Line F
  microcode : Bytes → Line F
  cpu_mhz : Bytes → F → Line F
  cache_size : Bytes → Line F
  physical_id : Bytes → Line F
  siblings : Bytes → ℕ → Line F
  core_id : Bytes → Line F
  cpu_cores : Bytes → ℕ → Line F
  apicid : Bytes → Line F
  initial_apicid : Bytes → Line F
  fpu : Bytes → Line F
  fpu_exception : Bytes → Line F
  cpuid_level : Bytes → ℕ → Line F
  wp : Bytes → Line F
  flags : Bytes → List Bytes → Line F
  bugs : Bytes → List Bytes → Line F
  bogomips : Bytes → F → Line F
  clflush_size : Bytes → ℕ → Line F
  cache_alignment : Bytes → ℕ → Line F
  address_sizes : Bytes → Line F
  power_management : Bytes → Line F
  other : Bytes → Line F

-- The labels that the parser knows.
abbrev pub known : List Bytes
known =
    codes "processor"
    ∷ codes "vendor"
    ∷ codes "vendor_id"
    ∷ codes "cpu family"
    ∷ codes "model"
    ∷ codes "model name"
    ∷ codes "stepping"
    ∷ codes "microcode"
    ∷ codes "cpu MHz"
    ∷ codes "cache size"
    ∷ codes "physical id"
    ∷ codes "siblings"
    ∷ codes "core id"
    ∷ codes "cpu cores"
    ∷ codes "apicid"
    ∷ codes "initial apicid"
    ∷ codes "fpu"
    ∷ codes "fpu_exception"
    ∷ codes "cpuid level"
    ∷ codes "wp"
    ∷ codes "flags"
    ∷ codes "bugs"
    ∷ codes "bogomips"
    ∷ codes "clflush size"
    ∷ codes "cache_alignment"
    ∷ codes "address sizes"
    ∷ codes "power management"
    ∷ []

module _ {F : Type 0} where
  abbrev pub printed : Line F → Bytes
  printed (vendor v) = codes "vendor\t: " ++ v
  printed (vendor_id v) = codes "vendor_id\t: " ++ v
  printed (cpu_family v) = codes "cpu family\t: " ++ v
  printed (model v) = codes "model\t\t: " ++ v
  printed (model_name v) = codes "model name\t: " ++ v
  printed (stepping v) = codes "stepping\t: " ++ v
  printed (microcode v) = codes "microcode\t: " ++ v
  printed (cpu_mhz text v) = codes "cpu MHz\t\t: " ++ text
  printed (cache_size v) = codes "cache size\t: " ++ v
  printed (physical_id v) = codes "physical id\t: " ++ v
  printed (siblings text v) = codes "siblings\t: " ++ text
  printed (core_id v) = codes "core id\t\t: " ++ v
  printed (cpu_cores text v) = codes "cpu cores\t: " ++ text
  printed (apicid v) = codes "apicid\t\t: " ++ v
  printed (initial_apicid v) = codes "initial apicid\t: " ++ v
  printed (fpu v) = codes "fpu\t\t: " ++ v
  printed (fpu_exception v) = codes "fpu_exception\t: " ++ v
  printed (cpuid_level text v) = codes "cpuid level\t: " ++ text
  printed (wp v) = codes "wp\t\t: " ++ v
  printed (flags text v) = codes "flags\t\t: " ++ text
  printed (bugs text v) = codes "bugs\t\t: " ++ text
  printed (bogomips text v) = codes "bogomips\t: " ++ text
  printed (clflush_size text v) = codes "clflush size\t: " ++ text
  printed (cache_alignment text v) = codes "cache_alignment\t: " ++ text
  printed (address_sizes v) = codes "address sizes\t: " ++ v
  printed (power_management v) = codes "power management: " ++ v
  printed (other line) = line

  -- The field that a line sets.
  abbrev pub effect : Line F → Option (CpuInfo F → CpuInfo F)
  effect (vendor v) = some (λ cpu. record cpu { vendor_id = v })
  effect (vendor_id v) = some (λ cpu. record cpu { vendor_id = v })
  effect (cpu_family v) = some (λ cpu. record cpu { cpu_family = v })
  effect (model v) = some (λ cpu. record cpu { model = v })
  effect (model_name v) = some (λ cpu. record cpu { model_name = v })
  effect (stepping v) = some (λ cpu. record cpu { stepping = v })
  effect (microcode v) = some (λ cpu. record cpu { microcode = v })
  effect (cpu_mhz text v) = some (λ cpu. record cpu { cpu_mhz = v })
  effect (cache_size v) = some (λ cpu. record cpu { cache_size = v })
  effect (physical_id v) = some (λ cpu. record cpu { physical_id = v })
  effect (siblings text v) = some (λ cpu. record cpu { siblings = v })
  effect (core_id v) = some (λ cpu. record cpu { core_id = v })
  effect (cpu_cores text v) = some (λ cpu. record cpu { cpu_cores = v })
  effect (apicid v) = some (λ cpu. record cpu { apicid = v })
  effect (initial_apicid v) = some (λ cpu. record cpu { initial_apicid = v })
  effect (fpu v) = some (λ cpu. record cpu { fpu = v })
  effect (fpu_exception v) = some (λ cpu. record cpu { fpu_exception = v })
  effect (cpuid_level text v) = some (λ cpu. record cpu { cpuid_level = v })
  effect (wp v) = some (λ cpu. record cpu { wp = v })
  effect (flags text v) = some (λ cpu. record cpu { flags = v })
  effect (bugs text v) = some (λ cpu. record cpu { bugs = v })
  effect (bogomips text v) = some (λ cpu. record cpu { bogo_mips = v })
  effect (clflush_size text v) = some (λ cpu. record cpu { cl_flush_size = v })
  effect (cache_alignment text v) = some (λ cpu. record cpu { cache_alignment = v })
  effect (address_sizes v) = some (λ cpu. record cpu { address_sizes = v })
  effect (power_management v) = some (λ cpu. record cpu { power_management = v })
  effect (other line) = none

module _ {F : Type 0} (zero_float : F) (parse_float : Bytes → Result F) where
  -- The text of a value is read as it.
  abbrev pub IsRead : Line F → Type 0
  IsRead (cpu_mhz text v) = parse_float text ≡ ok v
  IsRead (siblings text v) = parse_uint text 0 32 ≡ ok v
  IsRead (cpu_cores text v) = parse_uint text 0 32 ≡ ok v
  IsRead (cpuid_level text v) = parse_uint text 0 32 ≡ ok v
  IsRead (flags text v) = fields text ≡ v
  IsRead (bugs text v) = fields text ≡ v
  IsRead (bogomips text v) = parse_float text ≡ ok v
  IsRead (clflush_size text v) = parse_uint text 0 32 ≡ ok v
  IsRead (cache_alignment text v) = parse_uint text 0 32 ≡ ok v
  IsRead (other line) = IsOther known line
  IsRead _ = Unit

  x86_field-known :
      (label : Bytes) (parts : List Bytes)
      → All (λ k. bytes_eq label k ≡ false) known
      → x86_field zero_float parse_float label parts ≡ ok Entry.nothing
  unfolding x86_field x86_later_field
  x86_field-known label parts h = ground arith

  line_entry-other :
      (line : Bytes)
      → IsOther known line
      → line_entry zero_float parse_float (x86_field zero_float parse_float) line ≡ ok Entry.nothing
  unfolding line_entry
  line_entry-other line (inl e) = rw e refl
  line_entry-other line (inr (label, rest, c, s, h)) =
      rw (c, s) (x86_field-known (trim_space label) (label ∷ rest) h)

  line_entry-printed :
      (l : Line F)
      → IsRead l
      → line_entry zero_float parse_float (x86_field zero_float parse_float) (printed l)
        ≡ ok (entry_of effect l)
  unfolding line_entry x86_field x86_later_field contains has_prefix split_two_text trim_space
      bytes_eq
  line_entry-printed (vendor v) h = refl
  line_entry-printed (vendor_id v) h = refl
  line_entry-printed (cpu_family v) h = refl
  line_entry-printed (model v) h = refl
  line_entry-printed (model_name v) h = refl
  line_entry-printed (stepping v) h = refl
  line_entry-printed (microcode v) h = refl
  line_entry-printed (cpu_mhz text v) h = rw h refl
  line_entry-printed (cache_size v) h = refl
  line_entry-printed (physical_id v) h = refl
  line_entry-printed (siblings text v) h = rw h refl
  line_entry-printed (core_id v) h = refl
  line_entry-printed (cpu_cores text v) h = rw h refl
  line_entry-printed (apicid v) h = refl
  line_entry-printed (initial_apicid v) h = refl
  line_entry-printed (fpu v) h = refl
  line_entry-printed (fpu_exception v) h = refl
  line_entry-printed (cpuid_level text v) h = rw h refl
  line_entry-printed (wp v) h = refl
  line_entry-printed (flags text v) h = rw h refl
  line_entry-printed (bugs text v) h = rw h refl
  line_entry-printed (bogomips text v) h = rw h refl
  line_entry-printed (clflush_size text v) h = rw h refl
  line_entry-printed (cache_alignment text v) h = rw h refl
  line_entry-printed (address_sizes v) h = refl
  line_entry-printed (power_management v) h = refl
  line_entry-printed (other line) h = line_entry-other line h

  line_entry-start :
      (text : Bytes) (n : ℕ)
      → parse_uint text 0 32 ≡ ok n
      → line_entry zero_float parse_float
          (x86_field zero_float parse_float)
          (codes "processor\t: " ++ text)
        ≡ ok (Entry.start n)
  unfolding line_entry x86_field x86_later_field contains has_prefix split_two_text trim_space
      bytes_eq
  line_entry-start text n h = rw h refl

  first_non_empty_line-start :
      (text : Bytes) (lines : List Bytes)
      → first_non_empty_line ((codes "processor\t: " ++ text) ∷ lines)
        ≡ (codes "processor\t: " ++ text, lines)
  unfolding first_non_empty_line trim_space trim_left trim_right
  first_non_empty_line-start text lines = ground arith

  first_cpu-start :
      (text : Bytes) (n : ℕ)
      → parse_uint text 0 32 ≡ ok n
      → first_cpu zero_float parse_float "%w: Cannot parse  line: %q"
          (codes "processor\t: " ++ text)
        ≡ ok (record (zero_cpu_info zero_float parse_float) { processor = n })
  unfolding first_cpu has_prefix contains split_two_text
  first_cpu-start text n h = rw h refl

  -- A file for x86 of one or more processors, each a line with its number and below it lines of the
  -- fields that the kernel prints, in any order, missing or repeated, and other lines, all of whose
  -- numbers are read, is parsed to these processors in order: each has its number, every field has the
  -- value of the last line of it, and a field without a line is zero.
  pub parse_cpu_info_x86-printed :
      (info : Bytes) (b : Block (Line F)) (bs : List (Block (Line F)))
      → (scan (reader info)).lines ≡ lines_of (codes "processor\t: ") printed (b ∷ bs)
      → AreRead IsRead (b ∷ bs)
      → parse_cpu_info_x86 zero_float parse_float info
        ≡ ok (
            map
              (cpu_of zero_float parse_float effect (λ v cpu. record cpu { processor = v }))
              (b ∷ bs))
  parse_cpu_info_x86-printed info b bs lines h =
      let rest = map printed b.lines ++ lines_of (codes "processor\t: ") printed bs in
      let es = map (entry_of effect) b.lines ++ entries_of effect bs in
      let start = record (zero_cpu_info zero_float parse_float) { processor = b.number } in
      let found =
        entries-Entries zero_float parse_float (x86_field zero_float parse_float) rest es (
          Entries-below zero_float parse_float effect (x86_field zero_float parse_float)
            (codes "processor\t: ") printed IsRead line_entry-printed line_entry-start b bs h) in
      parse_cpu_info_x86-processors zero_float parse_float info
      ∙ rw (lines, first_non_empty_line-start b.text rest)
          (rw (first_cpu-start b.text b.number h.0.0) (
            rw found (
              ap ok (
                processors-same zero_float parse_float start es
                ∙ processors-blocks zero_float parse_float effect
                    (λ v cpu. record cpu { processor = v }) b bs))))
