-- ===== src/CpuInfo/Numbered.antt =====
-- cpuinfo.go: the parsers for MIPS, LoongArch and RISC-V, whose index is the number of the processor.
pub mod Consecutive
use procfs.Base.{ℕ, not, ◌||◌, List, [], ◌∷◌, ◌++◌, Bytes, codes, bytes_eq, if◌then◌else◌}
use procfs.CpuInfo.{
  CpuInfo, Entry, nothing, start, set, zero_cpu_info, first_non_empty_line, first_cpu, line_entry,
  text_entry, float_entry,
}
use procfs.Go.Result.{Result, ok, file_parse, wrap, ◌>>=◌, ◌>>◌, fail_if, ◌!!◌, each}
use procfs.Go.Scanner.{reader, scan}
use procfs.Go.Slices.{set_at}
use procfs.Go.Strconv.{parse_uint}
use procfs.Go.Text.{trim_space, has_prefix, contains, split_two_text}

module _ {F : Type 0} (zero_float : F) (parse_float : Bytes → Result F) where
  abbrev number_start : List Bytes → Result (Entry F)
  number_start parts = do text ← parts !! 1; v ← parse_uint text 0 32; ok (Entry.start v)

  -- The switches of the three parsers.
  unfoldable pub mips_field : Bytes → List Bytes → Result (Entry F)
  mips_field label parts =
      if bytes_eq label (codes "processor")
      then number_start parts
      else if bytes_eq label (codes "cpu model")
      then text_entry parts (λ v cpu. record cpu { model_name = v })
      else if bytes_eq label (codes "BogoMIPS")
      then float_entry parse_float parts (λ v cpu. record cpu { bogo_mips = v })
      else ok Entry.nothing

  unfoldable pub loong_field : Bytes → List Bytes → Result (Entry F)
  loong_field label parts =
      if bytes_eq label (codes "processor")
      then number_start parts
      else if bytes_eq label (codes "CPU Family")
      then text_entry parts (λ v cpu. record cpu { cpu_family = v })
      else if bytes_eq label (codes "Model Name")
      then text_entry parts (λ v cpu. record cpu { model_name = v })
      else ok Entry.nothing

  unfoldable pub riscv_field : Bytes → List Bytes → Result (Entry F)
  riscv_field label parts =
      if bytes_eq label (codes "processor")
      then number_start parts
      else if bytes_eq label (codes "hart")
      then text_entry parts (λ v cpu. record cpu { core_id = v })
      else if bytes_eq label (codes "isa")
      then text_entry parts (λ v cpu. record cpu { model_name = v })
      else ok Entry.nothing

  -- What a line does to the slice of the processors. A "processor" line appends a processor and sets the
  -- fields, by `begin`, of the processor at the index that it names.
  unfoldable pub enter_numbered :
      (ℕ → CpuInfo F → CpuInfo F) → List (CpuInfo F) × ℕ → Entry F → Result (List (CpuInfo F) × ℕ)
  enter_numbered begin (cpuinfo, i) nothing = ok (cpuinfo, i)
  enter_numbered begin (cpuinfo, i) (start v) = do
    let grown = cpuinfo ++ zero_cpu_info zero_float parse_float ∷ []
    cpu ← grown !! v
    stored ← set_at grown v (begin v cpu)
    ok (stored, v)
  enter_numbered begin (cpuinfo, i) (set f) = do
    cpu ← cpuinfo !! i
    stored ← set_at cpuinfo i (f cpu)
    ok (stored, i)

  unfoldable pub numbered_line :
      (Bytes → List Bytes → Result (Entry F))
      → (ℕ → CpuInfo F → CpuInfo F)
      → List (CpuInfo F) × ℕ
      → Bytes
      → Result (List (CpuInfo F) × ℕ)
  unfolding enter_numbered line_entry
  numbered_line field begin state line = do
    entry ← line_entry zero_float parse_float field line
    enter_numbered begin state entry

  -- `systemType` of the first line.
  unfoldable pub system_type_of : Bytes → Result Bytes
  system_type_of first_line = do
    fail_if
        (not (has_prefix first_line (codes "system type")) || not (contains first_line (codes ":")))
        (wrap "%w: %q" file_parse)
    split_two_text first_line (codes ": ") !! 1

  abbrev pub begin_system : Bytes → ℕ → CpuInfo F → CpuInfo F
  begin_system system_type v cpu = record cpu { processor = v; vendor_id = system_type }

  abbrev pub begin_riscv : ℕ → CpuInfo F → CpuInfo F
  begin_riscv v cpu = record cpu { processor = v }

  unfoldable pub parse_cpu_info_mips : Bytes → Result (List (CpuInfo F))
  unfolding numbered_line mips_field first_non_empty_line system_type_of
  parse_cpu_info_mips info = do
    let (first_line, lines) = first_non_empty_line (scan (reader info)).lines
    system_type ← system_type_of first_line
    state ← each (numbered_line mips_field (begin_system system_type)) ([], 0) lines
    ok state.0

  unfoldable pub parse_cpu_info_loong : Bytes → Result (List (CpuInfo F))
  unfolding numbered_line loong_field first_non_empty_line system_type_of
  parse_cpu_info_loong info = do
    let (first_line, lines) = first_non_empty_line (scan (reader info)).lines
    system_type ← system_type_of first_line
    state ← each (numbered_line loong_field (begin_system system_type)) ([], 0) lines
    ok state.0

  unfoldable pub parse_cpu_info_riscv : Bytes → Result (List (CpuInfo F))
  unfolding numbered_line riscv_field first_non_empty_line first_cpu
  parse_cpu_info_riscv info = do
    let (first_line, lines) = first_non_empty_line (scan (reader info)).lines
    firstcpu ← first_cpu zero_float parse_float "%w: %q" first_line
    state ← each (numbered_line riscv_field begin_riscv) (firstcpu ∷ [], 0) lines
    ok state.0
