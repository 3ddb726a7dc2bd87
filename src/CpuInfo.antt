-- ===== src/CpuInfo.antt =====
-- cpuinfo.go: the processors of an x86 or PowerPC machine, from /proc/cpuinfo. The numbers that `strconv.ParseFloat`
-- reads are a type and a function that the definitions take.
pub mod Processors
pub mod Numbered
pub mod Arm
pub mod S390x
pub mod Printed
use procfs.Base.{
  ℕ, ◌+◌, Bool, not, ◌||◌, ◌&&◌, List, [], ◌∷◌, ◌++◌, Bytes, String, codes, bytes_eq, length, ◌==◌,
  if◌then◌else◌,
}
use procfs.Go.Files.{Files}
use procfs.Go.Result.{Result, ok, err, file_parse, wrap, ◌>>=◌, ◌>>◌, fail_if, ◌!!◌, each}
use procfs.Go.Scanner.{reader, scan}
use procfs.Go.Slices.{set_at}
use procfs.Go.Strconv.{parse_uint}
use procfs.Go.Text.{fields, trim_space, has_prefix, contains, split_two_text}
use procfs.Util.Parse.{read_file_no_stat}

pub record CpuInfo (F : Type 0) : Type 0 where
  pub processor : ℕ
  pub vendor_id : Bytes
  pub cpu_family : Bytes
  pub model : Bytes
  pub model_name : Bytes
  pub stepping : Bytes
  pub microcode : Bytes
  pub cpu_mhz : F
  pub cache_size : Bytes
  pub physical_id : Bytes
  pub siblings : ℕ
  pub core_id : Bytes
  pub cpu_cores : ℕ
  pub apicid : Bytes
  pub initial_apicid : Bytes
  pub fpu : Bytes
  pub fpu_exception : Bytes
  pub cpuid_level : ℕ
  pub wp : Bytes
  pub flags : List Bytes
  pub bugs : List Bytes
  pub bogo_mips : F
  pub cl_flush_size : ℕ
  pub cache_alignment : ℕ
  pub address_sizes : Bytes
  pub power_management : Bytes

-- The next line that is not blank, empty if there is none, and the lines behind it.
unfoldable pub first_non_empty_line : List Bytes → Bytes × List Bytes
first_non_empty_line [] = ([], [])
first_non_empty_line (line ∷ lines) =
    let later = first_non_empty_line lines in
    if not (length (trim_space line) == 0) then (line, lines) else later

-- What a line does: nothing, it starts a processor, or it sets a field of the last one.
pub data Entry (F : Type 0) : Type 0 where
  nothing : Entry F
  start : ℕ → Entry F
  set : (CpuInfo F → CpuInfo F) → Entry F

abbrev Setter : Type 0 → Type 0 → Type 0
Setter F V = V → CpuInfo F → CpuInfo F

module _ {F : Type 0} where
  abbrev text_entry : List Bytes → Setter F Bytes → Result (Entry F)
  text_entry parts f = do v ← parts !! 1; ok (Entry.set (f v))

  abbrev words_entry : List Bytes → Setter F (List Bytes) → Result (Entry F)
  words_entry parts f = do v ← parts !! 1; ok (Entry.set (f (fields v)))

  abbrev number_entry : List Bytes → Setter F ℕ → Result (Entry F)
  number_entry parts f = do text ← parts !! 1; v ← parse_uint text 0 32; ok (Entry.set (f v))

  abbrev float_entry : (Bytes → Result F) → List Bytes → Setter F F → Result (Entry F)
  float_entry parse_float parts f = do text ← parts !! 1; v ← parse_float text; ok (Entry.set (f v))

module _ {F : Type 0} (zero_float : F) (parse_float : Bytes → Result F) where
  abbrev pub zero_cpu_info : CpuInfo F
  zero_cpu_info = record {
    processor = 0;
    vendor_id = [];
    cpu_family = [];
    model = [];
    model_name = [];
    stepping = [];
    microcode = [];
    cpu_mhz = zero_float;
    cache_size = [];
    physical_id = [];
    siblings = 0;
    core_id = [];
    cpu_cores = 0;
    apicid = [];
    initial_apicid = [];
    fpu = [];
    fpu_exception = [];
    cpuid_level = 0;
    wp = [];
    flags = [];
    bugs = [];
    bogo_mips = zero_float;
    cl_flush_size = 0;
    cache_alignment = 0;
    address_sizes = [];
    power_management = [];
  }

  -- The cases of the switch behind "siblings", and those before it with "processor".
  unfoldable pub x86_later_field : Bytes → List Bytes → Result (Entry F)
  x86_later_field label parts =
      if bytes_eq label (codes "apicid")
      then text_entry parts (λ v cpu. record cpu { apicid = v })
      else if bytes_eq label (codes "initial apicid")
      then text_entry parts (λ v cpu. record cpu { initial_apicid = v })
      else if bytes_eq label (codes "fpu")
      then text_entry parts (λ v cpu. record cpu { fpu = v })
      else if bytes_eq label (codes "fpu_exception")
      then text_entry parts (λ v cpu. record cpu { fpu_exception = v })
      else if bytes_eq label (codes "cpuid level")
      then number_entry parts (λ v cpu. record cpu { cpuid_level = v })
      else if bytes_eq label (codes "wp")
      then text_entry parts (λ v cpu. record cpu { wp = v })
      else if bytes_eq label (codes "flags")
      then words_entry parts (λ v cpu. record cpu { flags = v })
      else if bytes_eq label (codes "bugs")
      then words_entry parts (λ v cpu. record cpu { bugs = v })
      else if bytes_eq label (codes "bogomips")
      then float_entry parse_float parts (λ v cpu. record cpu { bogo_mips = v })
      else if bytes_eq label (codes "clflush size")
      then number_entry parts (λ v cpu. record cpu { cl_flush_size = v })
      else if bytes_eq label (codes "cache_alignment")
      then number_entry parts (λ v cpu. record cpu { cache_alignment = v })
      else if bytes_eq label (codes "address sizes")
      then text_entry parts (λ v cpu. record cpu { address_sizes = v })
      else if bytes_eq label (codes "power management")
      then text_entry parts (λ v cpu. record cpu { power_management = v })
      else ok Entry.nothing

  unfoldable pub x86_field : Bytes → List Bytes → Result (Entry F)
  unfolding x86_later_field
  x86_field label parts =
      if bytes_eq label (codes "processor")
      then (do text ← parts !! 1; v ← parse_uint text 0 32; ok (Entry.start v))
      else if bytes_eq label (codes "vendor") || bytes_eq label (codes "vendor_id")
      then text_entry parts (λ v cpu. record cpu { vendor_id = v })
      else if bytes_eq label (codes "cpu family")
      then text_entry parts (λ v cpu. record cpu { cpu_family = v })
      else if bytes_eq label (codes "model")
      then text_entry parts (λ v cpu. record cpu { model = v })
      else if bytes_eq label (codes "model name")
      then text_entry parts (λ v cpu. record cpu { model_name = v })
      else if bytes_eq label (codes "stepping")
      then text_entry parts (λ v cpu. record cpu { stepping = v })
      else if bytes_eq label (codes "microcode")
      then text_entry parts (λ v cpu. record cpu { microcode = v })
      else if bytes_eq label (codes "cpu MHz")
      then float_entry parse_float parts (λ v cpu. record cpu { cpu_mhz = v })
      else if bytes_eq label (codes "cache size")
      then text_entry parts (λ v cpu. record cpu { cache_size = v })
      else if bytes_eq label (codes "physical id")
      then text_entry parts (λ v cpu. record cpu { physical_id = v })
      else if bytes_eq label (codes "siblings")
      then number_entry parts (λ v cpu. record cpu { siblings = v })
      else if bytes_eq label (codes "core id")
      then text_entry parts (λ v cpu. record cpu { core_id = v })
      else if bytes_eq label (codes "cpu cores")
      then number_entry parts (λ v cpu. record cpu { cpu_cores = v })
      else x86_later_field label parts

  -- A line of the loops: its test for a colon and the switch.
  unfoldable pub line_entry : (Bytes → List Bytes → Result (Entry F)) → Bytes → Result (Entry F)
  line_entry field line = if not (contains line (codes ":")) then ok Entry.nothing else do
    let parts = split_two_text line (codes ": ")
    label ← parts !! 0
    field (trim_space label) parts

  -- What a line does to the slice of the processors, the last one at the index.
  unfoldable pub enter : List (CpuInfo F) × ℕ → Entry F → Result (List (CpuInfo F) × ℕ)
  enter (cpuinfo, i) nothing = ok (cpuinfo, i)
  enter (cpuinfo, i) (start v) = do
    let grown = cpuinfo ++ zero_cpu_info ∷ []
    cpu ← grown !! (i + 1)
    stored ← set_at grown (i + 1) (record cpu { processor = v })
    ok (stored, i + 1)
  enter (cpuinfo, i) (set f) = do
    cpu ← cpuinfo !! i
    stored ← set_at cpuinfo i (f cpu)
    ok (stored, i)

  unfoldable pub cpu_line :
      (Bytes → List Bytes → Result (Entry F))
      → List (CpuInfo F) × ℕ
      → Bytes
      → Result (List (CpuInfo F) × ℕ)
  unfolding line_entry enter
  cpu_line field state line = do entry ← line_entry field line; enter state entry

  -- The processor that the first line starts, and the message if it is another line.
  unfoldable pub first_cpu : String → Bytes → Result (CpuInfo F)
  first_cpu message first_line = do
    fail_if
        (not (has_prefix first_line (codes "processor")) || not (contains first_line (codes ":")))
        (wrap message file_parse)
    text ← split_two_text first_line (codes ": ") !! 1
    v ← parse_uint text 0 32
    ok (record zero_cpu_info { processor = v })

  -- The error of the scanner is not looked at.
  unfoldable pub parse_cpu_info_x86 : Bytes → Result (List (CpuInfo F))
  unfolding x86_field cpu_line first_non_empty_line first_cpu
  parse_cpu_info_x86 info = do
    let (first_line, lines) = first_non_empty_line (scan (reader info)).lines
    firstcpu ← first_cpu "%w: Cannot parse  line: %q" first_line
    state ← each (cpu_line x86_field) (firstcpu ∷ [], 0) lines
    ok state.0

  -- `find_clock` is `cpuinfoClockRegexp.FindString`.
  unfoldable pub ppc_field : (Bytes → Bytes) → Bytes → List Bytes → Result (Entry F)
  ppc_field find_clock label parts =
      if bytes_eq label (codes "processor")
      then (do text ← parts !! 1; v ← parse_uint text 0 32; ok (Entry.start v))
      else if bytes_eq label (codes "cpu")
      then text_entry parts (λ v cpu. record cpu { vendor_id = v })
      else if bytes_eq label (codes "clock")
      then (do
        text ← parts !! 1
        v ← parse_float (find_clock (trim_space text))
        ok (Entry.set (λ cpu. record cpu { cpu_mhz = v })))
      else ok Entry.nothing

  unfoldable pub parse_cpu_info_ppc : (Bytes → Bytes) → Bytes → Result (List (CpuInfo F))
  unfolding ppc_field cpu_line first_non_empty_line first_cpu
  parse_cpu_info_ppc find_clock info = do
    let (first_line, lines) = first_non_empty_line (scan (reader info)).lines
    firstcpu ← first_cpu "%w: %q" first_line
    state ← each (cpu_line (ppc_field find_clock)) (firstcpu ∷ [], 0) lines
    ok state.0

  -- `FS.CPUInfo` on x86, over the files below the mount point.
  unfoldable pub cpu_info : Files → Result (List (CpuInfo F))
  unfolding parse_cpu_info_x86
  cpu_info files = do content ← read_file_no_stat files "cpuinfo"; parse_cpu_info_x86 content
