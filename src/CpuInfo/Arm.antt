-- ===== src/CpuInfo/Arm.antt =====
-- cpuinfo.go: the parser for ARM.
pub mod Features
use procfs.Base.{
  ℕ, suc, not, ◌||◌, List, [], ◌∷◌, ◌++◌, Bytes, Option, none, some, codes, bytes_eq, if◌then◌else◌,
}
use procfs.CpuInfo.{CpuInfo, zero_cpu_info, first_non_empty_line}
use procfs.Go.Result.{Result, ok, panic, file_parse, wrap, ◌>>=◌, ◌>>◌, fail_if, ◌!!◌, each}
use procfs.Go.Scanner.{reader, scan}
use procfs.Go.Slices.{set_at}
use procfs.Go.Strconv.{parse_uint}
use procfs.Go.Text.{trim_space, has_prefix, contains, split_two_text, fields}

-- The variables of the loop. `none` is the index -1.
pub record ArmState (F : Type 0) : Type 0 where
  pub cpuinfo : List (CpuInfo F)
  pub features_line : Bytes
  pub i : Option ℕ

module _ {F : Type 0} where
  -- `cpuinfo = append(cpuinfo, commonCPUInfo)` and `i++`
  abbrev append_common : CpuInfo F → ArmState F → ArmState F
  append_common common s = record s {
    cpuinfo = s.cpuinfo ++ common ∷ [];
    i = elim s.i [ none ↦ some 0 | some i ↦ some (suc i) ];
  }

  -- An assignment to a field of `cpuinfo[i]`.
  unfoldable pub set_current : (CpuInfo F → CpuInfo F) → ArmState F → Result (ArmState F)
  set_current f s = elim s.i [
    | none ↦ panic
    | some i ↦ do
      cpu ← s.cpuinfo !! i
      stored ← set_at s.cpuinfo i (f cpu)
      ok (record s { cpuinfo = stored })
  ]

  abbrev flagged : Bytes → CpuInfo F → CpuInfo F
  flagged flags cpu = record cpu { flags = fields flags }

  -- The flags of the processors. The index into the parts of the line is in the loop.
  unfoldable pub with_flags : Bytes → List (CpuInfo F) → Result (List (CpuInfo F))
  with_flags features_line =
      each
        (λ done cpu. do
          flags ← split_two_text features_line (codes ": ") !! 1
          ok (done ++ flagged flags cpu ∷ []))
        []

module _ {F : Type 0} (zero_float : F) (parse_float : Bytes → Result F) where
  -- The switch of the loop.
  unfoldable pub arm_field :
      CpuInfo F → Bytes → Bytes → List Bytes → ArmState F → Result (ArmState F)
  unfolding set_current
  arm_field common line label parts s =
      if bytes_eq label (codes "processor")
      then (do
        text ← parts !! 1
        v ← parse_uint text 0 32
        set_current (λ cpu. record cpu { processor = v }) (append_common common s))
      else if bytes_eq label (codes "BogoMIPS")
      then (do
        t ← elim s.i [
          | none ↦ set_current (λ cpu. record cpu { processor = 0 }) (append_common common s)
          | some i ↦ ok s
        ]
        text ← parts !! 1
        v ← parse_float text
        set_current (λ cpu. record cpu { bogo_mips = v }) t)
      else if bytes_eq label (codes "Features")
      then ok (record s { features_line = line })
      else if bytes_eq label (codes "model name")
      then (do name ← parts !! 1; set_current (λ cpu. record cpu { model_name = name }) s)
      else ok s

  unfoldable pub arm_line : CpuInfo F → ArmState F → Bytes → Result (ArmState F)
  unfolding arm_field
  arm_line common s line = if not (contains line (codes ":")) then ok s else do
    let parts = split_two_text line (codes ": ")
    label ← parts !! 0
    arm_field common line (trim_space label) parts s

  -- What the label and the text of the first line say: the fields that all processors have, and the
  -- variables at the start.
  unfoldable pub arm_begin : Bytes → Bytes → Result (CpuInfo F × ArmState F)
  arm_begin label text =
      let zero = zero_cpu_info zero_float parse_float in
      if bytes_eq label (codes "Processor")
      then ok
          (record zero { model_name = text }, record { cpuinfo = []; features_line = []; i = none })
      else (do
        v ← parse_uint text 0 32
        ok (
          zero,
          record { cpuinfo = record zero { processor = v } ∷ []; features_line = []; i = some 0 },
        ))

  unfoldable pub arm_first : Bytes → Result (CpuInfo F × ArmState F)
  unfolding arm_begin
  arm_first first_line = do
    fail_if
        (not
            (has_prefix first_line (codes "Processor") || has_prefix first_line (codes "processor"))
          || not (contains first_line (codes ":")))
        (wrap "%w: Cannot parse line: %q: %w" file_parse)
    let parts = split_two_text first_line (codes ": ")
    label ← parts !! 0
    text ← parts !! 1
    arm_begin (trim_space label) text

  unfoldable pub parse_cpu_info_arm : Bytes → Result (List (CpuInfo F))
  unfolding arm_first arm_line with_flags first_non_empty_line
  parse_cpu_info_arm info = do
    let (first_line, lines) = first_non_empty_line (scan (reader info)).lines
    begin ← arm_first first_line
    s ← each (arm_line begin.0) begin.1 lines
    with_flags s.features_line s.cpuinfo
