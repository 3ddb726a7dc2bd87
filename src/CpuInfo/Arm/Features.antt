-- ===== src/CpuInfo/Arm/Features.antt =====
-- cpuinfo.go: what the parser for ARM does with a file without a "Features" line.
use procfs.Base.{
  ℕ, not, List, [], ◌∷◌, ◌≡◌, refl, Bytes, Option, none, some, codes, bytes_eq, Bool-cases, inl,
  inr, All, false,
}
use procfs.CpuInfo.{CpuInfo, first_non_empty_line}
use procfs.CpuInfo.Arm.{
  ArmState, set_current, with_flags, arm_field, arm_line, arm_begin, arm_first, parse_cpu_info_arm,
  append_common,
}
use procfs.Go.Result.{Result, ok, ◌>>=◌, fail_if, ◌!!◌, each}
use procfs.Go.Scanner.{reader, scan}
use procfs.Go.Slices.{set_at}
use procfs.Go.Strconv.{parse_uint}
use procfs.Go.Text.{trim_space, contains, split_two_text}
use procfs.Go.Yields.{Yields, Yields-bind, Yields-after}

-- The line has another label than "Features".
abbrev pub IsOther : Bytes → Type 0
IsOther line =
    Yields (split_two_text line (codes ": ") !! 0)
      (λ label. bytes_eq (trim_space label) (codes "Features") ≡ false)

module _ {F : Type 0} where
  abbrev NoFeatures : ArmState F → Type 0
  NoFeatures s = s.features_line ≡ []

  set_current-NoFeatures :
      (f : CpuInfo F → CpuInfo F) (s : ArmState F)
      → NoFeatures s
      → Yields (set_current f s) NoFeatures
  unfolding set_current
  set_current-NoFeatures f s h = go s.i
    where
      go :
          (i : Option ℕ)
          → Yields
              (elim i [
                | none ↦ Result.panic
                | some i ↦ (do
                  cpu ← s.cpuinfo !! i
                  stored ← set_at s.cpuinfo i (f cpu)
                  ok (record s { cpuinfo = stored }))
              ])
              NoFeatures
      go none = tt
      go (some i) =
          Yields-bind (s.cpuinfo !! i) _ NoFeatures
            (λ cpu. Yields-bind (set_at s.cpuinfo i (f cpu)) _ NoFeatures (λ stored. h))

  append_common-NoFeatures :
      (common : CpuInfo F) (s : ArmState F) → NoFeatures s → NoFeatures (append_common common s)
  append_common-NoFeatures common s h = h

module _ {F : Type 0} (zero_float : F) (parse_float : Bytes → Result F) where
  started-NoFeatures :
      (common : CpuInfo F) (s : ArmState F) (i : Option ℕ)
      → NoFeatures s
      → Yields
          (elim i [
            | none ↦ set_current (λ cpu. record cpu { processor = 0 }) (append_common common s)
            | some i ↦ ok s
          ])
          NoFeatures
  started-NoFeatures common s none h =
      set_current-NoFeatures _ (append_common common s) (append_common-NoFeatures common s h)
  started-NoFeatures common s (some i) h = h

  arm_field-NoFeatures :
      (common : CpuInfo F) (line label : Bytes) (parts : List Bytes) (s : ArmState F)
      → bytes_eq label (codes "Features") ≡ false
      → NoFeatures s
      → Yields (arm_field zero_float parse_float common line label parts s) NoFeatures
  unfolding arm_field
  arm_field-NoFeatures common line label parts s other h =
      elim (Bool-cases (bytes_eq label (codes "processor"))) [
        | inl e ↦ rw e (
            Yields-bind (parts !! 1) _ NoFeatures (λ text.
              Yields-bind (parse_uint text 0 32) _ NoFeatures (λ v.
                set_current-NoFeatures (λ cpu. record cpu { processor = v })
                  (append_common common s) (append_common-NoFeatures common s h))))
        | inr e ↦ rw e (elim (Bool-cases (bytes_eq label (codes "BogoMIPS"))) [
          | inl b ↦ rw b (
              Yields-after _ _ NoFeatures NoFeatures (started-NoFeatures common s s.i h) (λ t k.
                Yields-bind (parts !! 1) _ NoFeatures (λ text.
                  Yields-bind (parse_float text) _ NoFeatures
                    (λ v. set_current-NoFeatures (λ cpu. record cpu { bogo_mips = v }) t k))))
          | inr b ↦
              rw (b, other)
                (elim (Bool-cases (bytes_eq label (codes "model name"))) [
                  | inl d ↦ rw d (
                      Yields-bind (parts !! 1) _ NoFeatures (λ name.
                        set_current-NoFeatures (λ cpu. record cpu { model_name = name }) s h))
                  | inr d ↦ rw d h
                ])
        ])
      ]

  arm_line-NoFeatures :
      (common : CpuInfo F) (s : ArmState F) (line : Bytes)
      → IsOther line
      → NoFeatures s
      → Yields (arm_line zero_float parse_float common s line) NoFeatures
  unfolding arm_line
  arm_line-NoFeatures common s line other h = elim (Bool-cases (not (contains line (codes ":")))) [
    | inl e ↦ rw e h
    | inr e ↦ rw e (
        Yields-after (split_two_text line (codes ": ") !! 0) _ _ NoFeatures other (λ label differs.
          arm_field-NoFeatures common line (trim_space label) (split_two_text line (codes ": ")) s
            differs h))
  ]

  each-NoFeatures :
      (common : CpuInfo F) (s : ArmState F) (lines : List Bytes)
      → All IsOther lines
      → NoFeatures s
      → Yields (each (arm_line zero_float parse_float common) s lines) NoFeatures
  unfolding each
  each-NoFeatures common s [] other h = h
  each-NoFeatures common s (line ∷ lines) (o, os) h =
      Yields-after (arm_line zero_float parse_float common s line) _ NoFeatures NoFeatures
        (arm_line-NoFeatures common s line o h) (λ t k. each-NoFeatures common t lines os k)

  abbrev Begins : CpuInfo F × ArmState F → Type 0
  Begins begin = NoFeatures begin.1

  arm_begin-NoFeatures :
      (label text : Bytes) → Yields (arm_begin zero_float parse_float label text) Begins
  unfolding arm_begin
  arm_begin-NoFeatures label text = elim (Bool-cases (bytes_eq label (codes "Processor"))) [
    | inl e ↦ rw e refl
    | inr e ↦ rw e (Yields-bind (parse_uint text 0 32) _ Begins (λ v. refl))
  ]

  arm_first-NoFeatures :
      (first_line : Bytes) → Yields (arm_first zero_float parse_float first_line) Begins
  unfolding arm_first
  arm_first-NoFeatures first_line = Yields-bind (fail_if _ _) _ Begins (λ _.
      Yields-bind (split_two_text first_line (codes ": ") !! 0) _ Begins (λ label.
        Yields-bind (split_two_text first_line (codes ": ") !! 1) _ Begins
          (λ text. arm_begin-NoFeatures (trim_space label) text)))

  with_flags-NoFeatures :
      (cpuinfo : List (CpuInfo F)) → Yields (with_flags [] cpuinfo) (λ cpus. cpus ≡ [])
  unfolding with_flags each split_two_text
  with_flags-NoFeatures [] = refl
  with_flags-NoFeatures (cpu ∷ rest) = tt

  -- A file for ARM none of whose lines behind the first has the label "Features" is never parsed to a
  -- processor: the parser gives an error, no processors, or panics.
  pub parse_cpu_info_arm-no_features :
      (info : Bytes)
      → All IsOther (first_non_empty_line (scan (reader info)).lines).1
      → Yields (parse_cpu_info_arm zero_float parse_float info) (λ cpuinfo. cpuinfo ≡ [])
  unfolding parse_cpu_info_arm
  parse_cpu_info_arm-no_features info other =
      let lines = (first_non_empty_line (scan (reader info)).lines).1 in
      let first_line = (first_non_empty_line (scan (reader info)).lines).0 in
      Yields-after (arm_first zero_float parse_float first_line) _ Begins (λ cpuinfo. cpuinfo ≡ [])
        (arm_first-NoFeatures first_line)
        (λ begin h.
          Yields-after (each (arm_line zero_float parse_float begin.0) begin.1 lines) _ NoFeatures
            (λ cpuinfo. cpuinfo ≡ []) (each-NoFeatures begin.0 begin.1 lines other h)
            (λ s k. rw k (with_flags-NoFeatures s.cpuinfo)))
