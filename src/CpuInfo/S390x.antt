-- ===== src/CpuInfo/S390x.antt =====
-- cpuinfo.go: the parser for S390X. `find_processor` is
-- `cpuinfoS390XProcessorRegexp.FindStringSubmatch`, and `find_clock` is `cpuinfoClockRegexp.FindString`.
use procfs.Base.{
  ℕ, ◌+◌, ltb, not, ◌||◌, List, [], ◌∷◌, ◌++◌, Bytes, length, codes, bytes_eq, if◌then◌else◌, true,
  false,
}
use procfs.CpuInfo.{
  CpuInfo, Entry, enter, zero_cpu_info, first_non_empty_line, text_entry, number_entry,
}
use procfs.Go.Result.{Result, ok, file_parse, wrap, ◌>>=◌, ◌>>◌, fail_if, ◌!!◌, each}
use procfs.Go.Scanner.{reader, scan, scan_again}
use procfs.Go.Strconv.{parse_uint}
use procfs.Go.Text.{trim_space, has_prefix, contains, split_two_text, fields}

module _ {F : Type 0} (zero_float : F) (parse_float : Bytes → Result F)
    (find_processor : Bytes → List Bytes) (find_clock : Bytes → Bytes) where
  -- The fields that all processors have, as a line of the first loop changes them.
  unfoldable pub s390x_common : CpuInfo F → Bytes → List Bytes → Result (CpuInfo F)
  s390x_common common label parts =
      if bytes_eq label (codes "bogomips per cpu")
      then (do text ← parts !! 1; v ← parse_float text; ok (record common { bogo_mips = v }))
      else if bytes_eq label (codes "features")
      then (do text ← parts !! 1; ok (record common { flags = fields text }))
      else ok common

  -- The processor of a line that begins with "processor".
  unfoldable pub s390x_processor : CpuInfo F → Bytes → Result (CpuInfo F)
  s390x_processor common line = do
    let match = find_processor line
    fail_if (ltb (length match) 2) (wrap "%w: %q" file_parse)
    text ← match !! 1
    v ← parse_uint text 0 32
    ok (record common { processor = v })

  -- A line of the first loop that holds a colon.
  unfoldable pub s390x_line :
      CpuInfo F × List (CpuInfo F) → Bytes → Result (CpuInfo F × List (CpuInfo F))
  unfolding s390x_common s390x_processor
  s390x_line (common, cpuinfo) line = do
    let parts = split_two_text line (codes ": ")
    label ← parts !! 0
    now ← s390x_common common (trim_space label) parts
    if has_prefix line (codes "processor")
        then (do cpu ← s390x_processor now line; ok (now, cpuinfo ++ cpu ∷ []))
        else ok (now, cpuinfo)

  -- The first loop, up to a line that begins with "cpu number": the processors, and the lines that are
  -- left for the second loop. `again` is what `Scan` gives if it is called once more behind its end.
  unfoldable pub s390x_processors :
      List Bytes
      → CpuInfo F × List (CpuInfo F)
      → List Bytes
      → Result (List (CpuInfo F) × List Bytes)
  unfolding s390x_line
  s390x_processors again state [] = ok (state.1, again)
  s390x_processors again state (line ∷ lines) = elim (contains line (codes ":")) [
    | false ↦ s390x_processors again state lines
    | true ↦ s390x_line state line >>= λ t. elim (has_prefix line (codes "cpu number")) [
      | true ↦ ok (t.1, lines)
      | false ↦ s390x_processors again t lines
    ]
  ]

  -- The switch of the second loop behind "cpu number".
  unfoldable pub s390x_field : Bytes → List Bytes → Result (Entry F)
  s390x_field label parts =
      if bytes_eq label (codes "cpu MHz dynamic")
      then (do
        text ← parts !! 1
        v ← parse_float (find_clock (trim_space text))
        ok (Entry.set (λ cpu. record cpu { cpu_mhz = v })))
      else if bytes_eq label (codes "physical id")
      then text_entry parts (λ v cpu. record cpu { physical_id = v })
      else if bytes_eq label (codes "core id")
      then text_entry parts (λ v cpu. record cpu { core_id = v })
      else if bytes_eq label (codes "cpu cores")
      then number_entry parts (λ v cpu. record cpu { cpu_cores = v })
      else if bytes_eq label (codes "siblings")
      then number_entry parts (λ v cpu. record cpu { siblings = v })
      else ok Entry.nothing

  -- A line of the second loop.
  unfoldable pub s390x_detail : List (CpuInfo F) × ℕ → Bytes → Result (List (CpuInfo F) × ℕ)
  unfolding s390x_field enter
  s390x_detail (cpuinfo, i) line = if not (contains line (codes ":")) then ok (cpuinfo, i) else do
    let parts = split_two_text line (codes ": ")
    label ← parts !! 0
    if bytes_eq (trim_space label) (codes "cpu number") then ok (cpuinfo, i + 1) else (do
      entry ← s390x_field (trim_space label) parts
      enter zero_float parse_float (cpuinfo, i) entry)

  -- The vendor of the first line.
  unfoldable pub s390x_first : Bytes → Result (CpuInfo F)
  s390x_first first_line = do
    fail_if
        (not (has_prefix first_line (codes "vendor_id")) || not (contains first_line (codes ":")))
        (wrap "%w: Cannot parse line: %q" file_parse)
    vendor ← split_two_text first_line (codes ": ") !! 1
    ok (record (zero_cpu_info zero_float parse_float) { vendor_id = vendor })

  unfoldable pub parse_cpu_info_s390x : Bytes → Result (List (CpuInfo F))
  unfolding s390x_first s390x_processors s390x_detail first_non_empty_line
  parse_cpu_info_s390x info = do
    let (first_line, lines) = first_non_empty_line (scan (reader info)).lines
    common ← s390x_first first_line
    found ← s390x_processors (scan_again (reader info)) (common, []) lines
    state ← each s390x_detail (found.0, 0) found.1
    ok state.0
