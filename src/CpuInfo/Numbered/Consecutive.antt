-- ===== src/CpuInfo/Numbered/Consecutive.antt =====
-- cpuinfo.go: processors that are numbered in the order of their lines, and others.
use procfs.Base.{
  ℕ, suc, ◌<◌, List, [], ◌∷◌, ◌++◌, Bytes, length, length-append, arith, ◌≡◌, refl, ◌∙◌, sym, ap,
  subst, append_assoc,
}
use procfs.CpuInfo.Numbered.{
  enter_numbered, numbered_line, mips_field, riscv_field, system_type_of, begin_system, begin_riscv,
  parse_cpu_info_mips, parse_cpu_info_riscv,
}
use procfs.CpuInfo.{first_cpu, line_entry, CpuInfo, Entry, zero_cpu_info, first_non_empty_line}
use procfs.Go.Result.{Result, ok, panic, each, each-append, ◌!!◌}
use procfs.Go.Scanner.{reader, scan}
use procfs.Go.Slices.{set_at, set_at-append, !!-append, !!-end}

module _ {F : Type 0} where
  -- The processors that start have the numbers from a number on.
  abbrev pub Consecutive : ℕ → List (Entry F) → Type 0
  Consecutive n [] = Unit
  Consecutive n (Entry.nothing ∷ es) = Consecutive n es
  Consecutive n (Entry.start v ∷ es) = (v ≡ n) × Consecutive (suc n) es
  Consecutive n (Entry.set f ∷ es) = Consecutive n es

  -- The same with no processor before, where no field can be set yet.
  abbrev pub FromZero : List (Entry F) → Type 0
  FromZero [] = Unit
  FromZero (Entry.nothing ∷ es) = FromZero es
  FromZero (Entry.start v ∷ es) = (v ≡ 0) × Consecutive 1 es
  FromZero (Entry.set f ∷ es) = ⊥

module _ {F : Type 0} (zero_float : F) (parse_float : Bytes → Result F) where
  -- What the lines do.
  abbrev pub Entries :
      (Bytes → List Bytes → Result (Entry F)) → List Bytes → List (Entry F) → Type 0
  Entries field [] [] = Unit
  Entries field (line ∷ lines) (e ∷ es) =
      (line_entry zero_float parse_float field line ≡ ok e) × Entries field lines es
  Entries field _ _ = ⊥

  module _ (begin : ℕ → CpuInfo F → CpuInfo F) where
    -- The processor that the entries begin in, and those that start later.
    abbrev pub processors : CpuInfo F → List (Entry F) → List (CpuInfo F)
    processors cpu [] = cpu ∷ []
    processors cpu (Entry.nothing ∷ es) = processors cpu es
    processors cpu (Entry.start v ∷ es) =
        cpu ∷ processors (begin v (zero_cpu_info zero_float parse_float)) es
    processors cpu (Entry.set f ∷ es) = processors (f cpu) es

    abbrev pub processors_from_zero : List (Entry F) → List (CpuInfo F)
    processors_from_zero [] = []
    processors_from_zero (Entry.nothing ∷ es) = processors_from_zero es
    processors_from_zero (Entry.start v ∷ es) =
        processors (begin v (zero_cpu_info zero_float parse_float)) es
    processors_from_zero (Entry.set f ∷ es) = []

  module _ (field : Bytes → List Bytes → Result (Entry F)) (begin : ℕ → CpuInfo F → CpuInfo F) where
    Runs : List (CpuInfo F) × ℕ → List Bytes → List (CpuInfo F) → Type 0
    Runs state lines cpus =
        (i : ℕ) × (each (numbered_line zero_float parse_float field begin) state lines
          ≡ ok (cpus, i))

    each-processors :
        (lines : List Bytes) (es : List (Entry F)) (done : List (CpuInfo F)) (cpu : CpuInfo F)
        → Entries field lines es
        → Consecutive (suc (length done)) es
        → Runs (done ++ cpu ∷ [], length done) lines (done ++ processors begin cpu es)
    unfolding Runs each numbered_line enter_numbered
    each-processors [] [] done cpu h k = (length done, refl)
    each-processors [] (e ∷ es) done cpu h k = absurd h
    each-processors (line ∷ lines) [] done cpu h k = absurd h
    each-processors (line ∷ lines) (Entry.nothing ∷ es) done cpu (e, h) k =
        let (i, run) = each-processors lines es done cpu h k in (i, rw e run)
    each-processors (line ∷ lines) (Entry.set f ∷ es) done cpu (e, h) k =
        let (i, run) = each-processors lines es done (f cpu) h k in
        (i, rw (e, !!-append done [] cpu, set_at-append done [] cpu (f cpu)) run)
    each-processors (line ∷ lines) (Entry.start v ∷ es) done cpu (e, h) (number, k) =
        let zero_cpu = zero_cpu_info zero_float parse_float in
        let grown = done ++ cpu ∷ [] in
        let new = begin v zero_cpu in
        let long : length grown ≡ suc (length done) =
          omega (arith, length-append done (cpu ∷ [])) in
        let at : length grown ≡ v = omega (arith, long, number) in
        let (i, run) =
          each-processors lines es grown new h (subst (λ n. Consecutive (suc n) es) (sym long) k) in
        let read =
          subst (λ n. (grown ++ zero_cpu ∷ []) !! n ≡ ok zero_cpu) at
            (!!-append grown [] zero_cpu) in
        let store =
          subst (λ n. set_at (grown ++ zero_cpu ∷ []) n new ≡ ok (grown ++ new ∷ [])) at
            (set_at-append grown [] zero_cpu new) in
        let later =
          subst
            (λ n.
              each (numbered_line zero_float parse_float field begin) (grown ++ new ∷ [], n) lines
              ≡ ok (grown ++ processors begin new es, i))
            at run in
        let same : grown ++ processors begin new es ≡ done ++ (cpu ∷ processors begin new es) =
          simp append_assoc in
        (i, rw (e, read, store) (later ∙ ap (λ cpus. ok (cpus, i)) same))

    each-processors_from_zero :
        (lines : List Bytes) (es : List (Entry F))
        → Entries field lines es
        → FromZero es
        → Runs ([], 0) lines (processors_from_zero begin es)
    unfolding Runs each numbered_line enter_numbered set_at
    each-processors_from_zero [] [] h k = (0, refl)
    each-processors_from_zero [] (e ∷ es) h k = absurd h
    each-processors_from_zero (line ∷ lines) [] h k = absurd h
    each-processors_from_zero (line ∷ lines) (Entry.nothing ∷ es) (e, h) k =
        let (i, run) = each-processors_from_zero lines es h k in (i, rw e run)
    each-processors_from_zero (line ∷ lines) (Entry.set f ∷ es) h k = absurd k
    each-processors_from_zero (line ∷ lines) (Entry.start v ∷ es) (e, h) (number, k) =
        let zero_cpu = zero_cpu_info zero_float parse_float in
        let first = e ∙ ap (λ n. ok (Entry.start n)) number in
        let (i, run) = each-processors lines es [] (begin 0 zero_cpu) h k in
        (i, rw first (run ∙ ap (λ n. ok (processors begin (begin n zero_cpu) es, i)) (sym number)))

    numbered_line_panic :
        (cpus : List (CpuInfo F)) (i v : ℕ) (line : Bytes)
        → line_entry zero_float parse_float field line ≡ ok (Entry.start v)
        → length cpus < v
        → numbered_line zero_float parse_float field begin (cpus, i) line ≡ panic
    unfolding numbered_line enter_numbered
    numbered_line_panic cpus i v line e h =
        let grown = cpus ++ zero_cpu_info zero_float parse_float ∷ [] in
        let past =
          !!-end grown v
            (omega (arith, length-append cpus (zero_cpu_info zero_float parse_float ∷ []))) in
        rw (e, past) refl

  -- What the index of the loop does when the processors are numbered in order.
  pub parse_cpu_info_mips-processors :
      (info system_type : Bytes) (es : List (Entry F))
      → let (first_line, lines) = first_non_empty_line (scan (reader info)).lines in
        system_type_of zero_float parse_float first_line ≡ ok system_type
        → Entries (mips_field zero_float parse_float) lines es
        → FromZero es
        → parse_cpu_info_mips zero_float parse_float info
          ≡ ok (processors_from_zero (begin_system zero_float parse_float system_type) es)
  unfolding parse_cpu_info_mips Runs
  parse_cpu_info_mips-processors info system_type es first h k =
      let begin = begin_system zero_float parse_float system_type in
      let (first_line, lines) = first_non_empty_line (scan (reader info)).lines in
      let (i, run) =
        each-processors_from_zero (mips_field zero_float parse_float) begin lines es h k in
      rw (first, run) refl

  -- If the processors of a RISC-V file are numbered in the order of its lines up to a "processor" line whose number
  -- is greater than the number of processors before it, the parser panics, whatever follows.
  pub parse_cpu_info_riscv_panic :
      (info : Bytes) (cpu : CpuInfo F) (before after : List Bytes) (line : Bytes)
      (es : List (Entry F)) (v : ℕ)
      → let (first_line, lines) = first_non_empty_line (scan (reader info)).lines in
        first_cpu zero_float parse_float "%w: %q" first_line ≡ ok cpu
        → lines ≡ before ++ line ∷ after
        → Entries (riscv_field zero_float parse_float) before es
        → Consecutive 1 es
        → line_entry zero_float parse_float (riscv_field zero_float parse_float) line
          ≡ ok (Entry.start v)
        → length (processors (begin_riscv zero_float parse_float) cpu es) < v
        → parse_cpu_info_riscv zero_float parse_float info ≡ panic
  unfolding parse_cpu_info_riscv Runs each
  parse_cpu_info_riscv_panic info cpu before after line es v first split h k e far =
      let field = riscv_field zero_float parse_float in
      let begin = begin_riscv zero_float parse_float in
      let (i, run) = each-processors field begin before es [] cpu h k in
      let stop = numbered_line_panic field begin (processors begin cpu es) i v line e far in
      let parts =
        each-append (numbered_line zero_float parse_float field begin) (cpu ∷ [], 0) before
          (line ∷ after) in
      rw (first, split, parts, run, stop) refl
