-- ===== src/CpuInfo/Processors.antt =====
-- cpuinfo.go: the slice of processors and its index beside the lines of each processor.
use procfs.Base.{
  ℕ, ◌+◌, List, [], ◌∷◌, ◌++◌, Bytes, length, length-append, arith, ◌≡◌, refl, ◌∙◌, sym, ap,
  append_assoc,
}
use procfs.CpuInfo.{
  CpuInfo, Entry, enter, line_entry, cpu_line, x86_field, ppc_field, zero_cpu_info, first_cpu,
  parse_cpu_info_x86, parse_cpu_info_ppc, first_non_empty_line,
}
use procfs.Go.Result.{Result, ok, err, panic, each, ◌>>=◌}
use procfs.Go.Scanner.{reader, scan}
use procfs.Go.Slices.{ !!-append, set_at-append}

bind-ok :
    {A B C : Type 0} (m : Result A) (f : A → B) (g : B → C)
    → ((m >>= λ a. ok (f a)) >>= λ b. ok (g b)) ≡ (m >>= λ a. ok (g (f a)))
bind-ok (ok a) f g = refl
bind-ok (err e) f g = refl
bind-ok panic f g = refl

bind-congr :
    {A B : Type 0} (m : Result A) (f g : A → B)
    → ((a : A) → f a ≡ g a)
    → (m >>= λ a. ok (f a)) ≡ (m >>= λ a. ok (g a))
bind-congr (ok a) f g h = ap ok (h a)
bind-congr (err e) f g h = refl
bind-congr panic f g h = refl

module _ {F : Type 0} (zero_float : F) (parse_float : Bytes → Result F) where
  -- What each line does, or the first error.
  abbrev pub entries :
      (Bytes → List Bytes → Result (Entry F)) → List Bytes → Result (List (Entry F))
  entries field [] = ok []
  entries field (line ∷ lines) = do
    entry ← line_entry zero_float parse_float field line
    rest ← entries field lines
    ok (entry ∷ rest)

  -- The processor that the entries begin in, and those that start later.
  abbrev pub processors : CpuInfo F → List (Entry F) → List (CpuInfo F)
  processors cpu [] = cpu ∷ []
  processors cpu (Entry.nothing ∷ es) = processors cpu es
  processors cpu (Entry.start v ∷ es) =
      cpu ∷ processors (record (zero_cpu_info zero_float parse_float) { processor = v }) es
  processors cpu (Entry.set f ∷ es) = processors (f cpu) es

  enter_set :
      (done : List (CpuInfo F)) (cpu : CpuInfo F) (f : CpuInfo F → CpuInfo F)
      → enter zero_float parse_float (done ++ cpu ∷ [], length done) (Entry.set f)
        ≡ ok (done ++ f cpu ∷ [], length done)
  unfolding enter
  enter_set done cpu f = rw (!!-append done [] cpu, set_at-append done [] cpu (f cpu)) refl

  enter_start :
      (done : List (CpuInfo F)) (cpu : CpuInfo F) (v : ℕ)
      → enter zero_float parse_float (done ++ cpu ∷ [], length done) (Entry.start v)
        ≡ ok (
          (done ++ cpu ∷ [])
              ++ record (zero_cpu_info zero_float parse_float) { processor = v } ∷ [],
          length (done ++ cpu ∷ []),
        )
  unfolding enter
  enter_start done cpu v =
      let zero_cpu = zero_cpu_info zero_float parse_float in
      let grown = done ++ cpu ∷ [] in
      let at : length done + 1 ≡ length grown = omega (arith, length-append done (cpu ∷ [])) in
      rw
        (
          at,
          !!-append grown [] zero_cpu,
          set_at-append grown [] zero_cpu (record zero_cpu { processor = v }),
        )
        refl

  module _ (field : Bytes → List Bytes → Result (Entry F)) where
    -- The loop from a state, and what the rest of the lines says.
    Agrees : List Bytes → Result (List (Entry F)) → List (CpuInfo F) → CpuInfo F → Type 0
    Agrees lines rest done cpu =
        (each (cpu_line zero_float parse_float field) (done ++ cpu ∷ [], length done) lines
          >>= λ state. ok state.0)
        ≡ (rest >>= λ es. ok (done ++ processors cpu es))

    enter-Agrees :
        (lines : List Bytes) (rest : Result (List (Entry F))) (done : List (CpuInfo F))
        (cpu : CpuInfo F)
        → ((done : List (CpuInfo F)) (cpu : CpuInfo F) → Agrees lines rest done cpu)
        → (entry : Result (Entry F))
        → (((entry >>= enter zero_float parse_float (done ++ cpu ∷ [], length done)) >>= λ t.
              each (cpu_line zero_float parse_float field) t lines)
            >>= λ state. ok state.0)
          ≡ ((entry >>= λ e. rest >>= λ es. ok (e ∷ es)) >>= λ es. ok (done ++ processors cpu es))
    unfolding Agrees enter
    enter-Agrees lines rest done cpu agrees (ok (Entry.nothing)) =
        agrees done cpu
        ∙ sym (bind-ok rest (λ es. Entry.nothing ∷ es) (λ es. done ++ processors cpu es))
    enter-Agrees lines rest done cpu agrees (ok (Entry.start v)) =
        let new = record (zero_cpu_info zero_float parse_float) { processor = v } in
        rw (enter_start done cpu v) (
          agrees (done ++ cpu ∷ []) new
          ∙ bind-congr rest (λ es. (done ++ cpu ∷ []) ++ processors new es)
              (λ es. done ++ (cpu ∷ processors new es)) (λ es. simp append_assoc)
          ∙ sym (bind-ok rest (λ es. Entry.start v ∷ es) (λ es. done ++ processors cpu es)))
    enter-Agrees lines rest done cpu agrees (ok (Entry.set f)) = rw (enter_set done cpu f) (
        agrees done (f cpu)
        ∙ sym (bind-ok rest (λ es. Entry.set f ∷ es) (λ es. done ++ processors cpu es)))
    enter-Agrees lines rest done cpu agrees (err e) = refl
    enter-Agrees lines rest done cpu agrees panic = refl

    each-cpu_line :
        (lines : List Bytes) (done : List (CpuInfo F)) (cpu : CpuInfo F)
        → Agrees lines (entries field lines) done cpu
    unfolding Agrees each cpu_line
    each-cpu_line [] done cpu = refl
    each-cpu_line (line ∷ lines) done cpu =
        enter-Agrees lines (entries field lines) done cpu (each-cpu_line lines)
          (line_entry zero_float parse_float field line)

    bind-Agrees :
        (first : Result (CpuInfo F)) (lines : List Bytes)
        → (first >>= λ cpu.
            each (cpu_line zero_float parse_float field) (cpu ∷ [], 0) lines >>= λ state.
            ok state.0)
          ≡ (first >>= λ cpu. entries field lines >>= λ es. ok (processors cpu es))
    unfolding Agrees
    bind-Agrees (ok cpu) lines = each-cpu_line lines [] cpu
    bind-Agrees (err e) lines = refl
    bind-Agrees panic lines = refl

  -- The slice and the index of the loop give what the recursion on the entries of the lines gives.
  pub parse_cpu_info_x86-processors :
      (info : Bytes)
      → let (first_line, lines) = first_non_empty_line (scan (reader info)).lines in
        parse_cpu_info_x86 zero_float parse_float info ≡ (do
          cpu ← first_cpu zero_float parse_float "%w: Cannot parse  line: %q" first_line
          es ← entries (x86_field zero_float parse_float) lines
          ok (processors cpu es))
  unfolding parse_cpu_info_x86
  parse_cpu_info_x86-processors info =
      let (first_line, lines) = first_non_empty_line (scan (reader info)).lines in
      bind-Agrees (x86_field zero_float parse_float)
        (first_cpu zero_float parse_float "%w: Cannot parse  line: %q" first_line) lines

  -- The same for PowerPC.
  pub parse_cpu_info_ppc-processors :
      (find_clock : Bytes → Bytes) (info : Bytes)
      → let (first_line, lines) = first_non_empty_line (scan (reader info)).lines in
        parse_cpu_info_ppc zero_float parse_float find_clock info ≡ (do
          cpu ← first_cpu zero_float parse_float "%w: %q" first_line
          es ← entries (ppc_field zero_float parse_float find_clock) lines
          ok (processors cpu es))
  unfolding parse_cpu_info_ppc
  parse_cpu_info_ppc-processors find_clock info =
      let (first_line, lines) = first_non_empty_line (scan (reader info)).lines in
      bind-Agrees (ppc_field zero_float parse_float find_clock)
        (first_cpu zero_float parse_float "%w: %q" first_line) lines
