-- ===== src/Paired/Reading.antt =====
-- proc_netstat.go, proc_snmp.go: what the loop reads from pairs of lines.
use procfs.Base.{
  suc, ◌+◌, ◌-◌, ◌==◌, Bytes, List, [], ◌∷◌, ◌++◌, ◌≡◌, refl, ap, append_assoc, All, Option, none,
  arith, codes, length, length-append, true,
}
use procfs.Go.Reply.{returns}
use procfs.Go.Result.{Result, ok, ◌!!◌}
use procfs.Go.Scanner.{Reader, scan, scan_again}
use procfs.Go.Slices.{ !!-append}
use procfs.Go.Switch.{assign, assign_all}
use procfs.Go.Switch.Loop.{assignments_of, assign_all-append}
use procfs.Go.Text.Affixes.{trim_suffix-append}
use procfs.Go.Text.{split}
use procfs.Paired.{values_from, values_of, pair_of_lines, pairs, parse_pairs}

-- A name, the text of its number and the value of that.
pub record Stat (F : Type 0) : Type 0 where
  pub name : Bytes
  pub number : Bytes
  pub value : F

-- A pair of lines: the protocol of the first one, what stands in its place in the second one, and
-- the columns.
pub record Block (F : Type 0) : Type 0 where
  pub protocol : Bytes
  pub corner : Bytes
  pub stats : List (Stat F)

module _ {F : Type 0} where
  abbrev pub names : List (Stat F) → List Bytes
  names [] = []
  names (c ∷ cs) = c.name ∷ names cs

  abbrev pub numbers : List (Stat F) → List Bytes
  numbers [] = []
  numbers (c ∷ cs) = c.number ∷ numbers cs

  -- The lines are those of the blocks, split at single spaces.
  abbrev pub Spells : List Bytes → List (Block F) → Type 0
  Spells [] [] = Unit
  Spells (first ∷ second ∷ rest) (b ∷ bs) =
      (split first b' ' ≡ (b.protocol ++ codes ":") ∷ names b.stats)
      × (split second b' ' ≡ b.corner ∷ numbers b.stats)
      × Spells rest bs
  Spells _ _ = ⊥

  abbrev pub labelled : Bytes → List (Stat F) → List ((Bytes × Bytes) × F)
  labelled protocol [] = []
  labelled protocol (c ∷ cs) = ((protocol, c.name), c.value) ∷ labelled protocol cs

  abbrev pub assignments : Block F → List ((Bytes × Bytes) × F)
  assignments b = labelled b.protocol b.stats

  length-names : (cs : List (Stat F)) → length (names cs) ≡ length cs
  length-names [] = refl
  length-names (c ∷ cs) = ap suc (length-names cs)

  length-numbers : (cs : List (Stat F)) → length (numbers cs) ≡ length cs
  length-numbers [] = refl
  length-numbers (c ∷ cs) = ap suc (length-numbers cs)

module _ {F : Type 0} (parse_float : Bytes → Result F) where
  -- Every number is read as its value.
  abbrev pub AreRead : List (Block F) → Type 0
  AreRead = All (λ b. All (λ c. parse_float c.number ≡ ok c.value) b.stats)

  module _ {S K : Type 0} (set : K → F → S → S) (find : Bytes × Bytes → Option K) where
    values_from_lem :
        (protocol : Bytes) (cs : List (Stat F)) (ns vs : List Bytes) (m : S)
        → length ns ≡ length vs
        → All (λ c. parse_float c.number ≡ ok c.value) cs
        → values_from parse_float set find protocol
            (ns ++ names cs)
            (vs ++ numbers cs)
            (length cs)
            (length ns)
            m
          ≡ returns (assign_all set find (labelled protocol cs) m) none
    unfolding values_from
    values_from_lem protocol [] ns vs m h p = refl
    values_from_lem protocol (c ∷ cs) ns vs m h (p, ps) =
        let column : ((vs ++ (c.number ∷ numbers cs)) !! length ns) ≡ ok c.number =
          rw h (!!-append vs (numbers cs) c.number) in
        let next : length ns + 1 ≡ length (ns ++ c.name ∷ []) =
          omega (arith, length-append ns (c.name ∷ [])) in
        let same : length (ns ++ c.name ∷ []) ≡ length (vs ++ c.number ∷ []) =
          omega (arith, h, length-append ns (c.name ∷ []), length-append vs (c.number ∷ [])) in
        let later =
          values_from_lem protocol cs (ns ++ c.name ∷ []) (vs ++ c.number ∷ [])
            (assign set (find (protocol, c.name)) c.value m) same ps in
        rw (column, p, !!-append ns (names cs) c.name, next)
          (rw (append_assoc, append_assoc) at later)

    pair_of_lines_lem :
        (b : Block F) (first second : Bytes) (m : S)
        → split first b' ' ≡ (b.protocol ++ codes ":") ∷ names b.stats
        → split second b' ' ≡ b.corner ∷ numbers b.stats
        → All (λ c. parse_float c.number ≡ ok c.value) b.stats
        → pair_of_lines parse_float set find m first second
          ≡ returns (assign_all set find (assignments b) m) none
    unfolding pair_of_lines values_of
    pair_of_lines_lem b first second m h k p =
        let ln = length-names b.stats in
        let lv = length-numbers b.stats in
        let even : (suc (length (names b.stats)) == suc (length (numbers b.stats))) ≡ true =
          ground (arith, ln, lv) in
        let left : suc (length (names b.stats)) - 1 ≡ length b.stats = omega (arith, ln) in
        rw (h, k)
          (rw (trim_suffix-append b.protocol (codes ":"), even)
            (rw left (
              values_from_lem b.protocol b.stats ((b.protocol ++ codes ":") ∷ []) (b.corner ∷ []) m
                refl p)))

    pairs_lem :
        (again : List Bytes) (bs : List (Block F)) (lines : List Bytes) (m : S)
        → Spells lines bs
        → AreRead bs
        → pairs parse_float set find again m lines
          ≡ returns (assign_all set find (assignments_of assignments bs) m) none
    unfolding pairs
    pairs_lem again [] [] m h p = refl
    pairs_lem again [] (first ∷ []) m h p = elim h [ ]
    pairs_lem again [] (first ∷ second ∷ rest) m h p = elim h [ ]
    pairs_lem again (b ∷ bs) [] m h p = elim h [ ]
    pairs_lem again (b ∷ bs) (first ∷ []) m h p = elim h [ ]
    pairs_lem again (b ∷ bs) (first ∷ second ∷ rest) m (h, k, hs) (p, ps) =
        rw
          (
            pair_of_lines_lem b first second m h k p,
            assign_all-append set find (assignments b) (assignments_of assignments bs) m,
          )
          (pairs_lem again bs rest (assign_all set find (assignments b) m) hs ps)

    pub parse_pairs_lem :
        (start : S) (r : Reader) (bs : List (Block F))
        → Spells (scan r).lines bs
        → AreRead bs
        → parse_pairs parse_float set find start r
          ≡ returns (assign_all set find (assignments_of assignments bs) start) (scan r).fault
    unfolding parse_pairs
    parse_pairs_lem start r bs h p = rw (pairs_lem (scan_again r) bs (scan r).lines start h p) refl
