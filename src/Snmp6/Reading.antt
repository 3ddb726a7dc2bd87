-- ===== src/Snmp6/Reading.antt =====
-- proc_snmp6.go: what parseSNMP6Stats reads from lines of a name and a number.
use procfs.Base.{
  List, [], ◌∷◌, ◌++◌, ◌≡◌, ◌≢◌, refl, ap, ◌∙◌, map, All, Bytes, false, none, some, arith, length,
  ltb,
}
use procfs.Go.Lines.{Spelled}
use procfs.Go.Reply.{returns, trying}
use procfs.Go.Result.{Result, ok}
use procfs.Go.Scanner.{Reader, scan}
use procfs.Go.Switch.{assign, assign_all, find_in, last_of, shown, read-assign_all, same_pair}
use procfs.Go.Switch.Loop.{each_reply-Spelled, assignments_of}
use procfs.Go.Text.Index.{index_byte-append, index_byte-eq-none, slice_through, slice_after}
use procfs.Go.Text.{fields}
use procfs.Snmp6.{parse_snmp6_stats, stat_line, stat_at}
use procfs.Snmp6.Keys.{cases, set_key}
use procfs.Snmp6.Keys.{label_of, read, set_key-Switch, read-zero_proc_snmp6}
use procfs.Snmp6.Keys.{Key}
use procfs.Snmp6.Types.{ProcSnmp6, zero_proc_snmp6}

-- The words of a line: a name with a "6" behind `stem`, a number, its value and other words; or
-- words that the loop passes over.
pub data Line (F : Type 0) : Type 0 where
  stat : Bytes → Bytes → Bytes → F → List Bytes → Line F
  other : List Bytes → Line F

-- Less than two words, or a first one without a "6".
abbrev pub IsSkipped : List Bytes → Type 0
IsSkipped (w ∷ v ∷ ws) = All (λ c. c ≢ b'6') w
IsSkipped _ = Unit

module _ {F : Type 0} where
  abbrev pub words_of : Line F → List Bytes
  words_of (stat stem key number value more) = (stem ++ (b'6' ∷ key)) ∷ number ∷ more
  words_of (other ws) = ws

  abbrev pub assignments : Line F → List ((Bytes × Bytes) × F)
  assignments (stat stem key number value more) = ((stem ++ b'6' ∷ [], key), value) ∷ []
  assignments (other ws) = []

module _ {F : Type 0} (parse_float : Bytes → Result F) where
  abbrev pub IsRead : Line F → Type 0
  IsRead (stat stem key number value more) =
      All (λ c. c ≢ b'6') stem × (parse_float number ≡ ok value)
  IsRead (other ws) = IsSkipped ws

  stat_at_lem :
      (stem key number : Bytes) (value : F) (more : List Bytes) (m : ProcSnmp6 F)
      → parse_float number ≡ ok value
      → stat_at parse_float m
          ((stem ++ (b'6' ∷ key)) ∷ number ∷ more)
          (stem ++ (b'6' ∷ key))
          (length stem)
        ≡ returns (assign set_key (find_in cases (stem ++ b'6' ∷ [], key)) value m) none
  unfolding stat_at
  stat_at_lem stem key number value more m p =
      rw (slice_through stem key b'6', slice_after stem key b'6', p) refl

  stat_line_lem :
      (e : Line F) (line : Bytes) (m : ProcSnmp6 F)
      → fields line ≡ words_of e
      → IsRead e
      → stat_line parse_float m line
        ≡ returns (assign_all set_key (find_in cases) (assignments e) m) none
  unfolding stat_line
  stat_line_lem (stat stem key number value more) line m h (p, q) =
      let long : ltb (length ((stem ++ (b'6' ∷ key)) ∷ number ∷ more)) 2 ≡ false = ground arith in
      rw h (
        rw long (
          rw (trying, index_byte-append stem key b'6' p, h)
            (stat_at_lem stem key number value more m q)))
  stat_line_lem (other []) line m h p = rw h refl
  stat_line_lem (other (w ∷ [])) line m h p = rw h refl
  stat_line_lem (other (w ∷ v ∷ ws)) line m h p =
      let long : ltb (length (w ∷ v ∷ ws)) 2 ≡ false = ground arith in
      rw h (rw long (rw (trying, index_byte-eq-none w b'6' p) refl))

  -- A file of lines that are a name with a "6" and a number that is read, or that have no second
  -- word or no "6" in the first one, is read to its end without an error of a line; and every field
  -- of the result has the value of the last line whose name is, up to its first "6", that of the
  -- field's protocol and, behind it, that of the field, and is unset where there is no such line.
  pub parse_snmp6_stats-read :
      (r : Reader) (es : List (Line F))
      → Spelled (scan r).lines (map words_of es)
      → All IsRead es
      → (m : ProcSnmp6 F) × (parse_snmp6_stats parse_float r ≡ returns m (scan r).fault)
        × ((k : Key)
            → read k m
              ≡ shown some none (last_of same_pair (label_of k) (assignments_of assignments es)))
  unfolding parse_snmp6_stats
  parse_snmp6_stats-read r es h p = (
    assign_all set_key (find_in cases) (assignments_of assignments es) zero_proc_snmp6,
    rw
        (each_reply-Spelled set_key (find_in cases) words_of assignments IsRead
          (stat_line parse_float) stat_line_lem es (scan r).lines zero_proc_snmp6 h p)
        refl,
    λ k.
        read-assign_all set_key-Switch k (assignments_of assignments es) zero_proc_snmp6
        ∙ ap (λ w. shown some w (last_of same_pair (label_of k) (assignments_of assignments es)))
            (read-zero_proc_snmp6 k),
  )
