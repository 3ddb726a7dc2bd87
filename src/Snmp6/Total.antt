-- ===== src/Snmp6/Total.antt =====
-- proc_snmp6.go: the parser ends on every input.
use procfs.Base.{
  ℕ, ◌+◌, ◌<◌, ◌≤◌, ltb, leb, ◌&&◌, Bytes, List, ◌≡◌, Option, none, some, arith, length, true,
  Bool-cases, inl, inr,
}
use procfs.Go.Reply.{Replies, Replies-then, Replies-trying, Replies-each_reply, each_reply, returns}
use procfs.Go.Result.{Result, Returns, Returns-!!, Returns-bind, ◌>>=◌, ◌!!◌, slice}
use procfs.Go.Scanner.{Reader, scan}
use procfs.Go.Text.{fields}
use procfs.Go.Text.Index.{index_byte, Below, index_byte-Below}
use procfs.Snmp6.{stat_at, stat_line, parse_snmp6_stats}
use procfs.Snmp6.Types.{ProcSnmp6, zero_proc_snmp6}

Returns-slice : (v : Bytes) (lo hi : ℕ) → lo ≤ hi → hi ≤ length v → Returns (slice v lo hi)
Returns-slice v lo hi h k =
    let e : (leb lo hi && leb hi (length v)) ≡ true = ground arith in rw e tt

module _ {F : Type 0} (parse_float : Bytes → Result F)
    (total : (text : Bytes) → Returns (parse_float text)) where
  stat_at-Replies :
      (m : ProcSnmp6 F) (stat : List Bytes) (name : Bytes) (six : ℕ)
      → 1 < length stat
      → six < length name
      → Replies (stat_at parse_float m stat name six)
  unfolding stat_at
  stat_at-Replies m stat name six h k =
      Replies-trying m (slice name 0 (six + 1)) _
        (Returns-slice name 0 (six + 1) (omega arith) (omega arith))
        (λ protocol _.
          Replies-trying m (slice name (six + 1) (length name)) _
            (Returns-slice name (six + 1) (length name) (omega arith) (omega arith))
            (λ key _.
              Replies-trying m (stat !! 1 >>= parse_float) _
                (Returns-bind (stat !! 1) parse_float (Returns-!! stat 1 h) total) (λ value _. tt)))

  indexed :
      (m : ProcSnmp6 F) (stat : List Bytes) (name : Bytes) (f : Option ℕ)
      → 1 < length stat
      → Below (length name) f
      → Replies (elim f [ none ↦ returns m none | some six ↦ stat_at parse_float m stat name six ])
  indexed m stat name none h k = tt
  indexed m stat name (some six) h k = stat_at-Replies m stat name six h k

  stat_line-Replies : (m : ProcSnmp6 F) (line : Bytes) → Replies (stat_line parse_float m line)
  unfolding stat_line
  stat_line-Replies m line = elim (Bool-cases (ltb (length (fields line)) 2)) [
    | inl e ↦ rw e tt
    | inr e ↦
        let long : 1 < length (fields line) = ground arith in
        rw e (
          Replies-trying m (fields line !! 0) _ (Returns-!! (fields line) 0 (omega arith))
            (λ name _.
              indexed m (fields line) name (index_byte name b'6') long
                (index_byte-Below name b'6')))
  ]

  -- Whatever the file holds, the parser returns and does not panic, if the conversion of numbers
  -- does not: the parts of a name around its "6" and the indices into the words are in range.
  pub parse_snmp6_stats-Replies : (r : Reader) → Replies (parse_snmp6_stats parse_float r)
  unfolding parse_snmp6_stats
  parse_snmp6_stats-Replies r =
      Replies-then (each_reply (stat_line parse_float) zero_proc_snmp6 (scan r).lines) _
        (Replies-each_reply (stat_line parse_float) stat_line-Replies zero_proc_snmp6
          (scan r).lines)
        (λ m. tt)
