-- ===== src/Softnet/Rows.antt =====
-- net_softnet.go: what the parser reads from lines whose columns are hexadecimal numbers.
use procfs.Base.{
  ℕ, ◌+◌, ◌%◌, ◌^◌, ◌≤◌, ◌<◌, ltb, leb, length, List, Bytes, arith, inl, inr, Bool-cases, ◌≡◌, take,
  drop, zero, suc, [], ◌∷◌, ◌++◌, refl, ap, sym, ◌∙◌, get_or, if◌then◌else◌, true, false, fun_ext,
  append_assoc, append-nil,
}
use procfs.Go.Result.{Result, ok, ◌!!◌, each}
use procfs.Go.Scanner.{Reader, scan}
use procfs.Go.Strconv.{parse_uint}
use procfs.Go.Text.{fields}
use procfs.Softnet.{
  SoftnetStat, zero_softnet_stat, parse_hex_uint32s, softnet_counts, softnet_rps,
  softnet_flow_limit, softnet_index, softnet_stat, softnet_line, parse_softnet,
}
use procfs.Util.Parse.{collect}
use procfs.Util.Parse.Slices.{collect_iff, AllParse, AllParse-length, uint32-eq}

abbrev hex : Bytes → Result ℕ
hex s = parse_uint s 16 32

abbrev column : List ℕ → ℕ → ℕ
column us i = get_or us i 0

-- The row of the line with number `cpu_index` whose columns are `us`: what an older kernel does not
-- print is 0, and its index is the number of the line.
abbrev pub row : ℕ → List ℕ → SoftnetStat
row cpu_index us = record {
  processed = column us 0;
  dropped = column us 1;
  time_squeezed = column us 2;
  cpu_collision = column us 8;
  received_rps = if leb 10 (length us) then column us 9 else 0;
  flow_limit_count = if leb 11 (length us) then column us 10 else 0;
  softnet_backlog_len = if leb 13 (length us) then column us 11 else 0;
  index = if leb 13 (length us) then column us 12 else cpu_index % 2 ^ 32;
  width = length us;
}

abbrev pub rows : ℕ → List (List ℕ) → List SoftnetStat
rows cpu_index [] = []
rows cpu_index (us ∷ uss) = row cpu_index us ∷ rows (cpu_index + 1) uss

-- Every line has at least nine columns, which are the hexadecimal uint32 numbers of a list.
abbrev pub Table : List Bytes → List (List ℕ) → Type 0
Table [] [] = Unit
Table (l ∷ ls) (us ∷ uss) = (9 ≤ length us) × AllParse hex (fields l) us × Table ls uss
Table _ _ = ⊥

AllParse-take-drop :
    (lo n : ℕ) (ss : List Bytes) (us : List ℕ)
    → AllParse hex ss us
    → AllParse hex (take n (drop lo ss)) (take n (drop lo us))
AllParse-take-drop lo n [] (u ∷ us) h = absurd h
AllParse-take-drop lo n (s ∷ ss) [] h = absurd h
AllParse-take-drop zero zero ss us h = tt
AllParse-take-drop zero (suc n) [] [] h = tt
AllParse-take-drop zero (suc n) (s ∷ ss) (u ∷ us) (e, h) = (e, AllParse-take-drop zero n ss us h)
AllParse-take-drop (suc lo) zero ss us h = tt
AllParse-take-drop (suc lo) (suc n) [] [] h = tt
AllParse-take-drop (suc lo) (suc n) (s ∷ ss) (u ∷ us) (e, h) = AllParse-take-drop lo (suc n) ss us h

-- Some columns of a line are the numbers at their places.
columns_read :
    (lo n : ℕ) (columns : List Bytes) (us : List ℕ)
    → AllParse hex columns us
    → parse_hex_uint32s (take n (drop lo columns)) ≡ ok (take n (drop lo us))
unfolding parse_hex_uint32s
columns_read lo n columns us h =
    ap (λ f. collect f (take n (drop lo columns))) (fun_ext (uint32-eq 16))
    ∙ (collect_iff hex (take n (drop lo us)) (take n (drop lo columns))).1
        (AllParse-take-drop lo n columns us h)

cell :
    (lo n i : ℕ) (us : List ℕ)
    → i < n
    → lo + i < length us
    → (take n (drop lo us) !! i) ≡ ok (column us (lo + i))
cell lo zero i us h k = absurd (omega arith)
cell lo (suc n) i [] h k = absurd (omega arith)
cell zero (suc n) zero (u ∷ us) h k = refl
cell zero (suc n) (suc i) (u ∷ us) h k =
    let e : 0 + suc i ≡ suc (0 + i) = omega arith in
    rw e (cell zero n i us (omega arith) (omega arith))
cell (suc lo) (suc n) i (u ∷ us) h k =
    let e : suc lo + i ≡ suc (lo + i) = omega arith in rw e (cell lo (suc n) i us h (omega arith))

module _ (columns : List Bytes) (us : List ℕ) (numbers : AllParse hex columns us) where
  counts_read :
      (stat : SoftnetStat)
      → 9 ≤ length us
      → softnet_counts columns stat
        ≡ ok (record stat {
          processed = column us 0;
          dropped = column us 1;
          time_squeezed = column us 2;
          cpu_collision = column us 8;
        })
  unfolding softnet_counts
  counts_read stat h =
      let same = AllParse-length hex columns us numbers in
      let long : leb 9 (length columns) ≡ true = ground (arith, same) in
      rw long (
        rw (columns_read 0 9 columns us numbers) (
          rw (
            cell 0 9 0 us (omega arith) (omega arith),
            cell 0 9 1 us (omega arith) (omega arith),
            cell 0 9 2 us (omega arith) (omega arith),
            cell 0 9 8 us (omega arith) (omega arith),
          )))

  rps_read :
      (stat : SoftnetStat)
      → softnet_rps columns stat
        ≡ ok (record stat {
          received_rps = if leb 10 (length us) then column us 9 else stat.received_rps;
        })
  unfolding softnet_rps
  rps_read stat = elim (Bool-cases (leb 10 (length us))) [
    | inl e ↦
        rw (sym (AllParse-length hex columns us numbers), e)
          (rw (columns_read 9 1 columns us numbers)
            (rw (cell 9 1 0 us (omega arith) (ground arith))))
    | inr e ↦ rw (sym (AllParse-length hex columns us numbers), e)
  ]

  flow_limit_read :
      (stat : SoftnetStat)
      → softnet_flow_limit columns stat
        ≡ ok (record stat {
          flow_limit_count = if leb 11 (length us) then column us 10 else stat.flow_limit_count;
        })
  unfolding softnet_flow_limit
  flow_limit_read stat = elim (Bool-cases (leb 11 (length us))) [
    | inl e ↦
        rw (sym (AllParse-length hex columns us numbers), e)
          (rw (columns_read 10 1 columns us numbers)
            (rw (cell 10 1 0 us (omega arith) (ground arith))))
    | inr e ↦ rw (sym (AllParse-length hex columns us numbers), e)
  ]

  index_read :
      (cpu_index : ℕ) (stat : SoftnetStat)
      → softnet_index cpu_index columns stat
        ≡ ok (record stat {
          softnet_backlog_len =
              if leb 13 (length us) then column us 11 else stat.softnet_backlog_len;
          index = if leb 13 (length us) then column us 12 else cpu_index % 2 ^ 32;
        })
  unfolding softnet_index
  index_read cpu_index stat = elim (Bool-cases (leb 13 (length us))) [
    | inl e ↦
        rw (sym (AllParse-length hex columns us numbers), e)
          (rw (columns_read 11 2 columns us numbers) (
            rw (
              cell 11 2 0 us (omega arith) (ground arith),
              cell 11 2 1 us (omega arith) (ground arith),
            )))
    | inr e ↦ rw (sym (AllParse-length hex columns us numbers), e)
  ]

  stat_read :
      (cpu_index : ℕ) → 9 ≤ length us → softnet_stat cpu_index columns ≡ ok (row cpu_index us)
  unfolding softnet_stat
  stat_read cpu_index h =
      let same = AllParse-length hex columns us numbers in
      let enough : ltb (length columns) 9 ≡ false = ground (arith, same) in
      let counts = record zero_softnet_stat {
        processed = column us 0;
        dropped = column us 1;
        time_squeezed = column us 2;
        cpu_collision = column us 8;
      } in
      let rps = record counts { received_rps = if leb 10 (length us) then column us 9 else 0 } in
      let flow_limit = record rps {
        flow_limit_count = if leb 11 (length us) then column us 10 else 0;
      } in
      rw enough (
        rw (counts_read zero_softnet_stat h) (
          rw (rps_read counts)
            (rw (flow_limit_read rps) (rw (index_read cpu_index flow_limit, sym same)))))

each_read :
    (ls : List Bytes) (uss : List (List ℕ)) (stats : List SoftnetStat) (cpu_index : ℕ)
    → Table ls uss
    → each softnet_line (stats, cpu_index) ls
      ≡ ok (stats ++ rows cpu_index uss, cpu_index + length uss)
unfolding each softnet_line
each_read [] [] stats cpu_index h =
    let e : cpu_index + 0 ≡ cpu_index = omega arith in rw (append-nil, e)
each_read [] (us ∷ uss) stats cpu_index h = absurd h
each_read (l ∷ ls) [] stats cpu_index h = absurd h
each_read (l ∷ ls) (us ∷ uss) stats cpu_index (wide, numbers, h) =
    let e : cpu_index + 1 + length uss ≡ cpu_index + suc (length uss) = omega arith in
    rw (stat_read (fields l) us numbers cpu_index wide)
      (each_read ls uss (stats ++ row cpu_index us ∷ []) (cpu_index + 1) h ∙ rw (append_assoc, e))

-- If each line that the scanner finds has at least nine columns, all of them hexadecimal uint32 numbers
-- (`Table`), the parser gives one row for each line, in order: its numbers are the columns of the line,
-- what an older kernel does not print is 0, its index is then the number of the line, and its width is
-- the number of columns. An error of the reader behind these lines is not reported.
pub parse_softnet-rows :
    (r : Reader) (uss : List (List ℕ))
    → Table (scan r).lines uss
    → parse_softnet r ≡ ok (rows 0 uss)
unfolding parse_softnet
parse_softnet-rows r uss h = rw (each_read (scan r).lines uss [] 0 h)
