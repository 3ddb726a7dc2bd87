-- ===== src/MountInfo/Total.antt =====
-- mountinfo.go: the tests on the number of parts, which guard the indices.
use procfs.Base.{
  ℕ, suc, ◌-◌, ◌≤◌, ◌<◌, ◌==◌, List, [], ◌∷◌, true, false, arith, Bytes, length, ltb, not, bytes_eq,
  codes, Bool-cases, inl, inr, if◌then◌else◌, Bool,
}
use procfs.Go.Map.{insert, StringMap}
use procfs.Go.Result.{
  replacing, Returns-replacing, ok, Error, ◌>>=◌, ◌!!◌, slice, each, Returns, Returns-bind,
  Returns-fail_if, Returns-!!, Returns-each,
}
use procfs.Go.Scanner.{reader, scan, scan_err-Returns}
use procfs.Go.Strconv.Bounds.{parse_int-Returns}
use procfs.Go.Strconv.{atoi}
use procfs.Go.Text.Parts.{split_some, split_two_some}
use procfs.Go.Text.{split}
use procfs.MountInfo.{
  mount_option, mount_options_parser, optional_field, mount_options_parse_optional_fields,
  mount_options_is_valid_field, mount_optional_fields, mount_of_parts, parse_mount_info_string,
  parse_mount_info,
}
use procfs.Util.Parse.Slices.{collect-Returns}

mount_option-Returns : (m : StringMap) (s : Bytes) → Returns (mount_option m s)
unfolding mount_option
mount_option-Returns m s = let (p, ps, e) = split_some b'=' s in rw e (of_parts p ps)
  where
    of_parts :
        (p : Bytes) (ps : List Bytes)
        → Returns (
            if ltb (length (p ∷ ps)) 2
            then (do key ← (p ∷ ps) !! 0; ok (insert key [] m))
            else (do key ← (p ∷ ps) !! 0; value ← (p ∷ ps) !! 1; ok (insert key value m)))
    of_parts p [] = tt
    of_parts p (q ∷ ps) = elim (Bool-cases (ltb (suc (suc (length ps))) 2)) [
      | inl h ↦ rw h tt
      | inr h ↦ rw h tt
    ]

mount_options_parser-Returns : (s : Bytes) → Returns (mount_options_parser s)
unfolding mount_options_parser
mount_options_parser-Returns s = Returns-each mount_option mount_option-Returns [] (split s b',')

optional_field-Returns : (m : StringMap) (s : Bytes) → Returns (optional_field m s)
unfolding optional_field
optional_field-Returns m s = let (p, ps, e, few) = split_two_some b':' s in rw e (of_parts p ps)
  where
    kept : (b : Bool) (key value : Bytes) → Returns (if b then ok (insert key value m) else ok m)
    kept true key value = tt
    kept false key value = tt

    of_parts :
        (p : Bytes) (ps : List Bytes)
        → Returns (do
          value ← if length (p ∷ ps) == 2 then (p ∷ ps) !! 1 else ok []
          key ← (p ∷ ps) !! 0
          if mount_options_is_valid_field key then ok (insert key value m) else ok m)
    of_parts p [] = kept (mount_options_is_valid_field p) p []
    of_parts p (q ∷ ps) = elim (Bool-cases (suc (suc (length ps)) == 2)) [
      | inl h ↦ rw h (kept (mount_options_is_valid_field p) p q)
      | inr h ↦ rw h (kept (mount_options_is_valid_field p) p [])
    ]

Returns-slice :
    {A : Type 0} (v : List A) (lo hi : ℕ) → lo ≤ hi → hi ≤ length v → Returns (slice v lo hi)
Returns-slice v lo hi h k = ground arith

mount_optional_fields-Returns : (v : List Bytes) → 10 ≤ length v → Returns (mount_optional_fields v)
unfolding mount_optional_fields mount_options_parse_optional_fields
mount_optional_fields-Returns v h = Returns-bind (v !! 6) _ (Returns-!! v 6 (omega arith)) λ first.
    elim (Bool-cases (not (bytes_eq first []))) [
      | inl e ↦ rw e (
          Returns-bind (slice v 6 (length v - 4)) _
            (Returns-slice v 6 (length v - 4) (omega arith) (omega arith))
            λ o.
              Returns-bind (each optional_field [] o) _
                (Returns-each optional_field optional_field-Returns [] o) (λ _. tt))
      | inr e ↦ rw e tt
    ]

-- An index within the parts.
abbrev part : (v : List Bytes) (i : ℕ) → i < length v → Returns (v !! i)
part v i h = Returns-!! v i h

options_at-Returns :
    (v : List Bytes) (i : ℕ) → i < length v → Returns (do o ← v !! i; mount_options_parser o)
options_at-Returns v i h = Returns-bind (v !! i) _ (Returns-!! v i h) mount_options_parser-Returns

id_at-Returns :
    (v : List Bytes) (i : ℕ) (e : Error)
    → i < length v
    → Returns (do s ← v !! i; replacing e (atoi s))
id_at-Returns v i e h =
    Returns-bind (v !! i) _ (Returns-!! v i h)
      (λ s. Returns-replacing e (atoi s) (parse_int-Returns s 10 64))

mount_of_parts-Returns : (v : List Bytes) → 10 ≤ length v → Returns (mount_of_parts v)
unfolding mount_of_parts
mount_of_parts-Returns v h =
    Returns-bind _ _ (Returns-!! v (length v - 4) (omega arith)) λ separator.
      Returns-fail_if (not (bytes_eq separator (codes "-"))) _ _ λ _.
        Returns-bind _ _ (Returns-!! v 2 (omega arith)) λ _.
          Returns-bind _ _ (Returns-!! v 3 (omega arith)) λ _.
            Returns-bind _ _ (Returns-!! v 4 (omega arith)) λ _.
              Returns-bind _ _ (options_at-Returns v 5 (omega arith)) λ _.
                Returns-bind _ _ (Returns-!! v (length v - 3) (omega arith)) λ _.
                  Returns-bind _ _ (Returns-!! v (length v - 2) (omega arith)) λ _.
                    Returns-bind _ _ (options_at-Returns v (length v - 1) (omega arith)) λ _.
                      Returns-bind _ _ (id_at-Returns v 0 _ (omega arith)) λ _.
                        Returns-bind _ _ (id_at-Returns v 1 _ (omega arith))
                          λ _. Returns-bind _ _ (mount_optional_fields-Returns v h) (λ _. tt)

pub parse_mount_info_string-Returns : (s : Bytes) → Returns (parse_mount_info_string s)
unfolding parse_mount_info_string
parse_mount_info_string-Returns s =
    Returns-fail_if (ltb (length (split s b' ')) 10) _ _
      λ enough. mount_of_parts-Returns (split s b' ') (ground arith)

-- The parser of mountinfo returns mounts or an error for every content of the file: it does not panic.
pub parse_mount_info-Returns : (info : Bytes) → Returns (parse_mount_info info)
unfolding parse_mount_info
parse_mount_info-Returns info =
    Returns-bind _ _
      (collect-Returns parse_mount_info_string parse_mount_info_string-Returns
        (scan (reader info)).lines)
      (scan_err-Returns _ (scan (reader info)).fault)
