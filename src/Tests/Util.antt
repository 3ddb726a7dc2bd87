-- ===== src/Tests/Util.antt =====
-- internal/util: runs and instances.
use procfs.Base.{pos, ◌↔◌, inr, List, [], ◌∷◌, ◌≡◌, refl, some, Bytes, String, codes}
use procfs.Go.Files.{Files}
use procfs.Go.Result.{ok, err, syntax, range, each}
use procfs.Go.Scanner.{reader}
use procfs.Go.Strconv.{parse_int, parse_uint}
use procfs.Util.Parse.Slices.{
  AllParse, FirstError, uint, parse_uint64s_iff, parse_uint32s_iff, parse_uint64s-FirstError,
}
use procfs.Go.Text.{has_prefix, trim_space}
use procfs.Util.Parse.{collect, parse_uint64s, parse_uint32s, read_hex_from_file}
use procfs.Util.ValueParser.Calls.{
  call_int, call_p_uint64, run_calls, first_error, run_calls-first_error, int_correct,
}
use procfs.Util.ValueParser.{new_value_parser, int, p_int64}

abbrev texts : List Bytes
texts = codes "3" ∷ codes "4294967295" ∷ []

abbrev bad_texts : List Bytes
bad_texts = codes "3" ∷ codes "x" ∷ codes "99999999999999999999" ∷ []

parse_uint64s_run : parse_uint64s bad_texts ≡ err syntax
unfolding parse_uint64s collect parse_uint each
parse_uint64s_run = refl

parse_uint32s_run : parse_uint32s (codes "4294967296" ∷ []) ≡ err range
unfolding parse_uint32s collect parse_uint each
parse_uint32s_run = refl

parse_uint64s_iff_example :
    (parse_uint64s texts ≡ ok (3 ∷ 4294967295 ∷ []))
    ↔ AllParse (uint 64) texts (3 ∷ 4294967295 ∷ [])
parse_uint64s_iff_example = parse_uint64s_iff texts (3 ∷ 4294967295 ∷ [])

parse_uint32s_iff_example :
    (parse_uint32s texts ≡ ok (3 ∷ 4294967295 ∷ []))
    ↔ AllParse (uint 32) texts (3 ∷ 4294967295 ∷ [])
parse_uint32s_iff_example = parse_uint32s_iff texts (3 ∷ 4294967295 ∷ [])

parse_uint64s-FirstError_example : FirstError (uint 64) syntax bad_texts
parse_uint64s-FirstError_example = parse_uint64s-FirstError bad_texts parse_uint64s_run

run_calls-first_error_example :
    run_calls (call_p_uint64 ∷ call_int ∷ []) (new_value_parser (codes "-1"))
    ≡ ok (record { v = codes "-1"; err = first_error (codes "-1") (call_p_uint64 ∷ call_int ∷ []) })
run_calls-first_error_example = run_calls-first_error (codes "-1") (call_p_uint64 ∷ call_int ∷ [])

int_run : int (new_value_parser (codes "0x1f")) ≡ ok (new_value_parser (codes "0x1f"), pos 31)
unfolding int parse_int each
int_run = refl

int_correct_example :
    (parse_int (codes "0x1f") 0 64 ≡ ok (pos 31))
    × (new_value_parser (codes "0x1f") ≡ new_value_parser (codes "0x1f"))
int_correct_example =
    int_correct (new_value_parser (codes "0x1f")) (new_value_parser (codes "0x1f")) (pos 31) int_run
      refl

-- A pointer to zero at the first failing call, and nil after it.
p_int64_run :
    p_int64 (new_value_parser (codes "x"))
    ≡ ok (record { v = codes "x"; err = some syntax }, some (pos 0))
unfolding p_int64 parse_int each
p_int64_run = refl

abbrev one_file : String → Bytes → Files
one_file name content path = inr (reader content)

read_hex_run : read_hex_from_file (one_file "id" (codes "0x1F\n")) "id" ≡ ok 31
unfolding read_hex_from_file has_prefix trim_space parse_uint each
read_hex_run = refl
