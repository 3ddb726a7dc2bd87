-- ===== src/Util/ValueParser.antt =====
-- internal/util/valueparser.go. A method returns the parser's new state and its result. A pointer is
-- an `Option`, and `err` is nil where it is `none`.
pub mod Calls
use procfs.Base.{ℤ, pos, ℕ, Bytes, Option, none, some}
use procfs.Go.Result
use procfs.Go.Result.{Error, Result, ok, panic, ◌>>=◌}
use procfs.Go.Strconv.{parse_int, parse_uint}

pub record ValueParser : Type 0 where
  pub v : Bytes
  pub err : Option Error

abbrev pub new_value_parser : Bytes → ValueParser
new_value_parser v = record { v = v; err = none }

-- `if err != nil { vp.err = err; return zero }; return v`
abbrev pub keep_error {ℓ} : {A : Type ℓ} → ValueParser → A → Result A → Result (ValueParser × A)
keep_error vp fallback (ok v) = ok (vp, v)
keep_error vp fallback (Result.err e) = ok (record vp { err = some e }, fallback)
keep_error vp fallback panic = panic

unfoldable pub int64 : ValueParser → Result (ValueParser × ℤ)
int64 vp = elim vp.err [
  | some e ↦ ok (vp, pos 0)
  | none ↦ keep_error vp (pos 0) (parse_int vp.v 0 64)
]

-- An int has 64 bits.
unfoldable pub int : ValueParser → Result (ValueParser × ℤ)
unfolding int64
int vp = int64 vp

unfoldable pub p_int64 : ValueParser → Result (ValueParser × Option ℤ)
unfolding int64
p_int64 vp = elim vp.err [
  | some e ↦ ok (vp, none)
  | none ↦ int64 vp >>= λ (vp', v). ok (vp', some v)
]

unfoldable pub p_uint64 : ValueParser → Result (ValueParser × Option ℕ)
p_uint64 vp = elim vp.err [
  | some e ↦ ok (vp, none)
  | none ↦ keep_error vp none (parse_uint vp.v 0 64 >>= λ v. ok (some v))
]
