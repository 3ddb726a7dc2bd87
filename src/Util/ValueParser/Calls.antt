-- ===== src/Util/ValueParser/Calls.antt =====
-- Sequences of calls of a value parser.
use procfs.Base.{ℤ, List, [], ◌∷◌, Bytes, Option, none, some, ◌≡◌, refl, arith}
use procfs.Go.Result.{Error, Result, ok, ◌>>=◌}
use procfs.Go.Strconv.Bounds.{parse_int-Returns, parse_uint-Returns}
use procfs.Go.Strconv.{parse_int, parse_uint}
use procfs.Util.ValueParser.{ValueParser, new_value_parser, int, p_int64, p_uint64}

pub data Call : Type 0 where
  call_int call_p_int64 call_p_uint64 : Call

-- The state that a call leaves.
abbrev pub call : Call → ValueParser → Result ValueParser
call call_int vp = int vp >>= λ (vp', _). ok vp'
call call_p_int64 vp = p_int64 vp >>= λ (vp', _). ok vp'
call call_p_uint64 vp = p_uint64 vp >>= λ (vp', _). ok vp'

abbrev pub run_calls : List Call → ValueParser → Result ValueParser
run_calls [] vp = ok vp
run_calls (c ∷ cs) vp = do vp' ← call c vp; run_calls cs vp'

abbrev error_of {ℓ} : {A : Type ℓ} → Result A → Option Error
error_of (Result.err e) = some e
error_of _ = none

-- The error of the conversion that a call asks for.
abbrev pub conversion_error : Bytes → Call → Option Error
conversion_error v call_p_uint64 = error_of (parse_uint v 0 64)
conversion_error v _ = error_of (parse_int v 0 64)

abbrev pub first_error : Bytes → List Call → Option Error
first_error v [] = none
first_error v (c ∷ cs) = elim (conversion_error v c) [ some e ↦ some e | none ↦ first_error v cs ]

call_fresh :
    (c : Call) (v : Bytes)
    → call c (new_value_parser v) ≡ ok (record { v = v; err = conversion_error v c })
unfolding int p_int64 p_uint64
call_fresh call_p_uint64 v = ground (arith, parse_uint-Returns v 0 64)
call_fresh call_int v = ground (arith, parse_int-Returns v 0 64)
call_fresh call_p_int64 v = ground (arith, parse_int-Returns v 0 64)

call_failed :
    (c : Call) (v : Bytes) (e : Error)
    → call c (record { v = v; err = some e }) ≡ ok (record { v = v; err = some e })
unfolding int p_int64 p_uint64
call_failed call_int v e = refl
call_failed _ v e = refl

run_calls_failed :
    (cs : List Call) (v : Bytes) (e : Error)
    → run_calls cs (record { v = v; err = some e }) ≡ ok (record { v = v; err = some e })
run_calls_failed [] v e = refl
run_calls_failed (c ∷ cs) v e = rw (call_failed c v e) (run_calls_failed cs v e)

-- After any sequence of calls on a new parser, none of which panics, its text is unchanged and `Err` is
-- the error of the first call whose conversion fails, or nil if none does.
pub run_calls-first_error :
    (v : Bytes) (cs : List Call)
    → run_calls cs (new_value_parser v) ≡ ok (record { v = v; err = first_error v cs })
run_calls-first_error v [] = refl
run_calls-first_error v (c ∷ cs) =
    rw (call_fresh c v) (rest (conversion_error v c) (run_calls-first_error v cs))
  where
    rest :
        (o : Option Error)
        → run_calls cs (new_value_parser v) ≡ ok (record { v = v; err = first_error v cs })
        → run_calls cs (record { v = v; err = o })
          ≡ ok (record { v = v; err = elim o [ some e ↦ some e | none ↦ first_error v cs ] })
    rest (some e) ih = run_calls_failed cs v e
    rest none ih = ih

-- If `Err` is nil after a call of `Int` that returns, the call returned the number that `ParseInt` reads
-- from the text and did not change the parser.
pub int_correct :
    (vp vp' : ValueParser) (n : ℤ)
    → int vp ≡ ok (vp', n)
    → vp'.err ≡ none
    → (parse_int vp.v 0 64 ≡ ok n) × (vp' ≡ vp)
unfolding int
int_correct vp vp' n h e = ground arith
