-- ===== src/Util/Parse/Booleans.antt =====
-- internal/util/parse.go: `ParseBool` and its two words.
use procfs.Base.{Bool, true, false, Bytes, some, ◌≡◌, ◌↔◌, codes, arith, bytes_eq_iff}
use procfs.Util.Parse.{parse_bool}

abbrev pub word_of : Bool → Bytes
word_of true = codes "enabled"
word_of false = codes "disabled"

-- `ParseBool` gives a pointer to a truth value exactly for its word, "enabled" or "disabled", and nil for
-- every other text.
pub parse_bool_iff : (b : Bytes) (v : Bool) → (parse_bool b ≡ some v) ↔ (b ≡ word_of v)
unfolding parse_bool
parse_bool_iff b true =
    ground (arith, bytes_eq_iff b (codes "enabled"), bytes_eq_iff b (codes "disabled"))
parse_bool_iff b false =
    ground (arith, bytes_eq_iff b (codes "enabled"), bytes_eq_iff b (codes "disabled"))
