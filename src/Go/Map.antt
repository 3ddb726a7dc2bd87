-- ===== src/Go/Map.antt =====
-- Go's `map[string]string`: an association list with one entry for each key, in the order of the
-- first insertions. Only `lookup` is meant to be read from it.
use procfs.Base.{
  List, [], ◌∷◌, ◌≡◌, refl, Option, none, some, arith, Bytes, bytes_eq, bytes_eq_iff, if◌then◌else◌,
}

abbrev pub StringMap : Type 0
StringMap = List (Bytes × Bytes)

unfoldable pub lookup : Bytes → StringMap → Option Bytes
lookup k [] = none
lookup k ((j, v) ∷ m) = if bytes_eq j k then some v else lookup k m

-- `m[k] = v`
unfoldable pub insert : Bytes → Bytes → StringMap → StringMap
insert key text [] = (key, text) ∷ []
insert key text (entry ∷ m) =
    if bytes_eq entry.0 key then (key, text) ∷ m else entry ∷ insert key text m

-- A key that was set has its new value, another one the value that it had.
pub lookup-insert :
    (key other text : Bytes) (m : StringMap)
    → lookup other (insert key text m) ≡ (if bytes_eq key other then some text else lookup other m)
unfolding lookup insert
lookup-insert key other text [] = refl
lookup-insert key other text ((seen, old) ∷ m) = ground (
  arith,
  lookup-insert key other text m,
  bytes_eq_iff key other,
  bytes_eq_iff seen key,
  bytes_eq_iff seen other,
)
