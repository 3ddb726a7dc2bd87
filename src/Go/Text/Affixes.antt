-- ===== src/Go/Text/Affixes.antt =====
-- `strings.TrimPrefix` and `strings.TrimSuffix` take off what was put on.
use procfs.Base.{
  ◌-◌, [], ◌∷◌, ◌++◌, ◌≡◌, refl, true, arith, Bytes, length, length-append, leb, bytes_eq,
  bytes_eq_iff,
}
use procfs.Go.Slices.{take-append, drop-append}
use procfs.Go.Text.{has_prefix, trim_prefix, has_suffix, trim_suffix}

has_prefix-append : (p s : Bytes) → has_prefix (p ++ s) p ≡ true
unfolding has_prefix
has_prefix-append [] [] = refl
has_prefix-append [] (c ∷ s) = refl
has_prefix-append (c ∷ p) s = ground (arith, has_prefix-append p s)

pub trim_prefix-append : (p s : Bytes) → trim_prefix (p ++ s) p ≡ s
unfolding trim_prefix
trim_prefix-append p s = rw (has_prefix-append p s) (drop-append p s)

pub trim_suffix-append : (s p : Bytes) → trim_suffix (s ++ p) p ≡ s
unfolding trim_suffix has_suffix
trim_suffix-append s p =
    let long : leb (length p) (length (s ++ p)) ≡ true = ground (arith, length-append s p) in
    let at : length (s ++ p) - length p ≡ length s = omega (arith, length-append s p) in
    let same : bytes_eq p p ≡ true = (bytes_eq_iff p p).1 refl in
    rw (long, at, drop-append s p, same, take-append s p)
