-- ===== src/Go/Text.antt =====
-- Functions of Go's package `strings` over byte strings. White space is Unicode's, by its UTF-8
-- encodings; no such encoding occurs inside another character, so that a walk by bytes is exact.
pub mod Words
pub mod Tabs
pub mod Parts
pub mod Trim
pub mod Affixes
pub mod Index
use procfs.Base.{
  ℕ, zero, suc, ◌+◌, Bool, true, false, not, ◌&&◌, ◌||◌, List, [], ◌∷◌, ◌++◌, ◌==◌, leb, Bytes,
  get_or, take, drop, length, ◌-◌, if◌then◌else◌, bytes_eq, refl, ◌≡◌, codes,
}

abbrev ascii_space : ℕ → Bool
ascii_space c = c == 32 || (leb 9 c && leb c 13)

abbrev space₂ : ℕ → ℕ → Bool
space₂ a b = a == 0xc2 && (b == 0x85 || b == 0xa0)

abbrev space₃ : ℕ → ℕ → ℕ → Bool
space₃ a b c =
    (a == 0xe1 && b == 0x9a && c == 0x80)
    || (a == 0xe2 && b == 0x80 && (leb 0x80 c && leb c 0x8a || c == 0xa8 || c == 0xa9 || c == 0xaf))
    || (a == 0xe2 && b == 0x81 && c == 0x9f)
    || (a == 0xe3 && b == 0x80 && c == 0x80)

-- The bytes of the white-space character that the text begins with, 0 if it begins with none.
unfoldable pub space_width : ℕ → Bytes → ℕ
space_width c s =
    if ascii_space c
    then 1
    else if space₂ c (get_or s 0 0)
    then 2
    else if space₃ c (get_or s 0 0) (get_or s 1 0)
    then 3
    else 0

-- A word is kept if it is not empty.
abbrev pub flush : Bytes → List Bytes → List Bytes
flush [] ws = ws
flush (c ∷ w) ws = (c ∷ w) ∷ ws

-- The text, the bytes of a white-space character still to skip, and the word read so far.
unfoldable pub fields_from : Bytes → ℕ → Bytes → List Bytes
fields_from [] k cur = flush cur []
fields_from (c ∷ s) (suc k) cur = fields_from s k cur
fields_from (c ∷ s) zero cur = elim (space_width c s) [
  | zero ↦ fields_from s 0 (cur ++ c ∷ [])
  | suc k ↦ flush cur (fields_from s k [])
]

-- `strings.Fields`
unfoldable pub fields : Bytes → List Bytes
unfolding fields_from space_width
fields s = fields_from s 0 []

unfoldable pub all_space : Bytes → ℕ → Bool
all_space [] k = true
all_space (c ∷ s) (suc k) = all_space s k
all_space (c ∷ s) zero = elim (space_width c s) [ zero ↦ false | suc k ↦ all_space s k ]

unfoldable pub trim_left : Bytes → ℕ → Bytes
trim_left [] k = []
trim_left (c ∷ s) (suc k) = trim_left s k
trim_left (c ∷ s) zero = elim (space_width c s) [ zero ↦ c ∷ s | suc k ↦ trim_left s k ]

unfoldable pub trim_right : Bytes → Bytes
unfolding all_space space_width
trim_right [] = []
trim_right (c ∷ s) = if all_space (c ∷ s) 0 then [] else c ∷ trim_right s

-- `strings.TrimSpace`
unfoldable pub trim_space : Bytes → Bytes
unfolding trim_left trim_right
trim_space s = trim_right (trim_left s 0)

-- `strings.HasPrefix`
unfoldable pub has_prefix : Bytes → Bytes → Bool
has_prefix s [] = true
has_prefix [] (p ∷ ps) = false
has_prefix (c ∷ s) (p ∷ ps) = c == p && has_prefix s ps

-- `strings.Contains`
unfoldable pub contains : Bytes → Bytes → Bool
unfolding has_prefix
contains [] p = has_prefix [] p
contains (c ∷ s) p = has_prefix (c ∷ s) p || contains s p

-- `strings.TrimPrefix`
unfoldable pub trim_prefix : Bytes → Bytes → Bytes
unfolding has_prefix
trim_prefix s p = if has_prefix s p then drop (length p) s else s

-- `strings.HasSuffix`
unfoldable pub has_suffix : Bytes → Bytes → Bool
has_suffix s p = leb (length p) (length s) && bytes_eq (drop (length s - length p) s) p

-- `strings.TrimSuffix`
unfoldable pub trim_suffix : Bytes → Bytes → Bytes
unfolding has_suffix
trim_suffix s p = if has_suffix s p then take (length s - length p) s else s

-- `strings.Split` with a separator of one byte: the text, and the part read so far.
unfoldable pub split_from : ℕ → Bytes → Bytes → List Bytes
split_from sep [] cur = cur ∷ []
split_from sep (c ∷ s) cur = elim (c == sep) [
  | true ↦ cur ∷ split_from sep s []
  | false ↦ split_from sep s (cur ++ c ∷ [])
]

unfoldable pub split : Bytes → ℕ → List Bytes
unfolding split_from
split s sep = split_from sep s []

-- `strings.SplitN(s, sep, 2)`
unfoldable pub split_two_from : ℕ → Bytes → Bytes → List Bytes
split_two_from sep [] cur = cur ∷ []
split_two_from sep (c ∷ s) cur = elim (c == sep) [
  | true ↦ cur ∷ s ∷ []
  | false ↦ split_two_from sep s (cur ++ c ∷ [])
]

unfoldable pub split_two : Bytes → ℕ → List Bytes
unfolding split_two_from
split_two s sep = split_two_from sep s []

-- `strings.SplitN(s, sep, 2)` for a separator of some bytes
unfoldable pub split_two_text_from : Bytes → Bytes → Bytes → List Bytes
unfolding has_prefix
split_two_text_from sep [] cur = cur ∷ []
split_two_text_from sep (c ∷ s) cur = elim (has_prefix (c ∷ s) sep) [
  | true ↦ cur ∷ drop (length sep - 1) s ∷ []
  | false ↦ split_two_text_from sep s (cur ++ c ∷ [])
]

unfoldable pub split_two_text : Bytes → Bytes → List Bytes
unfolding split_two_text_from
split_two_text s sep = split_two_text_from sep s []

-- `strings.SplitN(s, sep, 3)`
unfoldable pub split_three : Bytes → ℕ → List Bytes
unfolding split_two
split_three s sep = elim (split_two s sep) [
  | [] ↦ []
  | first ∷ [] ↦ first ∷ []
  | first ∷ rest ∷ _ ↦ first ∷ split_two rest sep
]

fields_test : fields (codes "  net 18\t 7 \n") ≡ codes "net" ∷ codes "18" ∷ codes "7" ∷ []
unfolding fields
fields_test = refl

fields_unicode :
    fields (b'a' ∷ 0xe2 ∷ 0x80 ∷ 0x83 ∷ b'b' ∷ 0xc2 ∷ 0xa0 ∷ []) ≡ codes "a" ∷ codes "b" ∷ []
unfolding fields
fields_unicode = refl

trim_test : trim_space (codes " \t 0x1f \n") ≡ codes "0x1f"
unfolding trim_space
trim_test = refl

split_test : split (codes "rw,,size=1") b',' ≡ codes "rw" ∷ [] ∷ codes "size=1" ∷ []
unfolding split
split_test = refl
