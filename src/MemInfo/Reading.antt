-- ===== src/MemInfo/Reading.antt =====
-- meminfo.go: what parseMemInfo reads from lines of a label, a number and a unit.
use procfs.Base.{
  ℕ, ◌*◌, ◌%◌, ◌^◌, List, [], ◌∷◌, ◌≡◌, refl, ap, ◌∙◌, map, All, Bytes, Bool, true, false, Option,
  none, some, codes, bytes_eq, if◌then◌else◌,
}
use procfs.Go.Lines.{Spelled}
use procfs.Go.Result.{ok}
use procfs.Go.Scanner.{Reader, scan}
use procfs.Go.Strconv.{parse_uint}
use procfs.Go.Switch.{find_case, assign, assign_all, last_of, shown, read-assign_all}
use procfs.Go.Switch.Loop.{each-Spelled}
use procfs.Go.Text.{fields}
use procfs.MemInfo.{parse_mem_info, meminfo_line, bytes_of, set_field}
use procfs.MemInfo.Keys.{cases, Key}
use procfs.MemInfo.Keys.{label_of, read, written, set_pair, set_key-Switch, read-zero_meminfo}
use procfs.MemInfo.Types.{Meminfo, zero_meminfo}

-- A line: its label, the text of its number, what the text means, and whether `kB` is behind it.
pub record Entry : Type 0 where
  pub label : Bytes
  pub number : Bytes
  pub value : ℕ
  pub in_kb : Bool

abbrev pub words_of : Entry → List Bytes
words_of e = e.label ∷ e.number ∷ (if e.in_kb then codes "kB" ∷ [] else [])

abbrev pub IsRead : Entry → Type 0
IsRead e = parse_uint e.number 0 64 ≡ ok e.value

-- The value, and what it is in bytes, modulo 2^64.
abbrev pub amounts : Entry → ℕ × ℕ
amounts e = (e.value, if e.in_kb then (1024 * e.value) % 2 ^ 64 else e.value)

abbrev pub assignment : Entry → Bytes × (ℕ × ℕ)
assignment e = (e.label, amounts e)

find : Bytes → Option Key
find label = find_case label cases

bytes_of-words_of :
    (label number : Bytes) (value : ℕ) (in_kb : Bool)
    → bytes_of (label ∷ number ∷ (if in_kb then codes "kB" ∷ [] else [])) value
      ≡ ok (if in_kb then (1024 * value) % 2 ^ 64 else value)
unfolding bytes_of bytes_eq
bytes_of-words_of label number value true = refl
bytes_of-words_of label number value false = refl

set_field-assign :
    (label : Bytes) (val val_bytes : ℕ) (m : Meminfo)
    → set_field label val val_bytes m ≡ assign set_pair (find label) (val, val_bytes) m
unfolding set_field find
set_field-assign label val val_bytes m = go (find_case label cases)
  where
    go :
        (f : Option Key)
        → elim f [ none ↦ m | some key ↦ set_pair key (val, val_bytes) m ]
          ≡ assign set_pair f (val, val_bytes) m
    go none = refl
    go (some key) = refl

meminfo_line_lem :
    (e : Entry) (line : Bytes) (m : Meminfo)
    → fields line ≡ words_of e
    → IsRead e
    → meminfo_line m line ≡ ok (assign set_pair (find e.label) (amounts e) m)
unfolding meminfo_line
meminfo_line_lem e line m h p =
    rw (h, p, bytes_of-words_of e.label e.number e.value e.in_kb)
      (ap ok (set_field-assign e.label (amounts e).0 (amounts e).1 m))

-- A file whose lines are a label and a number that is read, with `kB` behind it or not, is parsed,
-- and each field of the result, with its companion in bytes, is that of the last line with its
-- label: unset if there is none; the number times 1024, modulo 2^64, in bytes if `kB` is there, and
-- the number itself if not. The counts of huge pages have no companion.
pub parse_mem_info-read :
    (r : Reader) (es : List Entry)
    → Spelled (scan r).lines (map words_of es)
    → All IsRead es
    → (m : Meminfo) × (parse_mem_info r ≡ ok m)
      × ((k : Key)
          → read k m
            ≡ shown (written k) (none, none) (last_of bytes_eq (label_of k) (map assignment es)))
unfolding parse_mem_info find
parse_mem_info-read r es h p = (
  assign_all set_pair find (map assignment es) zero_meminfo,
  each-Spelled set_pair find words_of assignment IsRead meminfo_line meminfo_line_lem es
      (scan r).lines zero_meminfo h p,
  λ k.
      read-assign_all set_key-Switch k (map assignment es) zero_meminfo
      ∙ ap (λ w. shown (written k) w (last_of bytes_eq (label_of k) (map assignment es)))
          (read-zero_meminfo k),
)
