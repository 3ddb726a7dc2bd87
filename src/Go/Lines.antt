-- ===== src/Go/Lines.antt =====
-- Lines of words: the form of the files that the kernel writes and the parsers read.
use procfs.Base.{
  refl, ap, append_assoc, ◌++◌, ◌≡◌, ℕ, ◌*◌, ◌≤◌, ◌<◌, ◌≢◌, List, [], ◌∷◌, Bytes, arith, All,
  All-append, length, length-append, map,
}
use procfs.Go.Scanner.{IsLine, max_token}
use procfs.Go.Strconv.Decimal.{format_uint, format_uint-IsWord, length-format_uint}
use procfs.Go.Text.{fields}
use procfs.Go.Text.Words.{IsGraph, IsWord, unwords, unwords_behind}

abbrev NoBreak : Bytes → Type 0
NoBreak = All (λ c. (c ≢ b'\n') × (c ≢ 13))

IsGraph-NoBreak : (w : Bytes) → All IsGraph w → NoBreak w
IsGraph-NoBreak [] h = tt
IsGraph-NoBreak (c ∷ w) ((lo, hi), hs) = ((omega arith, omega arith), IsGraph-NoBreak w hs)

unwords_behind-NoBreak : (ws : List Bytes) → All IsWord ws → NoBreak (unwords_behind ws)
unwords_behind-NoBreak [] h = tt
unwords_behind-NoBreak (w ∷ ws) (h, hs) = (
  (omega arith, omega arith),
  All-append _ w _ (IsGraph-NoBreak w h.0) (unwords_behind-NoBreak ws hs),
)

-- A line of words is a line of the scanner, if it is not too long.
pub unwords-IsLine :
    (ws : List Bytes) → All IsWord ws → length (unwords ws) < max_token → IsLine (unwords ws)
unwords-IsLine [] h short = record { no_newline = tt; short = short }
unwords-IsLine (w ∷ ws) (h, hs) short = record {
  no_newline = All-append _ w _ (IsGraph-NoBreak w h.0) (unwords_behind-NoBreak ws hs);
  short = short;
}

-- Numbers in decimal.
abbrev pub numbers : List ℕ → List Bytes
numbers = map format_uint

pub numbers-IsWord : (us : List ℕ) → All IsWord (numbers us)
numbers-IsWord [] = tt
numbers-IsWord (u ∷ us) = (format_uint-IsWord u, numbers-IsWord us)

length-numbers : (us : List ℕ) → length (unwords_behind (numbers us)) ≤ 21 * length us
length-numbers [] = omega arith
length-numbers (u ∷ us) = omega (
  arith,
  length-numbers us,
  length-format_uint u,
  length-append (format_uint u) (unwords_behind (numbers us)),
)

-- A label and at most 3000 numbers make a line.
pub labelled-IsLine :
    (label : Bytes) (us : List ℕ)
    → IsWord label
    → length label ≤ 100
    → length us ≤ 3000
    → IsLine (unwords (label ∷ numbers us))
labelled-IsLine label us w small few =
    unwords-IsLine (label ∷ numbers us) (w, numbers-IsWord us)
      (omega (arith, length-numbers us, length-append label (unwords_behind (numbers us))))

unwords_behind-append :
    (vs ws : List Bytes) → unwords_behind (vs ++ ws) ≡ unwords_behind vs ++ unwords_behind ws
unwords_behind-append [] ws = refl
unwords_behind-append (v ∷ vs) ws = simp (unwords_behind-append vs, append_assoc)

-- The same with other words behind the numbers.
pub extended-IsLine :
    (label : Bytes) (us : List ℕ) (more : List Bytes)
    → IsWord label
    → length label ≤ 100
    → length us ≤ 3000
    → All IsWord more
    → length (unwords_behind more) ≤ 1000
    → IsLine (unwords (label ∷ (numbers us ++ more)))
extended-IsLine label us more w small few words short =
    unwords-IsLine (label ∷ (numbers us ++ more))
      (w, All-append _ (numbers us) more (numbers-IsWord us) words)
      (omega (
        arith,
        length-numbers us,
        length-append label (unwords_behind (numbers us ++ more)),
        ap length (unwords_behind-append (numbers us) more),
        length-append (unwords_behind (numbers us)) (unwords_behind more),
      ))

-- The words of some lines, whatever separates them.
abbrev pub Spelled : List Bytes → List (List Bytes) → Type 0
Spelled [] [] = Unit
Spelled (l ∷ ls) (ws ∷ wss) = (fields l ≡ ws) × Spelled ls wss
Spelled _ _ = ⊥
