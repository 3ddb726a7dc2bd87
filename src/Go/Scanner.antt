-- ===== src/Go/Scanner.antt =====
-- `bufio.Scanner` with `bufio.ScanLines`, as a function from what the reader holds to the lines that
-- `Scan` gives and the error that `Err` returns after the last of them.
use procfs.Base.{
  ℕ, suc, ◌+◌, ◌*◌, ap, ◌<◌, ◌≢◌, true, false, List, [], ◌∷◌, ◌++◌, ◌==◌, ◌≡◌, refl, ◌∙◌, leb,
  Bytes, Option, none, some, arith, All, length, if◌then◌else◌, append-nil, append_assoc, codes,
  take,
}
use procfs.Go.Result.{Returns, Error, too_long, Result, ok, err}

-- An `io.Reader`: its bytes, and the error that a read past them gives in place of `io.EOF`.
pub record Reader : Type 0 where
  pub content : Bytes
  pub fault : Option Error

pub record Scan : Type 0 where
  pub lines : List Bytes
  pub fault : Option Error

-- `bufio.MaxScanTokenSize`: a line whose newline is not among so many bytes is too long.
abbrev pub max_token : ℕ
max_token = 64 * 1024

-- `dropCR`
unfoldable pub drop_cr : Bytes → Bytes
drop_cr [] = []
drop_cr (c ∷ []) = if c == 13 then [] else c ∷ []
drop_cr (c ∷ d ∷ s) = c ∷ drop_cr (d ∷ s)

abbrev pub next_line : Bytes → Scan → Scan
next_line line s = record s { lines = line ∷ s.lines }

-- The text, the line read so far and its length. What is left at the end of the text is a line
-- unless it is empty.
unfoldable pub scan_from : Option Error → Bytes → Bytes → ℕ → Scan
unfolding drop_cr
scan_from fault [] cur n = record { lines = if n == 0 then [] else drop_cr cur ∷ []; fault = fault }
scan_from fault (c ∷ s) cur n = elim (c == b'\n') [
  | true ↦ next_line (drop_cr cur) (scan_from fault s [] 0)
  | false ↦ elim (leb max_token (n + 1)) [
    | true ↦ record { lines = []; fault = some too_long }
    | false ↦ scan_from fault s (cur ++ c ∷ []) (n + 1)
  ]
]

unfoldable pub scan : Reader → Scan
unfolding scan_from
scan r = scan_from r.fault r.content [] 0

-- The lines behind a first `Scan` whose result is not looked at. If that one met a line that is too
-- long, the next `Scan` gives what the buffer holds of it.
unfoldable pub scan_rest : Reader → Scan
unfolding scan drop_cr
scan_rest r = elim (scan r).lines [
  | [] ↦
      if leb max_token (length r.content)
      then record { lines = drop_cr (take max_token r.content) ∷ []; fault = (scan r).fault }
      else scan r
  | line ∷ (lines → _) ↦ record { lines = lines; fault = (scan r).fault }
]

-- What `Scan` gives when it is called again behind its end: the buffer, if the line is too long.
unfoldable pub scan_again_from : Bytes → Bytes → ℕ → List Bytes
unfolding drop_cr
scan_again_from [] cur n = []
scan_again_from (c ∷ s) cur n = elim (c == b'\n') [
  | true ↦ scan_again_from s [] 0
  | false ↦ elim (leb max_token (n + 1)) [
    | true ↦ drop_cr (cur ++ c ∷ []) ∷ []
    | false ↦ scan_again_from s (cur ++ c ∷ []) (n + 1)
  ]
]

unfoldable pub scan_again : Reader → List Bytes
unfolding scan_again_from
scan_again r = scan_again_from r.content [] 0

-- `if err := scanner.Err(); err != nil { … }` behind the loop
abbrev pub scan_err {ℓ} : {A : Type ℓ} → (Error → Error) → Option Error → A → Result A
scan_err f none a = ok a
scan_err f (some e) a = err (f e)

pub scan_err-Returns {ℓ} :
    {A : Type ℓ} (f : Error → Error) (fault : Option Error) (a : A) → Returns (scan_err f fault a)
scan_err-Returns f none a = tt
scan_err-Returns f (some e) a = tt

-- A reader that ends without an error.
abbrev pub reader : Bytes → Reader
reader s = record { content = s; fault = none }

-- Lines, each with its newline.
abbrev pub unlines : List Bytes → Bytes
unlines [] = []
unlines (l ∷ ls) = l ++ (b'\n' ∷ unlines ls)

-- A line that the scanner gives as it stands.
pub record IsLine (l : Bytes) : Type 0 where
  pub no_newline : All (λ c. (c ≢ b'\n') × (c ≢ 13)) l
  pub short : length l < max_token

drop_cr_lem : (l : Bytes) → All (λ c. (c ≢ b'\n') × (c ≢ 13)) l → drop_cr l ≡ l
unfolding drop_cr
drop_cr_lem [] h = refl
drop_cr_lem (c ∷ []) (h, _) = ground arith
drop_cr_lem (c ∷ d ∷ s) (h, hs) = rw (drop_cr_lem (d ∷ s) hs)

scan_from_char :
    (f : Option Error) (c : ℕ) (s cur : Bytes) (n : ℕ)
    → c ≢ b'\n'
    → n + 1 < max_token
    → scan_from f (c ∷ s) cur n ≡ scan_from f s (cur ++ c ∷ []) (n + 1)
unfolding scan_from
scan_from_char f c s cur n h k = ground arith

scan_from-append :
    (f : Option Error) (l rest cur : Bytes) (n : ℕ)
    → All (λ c. (c ≢ b'\n') × (c ≢ 13)) l
    → n + length l < max_token
    → scan_from f (l ++ rest) cur n ≡ scan_from f rest (cur ++ l) (n + length l)
scan_from-append f [] rest cur n h k = let e : n + 0 ≡ n = omega arith in rw (append-nil, e)
scan_from-append f (c ∷ l) rest cur n (h, hs) k =
    let e : n + 1 + length l ≡ n + suc (length l) = omega arith in
    scan_from_char f c (l ++ rest) cur n h.0 (omega arith)
    ∙ scan_from-append f l rest (cur ++ c ∷ []) (n + 1) hs (omega arith)
    ∙ rw (append_assoc, e)

scan_from_newline :
    (f : Option Error) (rest cur : Bytes) (n : ℕ)
    → scan_from f (b'\n' ∷ rest) cur n ≡ next_line (drop_cr cur) (scan_from f rest [] 0)
unfolding scan_from
scan_from_newline f rest cur n = refl

scan_from_line :
    (f : Option Error) (l rest : Bytes)
    → IsLine l
    → scan_from f (l ++ (b'\n' ∷ rest)) [] 0 ≡ next_line l (scan_from f rest [] 0)
scan_from_line f l rest h =
    scan_from-append f l (b'\n' ∷ rest) [] 0 h.no_newline (omega (arith, h.short))
    ∙ scan_from_newline f rest l (0 + length l)
    ∙ ap (λ x. next_line x (scan_from f rest [] 0)) (drop_cr_lem l h.no_newline)

scan_from-unlines :
    (ls : List Bytes)
    → All IsLine ls
    → scan_from none (unlines ls) [] 0 ≡ record { lines = ls; fault = none }
scan_from-unlines [] h = unfold scan_from in refl
scan_from-unlines (l ∷ ls) (h, hs) =
    scan_from_line none l (unlines ls) h ∙ ap (next_line l) (scan_from-unlines ls hs)

-- Lines written one behind the other are scanned one by one.
pub scan-unlines :
    (ls : List Bytes)
    → All IsLine ls
    → scan (reader (unlines ls)) ≡ record { lines = ls; fault = none }
unfolding scan
scan-unlines = scan_from-unlines

scan_test :
    scan (reader (codes "a\r\n\nb"))
    ≡ record { lines = codes "a" ∷ [] ∷ codes "b" ∷ []; fault = none }
unfolding scan
scan_test = refl
