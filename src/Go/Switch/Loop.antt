-- ===== src/Go/Switch/Loop.antt =====
-- A loop over the lines of a file whose round is a switch over a word of the line.
use procfs.Base.{List, [], ◌∷◌, ◌≡◌, refl, map, All, Bytes, Option, none, ◌++◌}
use procfs.Go.Lines.{Spelled}
use procfs.Go.Reply.{Reply, returns, each_reply}
use procfs.Go.Result.{Result, ok, each}
use procfs.Go.Switch.{assign, assign_all}
use procfs.Go.Text.{fields}

module _ {ℓ} {L K S V : Type ℓ} {E : Type 0} (set : K → V → S → S) (find : L → Option K)
    (words_of : E → List Bytes) (assignment : E → L × V) (IsRead : E → Type 0)
    (step : S → Bytes → Result S) where
  pub each-Spelled :
      ((e : E) (line : Bytes) (s : S)
        → fields line ≡ words_of e
        → IsRead e
        → step s line ≡ ok (assign set (find (assignment e).0) (assignment e).1 s))
      → (es : List E) (lines : List Bytes) (s : S) → Spelled lines (map words_of es)
      → All IsRead es
      → each step s lines ≡ ok (assign_all set find (map assignment es) s)
  unfolding each
  each-Spelled one [] [] s h p = refl
  each-Spelled one [] (line ∷ lines) s h p = elim h [ ]
  each-Spelled one (e ∷ es) [] s h p = elim h [ ]
  each-Spelled one (e ∷ es) (line ∷ lines) s (h, hs) (p, ps) =
      rw (one e line s h p)
        (each-Spelled one es lines (assign set (find (assignment e).0) (assignment e).1 s) hs ps)

-- The values that a list of lines, or of pairs of lines, assigns.
abbrev pub assignments_of {ℓ κ} : {E : Type ℓ} {A : Type κ} → (E → List A) → List E → List A
assignments_of f [] = []
assignments_of f (e ∷ es) = f e ++ assignments_of f es

pub assign_all-append {ℓ} :
    {L K S V : Type ℓ} (set : K → V → S → S) (find : L → Option K) (xs ys : List (L × V)) (s : S)
    → assign_all set find (xs ++ ys) s ≡ assign_all set find ys (assign_all set find xs s)
assign_all-append set find [] ys s = refl
assign_all-append set find ((l, v) ∷ xs) ys s =
    assign_all-append set find xs ys (assign set (find l) v s)

-- The same loops, where they keep what was read before an error.
module _ {ℓ} {L K S V : Type ℓ} {E : Type ℓ} (set : K → V → S → S) (find : L → Option K)
    (words_of : E → List Bytes) (assignments : E → List (L × V)) (IsRead : E → Type 0)
    (step : S → Bytes → Reply S) where
  pub each_reply-Spelled :
      ((e : E) (line : Bytes) (s : S)
        → fields line ≡ words_of e
        → IsRead e
        → step s line ≡ returns (assign_all set find (assignments e) s) none)
      → (es : List E) (lines : List Bytes) (s : S) → Spelled lines (map words_of es)
      → All IsRead es
      → each_reply step s lines
        ≡ returns (assign_all set find (assignments_of assignments es) s) none
  unfolding each_reply
  each_reply-Spelled one [] [] s h p = refl
  each_reply-Spelled one [] (line ∷ lines) s h p = elim h [ ]
  each_reply-Spelled one (e ∷ es) [] s h p = elim h [ ]
  each_reply-Spelled one (e ∷ es) (line ∷ lines) s (h, hs) (p, ps) =
      rw
        (
          one e line s h p,
          assign_all-append set find (assignments e) (assignments_of assignments es) s,
        )
        (each_reply-Spelled one es lines (assign_all set find (assignments e) s) hs ps)
