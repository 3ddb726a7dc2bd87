-- ===== src/Go/Cells.antt =====
-- Composite literals read many cells of a slice. A statement about such a literal is proved at once
-- for every slice that is long enough: it is enough to prove it for a slice of variables.
use procfs.Go.Result.{Result, Returns, Returns-fail_if, fail_if, errorf, ◌>>◌}
use procfs.Base.{◌!=◌, String, ℕ, zero, suc, ◌≤◌, List, [], ◌∷◌, ◌≡◌, arith, length}

abbrev pub ForCells : ℕ → (List ℕ → Type 0) → Type 0
ForCells zero P = (r : List ℕ) → P r
ForCells (suc n) P = (x : ℕ) → ForCells n (λ r. P (x ∷ r))

pub cells : (n : ℕ) (P : List ℕ → Type 0) → ForCells n P → (v : List ℕ) → n ≤ length v → P v
cells zero P h v le = h v
cells (suc n) P h [] le = absurd (omega arith)
cells (suc n) P h (x ∷ v) le = cells n (λ r. P (x ∷ r)) (h x) v (omega arith)

-- What computes to `Unit` at a slice of variables.
pub every_cell : (n : ℕ) → ForCells n (λ _. Unit {0})
every_cell zero = λ _. tt
every_cell (suc n) = λ _. every_cell n

abbrev pub ForExactCells : ℕ → (List ℕ → Type 0) → Type 0
ForExactCells zero P = P []
ForExactCells (suc n) P = (x : ℕ) → ForExactCells n (λ r. P (x ∷ r))

pub exact_cells :
    (n : ℕ) (P : List ℕ → Type 0) → ForExactCells n P → (v : List ℕ) → length v ≡ n → P v
exact_cells zero P h [] e = h
exact_cells zero P h (x ∷ v) e = absurd (omega arith)
exact_cells (suc n) P h [] e = absurd (omega arith)
exact_cells (suc n) P h (x ∷ v) e = exact_cells n (λ r. P (x ∷ r)) (h x) v (omega arith)

pub every_exact_cell : (n : ℕ) → ForExactCells n (λ _. Unit {0})
every_exact_cell zero = tt
every_exact_cell (suc n) = λ _. every_exact_cell n

-- What stands behind a test of the length knows the length.
pub Returns-exact :
    {A : Type 0} (n : ℕ) (f : List ℕ → Result A) (text : String)
    → ((v : List ℕ) → length v ≡ n → Returns (f v))
    → (v : List ℕ) → Returns (fail_if (length v != n) (errorf text) >> f v)
Returns-exact n f text h v = Returns-fail_if _ _ _ (λ good. h v (ground arith))
