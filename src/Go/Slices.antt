-- ===== src/Go/Slices.antt =====
-- Cells and parts of slices.
use procfs.Base.{
  ◌-◌, ◌∙◌, leb, true, length-append, length-drop, ℕ, zero, suc, ◌≤◌, ◌<◌, List, [], ◌∷◌, ◌++◌, ◌≡◌,
  refl, ap, arith, length, get_or, take, drop, replicate,
}
use procfs.Go.Result.{Result, ok, panic, ◌>>=◌, ◌!!◌, slice, take-length}
use procfs.Go.Yields.{Yields, Yields-after}

module _ {ℓ} {A : Type ℓ} where
  -- Go's `v[i] = x`, which panics out of range.
  unfoldable pub set_at : List A → ℕ → A → Result (List A)
  set_at [] i x = panic
  set_at (y ∷ v) zero x = ok (x ∷ v)
  set_at (y ∷ v) (suc i) x = do w ← set_at v i x; ok (y ∷ w)

pub !!-eq-get_or :
    {A : Type 0} (v : List A) (i : ℕ) (d : A) → i < length v → (v !! i) ≡ ok (get_or v i d)
!!-eq-get_or [] i d h = absurd (omega arith)
!!-eq-get_or (x ∷ v) zero d h = refl
!!-eq-get_or (x ∷ v) (suc i) d h = !!-eq-get_or v i d (omega arith)

pub set_at-append :
    {A : Type 0} (v w : List A) (y x : A) → set_at (v ++ (y ∷ w)) (length v) x ≡ ok (v ++ (x ∷ w))
unfolding set_at
set_at-append [] w y x = refl
set_at-append (z ∷ v) w y x = rw (set_at-append v w y x)

pub set_at_end : {A : Type 0} (v : List A) (i : ℕ) (x : A) → length v ≤ i → set_at v i x ≡ panic
unfolding set_at
set_at_end [] i x h = refl
set_at_end (y ∷ v) zero x h = absurd (omega arith)
set_at_end (y ∷ v) (suc i) x h = rw (set_at_end v i x (omega arith))

pub !!-append : {A : Type 0} (v w : List A) (x : A) → (v ++ (x ∷ w)) !! length v ≡ ok x
!!-append [] w x = refl
!!-append (y ∷ v) w x = !!-append v w x

pub !!-end : {A : Type 0} (v : List A) (i : ℕ) → length v ≤ i → v !! i ≡ panic
!!-end [] i h = refl
!!-end (x ∷ v) zero h = absurd (omega arith)
!!-end (x ∷ v) (suc i) h = !!-end v i (omega arith)

pub take-append : {A : Type 0} (v w : List A) → take (length v) (v ++ w) ≡ v
take-append [] w = refl
take-append (x ∷ v) w = ap (◌∷◌ x) (take-append v w)

pub drop-append : {A : Type 0} (v w : List A) → drop (length v) (v ++ w) ≡ w
drop-append [] w = refl
drop-append (x ∷ v) w = drop-append v w

pub length-replicate : {A : Type 0} (n : ℕ) (x : A) → length (replicate n x) ≡ n
length-replicate zero x = refl
length-replicate (suc n) x = ap suc (length-replicate n x)

-- Default values behind a list do not show.
pub get_or-append_replicate :
    {A : Type 0} (v : List A) (n i : ℕ) (d : A) → get_or (v ++ replicate n d) i d ≡ get_or v i d
get_or-append_replicate [] zero i d = refl
get_or-append_replicate [] (suc n) zero d = refl
get_or-append_replicate [] (suc n) (suc i) d = get_or-append_replicate [] n i d
get_or-append_replicate (x ∷ v) n zero d = refl
get_or-append_replicate (x ∷ v) n (suc i) d = get_or-append_replicate v n i d

-- A split of a list at a length that it has.
pub take-drop {ℓ} : {A : Type ℓ} (n : ℕ) (v : List A) → take n v ++ drop n v ≡ v
take-drop zero v = refl
take-drop (suc n) [] = refl
take-drop (suc n) (x ∷ v) = ap (◌∷◌ x) (take-drop n v)

pub length-take {ℓ} : {A : Type ℓ} (n : ℕ) (v : List A) → n ≤ length v → length (take n v) ≡ n
length-take zero v h = refl
length-take (suc n) [] h = absurd (omega arith)
length-take (suc n) (x ∷ v) h = ap suc (length-take n v (omega arith))

pub set_at_some :
    {A : Type 0} (v : List A) (i : ℕ) (x : A)
    → i < length v
    → (w : List A) × (set_at v i x ≡ ok w) × (length w ≡ length v)
unfolding set_at
set_at_some [] i x h = absurd (omega arith)
set_at_some (y ∷ v) zero x h = (x ∷ v, refl, refl)
set_at_some (y ∷ v) (suc i) x h =
    let (w, e, same) = set_at_some v i x (omega arith) in (y ∷ w, rw e, ap suc same)

take-append_left : {A : Type 0} (n : ℕ) (v w : List A) → n ≤ length v → take n (v ++ w) ≡ take n v
take-append_left zero v w h = refl
take-append_left (suc n) [] w h = absurd (omega arith)
take-append_left (suc n) (x ∷ v) w h = ap (◌∷◌ x) (take-append_left n v w (omega arith))

drop-append_left :
    {A : Type 0} (n : ℕ) (v w : List A) → n ≤ length v → drop n (v ++ w) ≡ drop n v ++ w
drop-append_left zero v w h = refl
drop-append_left (suc n) [] w h = absurd (omega arith)
drop-append_left (suc n) (x ∷ v) w h = drop-append_left n v w (omega arith)

-- `v[:n]` and `v[n:]`
pub slice_first :
    {A : Type 0} (n : ℕ) (v w : List A) → n ≤ length v → slice (v ++ w) 0 n ≡ ok (take n v)
slice_first n v w h =
    let lower : leb 0 n ≡ true = ground arith in
    let upper : leb n (length (v ++ w)) ≡ true = ground (arith, length-append v w) in
    let all : n - 0 ≡ n = omega arith in rw (lower, upper, all, take-append_left n v w h)

pub slice_rest :
    {A : Type 0} (n : ℕ) (v w : List A)
    → n ≤ length v
    → slice (v ++ w) n (length (v ++ w)) ≡ ok (drop n v ++ w)
slice_rest n v w h =
    let lower : leb n (length (v ++ w)) ≡ true = ground (arith, length-append v w) in
    let upper : leb (length (v ++ w)) (length (v ++ w)) ≡ true = ground arith in
    rw (lower, upper)
      (ap ok (
        take-length (length (v ++ w) - n) (drop n (v ++ w)) (omega (arith, length-drop n (v ++ w)))
        ∙ drop-append_left n v w h))

pub set_at-Yields :
    {A : Type 0} (v : List A) (i : ℕ) (x : A) → Yields (set_at v i x) (λ w. length w ≡ length v)
unfolding set_at
set_at-Yields [] i x = tt
set_at-Yields (y ∷ v) zero x = refl
set_at-Yields (y ∷ v) (suc i) x =
    Yields-after (set_at v i x) _ _ _ (set_at-Yields v i x) (λ w same. ap suc same)
