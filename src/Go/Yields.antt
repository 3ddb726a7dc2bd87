-- ===== src/Go/Yields.antt =====
-- What a call says of its value, if it gives one.
use procfs.Base.{List, [], ◌∷◌, Bool, true, false, if◌then◌else◌, ◌≡◌, refl}
use procfs.Go.Result.{each, Result, ok, err, panic, Error, ◌>>=◌, ◌>>◌, fail_if, Returns}

abbrev pub Yields {ℓ κ} : {A : Type ℓ} → Result A → (A → Type κ) → Type κ
Yields (ok a) P = P a
Yields (err e) P = Unit
Yields panic P = Unit

module _ {ℓ κ μ} {A : Type ℓ} {B : Type κ} where
  pub Yields-bind :
      (m : Result A) (f : A → Result B) (Q : B → Type μ)
      → ((a : A) → Yields (f a) Q)
      → Yields (m >>= f) Q
  Yields-bind (ok a) f Q h = h a
  Yields-bind (err e) f Q h = tt
  Yields-bind panic f Q h = tt

  pub Yields-after :
      (m : Result A) (f : A → Result B) (P : A → Type μ) (Q : B → Type μ)
      → Yields m P
      → ((a : A) → P a → Yields (f a) Q)
      → Yields (m >>= f) Q
  Yields-after (ok a) f P Q h k = k a h
  Yields-after (err e) f P Q h k = tt
  Yields-after panic f P Q h k = tt

  -- The rest of a call that returns may use what the first part yields.
  pub Returns-after :
      (m : Result A) (f : A → Result B) (P : A → Type μ)
      → Returns m
      → Yields m P
      → ((a : A) → P a → Returns (f a))
      → Returns (m >>= f)
  Returns-after (ok a) f P r h k = k a h
  Returns-after (err e) f P r h k = tt
  Returns-after panic f P r h k = r

module _ {ℓ κ} {A : Type ℓ} (P Q : A → Type κ) (h : (a : A) → P a → Q a) where
  pub Yields-map : (m : Result A) → Yields m P → Yields m Q
  Yields-map (ok a) p = h a p
  Yields-map (err e) p = tt
  Yields-map panic p = tt

module _ {ℓ κ} {A : Type ℓ} (P : A → Type κ) where
  pub Yields-if :
      (b : Bool) (m n : Result A) → Yields m P → Yields n P → Yields (if b then m else n) P
  Yields-if true m n hm hn = hm
  Yields-if false m n hm hn = hn

  pub Yields-fail_if :
      (b : Bool) (e : Error) (m : Result A) → Yields m P → Yields (fail_if b e >> m) P
  Yields-fail_if true e m h = tt
  Yields-fail_if false e m h = h

pub Returns-if {ℓ} :
    {A : Type ℓ} (b : Bool) (m n : Result A)
    → (b ≡ true → Returns m)
    → (b ≡ false → Returns n)
    → Returns (if b then m else n)
Returns-if true m n h k = h refl
Returns-if false m n h k = k refl

-- A call beside two calls, the second of which only reshapes the value of the first.
pub >>=-assoc {ℓ κ μ} :
    {A B : Type ℓ} {C : Type κ} (m : Result A) (f : A → Result C) (g : A → Result B)
    (h : B → Result C) (P : A → Type μ)
    → Yields m P
    → ((a : A) → P a → f a ≡ (g a >>= h))
    → (m >>= f) ≡ ((m >>= g) >>= h)
>>=-assoc (ok a) f g h P y e = e a y
>>=-assoc (err x) f g h P y e = refl
>>=-assoc panic f g h P y e = refl

-- A loop whose state is computed from the state of another loop.
pub each-simulates {ℓ} :
    {S T A : Type ℓ} (shape : S → T) (f : T → A → Result T) (g : S → A → Result S)
    → ((s : S) (x : A) → f (shape s) x ≡ (g s x >>= λ s'. ok (shape s')))
    → (s : S) (xs : List A) → each f (shape s) xs ≡ (each g s xs >>= λ s'. ok (shape s'))
unfolding each
each-simulates shape f g step s [] = refl
each-simulates {S} {T} shape f g step s (x ∷ xs) =
    rw (step s x) (go (g s x) λ s'. each-simulates shape f g step s' xs)
  where
    go :
        (m : Result S)
        → ((s' : S) → each f (shape s') xs ≡ (each g s' xs >>= λ t. ok (shape t)))
        → ((m >>= λ s'. ok (shape s')) >>= λ t. each f t xs)
          ≡ ((m >>= λ s'. each g s' xs) >>= λ t. ok (shape t))
    go (ok s') h = h s'
    go (err e) h = refl
    go panic h = refl
