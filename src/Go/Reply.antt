-- ===== src/Go/Reply.antt =====
-- Go functions that return a value beside an error: what was read so far, and what stopped them.
use procfs.Base.{List, [], ◌∷◌, ◌≡◌, refl, Option, none, some, if◌then◌else◌}
use procfs.Go.Result.{Error, Result, ok, err, panic, Returns}

pub data Reply {ℓ} (S : Type ℓ) : Type ℓ where
  panics : Reply S
  returns : S → Option Error → Reply S

-- The rest of a function, which runs if nothing stopped what is before it.
infixl 5 ◌then◌
abbrev pub ◌then◌ {ℓ} : {S : Type ℓ} → Reply S → (S → Reply S) → Reply S
panics then next = panics
returns s none then next = next s
returns s (some e) then next = returns s (some e)

-- `x, err := m; if err != nil { return s, err }`
abbrev pub trying {ℓ κ} : {S : Type ℓ} {A : Type κ} → S → Result A → (A → Reply S) → Reply S
trying s panic next = panics
trying s (err e) next = returns s (some e)
trying s (ok a) next = next a

-- What a caller does to the value, whatever the error.
abbrev pub replied {ℓ κ} : {S : Type ℓ} {T : Type κ} → (S → T) → Reply S → Reply T
replied f panics = panics
replied f (returns s e) = returns (f s) e

-- `for _, x := range xs { … }` over what is read so far.
unfoldable pub each_reply {ℓ κ} :
    {S : Type ℓ} {A : Type κ} → (S → A → Reply S) → S → List A → Reply S
each_reply f s [] = returns s none
each_reply f s (x ∷ xs) = f s x then λ t. each_reply f t xs

-- The function did not panic.
abbrev pub Replies {ℓ} : {S : Type ℓ} → Reply S → Type 0
Replies panics = ⊥
Replies (returns s e) = Unit

pub Replies-then {ℓ} :
    {S : Type ℓ} (m : Reply S) (next : S → Reply S)
    → Replies m
    → ((s : S) → Replies (next s))
    → Replies (m then next)
Replies-then panics next h k = h
Replies-then (returns s none) next h k = k s
Replies-then (returns s (some e)) next h k = tt

pub Replies-each_reply {ℓ κ} :
    {S : Type ℓ} {A : Type κ} (f : S → A → Reply S)
    → ((s : S) (x : A) → Replies (f s x))
    → (s : S) (xs : List A) → Replies (each_reply f s xs)
unfolding each_reply
Replies-each_reply f h s [] = tt
Replies-each_reply f h s (x ∷ xs) =
    Replies-then (f s x) (λ t. each_reply f t xs) (h s x) (λ t. Replies-each_reply f h t xs)

-- A step in between that does not panic. The rest may use what the step gave.
pub Replies-trying {ℓ κ} :
    {S : Type ℓ} {A : Type κ} (s : S) (m : Result A) (next : A → Reply S)
    → Returns m
    → ((a : A) → m ≡ ok a → Replies (next a))
    → Replies (trying s m next)
Replies-trying s panic next h k = h
Replies-trying s (err e) next h k = tt
Replies-trying s (ok a) next h k = k a refl

-- What holds of the value that a function returns, also beside an error.
abbrev pub Gives {ℓ κ} : {S : Type ℓ} → Reply S → (S → Type κ) → Type κ
Gives panics P = Unit
Gives (returns s e) P = P s

pub Gives-then {ℓ κ} :
    {S : Type ℓ} (m : Reply S) (next : S → Reply S) (P : S → Type κ)
    → Gives m P
    → ((s : S) → P s → Gives (next s) P)
    → Gives (m then next) P
Gives-then panics next P h k = tt
Gives-then (returns s none) next P h k = k s h
Gives-then (returns s (some e)) next P h k = h

pub Gives-trying {ℓ κ μ} :
    {S : Type ℓ} {A : Type κ} (s : S) (m : Result A) (next : A → Reply S) (P : S → Type μ)
    → P s
    → ((a : A) → Gives (next a) P)
    → Gives (trying s m next) P
Gives-trying s panic next P h k = tt
Gives-trying s (err e) next P h k = h
Gives-trying s (ok a) next P h k = k a
