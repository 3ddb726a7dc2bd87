-- ===== src/Go/Switch.antt =====
-- A `switch` over strings that assigns a field of a struct in each case, and what the struct holds
-- once a loop has run it over some labels and values.
pub mod Loop
pub mod Slots
use mathlib.Core.Option.{some-injective}
use procfs.Base.{
  List, [], ◌∷◌, ◌≡◌, ℕ, ◌==◌, refl, ap, sym, subst, ◌∙◌, Option, none, some, arith, Bytes,
  bytes_eq, bytes_eq_iff, Bool, true, false, Bool-cases, inl, inr, ◌↔◌, All, if◌then◌else◌, ◌&&◌,
}

-- The first case of a label, if it has one.
unfoldable pub find_case {ℓ} : {A : Type ℓ} → Bytes → List (Bytes × A) → Option A
find_case label [] = none
find_case label ((l, a) ∷ rest) = if bytes_eq label l then some a else find_case label rest

-- What holds of every case holds of the one that is found.
pub find_case-All {ℓ κ} :
    {A : Type ℓ} (P : Bytes → A → Type κ) (label : Bytes) (table : List (Bytes × A)) {a : A}
    → All (λ c. P c.0 c.1) table
    → find_case label table ≡ some a
    → P label a
unfolding find_case
find_case-All P label [] h e = cc
find_case-All P label ((l, b) ∷ rest) {a} (h, hs) e = elim (Bool-cases (bytes_eq label l)) [
  | inl q ↦
      let taken : some b ≡ some a = rw (q) at e in
      let same : label ≡ l = (bytes_eq_iff label l).0 q in
      let value : b ≡ a = cc in rw (same, sym value) h
  | inr q ↦ find_case-All P label rest hs (rw (q) at e)
]

-- What the cases of a switch have to satisfy: each key is found under its label only, and its case
-- writes what is read for it and nothing that is read for another one.
pub record Switch {ℓ} {L K S V W : Type ℓ} (same : L → L → Bool) (find : L → Option K)
    (label_of : K → L) (set : K → V → S → S) (read : K → S → W) (written : K → V → W) : Type ℓ where
  pub same_iff : (a b : L) → (same a b ≡ true) ↔ (a ≡ b)
  pub found : (l : L) (k : K) → find l ≡ some k → l ≡ label_of k
  pub finds : (k : K) → find (label_of k) ≡ some k
  pub read-set :
      (k g : K) (v : V) (s : S)
      → read k (set g v s) ≡ (if same (label_of g) (label_of k) then written k v else read k s)

-- A round of the loop.
abbrev pub assign {ℓ} : {K S V : Type ℓ} → (K → V → S → S) → Option K → V → S → S
assign set none v s = s
assign set (some k) v s = set k v s

abbrev pub assign_all {ℓ} :
    {L K S V : Type ℓ} → (K → V → S → S) → (L → Option K) → List (L × V) → S → S
assign_all set find [] s = s
assign_all set find ((l, v) ∷ rest) s = assign_all set find rest (assign set (find l) v s)

-- The value that stands last under a label.
unfoldable pub last_of {ℓ} : {L V : Type ℓ} → (L → L → Bool) → L → List (L × V) → Option V
last_of same label [] = none
last_of same label ((l, v) ∷ rest) = elim (last_of same label rest) [
  | none ↦ if same l label then some v else none
  | some w ↦ some w
]

-- What is read for a key, by the value that stands last under its label.
abbrev pub shown {ℓ} : {V W : Type ℓ} → (V → W) → W → Option V → W
shown write before none = before
shown write before (some v) = write v

module _ {ℓ} {L K S V W : Type ℓ} {same : L → L → Bool} {find : L → Option K} {label_of : K → L}
    {set : K → V → S → S} {read : K → S → W} {written : K → V → W}
    (h : Switch same find label_of set read written) where
  read-assign :
      (k : K) (l : L) (v : V) (s : S)
      → read k (assign set (find l) v s) ≡ (if same l (label_of k) then written k v else read k s)
  read-assign k l v s = go (find l) refl
    where
      go :
          (f : Option K)
          → find l ≡ f
          → read k (assign set f v s) ≡ (if same l (label_of k) then written k v else read k s)
      go none e = elim (Bool-cases (same l (label_of k))) [
        | inl q ↦
            let other : l ≡ label_of k = (h.same_iff l (label_of k)).0 q in
            let there : find (label_of k) ≡ some k = h.finds k in cc
        | inr q ↦ rw q refl
      ]
      go (some g) e = let own : l ≡ label_of g = h.found l g e in rw own (h.read-set k g v s)

  shown-if :
      (w : V → W) (b : Bool) (v : V) (before : W) (later : Option V)
      → shown w (if b then w v else before) later
        ≡ shown w before (elim later [ none ↦ (if b then some v else none) | some u ↦ some u ])
  shown-if w true v before none = refl
  shown-if w false v before none = refl
  shown-if w b v before (some u) = refl

  -- The struct shows for each key the value that stands last under its label.
  pub read-assign_all :
      (k : K) (entries : List (L × V)) (s : S)
      → read k (assign_all set find entries s)
        ≡ shown (written k) (read k s) (last_of same (label_of k) entries)
  unfolding last_of
  read-assign_all k [] s = refl
  read-assign_all k ((l, v) ∷ rest) s =
      read-assign_all k rest (assign set (find l) v s)
      ∙ ap (λ w. shown (written k) w (last_of same (label_of k) rest)) (read-assign k l v s)
      ∙ shown-if (written k) (same l (label_of k)) v (read k s) (last_of same (label_of k) rest)

-- Keys that are numbered one by one have the same number where they have the same label.
module _ {ℓ} {L K : Type ℓ} {same : L → L → Bool} {label_of : K → L} {slot : K → ℕ}
    (find : L → Option K) (key_at : ℕ → K) where
  pub slots-same :
      ((a b : L) → (same a b ≡ true) ↔ (a ≡ b))
      → ((k : K) → find (label_of k) ≡ some k)
      → ((k : K) → key_at (slot k) ≡ k)
      → (g k : K) → (slot g == slot k) ≡ same (label_of g) (label_of k)
  slots-same iff finds numbered g k = elim (Bool-cases (slot g == slot k)) [
    | inl p ↦
        let number : slot g ≡ slot k = ground arith in
        let key : g ≡ k = sym (numbered g) ∙ ap key_at number ∙ numbered k in
        p ∙ sym ((iff (label_of g) (label_of k)).1 (ap label_of key))
    | inr p ↦ elim (Bool-cases (same (label_of g) (label_of k))) [
      | inl q ↦
          let label : label_of g ≡ label_of k = (iff (label_of g) (label_of k)).0 q in
          let key : some g ≡ some k = sym (finds g) ∙ ap find label ∙ finds k in
          let number : slot g ≡ slot k = ap slot (some-injective g k key) in absurd (ground arith)
      | inr q ↦ p ∙ sym q
    ]
  ]

-- A switch over a first string whose cases are switches over a second one.
abbrev pub find_in {ℓ} : {A : Type ℓ} → List (Bytes × List (Bytes × A)) → Bytes × Bytes → Option A
find_in table (outer, inner) = elim (find_case outer table) [
  | none ↦ none
  | some cases ↦ find_case inner cases
]

abbrev pub same_pair : Bytes × Bytes → Bytes × Bytes → Bool
same_pair (a, b) (c, d) = bytes_eq a c && bytes_eq b d

pub same_pair_iff : (p q : Bytes × Bytes) → (same_pair p q ≡ true) ↔ (p ≡ q)
same_pair_iff (a, b) (c, d) = ground (arith, bytes_eq_iff a c, bytes_eq_iff b d)

-- A test of every case.
unfoldable pub all_cases {ℓ} : {A : Type ℓ} → (Bytes → A → Bool) → List (Bytes × A) → Bool
all_cases p [] = true
all_cases p ((l, a) ∷ rest) = p l a && all_cases p rest

pub all_cases-All {ℓ} :
    {A : Type ℓ} (p : Bytes → A → Bool) (table : List (Bytes × A))
    → all_cases p table ≡ true
    → All (λ c. p c.0 c.1 ≡ true) table
unfolding all_cases
all_cases-All p [] h = tt
all_cases-All p ((l, a) ∷ rest) h = (ground arith, all_cases-All p rest (ground arith))

unfoldable pub check_in {ℓ} :
    {A : Type ℓ} → (Bytes × Bytes → A → Bool) → List (Bytes × List (Bytes × A)) → Bool
unfolding all_cases
check_in p = all_cases (λ outer. all_cases (λ inner. p (outer, inner)))

-- The case that is found passes the test.
pub found_in {ℓ} :
    {A : Type ℓ} (p : Bytes × Bytes → A → Bool) (table : List (Bytes × List (Bytes × A)))
    (label : Bytes × Bytes) {a : A}
    → check_in p table ≡ true
    → find_in table label ≡ some a
    → p label a ≡ true
unfolding check_in
found_in {A} p table (outer, inner) {a} h = go (find_case outer table) refl
  where
    go :
        (f : Option (List (Bytes × A)))
        → find_case outer table ≡ f
        → elim f [ none ↦ none | some cases ↦ find_case inner cases ] ≡ some a
        → p (outer, inner) a ≡ true
    go none e r = cc
    go (some cases) e r =
        let each =
          find_case-All (λ o cs. all_cases (λ i. p (o, i)) cs ≡ true) outer table
            (all_cases-All (λ o. all_cases (λ i. p (o, i))) table h) e in
        find_case-All (λ i b. p (outer, i) b ≡ true) inner cases
          (all_cases-All (λ i. p (outer, i)) cases each) r
