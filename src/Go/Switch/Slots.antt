-- ===== src/Go/Switch/Slots.antt =====
-- A struct as the list of its fields, of which an assignment replaces one.
use procfs.Base.{
  Bytes, ◌++◌, map, ℕ, zero, suc, ◌==◌, ltb, ◌<◌, Bool, true, false, Option, some, ◌↔◌, ◌∙◌, List,
  [], ◌∷◌, ◌≡◌, refl, sym, ap, arith, length, get_or, if◌then◌else◌,
}
use procfs.Go.Switch.{Switch, slots-same}

-- A list with another member at a place of it.
unfoldable pub put {ℓ} : {A : Type ℓ} → List A → ℕ → A → List A
put [] i x = []
put (y ∷ v) zero x = x ∷ v
put (y ∷ v) (suc i) x = y ∷ put v i x

lt_of_ltb : {a b : ℕ} → ltb a b ≡ true → a < b
lt_of_ltb {a} {b} h = ground arith

suc-== : (i j : ℕ) → (suc i == suc j) ≡ (i == j)
suc-== i j = ground arith

get_or-put {ℓ} :
    {A : Type ℓ} (v : List A) (i j : ℕ) (x d : A)
    → i < length v
    → get_or (put v i x) j d ≡ (if i == j then x else get_or v j d)
unfolding put
get_or-put [] i j x d h = absurd (omega arith)
get_or-put (y ∷ v) zero zero x d h = refl
get_or-put (y ∷ v) zero (suc j) x d h = let e : (0 == suc j) ≡ false = ground arith in rw e refl
get_or-put (y ∷ v) (suc i) zero x d h = let e : (suc i == 0) ≡ false = ground arith in rw e refl
get_or-put (y ∷ v) (suc i) (suc j) x d h =
    let e : (suc i == suc j) ≡ (i == j) = suc-== i j in rw e (get_or-put v i j x d (omega arith))

-- What makes a switch, with the struct as a list of fields, and the keys numbered by it.
pub record Numbered {ℓ} {L K S V W : Type ℓ} (same : L → L → Bool) (find : L → Option K)
    (label_of : K → L) (set : K → V → S → S) (read : K → S → W) (written : V → W) (slot : K → ℕ)
    (keys : List K) (slots : S → List W) : Type ℓ where
  pub same_iff : (a b : L) → (same a b ≡ true) ↔ (a ≡ b)
  pub found : (l : L) (k : K) → find l ≡ some k → l ≡ label_of k
  pub finds : (k : K) → find (label_of k) ≡ some k
  pub keys-slot : (k d : K) → get_or keys (slot k) d ≡ k
  pub slot-bound : (k : K) (s : S) → ltb (slot k) (length (slots s)) ≡ true
  pub read-slots : (k : K) (s : S) (d : W) → read k s ≡ get_or (slots s) (slot k) d
  pub slots-set : (k : K) (v : V) (s : S) → slots (set k v s) ≡ put (slots s) (slot k) (written v)

pub Numbered-Switch {ℓ} :
    {L K S V W : Type ℓ} {same : L → L → Bool} {find : L → Option K} {label_of : K → L}
    {set : K → V → S → S} {read : K → S → W} {written : V → W} {slot : K → ℕ} {keys : List K}
    {slots : S → List W}
    → Numbered same find label_of set read written slot keys slots
    → Switch same find label_of set read (λ _. written)
Numbered-Switch {same} {find} {label_of} {set} {read} {written} {slot} {keys} {slots} n = record {
  same_iff = n.same_iff;
  found = n.found;
  finds = n.finds;
  read-set = λ k g v s.
      let inside : slot g < length (slots s) = lt_of_ltb (n.slot-bound g s) in
      let same_slots =
        slots-same find (λ i. get_or keys i k) n.same_iff n.finds (λ j. n.keys-slot j k) g k in
      n.read-slots k (set g v s) (written v)
      ∙ ap (λ u. get_or u (slot k) (written v)) (n.slots-set g v s)
      ∙ get_or-put (slots s) (slot g) (slot k) (written v) (written v) inside
      ∙ ap (λ w. if slot g == slot k then written v else w) (sym (n.read-slots k s (written v)))
      ∙ ap (λ b. if b then written v else read k s) same_slots;
}

-- The keys of a table, in the order of the cases.
unfoldable pub members {ℓ} : {A : Type ℓ} → List (Bytes × List (Bytes × A)) → List A
members [] = []
members ((outer, cases) ∷ rest) = map (λ c. c.1) cases ++ members rest

-- The place of a label among keys.
unfoldable pub position {ℓ} : {L K : Type ℓ} → (L → L → Bool) → L → (K → L) → List K → ℕ
position same label label_of [] = 0
position same label label_of (k ∷ ks) =
    let later = position same label label_of ks in if same label (label_of k) then 0 else suc later
