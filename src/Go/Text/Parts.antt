-- ===== src/Go/Text/Parts.antt =====
-- `strings.Split` reads back parts that are joined by the separator and do not hold it.
use procfs.Base.{
  sym, Bool-cases, inl, inr, length, ◌≤◌, ℕ, ◌≢◌, List, [], ◌∷◌, ◌++◌, ◌==◌, ◌≡◌, refl, ap, ◌∙◌,
  append-nil, append_assoc, arith, Bytes, All,
}
use procfs.Go.Text.{split_from, split, split_two_from, split_two}

abbrev pub Lacks : ℕ → Bytes → Type 0
Lacks b = All (λ c. c ≢ b)

abbrev pub join_behind : ℕ → List Bytes → Bytes
join_behind sep [] = []
join_behind sep (p ∷ ps) = sep ∷ (p ++ join_behind sep ps)

-- `strings.Join` with a separator of one byte.
abbrev pub join : ℕ → List Bytes → Bytes
join sep [] = []
join sep (p ∷ ps) = p ++ join_behind sep ps

module _ (sep : ℕ) where
  split_from_other :
      (c : ℕ) (s cur : Bytes)
      → c ≢ sep
      → split_from sep (c ∷ s) cur ≡ split_from sep s (cur ++ c ∷ [])
  unfolding split_from
  split_from_other c s cur h = ground arith

  split_from_sep : (s cur : Bytes) → split_from sep (sep ∷ s) cur ≡ cur ∷ split_from sep s []
  unfolding split_from
  split_from_sep s cur = ground arith

  split_from-append :
      (p rest cur : Bytes)
      → Lacks sep p
      → split_from sep (p ++ rest) cur ≡ split_from sep rest (cur ++ p)
  split_from-append [] rest cur h = rw append-nil
  split_from-append (c ∷ p) rest cur (h, hs) =
      split_from_other c (p ++ rest) cur h
      ∙ split_from-append p rest (cur ++ c ∷ []) hs
      ∙ rw append_assoc

  split_from-join_behind :
      (ps : List Bytes) (cur : Bytes)
      → All (Lacks sep) ps
      → split_from sep (join_behind sep ps) cur ≡ cur ∷ ps
  split_from-join_behind [] cur h = unfold split_from in refl
  split_from-join_behind (p ∷ ps) cur (h, hs) =
      split_from_sep (p ++ join_behind sep ps) cur
      ∙ ap (◌∷◌ cur)
          (split_from-append p (join_behind sep ps) [] h ∙ split_from-join_behind ps p hs)

  pub split-join :
      (p : Bytes) (ps : List Bytes)
      → All (Lacks sep) (p ∷ ps)
      → split (join sep (p ∷ ps)) sep ≡ p ∷ ps
  unfolding split
  split-join p ps (h, hs) =
      split_from-append p (join_behind sep ps) [] h ∙ split_from-join_behind ps p hs

  split_two_from_other :
      (c : ℕ) (s cur : Bytes)
      → c ≢ sep
      → split_two_from sep (c ∷ s) cur ≡ split_two_from sep s (cur ++ c ∷ [])
  unfolding split_two_from
  split_two_from_other c s cur h = ground arith

  split_two_from-append :
      (p rest cur : Bytes)
      → Lacks sep p
      → split_two_from sep (p ++ rest) cur ≡ split_two_from sep rest (cur ++ p)
  split_two_from-append [] rest cur h = rw append-nil
  split_two_from-append (c ∷ p) rest cur (h, hs) =
      split_two_from_other c (p ++ rest) cur h
      ∙ split_two_from-append p rest (cur ++ c ∷ []) hs
      ∙ rw append_assoc

  split_two_from_sep : (s cur : Bytes) → split_two_from sep (sep ∷ s) cur ≡ cur ∷ s ∷ []
  unfolding split_two_from
  split_two_from_sep s cur = ground arith

  split_two_from_end : (cur : Bytes) → split_two_from sep [] cur ≡ cur ∷ []
  unfolding split_two_from
  split_two_from_end cur = refl

  split_from_end : (cur : Bytes) → split_from sep [] cur ≡ cur ∷ []
  unfolding split_from
  split_from_end cur = refl

  -- The first separator splits, and a text without it is one part.
  pub split_two_at :
      (p rest : Bytes) → Lacks sep p → split_two (p ++ (sep ∷ rest)) sep ≡ p ∷ rest ∷ []
  unfolding split_two
  split_two_at p rest h = split_two_from-append p (sep ∷ rest) [] h ∙ split_two_from_sep rest p

  pub split_two_whole : (p : Bytes) → Lacks sep p → split_two p sep ≡ p ∷ []
  unfolding split_two
  split_two_whole p h =
      ap (λ q. split_two_from sep q []) (sym (append-nil p))
      ∙ split_two_from-append p [] [] h
      ∙ split_two_from_end p

  -- What `strings.Split` gives for a text with no separator, and up to the first or second one.
  pub split_whole : (p : Bytes) → Lacks sep p → split p sep ≡ p ∷ []
  unfolding split
  split_whole p h =
      ap (λ q. split_from sep q []) (sym (append-nil p))
      ∙ split_from-append p [] [] h
      ∙ split_from_end p

  pub split_at : (p rest : Bytes) → Lacks sep p → split (p ++ (sep ∷ rest)) sep ≡ p ∷ split rest sep
  unfolding split
  split_at p rest h = split_from-append p (sep ∷ rest) [] h ∙ split_from_sep rest p

  -- There is always a part.
  split_from_some :
      (s cur : Bytes) → (p : Bytes) × (ps : List Bytes) × (split_from sep s cur ≡ p ∷ ps)
  unfolding split_from
  split_from_some [] cur = (cur, [], refl)
  split_from_some (c ∷ s) cur = elim (Bool-cases (c == sep)) [
    | inl e ↦ (cur, split_from sep s [], rw (e, split_from))
    | inr e ↦ let (p, ps, h) = split_from_some s (cur ++ c ∷ []) in (p, ps, rw (e, split_from) h)
  ]

  pub split_some : (s : Bytes) → (p : Bytes) × (ps : List Bytes) × (split s sep ≡ p ∷ ps)
  unfolding split
  split_some s = split_from_some s []

  split_two_from_some :
      (s cur : Bytes)
      → (p : Bytes) × (ps : List Bytes) × (split_two_from sep s cur ≡ p ∷ ps) × (length ps ≤ 1)
  unfolding split_two_from
  split_two_from_some [] cur = (cur, [], refl, omega arith)
  split_two_from_some (c ∷ s) cur = elim (Bool-cases (c == sep)) [
    | inl e ↦ (cur, s ∷ [], rw (e, split_two_from), omega arith)
    | inr e ↦
        let (p, ps, h, few) = split_two_from_some s (cur ++ c ∷ []) in
        (p, ps, rw (e, split_two_from) h, few)
  ]

  pub split_two_some :
      (s : Bytes) → (p : Bytes) × (ps : List Bytes) × (split_two s sep ≡ p ∷ ps) × (length ps ≤ 1)
  unfolding split_two
  split_two_some s = split_two_from_some s []
