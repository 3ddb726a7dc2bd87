-- ===== src/Util/Parse/Slices.antt =====
-- internal/util/parse.go: the slice parsers, their results and their errors.
use procfs.Base.{
  ◌<◌, String, suc, ◌↔◌, subst, fun_ext, ℕ, ◌-◌, ◌%◌, ◌^◌, ◌≤◌, List, [], ◌∷◌, ◌++◌, ◌≡◌, refl, ap,
  sym, ◌∙◌, inl, inr, append_assoc, append-nil, arith, Bytes, All, length,
}
use procfs.Go.Lines.{numbers}
use procfs.Go.Result.{
  wrapping, Returns-bind_eq, Returns-wrapping, wrapping-eq-ok, >>=-eq-ok, >>=-eq-err, ok-injective,
  Result, ok, err, panic, Error, each, ◌>>=◌, Returns, Returns-bind, Returns-each,
}
use procfs.Go.Strconv.Bounds.{parse_uint-Returns, parse_uint-lt}
use procfs.Go.Strconv.Decimal.{parse_uint-format_uint}
use procfs.Go.Strconv.{max_u64, parse_uint}
use procfs.Util.Parse.{collect, parse_uint32s, parse_uint64s}

module _ {A : Type 0} (f : Bytes → Result A) where
  -- Every text gives its number.
  abbrev pub AllParse : List Bytes → List A → Type 0
  AllParse [] [] = Unit
  AllParse (s ∷ ss) (u ∷ us) = (f s ≡ ok u) × AllParse ss us
  AllParse _ _ = ⊥

  -- Some texts give numbers, and the next one gives the error.
  pub record FirstError (e : Error) (ss : List Bytes) : Type 0 where
    pub good : List Bytes
    pub values : List A
    pub bad : Bytes
    pub rest : List Bytes
    pub splits : ss ≡ good ++ (bad ∷ rest)
    pub parsed : AllParse good values
    pub refused : f bad ≡ err e

  step : List A → Bytes → Result (List A)
  step us s = do u ← f s; ok (us ++ u ∷ [])

  each-AllParse :
      (acc us : List A) (ss : List Bytes) → AllParse ss us → each step acc ss ≡ ok (acc ++ us)
  unfolding each step
  each-AllParse acc [] [] h = rw append-nil
  each-AllParse acc [] (s ∷ ss) h = absurd h
  each-AllParse acc (u ∷ us) [] h = absurd h
  each-AllParse acc (u ∷ us) (s ∷ ss) (e, h) =
      rw e (each-AllParse (acc ++ u ∷ []) us ss h ∙ rw append_assoc)

  collect-AllParse : (us : List A) (ss : List Bytes) → AllParse ss us → collect f ss ≡ ok us
  unfolding collect step
  collect-AllParse us ss h = each-AllParse [] us ss h

  AllParse-each :
      (acc : List A) (ss : List Bytes) {r : List A}
      → each step acc ss ≡ ok r
      → (us : List A) × (acc ++ us ≡ r) × AllParse ss us
  unfolding each step
  AllParse-each acc [] h = ([], append-nil acc ∙ ok-injective h, tt)
  AllParse-each acc (s ∷ ss) {r} h =
      let (acc', first, later) =
        >>=-eq-ok (do u ← f s; ok (acc ++ u ∷ [])) (λ t. each step t ss) h in
      let (u, read, grown) = >>=-eq-ok (f s) (λ u. ok (acc ++ u ∷ [])) first in
      let (us, e, all) = AllParse-each acc' ss {r = r} later in
      (
        u ∷ us,
        sym (append_assoc acc (u ∷ []) us) ∙ ap (λ x. x ++ us) (ok-injective grown) ∙ e,
        (read, all),
      )

  AllParse-collect : (us : List A) (ss : List Bytes) → collect f ss ≡ ok us → AllParse ss us
  unfolding collect step
  AllParse-collect us ss h = let (vs, e, all) = AllParse-each [] ss h in subst (AllParse ss) e all

  -- The loop succeeds exactly on texts that all parse, with their numbers in order.
  pub collect_iff : (us : List A) (ss : List Bytes) → (collect f ss ≡ ok us) ↔ AllParse ss us
  collect_iff us ss = (AllParse-collect us ss, collect-AllParse us ss)

  FirstError-cons :
      (s : Bytes) (u : A) (ss : List Bytes) {e : Error}
      → f s ≡ ok u
      → FirstError e ss
      → FirstError e (s ∷ ss)
  FirstError-cons s u ss h k = record {
    good = s ∷ k.good;
    values = u ∷ k.values;
    bad = k.bad;
    rest = k.rest;
    splits = ap (◌∷◌ s) k.splits;
    parsed = (h, k.parsed);
    refused = k.refused;
  }

  each-FirstError :
      (acc : List A) (ss : List Bytes) {e : Error} → each step acc ss ≡ err e → FirstError e ss
  unfolding each step
  each-FirstError acc [] h = cc
  each-FirstError acc (s ∷ ss) {e} h = elim (>>=-eq-err (step acc s) (λ t. each step t ss) h) [
    | inl now ↦ elim (>>=-eq-err (f s) (λ u. ok (acc ++ u ∷ [])) now) [
      | inl bad ↦ record {
        good = [];
        values = [];
        bad = s;
        rest = ss;
        splits = refl;
        parsed = tt;
        refused = bad;
      }
      | inr (u, _, contra) ↦ cc
    ]
    | inr (acc', first, later) ↦
        let (u, read, _) = >>=-eq-ok (f s) (λ u. ok (acc ++ u ∷ [])) first in
        FirstError-cons s u ss read (each-FirstError acc' ss later)
  ]

  -- The error of the loop is that of the first text that does not parse.
  pub collect-FirstError : (ss : List Bytes) {e : Error} → collect f ss ≡ err e → FirstError e ss
  unfolding collect step
  collect-FirstError ss h = each-FirstError [] ss h

  pub collect-Returns : ((s : Bytes) → Returns (f s)) → (ss : List Bytes) → Returns (collect f ss)
  unfolding collect
  collect-Returns h ss = Returns-each _ (λ us s. Returns-bind (f s) _ (h s) (λ u. tt)) [] ss

abbrev pub uint : ℕ → Bytes → Result ℕ
uint bits s = parse_uint s 10 bits

-- `uint32(u)` changes nothing.
pub uint32-eq :
    (base : ℕ) (s : Bytes) → (do u ← parse_uint s base 32; ok (u % 2 ^ 32)) ≡ parse_uint s base 32
uint32-eq base s = go (parse_uint s base 32) (λ u. parse_uint-lt s base 32)
  where
    go : (r : Result ℕ) → ((u : ℕ) → r ≡ ok u → u < 2 ^ 32) → (do u ← r; ok (u % 2 ^ 32)) ≡ r
    go (ok u) h = let lt = h u refl in ap ok (omega arith)
    go (err e) h = refl
    go panic h = refl

-- `ParseUint32s` and `ParseUint64s` are the loop over `ParseUint` with their widths.
pub parse_uint32s-collect : (ss : List Bytes) → parse_uint32s ss ≡ collect (uint 32) ss
unfolding parse_uint32s
parse_uint32s-collect ss = ap (λ f. collect f ss) (fun_ext (uint32-eq 10))

-- `ParseUint32s` returns a list of numbers exactly if it is the list of the numbers that `ParseUint`
-- reads from the texts in decimal at 32 bits, all of them and in order.
pub parse_uint32s_iff :
    (ss : List Bytes) (us : List ℕ) → (parse_uint32s ss ≡ ok us) ↔ AllParse (uint 32) ss us
parse_uint32s_iff ss us = rw parse_uint32s-collect (collect_iff (uint 32) us ss)

pub parse_uint64s_iff :
    (ss : List Bytes) (us : List ℕ) → (parse_uint64s ss ≡ ok us) ↔ AllParse (uint 64) ss us
unfolding parse_uint64s
parse_uint64s_iff ss us = collect_iff (uint 64) us ss

-- An error of `ParseUint64s` is the error of the first text that `ParseUint` refuses at 64 bits: the
-- texts before it all parse.
pub parse_uint64s-FirstError :
    (ss : List Bytes) {e : Error} → parse_uint64s ss ≡ err e → FirstError (uint 64) e ss
unfolding parse_uint64s
parse_uint64s-FirstError ss h = collect-FirstError (uint 64) ss h

pub parse_uint32s-Returns : (ss : List Bytes) → Returns (parse_uint32s ss)
parse_uint32s-Returns ss =
    rw parse_uint32s-collect (collect-Returns (uint 32) (λ s. parse_uint-Returns s 10 32) ss)

pub parse_uint64s-Returns : (ss : List Bytes) → Returns (parse_uint64s ss)
unfolding parse_uint64s
parse_uint64s-Returns ss = collect-Returns (uint 64) (λ s. parse_uint-Returns s 10 64) ss

pub AllParse-numbers :
    (bits : ℕ) (us : List ℕ)
    → 2 ^ bits - 1 ≤ max_u64
    → All (λ u. u < 2 ^ bits) us
    → AllParse (uint bits) (numbers us) us
AllParse-numbers bits [] fits h = tt
AllParse-numbers bits (u ∷ us) fits (h, hs) =
    (parse_uint-format_uint bits u fits (omega arith), AllParse-numbers bits us fits hs)

-- Numbers that fit are read back from their decimal prints.
pub parse_uint64s-numbers :
    (us : List ℕ) → All (λ u. u < 2 ^ 64) us → parse_uint64s (numbers us) ≡ ok us
parse_uint64s-numbers us h =
    (parse_uint64s_iff (numbers us) us).1 (AllParse-numbers 64 us (omega arith) h)

pub parse_uint32s-numbers :
    (us : List ℕ) → All (λ u. u < 2 ^ 32) us → parse_uint32s (numbers us) ≡ ok us
parse_uint32s-numbers us h =
    (parse_uint32s_iff (numbers us) us).1 (AllParse-numbers 32 us (omega arith) h)

-- As many numbers as texts.
pub AllParse-length :
    {A : Type 0} (f : Bytes → Result A) (ss : List Bytes) (us : List A)
    → AllParse f ss us
    → length us ≡ length ss
AllParse-length f [] [] h = refl
AllParse-length f [] (u ∷ us) h = absurd h
AllParse-length f (s ∷ ss) [] h = absurd h
AllParse-length f (s ∷ ss) (u ∷ us) (_, h) = ap suc (AllParse-length f ss us h)

pub length-parse_uint64s :
    (ss : List Bytes) {us : List ℕ} → parse_uint64s ss ≡ ok us → length us ≡ length ss
length-parse_uint64s ss {us} h = AllParse-length (uint 64) ss us ((parse_uint64s_iff ss us).0 h)

pub length-parse_uint32s :
    (ss : List Bytes) {us : List ℕ} → parse_uint32s ss ≡ ok us → length us ≡ length ss
length-parse_uint32s ss {us} h = AllParse-length (uint 32) ss us ((parse_uint32s_iff ss us).0 h)

-- The numbers of a line, as many as its texts.
pub numbers_read-Returns :
    {A : Type 0} (text : String) (ss : List Bytes) (f : List ℕ → Result A)
    → ((v : List ℕ) → length v ≡ length ss → Returns (f v))
    → Returns (wrapping text (parse_uint64s ss) >>= f)
numbers_read-Returns text ss f h =
    Returns-bind_eq (wrapping text (parse_uint64s ss)) f
      (Returns-wrapping text (parse_uint64s ss) (parse_uint64s-Returns ss))
      λ v e. h v (length-parse_uint64s ss (wrapping-eq-ok text (parse_uint64s ss) e))
