-- ===== src/MountInfo/Options.antt =====
-- Options and optional fields: what the loops store for the texts that the kernel prints.
use procfs.Base.{
  ℕ, List, [], ◌∷◌, ◌++◌, ◌≡◌, refl, ap, sym, ◌∙◌, true, false, arith, Bytes, All, Option, none,
  some, Bool, map, foldl, length, ltb, bytes_eq, if◌then◌else◌, suc,
}
use procfs.Go.Map.{StringMap, insert, lookup, lookup-insert}
use procfs.Go.Result.{ok-injective, ok, each}
use procfs.Go.Text.Parts.{
  Lacks, join, split-join, split_whole, split_at, split_some, split_two_at, split_two_whole,
}
use procfs.MountInfo.{
  mount_option, mount_options_parser, optional_field, mount_options_parse_optional_fields,
  mount_options_is_valid_field,
}

-- A key, with a value or without one.
abbrev pub Entry : Type 0
Entry = Bytes × Option Bytes

abbrev pub render_entry : ℕ → Entry → Bytes
render_entry sep (k, none) = k
render_entry sep (k, some v) = k ++ (sep ∷ v)

abbrev pub value_of : Option Bytes → Bytes
value_of none = []
value_of (some v) = v

abbrev pub put : StringMap → Entry → StringMap
put m (k, v) = insert k (value_of v) m

-- Neither key nor value holds a comma or an equals sign.
abbrev pub IsOption : Entry → Type 0
IsOption (k, v) = Lacks b'=' k × Lacks b'=' (value_of v)

mount_option-render_entry :
    (m : StringMap) (o : Entry) → IsOption o → mount_option m (render_entry b'=' o) ≡ ok (put m o)
unfolding mount_option
mount_option-render_entry m (k, none) (hk, hv) = rw (split_whole b'=' k hk)
mount_option-render_entry m (k, some v) (hk, hv) =
    rw (split_at b'=' k v hk) (rw (split_whole b'=' v hv))

-- If neither a key nor a value holds an equals sign, an option `key=value=more` is read like
-- `key=value`: what follows the second equals sign is dropped.
pub mount_option_cut :
    (m : StringMap) (k v w : Bytes)
    → Lacks b'=' k
    → Lacks b'=' v
    → mount_option m (k ++ (b'=' ∷ (v ++ (b'=' ∷ w)))) ≡ mount_option m (k ++ (b'=' ∷ v))
unfolding mount_option
mount_option_cut m k v w hk hv =
    let (p, ps, e) = split_some b'=' w in
    let enough : ltb (suc (suc (suc (length ps)))) 2 ≡ false = ground arith in
    rw (split_at b'=' k (v ++ (b'=' ∷ w)) hk, split_at b'=' v w hv, e, enough)
      (rw (split_at b'=' k v hk) (rw (split_whole b'=' v hv)))

each-mount_option :
    (os : List Entry) (m : StringMap)
    → All IsOption os
    → each mount_option m (map (render_entry b'=') os) ≡ ok (foldl put m os)
unfolding each
each-mount_option [] m h = refl
each-mount_option (o ∷ os) m (h, hs) =
    rw (mount_option-render_entry m o h) (each-mount_option os (put m o) hs)

abbrev pub render_options : List Entry → Bytes
render_options os = join b',' (map (render_entry b'=') os)

pub mount_options_parser-render :
    (o : Entry) (os : List Entry)
    → All IsOption (o ∷ os)
    → All (Lacks b',') (map (render_entry b'=') (o ∷ os))
    → mount_options_parser (render_options (o ∷ os)) ≡ ok (foldl put [] (o ∷ os))
unfolding mount_options_parser
mount_options_parser-render o os h commas =
    rw (split-join b',' (render_entry b'=' o) (map (render_entry b'=') os) commas)
      (each-mount_option (o ∷ os) [] h)

-- The value of the last entry of a key.
abbrev pub last_value : Bytes → Option Bytes → List Entry → Option Bytes
last_value k acc [] = acc
last_value k acc ((j, v) ∷ os) = last_value k (if bytes_eq j k then some (value_of v) else acc) os

lookup-nil : (k : Bytes) → lookup k [] ≡ none
unfolding lookup
lookup-nil k = refl

lookup-foldl-put :
    (k : Bytes) (os : List Entry) (m : StringMap)
    → lookup k (foldl put m os) ≡ last_value k (lookup k m) os
lookup-foldl-put k [] m = refl
lookup-foldl-put k ((j, v) ∷ os) m =
    lookup-foldl-put k os (insert j (value_of v) m)
    ∙ ap (λ x. last_value k x os) (lookup-insert j k (value_of v) m)

-- In the map of a printed list of options that fit, a key is mapped to the value of its last entry,
-- the empty text for an entry without a value, and a key without an entry is not in the map.
pub lookup-mount_options_parser :
    (o : Entry) (os : List Entry) (k : Bytes) {m : StringMap}
    → All IsOption (o ∷ os)
    → All (Lacks b',') (map (render_entry b'=') (o ∷ os))
    → mount_options_parser (render_options (o ∷ os)) ≡ ok m
    → lookup k m ≡ last_value k none (o ∷ os)
lookup-mount_options_parser o os k {m} h commas e =
    ap (lookup k) (ok-injective (sym e ∙ mount_options_parser-render o os h commas))
    ∙ lookup-foldl-put k (o ∷ os) []
    ∙ ap (λ x. last_value k x (o ∷ os)) (lookup-nil k)

-- Optional fields: a value may hold colons, and only the known keys are kept.
abbrev pub put_valid : StringMap → Entry → StringMap
put_valid m (k, v) = if mount_options_is_valid_field k then insert k (value_of v) m else m

if-ok {ℓ} : {A : Type ℓ} (b : Bool) (x y : A) → (if b then ok x else ok y) ≡ ok (if b then x else y)
if-ok true x y = refl
if-ok false x y = refl

optional_field-render_entry :
    (m : StringMap) (o : Entry)
    → Lacks b':' o.0
    → optional_field m (render_entry b':' o) ≡ ok (put_valid m o)
unfolding optional_field
optional_field-render_entry m (k, none) h =
    rw (split_two_whole b':' k h) (if-ok (mount_options_is_valid_field k) _ _)
optional_field-render_entry m (k, some v) h =
    rw (split_two_at b':' k v h) (if-ok (mount_options_is_valid_field k) _ _)

each-optional_field :
    (os : List Entry) (m : StringMap)
    → All (λ (o : Entry). Lacks b':' o.0) os
    → each optional_field m (map (render_entry b':') os) ≡ ok (foldl put_valid m os)
unfolding each
each-optional_field [] m h = refl
each-optional_field (o ∷ os) m (h, hs) =
    rw (optional_field-render_entry m o h) (each-optional_field os (put_valid m o) hs)

pub mount_options_parse_optional_fields-render :
    (os : List Entry)
    → All (λ (o : Entry). Lacks b':' o.0) os
    → mount_options_parse_optional_fields (map (render_entry b':') os) ≡ ok (foldl put_valid [] os)
unfolding mount_options_parse_optional_fields
mount_options_parse_optional_fields-render os h = each-optional_field os [] h
