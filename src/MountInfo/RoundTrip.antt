-- ===== src/MountInfo/RoundTrip.antt =====
-- mountinfo.go: lines as the kernel prints them, and what the parser reads from them.
use procfs.Go.Map.{StringMap}
use procfs.Base.{
  ltb-eq-false, ℕ, ◌≤◌, ◌<◌, ◌^◌, List, [], ◌∷◌, ◌++◌, ◌≡◌, ◌≢◌, refl, true, false, arith, Bytes,
  All, none, some, map, foldl, length, length-append, ltb, bytes_eq, codes, pos, not,
}
use procfs.Go.Result.{ok, ◌!!◌}
use procfs.Go.Strconv.Decimal.{format_uint}
use procfs.Go.Strconv.Signed.{atoi-format_uint}
use procfs.Go.Text.Parts.{Lacks, join, split-join}
use procfs.MountInfo.Indices.{at_end, middle, mount_optional_fields_lem, mount_of_parts_lem}
use procfs.MountInfo.Options.{
  Entry, render_entry, put, put_valid, IsOption, render_options, mount_options_parser-render,
  mount_options_parse_optional_fields-render,
}
use procfs.MountInfo.{MountInfo, mount_options_parser, mount_of_parts, parse_mount_info_string}

-- A line of the file.
pub record MountLine : Type 0 where
  pub mount_id : ℕ
  pub parent_id : ℕ
  pub major_minor_ver : Bytes
  pub root : Bytes
  pub mount_point : Bytes
  pub options : Entry × List Entry
  pub optional_fields : List Entry
  pub fs_type : Bytes
  pub source : Bytes
  pub super_options : Entry × List Entry

abbrev option_text : Entry × List Entry → Bytes
option_text (o, os) = render_options (o ∷ os)

abbrev parts_of : MountLine → List Bytes
parts_of l =
    format_uint l.mount_id
    ∷ format_uint l.parent_id
    ∷ l.major_minor_ver
    ∷ l.root
    ∷ l.mount_point
    ∷ option_text l.options
    ∷ (map (render_entry b':') l.optional_fields
        ++ (codes "-" ∷ l.fs_type ∷ l.source ∷ option_text l.super_options ∷ []))

abbrev pub render : MountLine → Bytes
render l = join b' ' (parts_of l)

abbrev OptionsFit : Entry × List Entry → Type 0
OptionsFit (o, os) = All IsOption (o ∷ os) × All (Lacks b',') (map (render_entry b'=') (o ∷ os))

-- No part holds a space, the ids fit an int, options hold no comma and at most one equals sign, and
-- the key of an optional field is not empty and holds no colon.
pub record Fits (l : MountLine) : Type 0 where
  pub no_space : All (Lacks b' ') (parts_of l)
  pub mount_id_fits : l.mount_id < 2 ^ 63
  pub parent_id_fits : l.parent_id < 2 ^ 63
  pub options_fit : OptionsFit l.options
  pub super_options_fit : OptionsFit l.super_options
  pub fields_fit : All (λ (o : Entry). Lacks b':' o.0 × (o.0 ≢ [])) l.optional_fields

abbrev option_map : Entry × List Entry → StringMap
option_map (o, os) = foldl put [] (o ∷ os)

abbrev pub mount_of : MountLine → MountInfo
mount_of l = record {
  mount_id = pos l.mount_id;
  parent_id = pos l.parent_id;
  major_minor_ver = l.major_minor_ver;
  root = l.root;
  mount_point = l.mount_point;
  options = option_map l.options;
  optional_fields = some (foldl put_valid [] l.optional_fields);
  fs_type = l.fs_type;
  source = l.source;
  super_options = option_map l.super_options;
}

options_read :
    (x : Entry × List Entry)
    → OptionsFit x
    → mount_options_parser (option_text x) ≡ ok (option_map x)
options_read (o, os) (h, commas) = mount_options_parser-render o os h commas

-- The first part behind the options is not empty: a field, or the separator.
first_part :
    (os : List Entry) (rest : List Bytes)
    → All (λ (o : Entry). Lacks b':' o.0 × (o.0 ≢ [])) os
    → (p : Bytes) × ((map (render_entry b':') os ++ (codes "-" ∷ rest)) !! 0 ≡ ok p)
      × (not (bytes_eq p []) ≡ true)
unfolding bytes_eq
first_part [] rest h = (codes "-", refl, refl)
first_part (([], none) ∷ os) rest (h, hs) = absurd (h.1 refl)
first_part (([], some v) ∷ os) rest (h, hs) = absurd (h.1 refl)
first_part ((c ∷ k, none) ∷ os) rest h = (c ∷ k, refl, refl)
first_part ((c ∷ k, some v) ∷ os) rest h = (c ∷ (k ++ (b':' ∷ v)), refl, refl)

keys_fit :
    (os : List Entry)
    → All (λ (o : Entry). Lacks b':' o.0 × (o.0 ≢ [])) os
    → All (λ (o : Entry). Lacks b':' o.0) os
keys_fit [] h = tt
keys_fit (o ∷ os) (h, hs) = (h.0, keys_fit os hs)

mount_of_parts-parts_of : (l : MountLine) → Fits l → mount_of_parts (parts_of l) ≡ ok (mount_of l)
mount_of_parts-parts_of l h =
    let head =
      format_uint l.mount_id
      ∷ format_uint l.parent_id
      ∷ l.major_minor_ver
      ∷ l.root
      ∷ l.mount_point
      ∷ option_text l.options
      ∷ map (render_entry b':') l.optional_fields in
    let last = λ (i : ℕ) (lo : 0 < i) (hi : i ≤ 4).
      at_end head (codes "-") l.fs_type l.source (option_text l.super_options) i hi lo in
    let (p, at, some_text) =
      first_part l.optional_fields (l.fs_type ∷ l.source ∷ option_text l.super_options ∷ [])
        h.fields_fit in
    mount_of_parts_lem (parts_of l) (mount_of l) (record {
      separator = last 4 (omega arith) (omega arith);
      major_minor_ver = refl;
      root = refl;
      mount_point = refl;
      options = options_read l.options h.options_fit;
      fs_type = last 3 (omega arith) (omega arith);
      source = last 2 (omega arith) (omega arith);
      super_options =
          rw (last 1 (omega arith) (omega arith))
            (options_read l.super_options h.super_options_fit);
      mount_id = atoi-format_uint l.mount_id h.mount_id_fits;
      parent_id = atoi-format_uint l.parent_id h.parent_id_fits;
      optional_fields =
          mount_optional_fields_lem (parts_of l) p (map (render_entry b':') l.optional_fields)
            (foldl put_valid [] l.optional_fields) at some_text
            (middle (format_uint l.mount_id) (format_uint l.parent_id) l.major_minor_ver l.root
              l.mount_point (option_text l.options) (codes "-") l.fs_type l.source
              (option_text l.super_options) (map (render_entry b':') l.optional_fields))
            (mount_options_parse_optional_fields-render l.optional_fields
              (keys_fit l.optional_fields h.fields_fit));
    })

-- A line that fits is read as the mount that it describes.
pub parse_mount_info_string-render :
    (l : MountLine) → Fits l → parse_mount_info_string (render l) ≡ ok (mount_of l)
unfolding parse_mount_info_string
parse_mount_info_string-render l h =
    let enough : ltb (length (parts_of l)) 10 ≡ false = ltb-eq-false (length (parts_of l)) 10 (
      omega (
        arith,
        length-append (map (render_entry b':') l.optional_fields)
            (codes "-" ∷ l.fs_type ∷ l.source ∷ option_text l.super_options ∷ []),
      )) in
    rw (split-join b' ' (format_uint l.mount_id) _ h.no_space)
      (rw enough (mount_of_parts-parts_of l h))
