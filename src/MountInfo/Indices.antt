-- ===== src/MountInfo/Indices.antt =====
-- The parser of a mountinfo line by the parts at the indices that it reads.
use procfs.Go.Map.{StringMap}
use procfs.Base.{
  ℤ, ℕ, suc, ◌+◌, ◌-◌, ◌≤◌, ◌<◌, List, [], ◌∷◌, ◌++◌, ◌≡◌, refl, ap, true, arith, Bytes, some,
  length, length-append, leb, bytes_eq, codes, take, not, ◌&&◌,
}
use procfs.Go.Result.{replacing, wrap, file_parse, Error, >>=-eq-ok, ok, ◌>>=◌, ◌!!◌, slice}
use procfs.Go.Strconv.{atoi}
use procfs.MountInfo.{
  MountInfo, mount_options_parser, mount_options_parse_optional_fields, mount_optional_fields,
  mount_of_parts,
}

!!-append : (xs ys : List Bytes) (i : ℕ) → (xs ++ ys) !! (length xs + i) ≡ ys !! i
!!-append [] ys i = let e : 0 + i ≡ i = omega arith in rw e
!!-append (x ∷ xs) ys i =
    let e : suc (length xs) + i ≡ suc (length xs + i) = omega arith in rw e (!!-append xs ys i)

take-append : (xs ys : List Bytes) → take (length xs) (xs ++ ys) ≡ xs
take-append [] ys = refl
take-append (x ∷ xs) ys = ap (◌∷◌ x) (take-append xs ys)

-- The last four parts, read from the end.
pub at_end :
    (xs : List Bytes) (a b c d : Bytes) (i : ℕ)
    → i ≤ 4
    → 0 < i
    → (xs ++ (a ∷ b ∷ c ∷ d ∷ [])) !! (length (xs ++ (a ∷ b ∷ c ∷ d ∷ [])) - i)
      ≡ (a ∷ b ∷ c ∷ d ∷ []) !! (4 - i)
at_end xs a b c d i h k =
    let e : length (xs ++ (a ∷ b ∷ c ∷ d ∷ [])) - i ≡ length xs + (4 - i) =
      omega (arith, length-append xs (a ∷ b ∷ c ∷ d ∷ [])) in
    rw e (!!-append xs (a ∷ b ∷ c ∷ d ∷ []) (4 - i))

-- The parts between the options and the separator.
pub middle :
    (p0 p1 p2 p3 p4 p5 a b c d : Bytes) (tags : List Bytes)
    → (let v = p0 ∷ p1 ∷ p2 ∷ p3 ∷ p4 ∷ p5 ∷ (tags ++ (a ∷ b ∷ c ∷ d ∷ [])) in
        slice v 6 (length v - 4) ≡ ok tags)
middle p0 p1 p2 p3 p4 p5 a b c d tags =
    let rest = tags ++ (a ∷ b ∷ c ∷ d ∷ []) in
    let whole = suc (suc (suc (suc (suc (suc (length rest)))))) in
    let len : length rest ≡ length tags + 4 = length-append tags (a ∷ b ∷ c ∷ d ∷ []) in
    let within : (leb 6 (whole - 4) && leb (whole - 4) whole) ≡ true = ground arith in
    let e : whole - 4 - 6 ≡ length tags = omega arith in
    rw within (rw e (ap ok (take-append tags (a ∷ b ∷ c ∷ d ∷ []))))

-- Each step of the parser, for a list of parts that is known by what stands at the indices read.
pub mount_optional_fields_lem :
    (v : List Bytes) (p : Bytes) (o : List Bytes) (m : StringMap)
    → v !! 6 ≡ ok p
    → not (bytes_eq p []) ≡ true
    → slice v 6 (length v - 4) ≡ ok o
    → mount_options_parse_optional_fields o ≡ ok m
    → mount_optional_fields v ≡ ok (some m)
unfolding mount_optional_fields
mount_optional_fields_lem v p o m at some_text sliced read =
    rw at (rw some_text (rw sliced (rw read)))

module _ (v : List Bytes) (r : MountInfo) where
  pub record Reads : Type 0 where
    pub separator : v !! (length v - 4) ≡ ok (codes "-")
    pub major_minor_ver : v !! 2 ≡ ok r.major_minor_ver
    pub root : v !! 3 ≡ ok r.root
    pub mount_point : v !! 4 ≡ ok r.mount_point
    pub options : (do o ← v !! 5; mount_options_parser o) ≡ ok r.options
    pub fs_type : v !! (length v - 3) ≡ ok r.fs_type
    pub source : v !! (length v - 2) ≡ ok r.source
    pub super_options : (do o ← v !! (length v - 1); mount_options_parser o) ≡ ok r.super_options
    pub mount_id : (do s ← v !! 0; atoi s) ≡ ok r.mount_id
    pub parent_id : (do s ← v !! 1; atoi s) ≡ ok r.parent_id
    pub optional_fields : mount_optional_fields v ≡ ok r.optional_fields

  replaced :
      (i : ℕ) (e : Error) (n : ℤ)
      → (do s ← v !! i; atoi s) ≡ ok n
      → (do s ← v !! i; replacing e (atoi s)) ≡ ok n
  replaced i e n h = let (s, at, read) = >>=-eq-ok (v !! i) atoi h in rw at (rw read)

  pub mount_of_parts_lem : Reads → mount_of_parts v ≡ ok r
  unfolding mount_of_parts bytes_eq
  mount_of_parts_lem h =
      rw (h.separator, h.major_minor_ver, h.root, h.mount_point)
        (rw (h.options, h.fs_type, h.source)
          (rw h.super_options (
            rw (replaced 0 (wrap "%w: mount ID: %q" file_parse) r.mount_id h.mount_id) (
              rw (replaced 1 (wrap "%w: parent ID: %q" file_parse) r.parent_id h.parent_id)
                (rw h.optional_fields)))))
