-- ===== src/Cgroups/RoundTrip.antt =====
-- proc_cgroup.go: a file of control groups as the kernel prints it, and what the parser reads from it.
use procfs.Base.{
  ℕ, ◌^◌, ◌<◌, ◌≢◌, List, [], ◌∷◌, ◌++◌, ◌≡◌, refl, ap, arith, Bytes, All, map, pos, bytes_eq,
  Bool-cases, bytes_eq_iff, if◌then◌else◌, ◌⊎◌, inl, inr,
}
use procfs.Cgroups.{Cgroup, parse_cgroup_string, parse_cgroups}
use procfs.Go.Result.{ok}
use procfs.Go.Scanner.{scan-unlines, unlines, IsLine}
use procfs.Go.Strconv.Decimal.{format_uint}
use procfs.Go.Strconv.Signed.{IsDigit, decimal-IsDigit, atoi-format_uint}
use procfs.Go.Text.Parts.{Lacks, join, split-join, split_two_at}
use procfs.Go.Text.{split, split_three}
use procfs.Util.Parse.Slices.{AllParse, collect_iff}

-- A line: the number of the hierarchy, the names of its controllers and the path of the group.
pub record GroupLine : Type 0 where
  pub hierarchy : ℕ
  pub names : List Bytes
  pub path : Bytes

abbrev pub group_of : GroupLine → Cgroup
group_of l = record { hierarchy_id = pos l.hierarchy; controllers = l.names; path = l.path }

abbrev pub render : GroupLine → Bytes
render l = format_uint l.hierarchy ++ (b':' ∷ (join b',' l.names ++ (b':' ∷ l.path)))

-- The number is an int, the names have no comma, and are printed as a text without
-- colon that is empty only if there are none. The path may hold colons.
pub record Fits (l : GroupLine) : Type 0 where
  pub hierarchy_fits : l.hierarchy < 2 ^ 63
  pub no_comma : All (Lacks b',') l.names
  pub no_colon : Lacks b':' (join b',' l.names)
  pub some_text : (l.names ≡ []) ⊎ (join b',' l.names ≢ [])

digits-Lacks : (s : Bytes) → All IsDigit s → Lacks b':' s
digits-Lacks [] h = tt
digits-Lacks (c ∷ s) (h, hs) = (omega arith, digits-Lacks s hs)

split_three_at :
    (p q rest : Bytes)
    → Lacks b':' p
    → Lacks b':' q
    → split_three (p ++ (b':' ∷ (q ++ (b':' ∷ rest)))) b':' ≡ p ∷ q ∷ rest ∷ []
unfolding split_three
split_three_at p q rest hp hq =
    rw (split_three, split_two_at b':' p (q ++ (b':' ∷ rest)) hp)
      (ap (◌∷◌ p) (split_two_at b':' q rest hq))

names_read :
    (names : List Bytes)
    → All (Lacks b',') names
    → (names ≡ []) ⊎ (join b',' names ≢ [])
    → (if bytes_eq (join b',' names) [] then [] else split (join b',' names) b',') ≡ names
unfolding bytes_eq
names_read [] h k = refl
names_read (n ∷ ns) h (inl e) = cc
names_read (n ∷ ns) h (inr some_text) = elim (Bool-cases (bytes_eq (join b',' (n ∷ ns)) [])) [
  | inl e ↦ absurd (some_text ((bytes_eq_iff (join b',' (n ∷ ns)) []).0 e))
  | inr e ↦ rw e (split-join b',' n ns h)
]

-- A line that fits is read as its group.
pub parse_cgroup_string-render :
    (l : GroupLine) → Fits l → parse_cgroup_string (render l) ≡ ok (group_of l)
unfolding parse_cgroup_string format_uint
parse_cgroup_string-render l h =
    rw
      (split_three_at (format_uint l.hierarchy) (join b',' l.names) l.path
        (digits-Lacks _ (decimal-IsDigit 20 l.hierarchy)) h.no_colon)
      (rw (atoi-format_uint l.hierarchy h.hierarchy_fits)
        (rw (names_read l.names h.no_comma h.some_text)))

AllParse-render :
    (ls : List GroupLine)
    → All Fits ls
    → AllParse parse_cgroup_string (map render ls) (map group_of ls)
AllParse-render [] h = tt
AllParse-render (l ∷ ls) (h, hs) = (parse_cgroup_string-render l h, AllParse-render ls hs)

-- A file of printed lines that fit (`Fits`), each of them a line of the scanner (`IsLine`), is read as
-- the groups of the lines, in order; a path may hold colons, and no names are read as no controllers.
pub parse_cgroups-render :
    (ls : List GroupLine)
    → All Fits ls
    → All IsLine (map render ls)
    → parse_cgroups (unlines (map render ls)) ≡ ok (map group_of ls)
unfolding parse_cgroups
parse_cgroups-render ls h lines = rw (scan-unlines (map render ls) lines) (
    rw (
      (collect_iff parse_cgroup_string (map group_of ls) (map render ls)).1 (AllParse-render ls h)))
