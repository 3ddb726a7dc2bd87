-- ===== src/Util/Parse/Limit.antt =====
-- internal/util/readfile.go: how much of a file `ReadFileNoStat` reads.
use procfs.Base.{
  ℕ, zero, suc, ◌≤◌, List, [], ◌∷◌, Bytes, String, inl, inr, ◌≡◌, refl, ap, sym, arith, take,
  length, leb, Bool-cases,
}
use procfs.Go.Files.{Files}
use procfs.Go.Result.{ok}
use procfs.Go.Scanner.{reader}
use procfs.Util.Parse.{read_file_no_stat, max_buffer_size}

take_whole : {A : Type 0} (n : ℕ) (v : List A) → length v ≤ n → take n v ≡ v
take_whole zero [] h = refl
take_whole zero (x ∷ v) h = absurd (omega arith)
take_whole (suc n) [] h = refl
take_whole (suc n) (x ∷ v) h = ap (◌∷◌ x) (take_whole n v (omega arith))

-- `ReadFileNoStat` gives the first 1024 * 1024 bytes of a file that is read without an error, and so
-- the whole file if it is not longer: there is no error for a longer one.
pub read_file_no_stat-take :
    (files : Files) (path : String) (content : Bytes)
    → files path ≡ inr (reader content)
    → read_file_no_stat files path ≡ ok (take max_buffer_size content)
unfolding read_file_no_stat
read_file_no_stat-take files path content e =
    elim (Bool-cases (leb max_buffer_size (length content))) [
      | inl long ↦ rw (e, long)
      | inr short ↦ rw (e, short) (ap ok (sym (take_whole max_buffer_size content (ground arith))))
    ]
