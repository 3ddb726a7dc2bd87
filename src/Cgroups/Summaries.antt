-- ===== src/Cgroups/Summaries.antt =====
-- proc_cgroups.go: a file of controllers as the kernel prints it, with comments, and what the parser
-- reads from it.
use procfs.Base.{
  ℕ, ◌^◌, ◌<◌, ◌≢◌, List, [], ◌∷◌, ◌++◌, ◌≡◌, refl, ◌∙◌, Bytes, All, map, pos, codes, false, true,
  append_assoc, append-nil,
}
use procfs.Cgroups.{
  CgroupSummary, parse_cgroup_summary_string, cgroup_summary_line, parse_cgroup_summary,
}
use procfs.Go.Result.{ok, each}
use procfs.Go.Scanner.{scan-unlines, unlines, IsLine}
use procfs.Go.Strconv.Decimal.{format_uint, format_uint-IsWord}
use procfs.Go.Strconv.Signed.{atoi-format_uint}
use procfs.Go.Text.Parts.{join}
use procfs.Go.Text.Tabs.{fields-join}
use procfs.Go.Text.Words.{IsWord}
use procfs.Go.Text.{has_prefix}

-- A line is a comment, or a controller with its hierarchy, number of groups and state.
pub data SummaryLine : Type 0 where
  comment : Bytes → SummaryLine
  controller : Bytes → ℕ → ℕ → ℕ → SummaryLine

abbrev pub render : SummaryLine → Bytes
render (comment text) = b'#' ∷ text
render (controller name hierarchy groups enabled) =
    join b'\t' (name ∷ format_uint hierarchy ∷ format_uint groups ∷ format_uint enabled ∷ [])

abbrev pub summaries : List SummaryLine → List CgroupSummary
summaries [] = []
summaries (comment text ∷ ls) = summaries ls
summaries (controller name hierarchy groups enabled ∷ ls) =
    record {
      subsys_name = name;
      hierarchy = pos hierarchy;
      cgroups = pos groups;
      enabled = pos enabled;
    }
    ∷ summaries ls

-- A name is a word that does not start with '#', and the numbers are ints.
abbrev pub Fits : SummaryLine → Type 0
Fits (comment text) = Unit
Fits (controller name hierarchy groups enabled) =
    IsWord name
    × (has_prefix name (codes "#") ≡ false)
    × (hierarchy < 2 ^ 63)
    × (groups < 2 ^ 63)
    × (enabled < 2 ^ 63)

parse_cgroup_summary_string-render :
    (name : Bytes) (h g e : ℕ)
    → IsWord name
    → h < 2 ^ 63
    → g < 2 ^ 63
    → e < 2 ^ 63
    → parse_cgroup_summary_string (render (controller name h g e))
      ≡ ok (record { subsys_name = name; hierarchy = pos h; cgroups = pos g; enabled = pos e })
unfolding parse_cgroup_summary_string
parse_cgroup_summary_string-render name h g e word fit_h fit_g fit_e =
    rw
      (fields-join (name ∷ format_uint h ∷ format_uint g ∷ format_uint e ∷ [])
        (word, (format_uint-IsWord h, (format_uint-IsWord g, (format_uint-IsWord e, tt)))))
      (rw (atoi-format_uint h fit_h, atoi-format_uint g fit_g, atoi-format_uint e fit_e))

has_prefix_name :
    (name rest : Bytes)
    → name ≢ []
    → has_prefix name (codes "#") ≡ false
    → has_prefix (name ++ rest) (codes "#") ≡ false
unfolding has_prefix
has_prefix_name [] rest h k = absurd (h refl)
has_prefix_name (c ∷ name) rest h k = k

has_prefix_comment : (text : Bytes) → has_prefix (b'#' ∷ text) (codes "#") ≡ true
unfolding has_prefix
has_prefix_comment text = refl

each-render :
    (ls : List SummaryLine) (acc : List CgroupSummary)
    → All Fits ls
    → each cgroup_summary_line acc (map render ls) ≡ ok (acc ++ summaries ls)
unfolding each cgroup_summary_line
each-render [] acc h = rw append-nil
each-render (comment text ∷ ls) acc (_, hs) = rw (has_prefix_comment text) (each-render ls acc hs)
each-render (controller name h g e ∷ ls) acc ((word, other, fit_h, fit_g, fit_e), hs) =
    rw (has_prefix_name name _ word.1 other) (
      rw (parse_cgroup_summary_string-render name h g e word fit_h fit_g fit_e)
        (each-render ls _ hs ∙ rw append_assoc))

-- A file of printed lines that fit (`Fits`), each of them a line of the scanner (`IsLine`), is read as
-- the summaries of its controllers, in order, wherever comments stand.
pub parse_cgroup_summary-render :
    (ls : List SummaryLine)
    → All Fits ls
    → All IsLine (map render ls)
    → parse_cgroup_summary (unlines (map render ls)) ≡ ok (summaries ls)
unfolding parse_cgroup_summary
parse_cgroup_summary-render ls h lines =
    rw (scan-unlines (map render ls) lines) (rw (each-render ls [] h))
