-- ===== src/Tests/Cgroups.antt =====
-- Control groups: instances.
use procfs.Base.{[], ◌∷◌, ◌≡◌, refl, codes, arith, map, inl, inr}
use procfs.Cgroups.RoundTrip.{GroupLine, Fits, render, group_of, parse_cgroups-render}
use procfs.Cgroups.Summaries.{
  SummaryLine, comment, controller, summaries, parse_cgroup_summary-render,
}
use procfs.Cgroups.Total.{parse_cgroups-Returns}
use procfs.Cgroups.{Cgroup, parse_cgroups, parse_cgroup_summary}
use procfs.Go.Result.{ok, Returns}
use procfs.Go.Scanner.{unlines, IsLine}
use procfs.Go.Strconv.Decimal.{format_uint}
use procfs.Go.Text.{has_prefix}

-- 4:cpu,cpuacct:/a:b
abbrev cpu_group : GroupLine
cpu_group = record {
  hierarchy = 4;
  names = codes "cpu" ∷ codes "cpuacct" ∷ [];
  path = codes "/a:b";
}

-- 0::/
abbrev unified : GroupLine
unified = record { hierarchy = 0; names = []; path = codes "/" }

cpu_group-Fits : Fits cpu_group
cpu_group-Fits = record {
  hierarchy_fits = omega arith;
  no_comma = omega arith;
  no_colon = omega arith;
  some_text = inr cc;
}

unified-Fits : Fits unified
unified-Fits = record {
  hierarchy_fits = omega arith;
  no_comma = tt;
  no_colon = tt;
  some_text = inl refl;
}

cpu_group-IsLine : IsLine (render cpu_group)
unfolding format_uint
cpu_group-IsLine = record { no_newline = omega arith; short = omega arith }

unified-IsLine : IsLine (render unified)
unfolding format_uint
unified-IsLine = record { no_newline = omega arith; short = omega arith }

parse_cgroups-render_example :
    parse_cgroups (unlines (map render (cpu_group ∷ unified ∷ [])))
    ≡ ok (map group_of (cpu_group ∷ unified ∷ []))
parse_cgroups-render_example =
    parse_cgroups-render (cpu_group ∷ unified ∷ []) (cpu_group-Fits, (unified-Fits, tt))
      (cpu_group-IsLine, (unified-IsLine, tt))

parse_cgroups-Returns_example : Returns (parse_cgroups (codes "4:cpu\n"))
parse_cgroups-Returns_example = parse_cgroups-Returns (codes "4:cpu\n")

abbrev header : SummaryLine
header = comment (codes "subsys_name\thierarchy\tnum_cgroups\tenabled")

abbrev cpuset : SummaryLine
cpuset = controller (codes "cpuset") 5 47 1

cpuset-IsLine : IsLine (procfs.Cgroups.Summaries.render cpuset)
unfolding format_uint
cpuset-IsLine = record { no_newline = omega arith; short = omega arith }

parse_cgroup_summary-render_example :
    parse_cgroup_summary (unlines (map procfs.Cgroups.Summaries.render (header ∷ cpuset ∷ [])))
    ≡ ok (summaries (header ∷ cpuset ∷ []))
unfolding has_prefix
parse_cgroup_summary-render_example =
    parse_cgroup_summary-render (header ∷ cpuset ∷ [])
      (tt, (((omega arith, cc), refl, omega arith, omega arith, omega arith), tt))
      (record { no_newline = omega arith; short = omega arith }, (cpuset-IsLine, tt))
