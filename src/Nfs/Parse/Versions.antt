-- ===== src/Nfs/Parse/Versions.antt =====
-- nfs/parse.go: the "proc2" and "proc3" lines.
use procfs.Base.{ℕ, List, ◌||◌, length, pos, int_of_uint64, ◌<ℤ◌, ◌!=ℤ◌}
use procfs.Go.Result.{Result, ok, errorf, ◌>>=◌, ◌>>◌, fail_if, ◌!!◌, slice}
use procfs.Nfs.Types.{V2Stats, V3Stats}

unfoldable pub v2_stats_of : List ℕ → Result V2Stats
v2_stats_of v = do
  ok (record {
    null = (← v !! 1);
    get_attr = (← v !! 2);
    set_attr = (← v !! 3);
    root = (← v !! 4);
    lookup = (← v !! 5);
    read_link = (← v !! 6);
    read = (← v !! 7);
    wr_cache = (← v !! 8);
    write = (← v !! 9);
    create = (← v !! 10);
    remove = (← v !! 11);
    rename = (← v !! 12);
    link = (← v !! 13);
    sym_link = (← v !! 14);
    mk_dir = (← v !! 15);
    rm_dir = (← v !! 16);
    read_dir = (← v !! 17);
    fs_stat = (← v !! 18);
  })

unfoldable pub parse_v2_stats : List ℕ → Result V2Stats
unfolding v2_stats_of
parse_v2_stats v = do
  v0 ← v !! 0
  let values = int_of_uint64 v0
  rest ← slice v 1 (length v)
  fail_if (pos (length rest) !=ℤ values || values <ℤ pos 18) (errorf "invalid V2Stats line %q")
  v2_stats_of v

unfoldable pub v3_stats_of : List ℕ → Result V3Stats
v3_stats_of v = do
  ok (record {
    null = (← v !! 1);
    get_attr = (← v !! 2);
    set_attr = (← v !! 3);
    lookup = (← v !! 4);
    access = (← v !! 5);
    read_link = (← v !! 6);
    read = (← v !! 7);
    write = (← v !! 8);
    create = (← v !! 9);
    mk_dir = (← v !! 10);
    sym_link = (← v !! 11);
    mk_nod = (← v !! 12);
    remove = (← v !! 13);
    rm_dir = (← v !! 14);
    rename = (← v !! 15);
    link = (← v !! 16);
    read_dir = (← v !! 17);
    read_dir_plus = (← v !! 18);
    fs_stat = (← v !! 19);
    fs_info = (← v !! 20);
    path_conf = (← v !! 21);
    commit = (← v !! 22);
  })

unfoldable pub parse_v3_stats : List ℕ → Result V3Stats
unfolding v3_stats_of
parse_v3_stats v = do
  v0 ← v !! 0
  let values = int_of_uint64 v0
  rest ← slice v 1 (length v)
  fail_if (pos (length rest) !=ℤ values || values <ℤ pos 22) (errorf "invalid V3Stats line %q")
  v3_stats_of v
