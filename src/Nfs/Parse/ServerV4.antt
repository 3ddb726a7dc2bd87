-- ===== src/Nfs/Parse/ServerV4.antt =====
-- nfs/parse.go: the "proc4" and "proc4ops" lines of a server.
use procfs.Base.{ℕ, List, ◌||◌, length, if◌then◌else◌, pos, int_of_uint64, ◌<ℤ◌, ◌!=ℤ◌}
use procfs.Go.Result.{Result, ok, errorf, ◌>>=◌, ◌>>◌, fail_if, ◌!!◌, slice}
use procfs.Nfs.Types.{ServerV4Stats, V4Ops}

unfoldable pub server_v4_stats_of : List ℕ → Result ServerV4Stats
server_v4_stats_of v = do ok (record { null = (← v !! 1); compound = (← v !! 2) })

unfoldable pub parse_server_v4_stats : List ℕ → Result ServerV4Stats
unfolding server_v4_stats_of
parse_server_v4_stats v = do
  v0 ← v !! 0
  let values = int_of_uint64 v0
  rest ← slice v 1 (length v)
  fail_if (pos (length rest) !=ℤ values || values !=ℤ pos 2) (errorf "invalid V4Stats line %q")
  server_v4_stats_of v

-- The literal of `parseV4Ops`, with its last field.
unfoldable pub v4_ops_of : List ℕ → ℕ → Result V4Ops
v4_ops_of v v40 = do
  ok (record {
    op0_unused = (← v !! 1);
    op1_unused = (← v !! 2);
    op2_future = (← v !! 3);
    access = (← v !! 4);
    close = (← v !! 5);
    commit = (← v !! 6);
    create = (← v !! 7);
    deleg_purge = (← v !! 8);
    deleg_return = (← v !! 9);
    get_attr = (← v !! 10);
    get_fh = (← v !! 11);
    link = (← v !! 12);
    lock = (← v !! 13);
    lockt = (← v !! 14);
    locku = (← v !! 15);
    lookup = (← v !! 16);
    lookup_root = (← v !! 17);
    nverify = (← v !! 18);
    «open» = (← v !! 19);
    open_attr = (← v !! 20);
    open_confirm = (← v !! 21);
    open_dgrd = (← v !! 22);
    put_fh = (← v !! 23);
    put_pub_fh = (← v !! 24);
    put_root_fh = (← v !! 25);
    read = (← v !! 26);
    read_dir = (← v !! 27);
    read_link = (← v !! 28);
    remove = (← v !! 29);
    rename = (← v !! 30);
    renew = (← v !! 31);
    restore_fh = (← v !! 32);
    save_fh = (← v !! 33);
    sec_info = (← v !! 34);
    set_attr = (← v !! 35);
    set_client_id = (← v !! 36);
    set_client_id_confirm = (← v !! 37);
    verify = (← v !! 38);
    write = (← v !! 39);
    rel_lock_owner = v40;
  })

unfoldable pub parse_v4_ops : List ℕ → Result V4Ops
unfolding v4_ops_of
parse_v4_ops v = do
  v0 ← v !! 0
  let values = int_of_uint64 v0
  rest ← slice v 1 (length v)
  fail_if (pos (length rest) !=ℤ values || values <ℤ pos 39) (errorf "invalid V4Ops line %q")
  v40 ← if pos 39 <ℤ values then v !! 40 else ok 0
  v4_ops_of v v40
