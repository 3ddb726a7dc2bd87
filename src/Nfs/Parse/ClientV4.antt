-- ===== src/Nfs/Parse/ClientV4.antt =====
-- nfs/parse.go: the "proc4" line of a client.
use procfs.Base.{
  ℕ, ℤ, List, length, replicate, if◌then◌else◌, pos, int_of_uint64, ◌<ℤ◌, ◌!=ℤ◌, copy,
}
use procfs.Go.Result.{Result, ok, errorf, ◌>>=◌, ◌>>◌, fail_if, ◌!!◌, slice}
use procfs.Nfs.Types.{ClientV4Stats}

unfoldable pub client_v4_stats_of : List ℕ → Result ClientV4Stats
client_v4_stats_of v = do
  ok (record {
    null = (← v !! 1);
    read = (← v !! 2);
    write = (← v !! 3);
    commit = (← v !! 4);
    «open» = (← v !! 5);
    open_confirm = (← v !! 6);
    open_noattr = (← v !! 7);
    open_downgrade = (← v !! 8);
    close = (← v !! 9);
    setattr = (← v !! 10);
    fs_info = (← v !! 11);
    renew = (← v !! 12);
    set_client_id = (← v !! 13);
    set_client_id_confirm = (← v !! 14);
    lock = (← v !! 15);
    lockt = (← v !! 16);
    locku = (← v !! 17);
    access = (← v !! 18);
    getattr = (← v !! 19);
    lookup = (← v !! 20);
    lookup_root = (← v !! 21);
    remove = (← v !! 22);
    rename = (← v !! 23);
    link = (← v !! 24);
    symlink = (← v !! 25);
    create = (← v !! 26);
    pathconf = (← v !! 27);
    stat_fs = (← v !! 28);
    read_link = (← v !! 29);
    read_dir = (← v !! 30);
    server_caps = (← v !! 31);
    deleg_return = (← v !! 32);
    get_acl = (← v !! 33);
    set_acl = (← v !! 34);
    fs_locations = (← v !! 35);
    release_lockowner = (← v !! 36);
    secinfo = (← v !! 37);
    fsid_present = (← v !! 38);
    exchange_id = (← v !! 39);
    create_session = (← v !! 40);
    destroy_session = (← v !! 41);
    sequence = (← v !! 42);
    get_lease_time = (← v !! 43);
    reclaim_complete = (← v !! 44);
    get_device_info = (← v !! 45);
    layout_get = (← v !! 46);
    layout_commit = (← v !! 47);
    layout_return = (← v !! 48);
    secinfo_no_name = (← v !! 49);
    test_state_id = (← v !! 50);
    free_state_id = (← v !! 51);
    get_device_list = (← v !! 52);
    bind_conn_to_session = (← v !! 53);
    destroy_client_id = (← v !! 54);
    seek = (← v !! 55);
    allocate = (← v !! 56);
    de_allocate = (← v !! 57);
    layout_stats = (← v !! 58);
    clone = (← v !! 59);
  })

-- The values of an older kernel, padded to the expected number.
unfoldable pub pad_v4 : ℤ → List ℕ → List ℕ
pad_v4 values v = if values <ℤ pos 59 then copy (replicate 60 0) v else v

unfoldable pub parse_client_v4_stats : List ℕ → Result ClientV4Stats
unfolding client_v4_stats_of
parse_client_v4_stats v = do
  v0 ← v !! 0
  let values = int_of_uint64 v0
  rest ← slice v 1 (length v)
  fail_if (pos (length rest) !=ℤ values) (errorf "invalid ClientV4Stats line %q")
  client_v4_stats_of (pad_v4 values v)
