-- ===== src/Nfs/Types/ClientV4.antt =====
-- nfs/nfs.go: the records of the "proc4" line of a client, their zero values, and their
-- numbers in the order in which the kernel prints them.
use procfs.Base.{ℕ, List, [], ◌∷◌}

pub record ClientV4Stats : Type 0 where
  pub null : ℕ
  pub read : ℕ
  pub write : ℕ
  pub commit : ℕ
  pub «open» : ℕ
  pub open_confirm : ℕ
  pub open_noattr : ℕ
  pub open_downgrade : ℕ
  pub close : ℕ
  pub setattr : ℕ
  pub fs_info : ℕ
  pub renew : ℕ
  pub set_client_id : ℕ
  pub set_client_id_confirm : ℕ
  pub lock : ℕ
  pub lockt : ℕ
  pub locku : ℕ
  pub access : ℕ
  pub getattr : ℕ
  pub lookup : ℕ
  pub lookup_root : ℕ
  pub remove : ℕ
  pub rename : ℕ
  pub link : ℕ
  pub symlink : ℕ
  pub create : ℕ
  pub pathconf : ℕ
  pub stat_fs : ℕ
  pub read_link : ℕ
  pub read_dir : ℕ
  pub server_caps : ℕ
  pub deleg_return : ℕ
  pub get_acl : ℕ
  pub set_acl : ℕ
  pub fs_locations : ℕ
  pub release_lockowner : ℕ
  pub secinfo : ℕ
  pub fsid_present : ℕ
  pub exchange_id : ℕ
  pub create_session : ℕ
  pub destroy_session : ℕ
  pub sequence : ℕ
  pub get_lease_time : ℕ
  pub reclaim_complete : ℕ
  pub layout_get : ℕ
  pub get_device_info : ℕ
  pub layout_commit : ℕ
  pub layout_return : ℕ
  pub secinfo_no_name : ℕ
  pub test_state_id : ℕ
  pub free_state_id : ℕ
  pub get_device_list : ℕ
  pub bind_conn_to_session : ℕ
  pub destroy_client_id : ℕ
  pub seek : ℕ
  pub allocate : ℕ
  pub de_allocate : ℕ
  pub layout_stats : ℕ
  pub clone : ℕ

abbrev pub zero_client_v4_stats : ClientV4Stats
zero_client_v4_stats = record {
  null = 0;
  read = 0;
  write = 0;
  commit = 0;
  «open» = 0;
  open_confirm = 0;
  open_noattr = 0;
  open_downgrade = 0;
  close = 0;
  setattr = 0;
  fs_info = 0;
  renew = 0;
  set_client_id = 0;
  set_client_id_confirm = 0;
  lock = 0;
  lockt = 0;
  locku = 0;
  access = 0;
  getattr = 0;
  lookup = 0;
  lookup_root = 0;
  remove = 0;
  rename = 0;
  link = 0;
  symlink = 0;
  create = 0;
  pathconf = 0;
  stat_fs = 0;
  read_link = 0;
  read_dir = 0;
  server_caps = 0;
  deleg_return = 0;
  get_acl = 0;
  set_acl = 0;
  fs_locations = 0;
  release_lockowner = 0;
  secinfo = 0;
  fsid_present = 0;
  exchange_id = 0;
  create_session = 0;
  destroy_session = 0;
  sequence = 0;
  get_lease_time = 0;
  reclaim_complete = 0;
  layout_get = 0;
  get_device_info = 0;
  layout_commit = 0;
  layout_return = 0;
  secinfo_no_name = 0;
  test_state_id = 0;
  free_state_id = 0;
  get_device_list = 0;
  bind_conn_to_session = 0;
  destroy_client_id = 0;
  seek = 0;
  allocate = 0;
  de_allocate = 0;
  layout_stats = 0;
  clone = 0;
}

abbrev pub client_v4_stats_values : ClientV4Stats → List ℕ
client_v4_stats_values x =
    x.null ∷ x.read ∷ x.write ∷ x.commit ∷ x.«open» ∷ x.open_confirm ∷ x.open_noattr
    ∷ x.open_downgrade ∷ x.close ∷ x.setattr ∷ x.fs_info ∷ x.renew ∷ x.set_client_id
    ∷ x.set_client_id_confirm ∷ x.lock ∷ x.lockt ∷ x.locku ∷ x.access ∷ x.getattr ∷ x.lookup
    ∷ x.lookup_root ∷ x.remove ∷ x.rename ∷ x.link ∷ x.symlink ∷ x.create ∷ x.pathconf ∷ x.stat_fs
    ∷ x.read_link ∷ x.read_dir ∷ x.server_caps ∷ x.deleg_return ∷ x.get_acl ∷ x.set_acl
    ∷ x.fs_locations ∷ x.release_lockowner ∷ x.secinfo ∷ x.fsid_present ∷ x.exchange_id
    ∷ x.create_session ∷ x.destroy_session ∷ x.sequence ∷ x.get_lease_time ∷ x.reclaim_complete
    ∷ x.get_device_info ∷ x.layout_get ∷ x.layout_commit ∷ x.layout_return ∷ x.secinfo_no_name
    ∷ x.test_state_id ∷ x.free_state_id ∷ x.get_device_list ∷ x.bind_conn_to_session
    ∷ x.destroy_client_id ∷ x.seek ∷ x.allocate ∷ x.de_allocate ∷ x.layout_stats ∷ x.clone ∷ []
