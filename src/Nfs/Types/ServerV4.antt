-- ===== src/Nfs/Types/ServerV4.antt =====
-- nfs/nfs.go: the records of the "proc4" and "proc4ops" lines of a server, their zero values, and their
-- numbers in the order in which the kernel prints them.
use procfs.Base.{ℕ, List, [], ◌∷◌}

pub record ServerV4Stats : Type 0 where
  pub null : ℕ
  pub compound : ℕ

abbrev pub zero_server_v4_stats : ServerV4Stats
zero_server_v4_stats = record { null = 0; compound = 0 }

abbrev pub server_v4_stats_values : ServerV4Stats → List ℕ
server_v4_stats_values x = x.null ∷ x.compound ∷ []

pub record V4Ops : Type 0 where
  pub op0_unused : ℕ
  pub op1_unused : ℕ
  pub op2_future : ℕ
  pub access : ℕ
  pub close : ℕ
  pub commit : ℕ
  pub create : ℕ
  pub deleg_purge : ℕ
  pub deleg_return : ℕ
  pub get_attr : ℕ
  pub get_fh : ℕ
  pub link : ℕ
  pub lock : ℕ
  pub lockt : ℕ
  pub locku : ℕ
  pub lookup : ℕ
  pub lookup_root : ℕ
  pub nverify : ℕ
  pub «open» : ℕ
  pub open_attr : ℕ
  pub open_confirm : ℕ
  pub open_dgrd : ℕ
  pub put_fh : ℕ
  pub put_pub_fh : ℕ
  pub put_root_fh : ℕ
  pub read : ℕ
  pub read_dir : ℕ
  pub read_link : ℕ
  pub remove : ℕ
  pub rename : ℕ
  pub renew : ℕ
  pub restore_fh : ℕ
  pub save_fh : ℕ
  pub sec_info : ℕ
  pub set_attr : ℕ
  pub set_client_id : ℕ
  pub set_client_id_confirm : ℕ
  pub verify : ℕ
  pub write : ℕ
  pub rel_lock_owner : ℕ

abbrev pub zero_v4_ops : V4Ops
zero_v4_ops = record {
  op0_unused = 0;
  op1_unused = 0;
  op2_future = 0;
  access = 0;
  close = 0;
  commit = 0;
  create = 0;
  deleg_purge = 0;
  deleg_return = 0;
  get_attr = 0;
  get_fh = 0;
  link = 0;
  lock = 0;
  lockt = 0;
  locku = 0;
  lookup = 0;
  lookup_root = 0;
  nverify = 0;
  «open» = 0;
  open_attr = 0;
  open_confirm = 0;
  open_dgrd = 0;
  put_fh = 0;
  put_pub_fh = 0;
  put_root_fh = 0;
  read = 0;
  read_dir = 0;
  read_link = 0;
  remove = 0;
  rename = 0;
  renew = 0;
  restore_fh = 0;
  save_fh = 0;
  sec_info = 0;
  set_attr = 0;
  set_client_id = 0;
  set_client_id_confirm = 0;
  verify = 0;
  write = 0;
  rel_lock_owner = 0;
}

abbrev pub v4_ops_values : V4Ops → List ℕ
v4_ops_values x =
    x.op0_unused ∷ x.op1_unused ∷ x.op2_future ∷ x.access ∷ x.close ∷ x.commit ∷ x.create
    ∷ x.deleg_purge ∷ x.deleg_return ∷ x.get_attr ∷ x.get_fh ∷ x.link ∷ x.lock ∷ x.lockt ∷ x.locku
    ∷ x.lookup ∷ x.lookup_root ∷ x.nverify ∷ x.«open» ∷ x.open_attr ∷ x.open_confirm ∷ x.open_dgrd
    ∷ x.put_fh ∷ x.put_pub_fh ∷ x.put_root_fh ∷ x.read ∷ x.read_dir ∷ x.read_link ∷ x.remove
    ∷ x.rename ∷ x.renew ∷ x.restore_fh ∷ x.save_fh ∷ x.sec_info ∷ x.set_attr ∷ x.set_client_id
    ∷ x.set_client_id_confirm ∷ x.verify ∷ x.write ∷ x.rel_lock_owner ∷ []
