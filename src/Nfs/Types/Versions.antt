-- ===== src/Nfs/Types/Versions.antt =====
-- nfs/nfs.go: the records of the "proc2" and "proc3" lines, their zero values, and their
-- numbers in the order in which the kernel prints them.
use procfs.Base.{ℕ, List, [], ◌∷◌}

pub record V2Stats : Type 0 where
  pub null : ℕ
  pub get_attr : ℕ
  pub set_attr : ℕ
  pub root : ℕ
  pub lookup : ℕ
  pub read_link : ℕ
  pub read : ℕ
  pub wr_cache : ℕ
  pub write : ℕ
  pub create : ℕ
  pub remove : ℕ
  pub rename : ℕ
  pub link : ℕ
  pub sym_link : ℕ
  pub mk_dir : ℕ
  pub rm_dir : ℕ
  pub read_dir : ℕ
  pub fs_stat : ℕ

abbrev pub zero_v2_stats : V2Stats
zero_v2_stats = record {
  null = 0;
  get_attr = 0;
  set_attr = 0;
  root = 0;
  lookup = 0;
  read_link = 0;
  read = 0;
  wr_cache = 0;
  write = 0;
  create = 0;
  remove = 0;
  rename = 0;
  link = 0;
  sym_link = 0;
  mk_dir = 0;
  rm_dir = 0;
  read_dir = 0;
  fs_stat = 0;
}

abbrev pub v2_stats_values : V2Stats → List ℕ
v2_stats_values x =
    x.null ∷ x.get_attr ∷ x.set_attr ∷ x.root ∷ x.lookup ∷ x.read_link ∷ x.read ∷ x.wr_cache
    ∷ x.write ∷ x.create ∷ x.remove ∷ x.rename ∷ x.link ∷ x.sym_link ∷ x.mk_dir ∷ x.rm_dir
    ∷ x.read_dir ∷ x.fs_stat ∷ []

pub record V3Stats : Type 0 where
  pub null : ℕ
  pub get_attr : ℕ
  pub set_attr : ℕ
  pub lookup : ℕ
  pub access : ℕ
  pub read_link : ℕ
  pub read : ℕ
  pub write : ℕ
  pub create : ℕ
  pub mk_dir : ℕ
  pub sym_link : ℕ
  pub mk_nod : ℕ
  pub remove : ℕ
  pub rm_dir : ℕ
  pub rename : ℕ
  pub link : ℕ
  pub read_dir : ℕ
  pub read_dir_plus : ℕ
  pub fs_stat : ℕ
  pub fs_info : ℕ
  pub path_conf : ℕ
  pub commit : ℕ

abbrev pub zero_v3_stats : V3Stats
zero_v3_stats = record {
  null = 0;
  get_attr = 0;
  set_attr = 0;
  lookup = 0;
  access = 0;
  read_link = 0;
  read = 0;
  write = 0;
  create = 0;
  mk_dir = 0;
  sym_link = 0;
  mk_nod = 0;
  remove = 0;
  rm_dir = 0;
  rename = 0;
  link = 0;
  read_dir = 0;
  read_dir_plus = 0;
  fs_stat = 0;
  fs_info = 0;
  path_conf = 0;
  commit = 0;
}

abbrev pub v3_stats_values : V3Stats → List ℕ
v3_stats_values x =
    x.null ∷ x.get_attr ∷ x.set_attr ∷ x.lookup ∷ x.access ∷ x.read_link ∷ x.read ∷ x.write
    ∷ x.create ∷ x.mk_dir ∷ x.sym_link ∷ x.mk_nod ∷ x.remove ∷ x.rm_dir ∷ x.rename ∷ x.link
    ∷ x.read_dir ∷ x.read_dir_plus ∷ x.fs_stat ∷ x.fs_info ∷ x.path_conf ∷ x.commit ∷ []
