-- ===== src/Xfs/Types/Btrees.antt =====
-- xfs/xfs.go: the records of the second versions of the B-trees, their zero values, and
-- their numbers in the order in which the kernel prints them.
use procfs.Base.{ℕ, List, [], ◌∷◌}

pub record BtreeAllocBlocks2Stats : Type 0 where
  pub lookup : ℕ
  pub compare : ℕ
  pub insrec : ℕ
  pub delrec : ℕ
  pub new_root : ℕ
  pub kill_root : ℕ
  pub increment : ℕ
  pub decrement : ℕ
  pub lshift : ℕ
  pub rshift : ℕ
  pub split : ℕ
  pub join : ℕ
  pub alloc : ℕ
  pub free : ℕ
  pub moves : ℕ

abbrev pub zero_btree_alloc_blocks2_stats : BtreeAllocBlocks2Stats
zero_btree_alloc_blocks2_stats = record {
  lookup = 0;
  compare = 0;
  insrec = 0;
  delrec = 0;
  new_root = 0;
  kill_root = 0;
  increment = 0;
  decrement = 0;
  lshift = 0;
  rshift = 0;
  split = 0;
  join = 0;
  alloc = 0;
  free = 0;
  moves = 0;
}

abbrev pub btree_alloc_blocks2_stats_values : BtreeAllocBlocks2Stats → List ℕ
btree_alloc_blocks2_stats_values x =
    x.lookup ∷ x.compare ∷ x.insrec ∷ x.delrec ∷ x.new_root ∷ x.kill_root ∷ x.increment
    ∷ x.decrement ∷ x.lshift ∷ x.rshift ∷ x.split ∷ x.join ∷ x.alloc ∷ x.free ∷ x.moves ∷ []

pub record BtreeAllocContig2Stats : Type 0 where
  pub lookup : ℕ
  pub compare : ℕ
  pub insrec : ℕ
  pub delrec : ℕ
  pub new_root : ℕ
  pub kill_root : ℕ
  pub increment : ℕ
  pub decrement : ℕ
  pub lshift : ℕ
  pub rshift : ℕ
  pub split : ℕ
  pub join : ℕ
  pub alloc : ℕ
  pub free : ℕ
  pub moves : ℕ

abbrev pub zero_btree_alloc_contig2_stats : BtreeAllocContig2Stats
zero_btree_alloc_contig2_stats = record {
  lookup = 0;
  compare = 0;
  insrec = 0;
  delrec = 0;
  new_root = 0;
  kill_root = 0;
  increment = 0;
  decrement = 0;
  lshift = 0;
  rshift = 0;
  split = 0;
  join = 0;
  alloc = 0;
  free = 0;
  moves = 0;
}

abbrev pub btree_alloc_contig2_stats_values : BtreeAllocContig2Stats → List ℕ
btree_alloc_contig2_stats_values x =
    x.lookup ∷ x.compare ∷ x.insrec ∷ x.delrec ∷ x.new_root ∷ x.kill_root ∷ x.increment
    ∷ x.decrement ∷ x.lshift ∷ x.rshift ∷ x.split ∷ x.join ∷ x.alloc ∷ x.free ∷ x.moves ∷ []

pub record BtreeBlockMap2Stats : Type 0 where
  pub lookup : ℕ
  pub compare : ℕ
  pub insrec : ℕ
  pub delrec : ℕ
  pub new_root : ℕ
  pub kill_root : ℕ
  pub increment : ℕ
  pub decrement : ℕ
  pub lshift : ℕ
  pub rshift : ℕ
  pub split : ℕ
  pub join : ℕ
  pub alloc : ℕ
  pub free : ℕ
  pub moves : ℕ

abbrev pub zero_btree_block_map2_stats : BtreeBlockMap2Stats
zero_btree_block_map2_stats = record {
  lookup = 0;
  compare = 0;
  insrec = 0;
  delrec = 0;
  new_root = 0;
  kill_root = 0;
  increment = 0;
  decrement = 0;
  lshift = 0;
  rshift = 0;
  split = 0;
  join = 0;
  alloc = 0;
  free = 0;
  moves = 0;
}

abbrev pub btree_block_map2_stats_values : BtreeBlockMap2Stats → List ℕ
btree_block_map2_stats_values x =
    x.lookup ∷ x.compare ∷ x.insrec ∷ x.delrec ∷ x.new_root ∷ x.kill_root ∷ x.increment
    ∷ x.decrement ∷ x.lshift ∷ x.rshift ∷ x.split ∷ x.join ∷ x.alloc ∷ x.free ∷ x.moves ∷ []

pub record BtreeInode2Stats : Type 0 where
  pub lookup : ℕ
  pub compare : ℕ
  pub insrec : ℕ
  pub delrec : ℕ
  pub new_root : ℕ
  pub kill_root : ℕ
  pub increment : ℕ
  pub decrement : ℕ
  pub lshift : ℕ
  pub rshift : ℕ
  pub split : ℕ
  pub join : ℕ
  pub alloc : ℕ
  pub free : ℕ
  pub moves : ℕ

abbrev pub zero_btree_inode2_stats : BtreeInode2Stats
zero_btree_inode2_stats = record {
  lookup = 0;
  compare = 0;
  insrec = 0;
  delrec = 0;
  new_root = 0;
  kill_root = 0;
  increment = 0;
  decrement = 0;
  lshift = 0;
  rshift = 0;
  split = 0;
  join = 0;
  alloc = 0;
  free = 0;
  moves = 0;
}

abbrev pub btree_inode2_stats_values : BtreeInode2Stats → List ℕ
btree_inode2_stats_values x =
    x.lookup ∷ x.compare ∷ x.insrec ∷ x.delrec ∷ x.new_root ∷ x.kill_root ∷ x.increment
    ∷ x.decrement ∷ x.lshift ∷ x.rshift ∷ x.split ∷ x.join ∷ x.alloc ∷ x.free ∷ x.moves ∷ []
