-- ===== src/Xfs/Types/Operations.antt =====
-- xfs/xfs.go: the records of operations on files, their zero values, and
-- their numbers in the order in which the kernel prints them.
use procfs.Base.{ℕ, List, [], ◌∷◌}

pub record DirectoryOperationStats : Type 0 where
  pub lookups : ℕ
  pub creates : ℕ
  pub removes : ℕ
  pub getdents : ℕ

abbrev pub zero_directory_operation_stats : DirectoryOperationStats
zero_directory_operation_stats = record { lookups = 0; creates = 0; removes = 0; getdents = 0 }

abbrev pub directory_operation_stats_values : DirectoryOperationStats → List ℕ
directory_operation_stats_values x = x.lookups ∷ x.creates ∷ x.removes ∷ x.getdents ∷ []

pub record TransactionStats : Type 0 where
  pub sync : ℕ
  pub async : ℕ
  pub empty : ℕ

abbrev pub zero_transaction_stats : TransactionStats
zero_transaction_stats = record { sync = 0; async = 0; empty = 0 }

abbrev pub transaction_stats_values : TransactionStats → List ℕ
transaction_stats_values x = x.sync ∷ x.async ∷ x.empty ∷ []

pub record InodeOperationStats : Type 0 where
  pub attempts : ℕ
  pub found : ℕ
  pub recycle : ℕ
  pub missed : ℕ
  pub duplicate : ℕ
  pub reclaims : ℕ
  pub attribute_change : ℕ

abbrev pub zero_inode_operation_stats : InodeOperationStats
zero_inode_operation_stats = record {
  attempts = 0;
  found = 0;
  recycle = 0;
  missed = 0;
  duplicate = 0;
  reclaims = 0;
  attribute_change = 0;
}

abbrev pub inode_operation_stats_values : InodeOperationStats → List ℕ
inode_operation_stats_values x =
    x.attempts ∷ x.found ∷ x.recycle ∷ x.missed ∷ x.duplicate ∷ x.reclaims ∷ x.attribute_change ∷ []

pub record LogOperationStats : Type 0 where
  pub writes : ℕ
  pub blocks : ℕ
  pub no_internal_buffers : ℕ
  pub force : ℕ
  pub force_sleep : ℕ

abbrev pub zero_log_operation_stats : LogOperationStats
zero_log_operation_stats = record {
  writes = 0;
  blocks = 0;
  no_internal_buffers = 0;
  force = 0;
  force_sleep = 0;
}

abbrev pub log_operation_stats_values : LogOperationStats → List ℕ
log_operation_stats_values x =
    x.writes ∷ x.blocks ∷ x.no_internal_buffers ∷ x.force ∷ x.force_sleep ∷ []

pub record ReadWriteStats : Type 0 where
  pub write : ℕ
  pub read : ℕ

abbrev pub zero_read_write_stats : ReadWriteStats
zero_read_write_stats = record { write = 0; read = 0 }

abbrev pub read_write_stats_values : ReadWriteStats → List ℕ
read_write_stats_values x = x.write ∷ x.read ∷ []

pub record AttributeOperationStats : Type 0 where
  pub get : ℕ
  pub set : ℕ
  pub remove : ℕ
  pub list : ℕ

abbrev pub zero_attribute_operation_stats : AttributeOperationStats
zero_attribute_operation_stats = record { get = 0; set = 0; remove = 0; list = 0 }

abbrev pub attribute_operation_stats_values : AttributeOperationStats → List ℕ
attribute_operation_stats_values x = x.get ∷ x.set ∷ x.remove ∷ x.list ∷ []
