-- ===== src/MemInfo/Keys.antt =====
-- What the record holds for each key, and which label stands for it.
pub mod Cases
unfoldable pub use Cases.*
use procfs.Base.{
  ℕ, List, [], ◌∷◌, ◌≡◌, refl, ap, ◌∙◌, Bytes, Option, none, some, codes, All, bytes_eq,
  bytes_eq_iff, Bool, true, false, not, if◌then◌else◌,
}
use procfs.Go.Switch.{Switch, find_case, find_case-All, all_cases, all_cases-All}
use procfs.MemInfo.Types.{Meminfo, zero_meminfo}

-- The label of a key, with its colon.
unfoldable pub label_of : Key → Bytes
label_of mem_total = codes "MemTotal:"
label_of mem_free = codes "MemFree:"
label_of mem_available = codes "MemAvailable:"
label_of buffers = codes "Buffers:"
label_of cached = codes "Cached:"
label_of swap_cached = codes "SwapCached:"
label_of active = codes "Active:"
label_of inactive = codes "Inactive:"
label_of active_anon = codes "Active(anon):"
label_of inactive_anon = codes "Inactive(anon):"
label_of active_file = codes "Active(file):"
label_of inactive_file = codes "Inactive(file):"
label_of unevictable = codes "Unevictable:"
label_of mlocked = codes "Mlocked:"
label_of swap_total = codes "SwapTotal:"
label_of swap_free = codes "SwapFree:"
label_of zswap = codes "Zswap:"
label_of zswapped = codes "Zswapped:"
label_of dirty = codes "Dirty:"
label_of writeback = codes "Writeback:"
label_of anon_pages = codes "AnonPages:"
label_of mapped = codes "Mapped:"
label_of shmem = codes "Shmem:"
label_of slab = codes "Slab:"
label_of s_reclaimable = codes "SReclaimable:"
label_of s_unreclaim = codes "SUnreclaim:"
label_of kernel_stack = codes "KernelStack:"
label_of page_tables = codes "PageTables:"
label_of sec_page_tables = codes "SecPageTables:"
label_of nfs_unstable = codes "NFS_Unstable:"
label_of bounce = codes "Bounce:"
label_of writeback_tmp = codes "WritebackTmp:"
label_of commit_limit = codes "CommitLimit:"
label_of committed_as = codes "Committed_AS:"
label_of vmalloc_total = codes "VmallocTotal:"
label_of vmalloc_used = codes "VmallocUsed:"
label_of vmalloc_chunk = codes "VmallocChunk:"
label_of percpu = codes "Percpu:"
label_of hardware_corrupted = codes "HardwareCorrupted:"
label_of anon_huge_pages = codes "AnonHugePages:"
label_of file_huge_pages = codes "FileHugePages:"
label_of shmem_huge_pages = codes "ShmemHugePages:"
label_of shmem_pmd_mapped = codes "ShmemPmdMapped:"
label_of cma_total = codes "CmaTotal:"
label_of cma_free = codes "CmaFree:"
label_of unaccepted = codes "Unaccepted:"
label_of huge_pages_total = codes "HugePages_Total:"
label_of huge_pages_free = codes "HugePages_Free:"
label_of huge_pages_rsvd = codes "HugePages_Rsvd:"
label_of huge_pages_surp = codes "HugePages_Surp:"
label_of hugepagesize = codes "Hugepagesize:"
label_of hugetlb = codes "Hugetlb:"
label_of direct_map4k = codes "DirectMap4k:"
label_of direct_map2m = codes "DirectMap2M:"
label_of direct_map1g = codes "DirectMap1G:"

-- The value of a key, and what it is in bytes.
unfoldable pub read : Key → Meminfo → Option ℕ × Option ℕ
read mem_total m = (m.mem_total, m.mem_total_bytes)
read mem_free m = (m.mem_free, m.mem_free_bytes)
read mem_available m = (m.mem_available, m.mem_available_bytes)
read buffers m = (m.buffers, m.buffers_bytes)
read cached m = (m.cached, m.cached_bytes)
read swap_cached m = (m.swap_cached, m.swap_cached_bytes)
read active m = (m.active, m.active_bytes)
read inactive m = (m.inactive, m.inactive_bytes)
read active_anon m = (m.active_anon, m.active_anon_bytes)
read inactive_anon m = (m.inactive_anon, m.inactive_anon_bytes)
read active_file m = (m.active_file, m.active_file_bytes)
read inactive_file m = (m.inactive_file, m.inactive_file_bytes)
read unevictable m = (m.unevictable, m.unevictable_bytes)
read mlocked m = (m.mlocked, m.mlocked_bytes)
read swap_total m = (m.swap_total, m.swap_total_bytes)
read swap_free m = (m.swap_free, m.swap_free_bytes)
read zswap m = (m.zswap, m.zswap_bytes)
read zswapped m = (m.zswapped, m.zswapped_bytes)
read dirty m = (m.dirty, m.dirty_bytes)
read writeback m = (m.writeback, m.writeback_bytes)
read anon_pages m = (m.anon_pages, m.anon_pages_bytes)
read mapped m = (m.mapped, m.mapped_bytes)
read shmem m = (m.shmem, m.shmem_bytes)
read slab m = (m.slab, m.slab_bytes)
read s_reclaimable m = (m.s_reclaimable, m.s_reclaimable_bytes)
read s_unreclaim m = (m.s_unreclaim, m.s_unreclaim_bytes)
read kernel_stack m = (m.kernel_stack, m.kernel_stack_bytes)
read page_tables m = (m.page_tables, m.page_tables_bytes)
read sec_page_tables m = (m.sec_page_tables, m.sec_page_tables_bytes)
read nfs_unstable m = (m.nfs_unstable, m.nfs_unstable_bytes)
read bounce m = (m.bounce, m.bounce_bytes)
read writeback_tmp m = (m.writeback_tmp, m.writeback_tmp_bytes)
read commit_limit m = (m.commit_limit, m.commit_limit_bytes)
read committed_as m = (m.committed_as, m.committed_as_bytes)
read vmalloc_total m = (m.vmalloc_total, m.vmalloc_total_bytes)
read vmalloc_used m = (m.vmalloc_used, m.vmalloc_used_bytes)
read vmalloc_chunk m = (m.vmalloc_chunk, m.vmalloc_chunk_bytes)
read percpu m = (m.percpu, m.percpu_bytes)
read hardware_corrupted m = (m.hardware_corrupted, m.hardware_corrupted_bytes)
read anon_huge_pages m = (m.anon_huge_pages, m.anon_huge_pages_bytes)
read file_huge_pages m = (m.file_huge_pages, m.file_huge_pages_bytes)
read shmem_huge_pages m = (m.shmem_huge_pages, m.shmem_huge_pages_bytes)
read shmem_pmd_mapped m = (m.shmem_pmd_mapped, m.shmem_pmd_mapped_bytes)
read cma_total m = (m.cma_total, m.cma_total_bytes)
read cma_free m = (m.cma_free, m.cma_free_bytes)
read unaccepted m = (m.unaccepted, m.unaccepted_bytes)
read huge_pages_total m = (m.huge_pages_total, none)
read huge_pages_free m = (m.huge_pages_free, none)
read huge_pages_rsvd m = (m.huge_pages_rsvd, none)
read huge_pages_surp m = (m.huge_pages_surp, none)
read hugepagesize m = (m.hugepagesize, m.hugepagesize_bytes)
read hugetlb m = (m.hugetlb, m.hugetlb_bytes)
read direct_map4k m = (m.direct_map4k, m.direct_map4k_bytes)
read direct_map2m m = (m.direct_map2m, m.direct_map2m_bytes)
read direct_map1g m = (m.direct_map1g, m.direct_map1g_bytes)

-- The keys that count huge pages and have no value in bytes.
abbrev pub counts_pages : Key → Bool
counts_pages huge_pages_total = true
counts_pages huge_pages_free = true
counts_pages huge_pages_rsvd = true
counts_pages huge_pages_surp = true
counts_pages _ = false

abbrev pub written : Key → ℕ × ℕ → Option ℕ × Option ℕ
written key (val, val_bytes) = (some val, if counts_pages key then none else some val_bytes)

abbrev pub set_pair : Key → ℕ × ℕ → Meminfo → Meminfo
set_pair key (val, val_bytes) m = set_key key val val_bytes m

pub read-zero_meminfo : (k : Key) → read k zero_meminfo ≡ (none, none)
unfolding read
read-zero_meminfo mem_total = refl
read-zero_meminfo _ = refl

read-set_key :
    (k g : Key) (val : ℕ × ℕ) (m : Meminfo)
    → read k (set_pair g val m)
      ≡ (if bytes_eq (label_of g) (label_of k) then written k val else read k m)
unfolding read set_key label_of bytes_eq
read-set_key mem_total mem_total val m = refl
read-set_key _ mem_total val m = refl
read-set_key _ _ val m = refl

cases-found : all_cases (λ label key. bytes_eq label (label_of key)) cases ≡ true
unfolding label_of bytes_eq all_cases
cases-found = refl

cases-finds : (k : Key) → find_case (label_of k) cases ≡ some k
unfolding label_of find_case bytes_eq
cases-finds mem_total = refl
cases-finds _ = refl

pub set_key-Switch : Switch bytes_eq (λ label. find_case label cases) label_of set_pair read written
set_key-Switch = record {
  same_iff = bytes_eq_iff;
  found = λ l k e. (bytes_eq_iff l (label_of k)).0 (
      find_case-All (λ label key. bytes_eq label (label_of key) ≡ true) l cases
        (all_cases-All (λ label key. bytes_eq label (label_of key)) cases cases-found) e);
  finds = cases-finds;
  read-set = read-set_key;
}
