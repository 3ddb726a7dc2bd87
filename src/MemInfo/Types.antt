-- ===== src/MemInfo/Types.antt =====
-- meminfo.go: the record, and the cases of the switch over the first word of a line.
use procfs.Base.{ℕ, Option, none}

pub record Meminfo : Type 0 where
  pub mem_total : Option ℕ
  pub mem_free : Option ℕ
  pub mem_available : Option ℕ
  pub buffers : Option ℕ
  pub cached : Option ℕ
  pub swap_cached : Option ℕ
  pub active : Option ℕ
  pub inactive : Option ℕ
  pub active_anon : Option ℕ
  pub inactive_anon : Option ℕ
  pub active_file : Option ℕ
  pub inactive_file : Option ℕ
  pub unevictable : Option ℕ
  pub mlocked : Option ℕ
  pub swap_total : Option ℕ
  pub swap_free : Option ℕ
  pub zswap : Option ℕ
  pub zswapped : Option ℕ
  pub dirty : Option ℕ
  pub writeback : Option ℕ
  pub anon_pages : Option ℕ
  pub mapped : Option ℕ
  pub shmem : Option ℕ
  pub slab : Option ℕ
  pub s_reclaimable : Option ℕ
  pub s_unreclaim : Option ℕ
  pub kernel_stack : Option ℕ
  pub page_tables : Option ℕ
  pub sec_page_tables : Option ℕ
  pub nfs_unstable : Option ℕ
  pub bounce : Option ℕ
  pub writeback_tmp : Option ℕ
  pub commit_limit : Option ℕ
  pub committed_as : Option ℕ
  pub vmalloc_total : Option ℕ
  pub vmalloc_used : Option ℕ
  pub vmalloc_chunk : Option ℕ
  pub percpu : Option ℕ
  pub hardware_corrupted : Option ℕ
  pub anon_huge_pages : Option ℕ
  pub file_huge_pages : Option ℕ
  pub shmem_huge_pages : Option ℕ
  pub shmem_pmd_mapped : Option ℕ
  pub cma_total : Option ℕ
  pub cma_free : Option ℕ
  pub unaccepted : Option ℕ
  pub huge_pages_total : Option ℕ
  pub huge_pages_free : Option ℕ
  pub huge_pages_rsvd : Option ℕ
  pub huge_pages_surp : Option ℕ
  pub hugepagesize : Option ℕ
  pub hugetlb : Option ℕ
  pub direct_map4k : Option ℕ
  pub direct_map2m : Option ℕ
  pub direct_map1g : Option ℕ
  pub mem_total_bytes : Option ℕ
  pub mem_free_bytes : Option ℕ
  pub mem_available_bytes : Option ℕ
  pub buffers_bytes : Option ℕ
  pub cached_bytes : Option ℕ
  pub swap_cached_bytes : Option ℕ
  pub active_bytes : Option ℕ
  pub inactive_bytes : Option ℕ
  pub active_anon_bytes : Option ℕ
  pub inactive_anon_bytes : Option ℕ
  pub active_file_bytes : Option ℕ
  pub inactive_file_bytes : Option ℕ
  pub unevictable_bytes : Option ℕ
  pub mlocked_bytes : Option ℕ
  pub swap_total_bytes : Option ℕ
  pub swap_free_bytes : Option ℕ
  pub zswap_bytes : Option ℕ
  pub zswapped_bytes : Option ℕ
  pub dirty_bytes : Option ℕ
  pub writeback_bytes : Option ℕ
  pub anon_pages_bytes : Option ℕ
  pub mapped_bytes : Option ℕ
  pub shmem_bytes : Option ℕ
  pub slab_bytes : Option ℕ
  pub s_reclaimable_bytes : Option ℕ
  pub s_unreclaim_bytes : Option ℕ
  pub kernel_stack_bytes : Option ℕ
  pub page_tables_bytes : Option ℕ
  pub sec_page_tables_bytes : Option ℕ
  pub nfs_unstable_bytes : Option ℕ
  pub bounce_bytes : Option ℕ
  pub writeback_tmp_bytes : Option ℕ
  pub commit_limit_bytes : Option ℕ
  pub committed_as_bytes : Option ℕ
  pub vmalloc_total_bytes : Option ℕ
  pub vmalloc_used_bytes : Option ℕ
  pub vmalloc_chunk_bytes : Option ℕ
  pub percpu_bytes : Option ℕ
  pub hardware_corrupted_bytes : Option ℕ
  pub anon_huge_pages_bytes : Option ℕ
  pub file_huge_pages_bytes : Option ℕ
  pub shmem_huge_pages_bytes : Option ℕ
  pub shmem_pmd_mapped_bytes : Option ℕ
  pub cma_total_bytes : Option ℕ
  pub cma_free_bytes : Option ℕ
  pub unaccepted_bytes : Option ℕ
  pub hugepagesize_bytes : Option ℕ
  pub hugetlb_bytes : Option ℕ
  pub direct_map4k_bytes : Option ℕ
  pub direct_map2m_bytes : Option ℕ
  pub direct_map1g_bytes : Option ℕ

abbrev pub zero_meminfo : Meminfo
zero_meminfo = record {
  mem_total = none;
  mem_free = none;
  mem_available = none;
  buffers = none;
  cached = none;
  swap_cached = none;
  active = none;
  inactive = none;
  active_anon = none;
  inactive_anon = none;
  active_file = none;
  inactive_file = none;
  unevictable = none;
  mlocked = none;
  swap_total = none;
  swap_free = none;
  zswap = none;
  zswapped = none;
  dirty = none;
  writeback = none;
  anon_pages = none;
  mapped = none;
  shmem = none;
  slab = none;
  s_reclaimable = none;
  s_unreclaim = none;
  kernel_stack = none;
  page_tables = none;
  sec_page_tables = none;
  nfs_unstable = none;
  bounce = none;
  writeback_tmp = none;
  commit_limit = none;
  committed_as = none;
  vmalloc_total = none;
  vmalloc_used = none;
  vmalloc_chunk = none;
  percpu = none;
  hardware_corrupted = none;
  anon_huge_pages = none;
  file_huge_pages = none;
  shmem_huge_pages = none;
  shmem_pmd_mapped = none;
  cma_total = none;
  cma_free = none;
  unaccepted = none;
  huge_pages_total = none;
  huge_pages_free = none;
  huge_pages_rsvd = none;
  huge_pages_surp = none;
  hugepagesize = none;
  hugetlb = none;
  direct_map4k = none;
  direct_map2m = none;
  direct_map1g = none;
  mem_total_bytes = none;
  mem_free_bytes = none;
  mem_available_bytes = none;
  buffers_bytes = none;
  cached_bytes = none;
  swap_cached_bytes = none;
  active_bytes = none;
  inactive_bytes = none;
  active_anon_bytes = none;
  inactive_anon_bytes = none;
  active_file_bytes = none;
  inactive_file_bytes = none;
  unevictable_bytes = none;
  mlocked_bytes = none;
  swap_total_bytes = none;
  swap_free_bytes = none;
  zswap_bytes = none;
  zswapped_bytes = none;
  dirty_bytes = none;
  writeback_bytes = none;
  anon_pages_bytes = none;
  mapped_bytes = none;
  shmem_bytes = none;
  slab_bytes = none;
  s_reclaimable_bytes = none;
  s_unreclaim_bytes = none;
  kernel_stack_bytes = none;
  page_tables_bytes = none;
  sec_page_tables_bytes = none;
  nfs_unstable_bytes = none;
  bounce_bytes = none;
  writeback_tmp_bytes = none;
  commit_limit_bytes = none;
  committed_as_bytes = none;
  vmalloc_total_bytes = none;
  vmalloc_used_bytes = none;
  vmalloc_chunk_bytes = none;
  percpu_bytes = none;
  hardware_corrupted_bytes = none;
  anon_huge_pages_bytes = none;
  file_huge_pages_bytes = none;
  shmem_huge_pages_bytes = none;
  shmem_pmd_mapped_bytes = none;
  cma_total_bytes = none;
  cma_free_bytes = none;
  unaccepted_bytes = none;
  hugepagesize_bytes = none;
  hugetlb_bytes = none;
  direct_map4k_bytes = none;
  direct_map2m_bytes = none;
  direct_map1g_bytes = none;
}
