-- ===== src/MemInfo/Keys/Cases.antt =====
-- meminfo.go: the switch over the first word of a line: its labels, and what each case sets.
use procfs.Base.{ℕ, List, [], ◌∷◌, Bytes, some, codes}
use procfs.MemInfo.Types.{Meminfo}

-- A case of the switch, named after the field that it sets.
pub data Key : Type 0 where
  mem_total mem_free mem_available buffers cached swap_cached active inactive active_anon
        inactive_anon active_file inactive_file unevictable mlocked swap_total swap_free zswap
        zswapped dirty writeback anon_pages mapped shmem slab s_reclaimable s_unreclaim kernel_stack
        page_tables sec_page_tables nfs_unstable bounce writeback_tmp commit_limit committed_as
        vmalloc_total vmalloc_used vmalloc_chunk percpu hardware_corrupted anon_huge_pages
        file_huge_pages shmem_huge_pages shmem_pmd_mapped cma_total cma_free unaccepted
        huge_pages_total huge_pages_free huge_pages_rsvd huge_pages_surp hugepagesize hugetlb
        direct_map4k direct_map2m direct_map1g :
      Key

-- The labels, in the order of the cases.
abbrev pub cases : List (Bytes × Key)
cases =
    (codes "MemTotal:", mem_total)
    ∷ (codes "MemFree:", mem_free)
    ∷ (codes "MemAvailable:", mem_available)
    ∷ (codes "Buffers:", buffers)
    ∷ (codes "Cached:", cached)
    ∷ (codes "SwapCached:", swap_cached)
    ∷ (codes "Active:", active)
    ∷ (codes "Inactive:", inactive)
    ∷ (codes "Active(anon):", active_anon)
    ∷ (codes "Inactive(anon):", inactive_anon)
    ∷ (codes "Active(file):", active_file)
    ∷ (codes "Inactive(file):", inactive_file)
    ∷ (codes "Unevictable:", unevictable)
    ∷ (codes "Mlocked:", mlocked)
    ∷ (codes "SwapTotal:", swap_total)
    ∷ (codes "SwapFree:", swap_free)
    ∷ (codes "Zswap:", zswap)
    ∷ (codes "Zswapped:", zswapped)
    ∷ (codes "Dirty:", dirty)
    ∷ (codes "Writeback:", writeback)
    ∷ (codes "AnonPages:", anon_pages)
    ∷ (codes "Mapped:", mapped)
    ∷ (codes "Shmem:", shmem)
    ∷ (codes "Slab:", slab)
    ∷ (codes "SReclaimable:", s_reclaimable)
    ∷ (codes "SUnreclaim:", s_unreclaim)
    ∷ (codes "KernelStack:", kernel_stack)
    ∷ (codes "PageTables:", page_tables)
    ∷ (codes "SecPageTables:", sec_page_tables)
    ∷ (codes "NFS_Unstable:", nfs_unstable)
    ∷ (codes "Bounce:", bounce)
    ∷ (codes "WritebackTmp:", writeback_tmp)
    ∷ (codes "CommitLimit:", commit_limit)
    ∷ (codes "Committed_AS:", committed_as)
    ∷ (codes "VmallocTotal:", vmalloc_total)
    ∷ (codes "VmallocUsed:", vmalloc_used)
    ∷ (codes "VmallocChunk:", vmalloc_chunk)
    ∷ (codes "Percpu:", percpu)
    ∷ (codes "HardwareCorrupted:", hardware_corrupted)
    ∷ (codes "AnonHugePages:", anon_huge_pages)
    ∷ (codes "FileHugePages:", file_huge_pages)
    ∷ (codes "ShmemHugePages:", shmem_huge_pages)
    ∷ (codes "ShmemPmdMapped:", shmem_pmd_mapped)
    ∷ (codes "CmaTotal:", cma_total)
    ∷ (codes "CmaFree:", cma_free)
    ∷ (codes "Unaccepted:", unaccepted)
    ∷ (codes "HugePages_Total:", huge_pages_total)
    ∷ (codes "HugePages_Free:", huge_pages_free)
    ∷ (codes "HugePages_Rsvd:", huge_pages_rsvd)
    ∷ (codes "HugePages_Surp:", huge_pages_surp)
    ∷ (codes "Hugepagesize:", hugepagesize)
    ∷ (codes "Hugetlb:", hugetlb)
    ∷ (codes "DirectMap4k:", direct_map4k)
    ∷ (codes "DirectMap2M:", direct_map2m)
    ∷ (codes "DirectMap1G:", direct_map1g)
    ∷ []

-- The body of a case, for the number of the line and what it is in bytes.
unfoldable pub set_key : Key → ℕ → ℕ → Meminfo → Meminfo
set_key mem_total val val_bytes m = record m {
  mem_total = some val;
  mem_total_bytes = some val_bytes;
}
set_key mem_free val val_bytes m = record m { mem_free = some val; mem_free_bytes = some val_bytes }
set_key mem_available val val_bytes m = record m {
  mem_available = some val;
  mem_available_bytes = some val_bytes;
}
set_key buffers val val_bytes m = record m { buffers = some val; buffers_bytes = some val_bytes }
set_key cached val val_bytes m = record m { cached = some val; cached_bytes = some val_bytes }
set_key swap_cached val val_bytes m = record m {
  swap_cached = some val;
  swap_cached_bytes = some val_bytes;
}
set_key active val val_bytes m = record m { active = some val; active_bytes = some val_bytes }
set_key inactive val val_bytes m = record m { inactive = some val; inactive_bytes = some val_bytes }
set_key active_anon val val_bytes m = record m {
  active_anon = some val;
  active_anon_bytes = some val_bytes;
}
set_key inactive_anon val val_bytes m = record m {
  inactive_anon = some val;
  inactive_anon_bytes = some val_bytes;
}
set_key active_file val val_bytes m = record m {
  active_file = some val;
  active_file_bytes = some val_bytes;
}
set_key inactive_file val val_bytes m = record m {
  inactive_file = some val;
  inactive_file_bytes = some val_bytes;
}
set_key unevictable val val_bytes m = record m {
  unevictable = some val;
  unevictable_bytes = some val_bytes;
}
set_key mlocked val val_bytes m = record m { mlocked = some val; mlocked_bytes = some val_bytes }
set_key swap_total val val_bytes m = record m {
  swap_total = some val;
  swap_total_bytes = some val_bytes;
}
set_key swap_free val val_bytes m = record m {
  swap_free = some val;
  swap_free_bytes = some val_bytes;
}
set_key zswap val val_bytes m = record m { zswap = some val; zswap_bytes = some val_bytes }
set_key zswapped val val_bytes m = record m { zswapped = some val; zswapped_bytes = some val_bytes }
set_key dirty val val_bytes m = record m { dirty = some val; dirty_bytes = some val_bytes }
set_key writeback val val_bytes m = record m {
  writeback = some val;
  writeback_bytes = some val_bytes;
}
set_key anon_pages val val_bytes m = record m {
  anon_pages = some val;
  anon_pages_bytes = some val_bytes;
}
set_key mapped val val_bytes m = record m { mapped = some val; mapped_bytes = some val_bytes }
set_key shmem val val_bytes m = record m { shmem = some val; shmem_bytes = some val_bytes }
set_key slab val val_bytes m = record m { slab = some val; slab_bytes = some val_bytes }
set_key s_reclaimable val val_bytes m = record m {
  s_reclaimable = some val;
  s_reclaimable_bytes = some val_bytes;
}
set_key s_unreclaim val val_bytes m = record m {
  s_unreclaim = some val;
  s_unreclaim_bytes = some val_bytes;
}
set_key kernel_stack val val_bytes m = record m {
  kernel_stack = some val;
  kernel_stack_bytes = some val_bytes;
}
set_key page_tables val val_bytes m = record m {
  page_tables = some val;
  page_tables_bytes = some val_bytes;
}
set_key sec_page_tables val val_bytes m = record m {
  sec_page_tables = some val;
  sec_page_tables_bytes = some val_bytes;
}
set_key nfs_unstable val val_bytes m = record m {
  nfs_unstable = some val;
  nfs_unstable_bytes = some val_bytes;
}
set_key bounce val val_bytes m = record m { bounce = some val; bounce_bytes = some val_bytes }
set_key writeback_tmp val val_bytes m = record m {
  writeback_tmp = some val;
  writeback_tmp_bytes = some val_bytes;
}
set_key commit_limit val val_bytes m = record m {
  commit_limit = some val;
  commit_limit_bytes = some val_bytes;
}
set_key committed_as val val_bytes m = record m {
  committed_as = some val;
  committed_as_bytes = some val_bytes;
}
set_key vmalloc_total val val_bytes m = record m {
  vmalloc_total = some val;
  vmalloc_total_bytes = some val_bytes;
}
set_key vmalloc_used val val_bytes m = record m {
  vmalloc_used = some val;
  vmalloc_used_bytes = some val_bytes;
}
set_key vmalloc_chunk val val_bytes m = record m {
  vmalloc_chunk = some val;
  vmalloc_chunk_bytes = some val_bytes;
}
set_key percpu val val_bytes m = record m { percpu = some val; percpu_bytes = some val_bytes }
set_key hardware_corrupted val val_bytes m = record m {
  hardware_corrupted = some val;
  hardware_corrupted_bytes = some val_bytes;
}
set_key anon_huge_pages val val_bytes m = record m {
  anon_huge_pages = some val;
  anon_huge_pages_bytes = some val_bytes;
}
set_key file_huge_pages val val_bytes m = record m {
  file_huge_pages = some val;
  file_huge_pages_bytes = some val_bytes;
}
set_key shmem_huge_pages val val_bytes m = record m {
  shmem_huge_pages = some val;
  shmem_huge_pages_bytes = some val_bytes;
}
set_key shmem_pmd_mapped val val_bytes m = record m {
  shmem_pmd_mapped = some val;
  shmem_pmd_mapped_bytes = some val_bytes;
}
set_key cma_total val val_bytes m = record m {
  cma_total = some val;
  cma_total_bytes = some val_bytes;
}
set_key cma_free val val_bytes m = record m { cma_free = some val; cma_free_bytes = some val_bytes }
set_key unaccepted val val_bytes m = record m {
  unaccepted = some val;
  unaccepted_bytes = some val_bytes;
}
set_key huge_pages_total val val_bytes m = record m { huge_pages_total = some val }
set_key huge_pages_free val val_bytes m = record m { huge_pages_free = some val }
set_key huge_pages_rsvd val val_bytes m = record m { huge_pages_rsvd = some val }
set_key huge_pages_surp val val_bytes m = record m { huge_pages_surp = some val }
set_key hugepagesize val val_bytes m = record m {
  hugepagesize = some val;
  hugepagesize_bytes = some val_bytes;
}
set_key hugetlb val val_bytes m = record m { hugetlb = some val; hugetlb_bytes = some val_bytes }
set_key direct_map4k val val_bytes m = record m {
  direct_map4k = some val;
  direct_map4k_bytes = some val_bytes;
}
set_key direct_map2m val val_bytes m = record m {
  direct_map2m = some val;
  direct_map2m_bytes = some val_bytes;
}
set_key direct_map1g val val_bytes m = record m {
  direct_map1g = some val;
  direct_map1g_bytes = some val_bytes;
}
