-- ===== src/Paging.antt =====
-- kernel/mem/mmu/paging.c and tlb.c: the two windows of 512 pages of 2 MB onto physical memory. The code is written
-- twice, for memory and for devices (`_io`); here a `Kind` tells them apart where they differ.
pub mod Windows
pub mod Places
pub mod Unmaps
pub mod Flushes
use twan.Base.{
  ℕ, zero, suc, ◌+◌, ◌-◌, ◌*◌, ◌/◌, ◌%◌, ◌^◌, Bool, true, false, Option, none, some, ◌==◌,
  if◌then◌else◌, update,
}
use twan.Bitmap.Wide.{Bmp512, bmp512_set, bmp512_set_all, bmp512_ffs_unset, bmp512_ffs2_unset2}

pub data Kind : Type 0 where
  ram mmio : Kind

-- `pde_huge_t`, its fields that the code sets; the others stay 0
pub record Pde : Type 0 where
  pub rw : Bool
  pub present : Bool
  pub pwt : Bool
  pub pcd : Bool
  pub ps : Bool
  pub pfn : ℕ

-- the entry that `vma_partition_unmap` writes
abbrev pub unmapped : Pde
unmapped = record { rw = false; present = false; pwt = false; pcd = false; ps = false; pfn = 0 }

-- the entry of `vma_partition_remap` and of `vma_partition_remap_mmio`, whose field `pfn` has 30 bits
abbrev pub entry : Kind → (pfn : ℕ) → Pde
entry ram pfn = record {
  rw = true;
  present = true;
  pwt = false;
  pcd = false;
  ps = true;
  pfn = pfn % 2 ^ 30;
}
entry mmio pfn = record {
  rw = true;
  present = true;
  pwt = true;
  pcd = true;
  ps = true;
  pfn = pfn % 2 ^ 30;
}

-- `struct mapper` with the partition and the address of its window. `stale` is not in the code: the pages, by processor
-- and number, whose entry was written since the processor last flushed them.
pub record Mapper : Type 0 where
  pub bmp : Bmp512
  pub addr : ℕ
  pub pde : ℕ → Pde
  pub stale : ℕ → ℕ → Bool

-- `init_mappers`, with every entry of the partition zero
unfoldable pub init_mapper : Mapper → Mapper
init_mapper w = record w { bmp = bmp512_set_all w.bmp }

abbrev pub page_of : (addr : ℕ) → ℕ
page_of addr = addr / 2 ^ 21

-- `pd_index_of`
abbrev pub pd_index_of : (addr : ℕ) → ℕ
pd_index_of addr = page_of addr % 512

-- `WRITE_ONCE` of an entry
abbrev pub write_pde : Mapper → (idx : ℕ) → Pde → Mapper
write_pde w idx pde = record w {
  pde = update w.pde idx pde;
  stale = λ cpu page. if page_of w.addr + idx == page then true else w.stale cpu page;
}

abbrev pub vma_partition_remap : Kind → Mapper → (idx pfn : ℕ) → Mapper
vma_partition_remap kind w idx pfn = write_pde w idx (entry kind pfn)

abbrev pub vma_partition_unmap : Mapper → (idx : ℕ) → Mapper
vma_partition_unmap w idx = write_pde w idx unmapped

abbrev pub place : Kind → Mapper → (pfn : ℕ) → Option ℕ × Bmp512 → Option ℕ × Mapper
place kind w pfn (none, bmp) = (none, w)
place kind w pfn (some idx, bmp) =
    (some (w.addr + idx * 2 ^ 21), vma_partition_remap kind (record w { bmp = bmp }) idx pfn)

-- `__map_pfn_noflush` and `__map_pfn_io_noflush`
pub map_pfn_noflush : Kind → Mapper → (pfn : ℕ) → Option ℕ × Mapper
map_pfn_noflush kind w pfn = place kind w pfn (bmp512_ffs_unset w.bmp)

pub unmap_pfn_noflush : Mapper → (addr : ℕ) → Mapper
unmap_pfn_noflush w addr =
    let idx = pd_index_of addr in
    let unset = vma_partition_unmap w idx in record unset { bmp = bmp512_set unset.bmp idx }

pub remap_pfn_noflush : Mapper → (addr pfn : ℕ) → Mapper
remap_pfn_noflush w addr pfn = vma_partition_remap ram w (pd_index_of addr) (pfn % 2 ^ 32)

abbrev pub place2 : Kind → Mapper → (pfn offset : ℕ) → Option ℕ × Bmp512 → Option ℕ × Mapper
place2 kind w pfn offset (none, bmp) = (none, w)
place2 kind w pfn offset (some idx, bmp) =
    let first = vma_partition_remap kind (record w { bmp = bmp }) idx pfn in
    (
      some (w.addr + idx * 2 ^ 21 + offset),
      vma_partition_remap kind first (idx + 1) ((pfn + 1) % 2 ^ 32),
    )

-- `__map_phys_pg_noflush` and `__map_phys_pg_io_noflush`
pub map_phys_pg_noflush : Kind → Mapper → (phys : ℕ) → Option ℕ × Mapper
unfolding map_pfn_noflush
map_phys_pg_noflush kind w phys =
    let pfn = phys / 2 ^ 21 % 2 ^ 32 in
    let offset = phys % 2 ^ 21 in
    if offset == 0
    then map_pfn_noflush kind w pfn
    else place2 kind w pfn offset (bmp512_ffs2_unset2 w.bmp)

pub unmap_phys_pg_noflush : Mapper → (addr : ℕ) → Mapper
unfolding unmap_pfn_noflush
unmap_phys_pg_noflush w addr =
    let base = addr - addr % 2 ^ 21 in
    let first = unmap_pfn_noflush w base in
    if addr % 2 ^ 21 == 0 then first else unmap_pfn_noflush first (base + 2 ^ 21)

-- What the processors keep of the translations. A flush on all processors reaches each that is enabled.
abbrev pub flush_tlb_page_local : (cpu : ℕ) → Mapper → (addr : ℕ) → Mapper
flush_tlb_page_local cpu w addr = record w {
  stale = λ c page.
      if c == cpu then (if page_of addr == page then false else w.stale c page) else w.stale c page;
}

abbrev pub flush_tlb_page_global : Mapper → (addr : ℕ) → Mapper
flush_tlb_page_global w addr = record w {
  stale = λ c page. if page_of addr == page then false else w.stale c page;
}

-- The loop of `flush_this_tlb_range`, by the number of pages behind the first.
pub range_local : (count cpu : ℕ) → Mapper → (addr : ℕ) → Mapper
range_local zero cpu w addr = flush_tlb_page_local cpu w addr
range_local (suc count) cpu w addr =
    range_local count cpu (flush_tlb_page_local cpu w addr) (addr + 2 ^ 21)

pub range_global : (count : ℕ) → Mapper → (addr : ℕ) → Mapper
range_global zero w addr = flush_tlb_page_global w addr
range_global (suc count) w addr = range_global count (flush_tlb_page_global w addr) (addr + 2 ^ 21)

-- Here `first` is not above `last`.
abbrev pub flush_tlb_range_local : (cpu : ℕ) → Mapper → (first last : ℕ) → Mapper
flush_tlb_range_local cpu w first last =
    range_local (page_of last - page_of first) cpu w (first - first % 2 ^ 21)

abbrev pub flush_tlb_range_global : Mapper → (first last : ℕ) → Mapper
flush_tlb_range_global w first last =
    range_global (page_of last - page_of first) w (first - first % 2 ^ 21)

-- `if (addr) flush(addr)` after a map
abbrev pub if_mapped : (Mapper → ℕ → Mapper) → Option ℕ × Mapper → Option ℕ × Mapper
if_mapped flush (none, w) = (none, w)
if_mapped flush (some addr, w) = (some addr, flush w addr)

pub map_pfn_local : (cpu : ℕ) → Mapper → (pfn : ℕ) → Option ℕ × Mapper
map_pfn_local cpu w pfn = if_mapped (flush_tlb_page_local cpu) (map_pfn_noflush ram w pfn)

-- `__map_pfn_io_local`, which flushes the physical address
pub map_pfn_io_local : (cpu : ℕ) → Mapper → (pfn : ℕ) → Option ℕ × Mapper
map_pfn_io_local cpu w pfn =
    if_mapped (λ w' addr. flush_tlb_page_local cpu w' (pfn * 2 ^ 21 % 2 ^ 64))
      (map_pfn_noflush mmio w pfn)

pub map_phys_pg_local : (cpu : ℕ) → Mapper → (phys : ℕ) → Option ℕ × Mapper
map_phys_pg_local cpu w phys = if_mapped (flush_tlb_page_local cpu) (map_phys_pg_noflush ram w phys)

-- `map_phys_pg` under the lock of the window
pub map_phys_pg : Mapper → (phys : ℕ) → Option ℕ × Mapper
unfolding range_global
map_phys_pg w phys =
    if_mapped
      (λ w' addr.
        flush_tlb_range_global w' (addr - addr % 2 ^ 21) (addr + 2 ^ 21 - (addr + 2 ^ 21) % 2 ^ 21))
      (map_phys_pg_noflush ram w phys)

pub unmap_phys_pg : Mapper → (addr : ℕ) → Mapper
unfolding range_global
unmap_phys_pg w addr =
    flush_tlb_range_global (unmap_phys_pg_noflush w addr) (addr - addr % 2 ^ 21)
      (addr + (2 ^ 21 - addr % 2 ^ 21) % 2 ^ 21)

pub map_phys_pg_io_local : (cpu : ℕ) → Mapper → (phys : ℕ) → Option ℕ × Mapper
unfolding range_local
map_phys_pg_io_local cpu w phys =
    if_mapped
      (λ w' addr.
        flush_tlb_range_local cpu w' (addr - addr % 2 ^ 21)
          (addr + (2 ^ 21 - addr % 2 ^ 21) % 2 ^ 21))
      (map_phys_pg_noflush mmio w phys)

pub unmap_phys_pg_local : (cpu : ℕ) → Mapper → (addr : ℕ) → Mapper
unmap_phys_pg_local cpu w addr = flush_tlb_page_local cpu (unmap_phys_pg_noflush w addr) addr

-- `__unmap_phys_pg_io_local`, which like the map flushes all that it changed
pub unmap_phys_pg_io_local : (cpu : ℕ) → Mapper → (addr : ℕ) → Mapper
unfolding range_local
unmap_phys_pg_io_local cpu w addr =
    flush_tlb_range_local cpu (unmap_phys_pg_noflush w addr) (addr - addr % 2 ^ 21)
      (addr + (2 ^ 21 - addr % 2 ^ 21) % 2 ^ 21)
