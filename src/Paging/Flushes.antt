-- ===== src/Paging/Flushes.antt =====
-- Which pages the processors may still hold an old translation of after a map or an unmap.
use twan.Base.{
  ℕ, ◌+◌, ◌-◌, ◌*◌, ◌/◌, ◌%◌, ◌^◌, ◌<◌, ◌≡◌, ◌≢◌, inl, inr, true, false, Option, none, some, ◌==◌,
  if◌then◌else◌, arith, Bool-cases, ==_false,
}
use twan.Bitmap.Wide.{Bmp512, bmp512_ffs_unset, bmp512_ffs2_unset2}
use twan.Paging.{
  ram, mmio, flush_tlb_page_local, Mapper, page_of, place, place2, map_pfn_noflush,
  map_phys_pg_noflush, unmap_phys_pg_noflush, range_local, range_global, if_mapped,
  map_pfn_io_local, map_phys_pg_local, map_phys_pg, unmap_phys_pg, map_phys_pg_io_local,
  unmap_phys_pg_io_local, flush_tlb_range_global, flush_tlb_range_local,
}
use twan.Paging.Windows.{IsMapper}

-- The processor holds no old translation of the 2 MB from the address.
abbrev pub Fresh : (cpu addr : ℕ) → Mapper → Type 0
Fresh cpu addr w = (k : ℕ) → k < 2 ^ 21 → w.stale cpu (page_of (addr + k)) ≡ false

abbrev pub FreshResult : (cpu : ℕ) → Option ℕ × Mapper → Type 0
FreshResult cpu (none, w) = Unit
FreshResult cpu (some addr, w) = Fresh cpu addr w

module _ (cpu : ℕ) (w : Mapper) (addr : ℕ) where
  global-Fresh :
      Fresh cpu addr
        (flush_tlb_range_global w (addr - addr % 2 ^ 21) (addr + 2 ^ 21 - (addr + 2 ^ 21) % 2 ^ 21))
  unfolding range_global
  global-Fresh k l =
      let one : page_of (addr + 2 ^ 21 - (addr + 2 ^ 21) % 2 ^ 21) - page_of (addr - addr % 2 ^ 21)
          ≡ 1 =
        omega arith in
      rw one (ground arith)

  abbrev up : ℕ
  up = addr + (2 ^ 21 - addr % 2 ^ 21) % 2 ^ 21

  -- The range up to the next page boundary: one page or two.
  pages : page_of up - page_of (addr - addr % 2 ^ 21) ≡ (if addr % 2 ^ 21 == 0 then 0 else 1)
  pages = elim (Bool-cases (addr % 2 ^ 21 == 0)) [
    | inl e ↦ rw e (ground arith)
    | inr e ↦ rw e (ground arith)
  ]

  up_global-Fresh : Fresh cpu addr (flush_tlb_range_global w (addr - addr % 2 ^ 21) up)
  unfolding range_global
  up_global-Fresh k l = elim (Bool-cases (addr % 2 ^ 21 == 0)) [
    | inl e ↦ rw (pages, e) (ground arith)
    | inr e ↦ rw (pages, e) (ground arith)
  ]

  up_local-Fresh : Fresh cpu addr (flush_tlb_range_local cpu w (addr - addr % 2 ^ 21) up)
  unfolding range_local
  up_local-Fresh k l = elim (Bool-cases (addr % 2 ^ 21 == 0)) [
    | inl e ↦ rw (pages, e) (ground arith)
    | inr e ↦ rw (pages, e) (ground arith)
  ]

FreshResult-of :
    (cpu : ℕ) (flush : Mapper → ℕ → Mapper)
    → ((w : Mapper) (addr : ℕ) → Fresh cpu addr (flush w addr))
    → (r : Option ℕ × Mapper) → FreshResult cpu (if_mapped flush r)
FreshResult-of cpu flush fresh (none, w) = tt
FreshResult-of cpu flush fresh (some addr, w) = fresh w addr

-- After `map_phys_pg` and `unmap_phys_pg` no processor holds an old translation of the 2 MB from the address; after
-- `__map_phys_pg_io_local` and `__unmap_phys_pg_io_local` the processor that runs them holds none.
pub flushes-Fresh :
    (cpu : ℕ) (w : Mapper) (phys addr : ℕ)
    → FreshResult cpu (map_phys_pg w phys)
      × Fresh cpu addr (unmap_phys_pg w addr)
      × FreshResult cpu (map_phys_pg_io_local cpu w phys)
      × Fresh cpu addr (unmap_phys_pg_io_local cpu w addr)
unfolding map_phys_pg unmap_phys_pg map_phys_pg_io_local unmap_phys_pg_io_local
flushes-Fresh cpu w phys addr = (
  FreshResult-of cpu _ (λ w' a. global-Fresh cpu w' a) (map_phys_pg_noflush ram w phys),
  up_global-Fresh cpu (unmap_phys_pg_noflush w addr) addr,
  FreshResult-of cpu _ (λ w' a. up_local-Fresh cpu w' a) (map_phys_pg_noflush mmio w phys),
  up_local-Fresh cpu (unmap_phys_pg_noflush w addr) addr,
)

-- The last of the 2 MB may be reached by an old translation.
abbrev pub SecondStale : (cpu : ℕ) → Option ℕ × Mapper → Type 0
SecondStale cpu (none, w) = Unit
SecondStale cpu (some addr, w) = w.stale cpu (page_of (addr + (2 ^ 21 - 1))) ≡ true

place2-SecondStale :
    (cpu : ℕ) (w : Mapper) (pfn offset : ℕ)
    → w.addr % 2 ^ 30 ≡ 0
    → offset ≢ 0
    → offset < 2 ^ 21
    → (taken : Option ℕ × Bmp512)
    → SecondStale cpu
        (if_mapped (λ w' addr. flush_tlb_page_local cpu w' addr) (place2 ram w pfn offset taken))
place2-SecondStale cpu w pfn offset aligned split l (none, bmp) = tt
place2-SecondStale cpu w pfn offset aligned split l (some idx, bmp) =
    let first : page_of (w.addr + idx * 2 ^ 21 + offset) ≡ page_of w.addr + idx =
      omega (arith, aligned) in
    let second : page_of (w.addr + idx * 2 ^ 21 + offset + (2 ^ 21 - 1))
        ≡ page_of w.addr + (idx + 1) =
      omega (arith, aligned, split) in
    rw (first, second) (ground arith)

-- In a window in order, `__map_phys_pg_local` of 2 MB that do not start at a page leaves the second of the two pages
-- that it mapped unflushed on the processor that runs it.
pub map_phys_pg_local-SecondStale :
    (cpu : ℕ) (w : Mapper) (phys : ℕ)
    → IsMapper w
    → phys % 2 ^ 21 ≢ 0
    → SecondStale cpu (map_phys_pg_local cpu w phys)
unfolding map_phys_pg_local map_phys_pg_noflush
map_phys_pg_local-SecondStale cpu w phys ok split = rw (==_false (phys % 2 ^ 21) 0 split) (
    place2-SecondStale cpu w (phys / 2 ^ 21 % 2 ^ 32) (phys % 2 ^ 21) ok.aligned split (omega arith)
      (bmp512_ffs2_unset2 w.bmp))

-- The page of the address may be reached by an old translation, but if its number is that of the page behind.
abbrev pub FirstStale : (cpu pfn : ℕ) → Option ℕ × Mapper → Type 0
FirstStale cpu pfn (none, w) = Unit
FirstStale cpu pfn (some addr, w) =
    w.stale cpu (page_of addr) ≡ (if pfn == page_of addr then false else true)

place-FirstStale :
    (cpu : ℕ) (w : Mapper) (pfn : ℕ)
    → w.addr % 2 ^ 30 ≡ 0
    → pfn < 2 ^ 43
    → (taken : Option ℕ × Bmp512)
    → FirstStale cpu pfn (
        if_mapped
          (λ w' addr. flush_tlb_page_local cpu w' (pfn * 2 ^ 21 % 2 ^ 64))
          (place mmio w pfn taken))
place-FirstStale cpu w pfn aligned l (none, bmp) = tt
place-FirstStale cpu w pfn aligned l (some idx, bmp) =
    let at : page_of (w.addr + idx * 2 ^ 21) ≡ page_of w.addr + idx = omega (arith, aligned) in
    let wrong : page_of (pfn * 2 ^ 21 % 2 ^ 64) ≡ pfn = omega (arith, l) in
    rw (at, wrong) (ground arith)

-- In a window in order, `__map_pfn_io_local` of a page below 2 ^ 43 leaves the page that it mapped unflushed on the processor
-- that runs it, unless the numbers of the two pages agree.
pub map_pfn_io_local-FirstStale :
    (cpu : ℕ) (w : Mapper) (pfn : ℕ)
    → IsMapper w
    → pfn < 2 ^ 43
    → FirstStale cpu pfn (map_pfn_io_local cpu w pfn)
unfolding map_pfn_io_local map_pfn_noflush
map_pfn_io_local-FirstStale cpu w pfn ok l =
    place-FirstStale cpu w pfn ok.aligned l (bmp512_ffs_unset w.bmp)
