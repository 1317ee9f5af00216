-- ===== src/Paging/Unmaps.antt =====
-- An unmap takes back what the map did.
use twan.Base.{
  ℕ, ◌+◌, ◌-◌, ◌*◌, ◌/◌, ◌%◌, ◌^◌, ◌<◌, ◌≡◌, ◌≢◌, inl, inr, refl, Option, none, some, ◌==◌,
  if◌then◌else◌, arith, Bool-cases, ℕ_discrete, ==_false,
}
use twan.Bitmap.Wide.{Bmp512, bmp512_set, bmp512_ffs_unset, bmp512_ffs2_unset2}
use twan.Bitmap.Wide.Laws.{member, member-set, Taken, ffs_unset_takes}
use twan.Bitmap.Wide.Two.{Taken2, ffs2_unset2_takes}
use twan.Paging.{
  Kind, unmapped, entry, Mapper, pd_index_of, write_pde, place, place2, map_pfn_noflush,
  map_phys_pg_noflush, unmap_pfn_noflush, unmap_phys_pg_noflush,
}
use twan.Paging.Windows.{IsMapper}

-- the same entries and the same set of free pages
pub record Restored (w w' : Mapper) : Type 0 where
  pub same_addr : w'.addr ≡ w.addr
  pub same_entries : (i : ℕ) → w'.pde i ≡ w.pde i
  pub same_free : (i : ℕ) → i < 512 → member w'.bmp i ≡ member w.bmp i

abbrev pub Undone : Mapper → Option ℕ × Mapper → Type 0
Undone w (none, w') = w' ≡ w
Undone w (some addr, w') = Restored w (unmap_phys_pg_noflush w' addr)

-- the window with page `idx` unmapped
abbrev pub freed : Mapper → (idx : ℕ) → Mapper
freed w idx =
    let unset = write_pde w idx unmapped in record unset { bmp = bmp512_set unset.bmp idx }

-- An unmap of an address at `offset` in page `idx`, and in the next page too if it is not the start of the page.
pub unmap_at :
    (w : Mapper) (addr base idx offset : ℕ)
    → addr ≡ base + idx * 2 ^ 21 + offset
    → base % 2 ^ 30 ≡ 0
    → idx < 512
    → (offset ≢ 0 → idx + 1 < 512)
    → offset < 2 ^ 21
    → unmap_phys_pg_noflush w addr
      ≡ (if offset == 0 then freed w idx else freed (freed w idx) (idx + 1))
unfolding unmap_phys_pg_noflush unmap_pfn_noflush
unmap_at w addr base idx offset place aligned l next h =
    let whole : addr % 2 ^ 21 ≡ offset = omega (arith, aligned) in
    let start : addr - addr % 2 ^ 21 ≡ base + idx * 2 ^ 21 = omega (arith, aligned) in
    let here : pd_index_of (base + idx * 2 ^ 21) ≡ idx = omega (arith, aligned) in
    elim (ℕ_discrete offset 0) [
      | yes e ↦ ground arith
      | no ne ↦
          let there : pd_index_of (base + idx * 2 ^ 21 + 2 ^ 21) ≡ idx + 1 =
            omega (arith, aligned, next ne) in
          ground arith
    ]

module _ (kind : Kind) (w : Mapper) (ok : IsMapper w) (phys : ℕ) where
  abbrev pfn : ℕ
  pfn = phys / 2 ^ 21 % 2 ^ 32

  unmap-place : (taken : Option ℕ × Bmp512) → Taken w.bmp taken → Undone w (place kind w pfn taken)
  unmap-place (none, bmp) t = refl
  unmap-place (some idx, bmp) (wide, least, bits) =
      let was = ok.free idx least.0 least.1 in
      let w' = write_pde (record w { bmp = bmp }) idx (entry kind pfn) in
      let same =
        unmap_at w' (w.addr + idx * 2 ^ 21) w.addr idx 0 (omega arith) ok.aligned least.0
          (λ ne. absurd (ne refl)) (omega arith) in
      rw same (record {
        same_addr = refl;
        same_entries = λ i. ground arith;
        same_free = λ i l. ground (arith, member-set bmp idx i, bits i);
      })

  unmap-place2 :
      phys % 2 ^ 21 ≢ 0
      → (taken : Option ℕ × Bmp512) → Taken2 w.bmp taken
      → Undone w (place2 kind w pfn (phys % 2 ^ 21) taken)
  unmap-place2 split (none, bmp) t = refl
  unmap-place2 split (some idx, bmp) (wide, pair, bits) =
      let was = ok.free idx (omega (arith, pair.0)) pair.1 in
      let was2 = ok.free (idx + 1) pair.0 pair.2 in
      let first = write_pde (record w { bmp = bmp }) idx (entry kind pfn) in
      let w' = write_pde first (idx + 1) (entry kind ((pfn + 1) % 2 ^ 32)) in
      let same =
        unmap_at w' _ w.addr idx (phys % 2 ^ 21) refl ok.aligned (omega (arith, pair.0))
          (λ ne. pair.0) (omega arith) in
      rw (same, ==_false (phys % 2 ^ 21) 0 split)
        (record {
          same_addr = refl;
          same_entries = λ i. ground arith;
          same_free = λ i l.
              ground
                (arith, member-set (bmp512_set bmp idx) (idx + 1) i, member-set bmp idx i, bits i);
        })

  -- In a window in order, an unmap of the address that a map of 2 MB returned gives each entry and the set of free
  -- pages back as they were before the map; a map that fails changes nothing.
  pub unmap-map_phys_pg : Undone w (map_phys_pg_noflush kind w phys)
  unfolding map_phys_pg_noflush map_pfn_noflush
  unmap-map_phys_pg = elim (Bool-cases (phys % 2 ^ 21 == 0)) [
    | inl e ↦ rw e (unmap-place (bmp512_ffs_unset w.bmp) (ffs_unset_takes w.bmp ok.wide))
    | inr e ↦
        rw e
          (unmap-place2 (ground arith) (bmp512_ffs2_unset2 w.bmp) (ffs2_unset2_takes w.bmp ok.wide))
  ]
