-- ===== src/Paging/Places.antt =====
-- What a map and an unmap do to the translation of the addresses of a window.
use twan.Base.{
  ℕ, ◌+◌, ◌*◌, ◌/◌, ◌%◌, ◌^◌, ◌≤◌, ◌<◌, ◌≡◌, ◌≢◌, ◌⊎◌, inl, inr, refl, true, Option, none, some,
  ◌==◌, if◌then◌else◌, ltb, arith, Bool-cases,
}
use twan.Bitmap.Wide.{Bmp512, bmp512_ffs_unset, bmp512_ffs2_unset2}
use twan.Bitmap.Wide.Laws.{Taken, ffs_unset_takes}
use twan.Bitmap.Wide.Two.{Taken2, ffs2_unset2_takes}
use twan.Paging.{
  Kind, ram, mmio, entry, Mapper, pd_index_of, place, place2, map_pfn_noflush, map_phys_pg_noflush,
}
use twan.Paging.Windows.{IsMapper, translate, use-IsMapper, use2-IsMapper}

-- The 2 MB from `addr` lead to those from `phys`, were free, and all addresses that led somewhere still do.
pub record Mapped (w : Mapper) (phys addr : ℕ) (w' : Mapper) : Type 0 where
  pub in_order : IsMapper w'
  pub inside : (w.addr ≤ addr) × (addr + 2 ^ 21 ≤ w.addr + 2 ^ 30)
  pub leads : (k : ℕ) → k < 2 ^ 21 → translate w' (addr + k) ≡ some (phys + k)
  pub was_free : (k : ℕ) → k < 2 ^ 21 → translate w (addr + k) ≡ none
  pub keeps : (va p : ℕ) → translate w va ≡ some p → translate w' va ≡ some p

abbrev pub MapsTo : Mapper → (phys : ℕ) → Option ℕ × Mapper → Type 0
MapsTo w phys (none, w') =
    (w' ≡ w) × ((phys % 2 ^ 21 ≢ 0) ⊎ ((i : ℕ) → i < 512 → (w.pde i).present ≡ true))
MapsTo w phys (some addr, w') = Mapped w phys addr w'

entry-present :
    (kind : Kind) (pfn : ℕ)
    → ((entry kind pfn).present ≡ true) × ((entry kind pfn).pfn ≡ pfn % 2 ^ 30)
entry-present ram pfn = (refl, refl)
entry-present mmio pfn = (refl, refl)

module _ (kind : Kind) (w : Mapper) (ok : IsMapper w) (phys : ℕ)
    (fits : phys + 2 ^ 21 ≤ 2 ^ 51) where
  abbrev pfn : ℕ
  pfn = phys / 2 ^ 21 % 2 ^ 32

  place-MapsTo :
      phys % 2 ^ 21 ≡ 0
      → (taken : Option ℕ × Bmp512) → Taken w.bmp taken
      → MapsTo w phys (place kind w pfn taken)
  place-MapsTo whole (none, bmp) (same, all_used) = (refl, inr (λ i l. ok.used i l (all_used i l)))
  place-MapsTo whole (some idx, bmp) (wide, least, bits) =
      let (here, to) = entry-present kind pfn in
      let was = ok.free idx least.0 least.1 in
      record {
        in_order = use-IsMapper w bmp idx (entry kind pfn) ok wide here bits;
        inside = (omega arith, omega (arith, least.0));
        leads = λ k l.
            let e : pd_index_of (w.addr + idx * 2 ^ 21 + k) ≡ idx =
              omega (arith, ok.aligned, least.0) in
            ground (arith, ok.aligned);
        was_free = λ k l.
            let e : pd_index_of (w.addr + idx * 2 ^ 21 + k) ≡ idx =
              omega (arith, ok.aligned, least.0) in
            ground arith;
        keeps = λ va p h. ground arith;
      }

  -- The page of an address `k` behind one in page `idx`.
  index_split :
      (idx k : ℕ)
      → idx + 1 < 512
      → k < 2 ^ 21
      → pd_index_of (w.addr + idx * 2 ^ 21 + phys % 2 ^ 21 + k)
        ≡ (if ltb (phys % 2 ^ 21 + k) (2 ^ 21) then idx else idx + 1)
  index_split idx k l h = ground (arith, ok.aligned)

  place2-MapsTo :
      phys % 2 ^ 21 ≢ 0
      → (taken : Option ℕ × Bmp512) → Taken2 w.bmp taken
      → MapsTo w phys (place2 kind w pfn (phys % 2 ^ 21) taken)
  place2-MapsTo split (none, bmp) same = (refl, inl split)
  place2-MapsTo split (some idx, bmp) (wide, pair, bits) =
      let (here, to) = entry-present kind pfn in
      let (here2, to2) = entry-present kind ((pfn + 1) % 2 ^ 32) in
      let was = ok.free idx (omega (arith, pair.0)) pair.1 in
      let was2 = ok.free (idx + 1) pair.0 pair.2 in
      record {
        in_order =
            use2-IsMapper w bmp idx (entry kind pfn) (entry kind ((pfn + 1) % 2 ^ 32)) ok wide here
              here2 bits;
        inside = (omega arith, omega (arith, pair.0));
        leads = λ k l. ground (arith, ok.aligned, index_split idx k pair.0 l);
        was_free = λ k l. ground (arith, index_split idx k pair.0 l);
        keeps = λ va p h. ground arith;
      }

  -- A map of 2 MB of physical memory, below 2 ^ 51 and into a window in order, gives an address in the window from which the
  -- 2 MB are reached byte by byte; these addresses led nowhere before, and every address that led somewhere leads there
  -- still. If it fails, nothing changes, and all pages are in use or the 2 MB need two neighbours.
  pub map_phys_pg_noflush_lem : MapsTo w phys (map_phys_pg_noflush kind w phys)
  unfolding map_phys_pg_noflush map_pfn_noflush
  map_phys_pg_noflush_lem = elim (Bool-cases (phys % 2 ^ 21 == 0)) [
    | inl e ↦
        rw e (place-MapsTo (ground arith) (bmp512_ffs_unset w.bmp) (ffs_unset_takes w.bmp ok.wide))
    | inr e ↦
        rw e (
          place2-MapsTo (ground arith) (bmp512_ffs2_unset2 w.bmp) (ffs2_unset2_takes w.bmp ok.wide))
  ]
