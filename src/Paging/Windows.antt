-- ===== src/Paging/Windows.antt =====
-- A window in order, and the translation of its addresses by the processor.
use twan.Base.{
  ℕ, ◌+◌, ◌*◌, ◌%◌, ◌^◌, ◌<◌, ◌≡◌, true, false, Option, none, some, ◌==◌, if◌then◌else◌, arith,
}
use twan.Bitmap.Wide.{Bmp512, bmp512_set}
use twan.Bitmap.Wide.Laws.{member, IsWide, member-set, set-IsWide}
use twan.Bitmap.Wide.Two.{member-set_all, set_all-IsWide}
use twan.Paging.{init_mapper, Pde, unmapped, Mapper, pd_index_of, write_pde}

-- The window is aligned to 1 GB, and the bitmap has the pages that map nothing.
pub record IsMapper (w : Mapper) : Type 0 where
  pub wide : IsWide w.bmp
  pub aligned : w.addr % 2 ^ 30 ≡ 0
  pub free : (i : ℕ) → i < 512 → member w.bmp i ≡ true → w.pde i ≡ unmapped
  pub used : (i : ℕ) → i < 512 → member w.bmp i ≡ false → (w.pde i).present ≡ true

-- Where an address of the window leads.
abbrev pub translate : Mapper → (va : ℕ) → Option ℕ
translate w va =
    let pde = w.pde (pd_index_of va) in
    if pde.present then some (pde.pfn * 2 ^ 21 + va % 2 ^ 21) else none

-- A window where page `idx` was free and is used, or was used and is free.
pub use-IsMapper :
    (w : Mapper) (bmp : Bmp512) (idx : ℕ) (pde : Pde)
    → IsMapper w
    → IsWide bmp
    → pde.present ≡ true
    → ((c : ℕ) → member bmp c ≡ (if idx == c then false else member w.bmp c))
    → IsMapper (write_pde (record w { bmp = bmp }) idx pde)
use-IsMapper w bmp idx pde ok wide present bits = record {
  wide = wide;
  aligned = ok.aligned;
  free = λ i l m. ground (arith, bits i, ok.free i l);
  used = λ i l m. ground (arith, bits i, ok.used i l);
}

pub free-IsMapper :
    (w : Mapper) (idx : ℕ)
    → IsMapper w
    → IsMapper (let unset = write_pde w idx unmapped in record unset { bmp = bmp512_set w.bmp idx })
free-IsMapper w idx ok = record {
  wide = set-IsWide w.bmp idx ok.wide;
  aligned = ok.aligned;
  free = λ i l m. ground (arith, member-set w.bmp idx i, ok.free i l);
  used = λ i l m. ground (arith, member-set w.bmp idx i, ok.used i l);
}

pub index_of :
    (base idx k : ℕ)
    → base % 2 ^ 30 ≡ 0
    → idx < 512
    → k < 2 ^ 21
    → pd_index_of (base + idx * 2 ^ 21 + k) ≡ idx
index_of base idx k aligned l h = omega arith

-- A window where two neighbours were free and are used.
pub use2-IsMapper :
    (w : Mapper) (bmp : Bmp512) (idx : ℕ) (first second : Pde)
    → IsMapper w
    → IsWide bmp
    → first.present ≡ true
    → second.present ≡ true
    → ((c : ℕ)
        → member bmp c
          ≡ (if idx == c then false else if idx + 1 == c then false else member w.bmp c))
    → IsMapper (write_pde (write_pde (record w { bmp = bmp }) idx first) (idx + 1) second)
use2-IsMapper w bmp idx first second ok wide here there bits = record {
  wide = wide;
  aligned = ok.aligned;
  free = λ i l m. ground (arith, bits i, ok.free i l);
  used = λ i l m. ground (arith, bits i, ok.used i l);
}

-- `init_mappers` on an aligned window that maps nothing puts it in order.
pub init_mapper-IsMapper :
    (w : Mapper) → w.addr % 2 ^ 30 ≡ 0 → ((i : ℕ) → w.pde i ≡ unmapped) → IsMapper (init_mapper w)
unfolding init_mapper
init_mapper-IsMapper w aligned nothing = record {
  wide = set_all-IsWide w.bmp;
  aligned = aligned;
  free = λ i l m. nothing i;
  used = λ i l m. absurd (ground (arith, member-set_all w.bmp i l));
}
