-- ===== src/Tests/Paging.antt =====
-- A window of the kernel onto physical memory.
use twan.Base.{ℕ, ◌+◌, ◌*◌, ◌^◌, refl, false, arith}
use twan.Paging.{
  ram, mmio, unmapped, Mapper, init_mapper, map_phys_pg_noflush, map_phys_pg, unmap_phys_pg,
  map_phys_pg_local, map_phys_pg_io_local, unmap_phys_pg_io_local,
}
use twan.Paging.Windows.{IsMapper, init_mapper-IsMapper}
use twan.Paging.Places.{MapsTo, map_phys_pg_noflush_lem}
use twan.Paging.Unmaps.{Undone, unmap-map_phys_pg}
use twan.Paging.Flushes.{
  Fresh, FreshResult, flushes-Fresh, SecondStale, map_phys_pg_local-SecondStale,
}

abbrev boot_window : Mapper
boot_window = record {
  bmp = record { high256 = record { bmp = λ i. 0 }; low256 = record { bmp = λ i. 0 } };
  addr = 5 * 2 ^ 30;
  pde = λ i. unmapped;
  stale = λ cpu page. false;
}

abbrev window : Mapper
window = init_mapper boot_window

window-IsMapper : IsMapper window
window-IsMapper = init_mapper-IsMapper boot_window refl (λ i. refl)

-- 3 KB into a page
abbrev phys : ℕ
phys = 7 * 2 ^ 21 + 3072

map_phys_pg_noflush_example : MapsTo window phys (map_phys_pg_noflush ram window phys)
map_phys_pg_noflush_example = map_phys_pg_noflush_lem ram window window-IsMapper phys (omega arith)

unmap-map_phys_pg_example : Undone window (map_phys_pg_noflush mmio window phys)
unmap-map_phys_pg_example = unmap-map_phys_pg mmio window window-IsMapper phys

flushes-Fresh_example :
    FreshResult 2 (map_phys_pg window phys)
    × Fresh 2 (5 * 2 ^ 30) (unmap_phys_pg window (5 * 2 ^ 30))
    × FreshResult 2 (map_phys_pg_io_local 2 window phys)
    × Fresh 2 (5 * 2 ^ 30) (unmap_phys_pg_io_local 2 window (5 * 2 ^ 30))
flushes-Fresh_example = flushes-Fresh 2 window phys (5 * 2 ^ 30)

map_phys_pg_local-SecondStale_example : SecondStale 2 (map_phys_pg_local 2 window phys)
map_phys_pg_local-SecondStale_example =
    map_phys_pg_local-SecondStale 2 window phys window-IsMapper (omega arith)
