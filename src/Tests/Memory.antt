-- ===== src/Tests/Memory.antt =====
-- The theorems on the buddy allocator at an arena with one free block.
use twan.Base.{◌≤◌, ◌+◌, ◌*◌, ◌≡◌, ◌↔◌, ◌⊎◌, refl, some, ℕ, ◌<◌, ◌^◌, arith, if◌then◌else◌, ◌==◌}
use twan.Buddy.{
  buddy_alloc, BuddyArena, buddy_free, buddy_block_idx_to_addr, buddy_arena_init,
  buddy_block_set_free, buddy_order_set_free,
}
use twan.Word.{log2, log2_loop}
use twan.Buddy.Blocks.{some-IsBlock}
use twan.Buddy.Cover.{In, FreePage}
use twan.Buddy.Free.{buddy_free_lem}
use twan.Buddy.Serve.{ServedFrom, base-down, buddy_alloc-cover}
use twan.Buddy.Init.{init-IsArena, buddy_arena_init-FreePage}
use twan.Buddy.Held.{IsDisjoint, IsHeld, down, no_bits-IsHeld, down-IsHeld}
use twan.Buddy.Release.{buddy_free-IsDisjoint}
use twan.Buddy.Split.{round-IsBytes}
use twan.Pma.{Pma, buddy_get_order, pma_buddy_alloc_pages, pma_buddy_free_pages}
use twan.Pma.Pages.{ServedBy}
use twan.Pma.Cycle.{IsPma, HandedOut, pma_buddy_alloc_pages_lem, free_pages-alloc_pages}
use twan.Buddy.Alloc.{IsArena}

-- block 0 of order 0 is free
abbrev arena : BuddyArena
arena = record {
  base_addr = 0x10000;
  order_bitmap = λ i. if i == 0 then 1 else 0;
  block_bitmap = λ i. if i == 0x7ff then 0x80 else 0;
}

arena-IsBytes : (i : ℕ) → arena.block_bitmap i < 2 ^ 8
arena-IsBytes i = ground arith

buddy_free_example :
    FreePage (buddy_free (buddy_block_idx_to_addr arena 2 1) 1 arena) 5
    ↔ (FreePage arena 5 ⊎ In 1 2 5)
buddy_free_example =
    buddy_free_lem arena 1 2 arena-IsBytes (some-IsBlock 1 2 (omega arith) (omega arith))
      (omega arith) (omega arith) 5

-- 6 MB from 2 MB on, as an arena of 8 MB
abbrev six_mb : BuddyArena
six_mb =
    buddy_block_set_free
      (buddy_order_set_free
        (record { base_addr = 2 ^ 21; order_bitmap = λ i. 0; block_bitmap = λ i. 0 }) 2)
      2 0

six_mb_made : buddy_arena_init arena (2 ^ 21) (3 * 2 ^ 21) ≡ some six_mb
unfolding buddy_arena_init log2 log2_loop
six_mb_made = refl

buddy_arena_init_example : FreePage six_mb 3 × (4 * 2 ^ 21 < 2 ^ 21 + (3 + 1) * 2 ^ 21)
buddy_arena_init_example =
    buddy_arena_init-FreePage arena (2 ^ 21) (3 * 2 ^ 21) six_mb six_mb_made refl

six_mb_ready : (six_mb.base_addr ≡ 2 ^ 21) × IsArena six_mb × IsDisjoint six_mb
six_mb_ready = init-IsArena arena (2 ^ 21) (3 * 2 ^ 21) six_mb six_mb_made

-- block 0 of order 2 is split for one page
buddy_alloc-cover_example : ServedFrom six_mb 0 (buddy_alloc six_mb 0)
buddy_alloc-cover_example = buddy_alloc-cover six_mb 0 six_mb_ready.1 six_mb_ready.2 (omega arith)

-- page 1 is free and page 0 is handed out
abbrev bare : BuddyArena
bare = record { base_addr = 2 ^ 21; order_bitmap = λ i. 0; block_bitmap = λ i. 0 }

bare-IsBytes : (i : ℕ) → bare.block_bitmap i < 2 ^ 8
bare-IsBytes i = omega arith

one_free-IsHeld : IsHeld (down bare 0 0) 0 0
one_free-IsHeld =
    down-IsHeld bare 0 0 bare-IsBytes (some-IsBlock 1 0 (omega arith) (omega arith))
      (no_bits-IsHeld bare (λ j. refl) 1 0)

buddy_free-IsDisjoint_example :
    IsDisjoint (buddy_free (buddy_block_idx_to_addr (down bare 0 0) 0 0) 0 (down bare 0 0))
buddy_free-IsDisjoint_example =
    buddy_free-IsDisjoint (down bare 0 0) 0 0 (round-IsBytes bare 0 _ _ bare-IsBytes)
      (some-IsBlock 0 0 (omega arith) (omega arith)) one_free-IsHeld
      (omega (arith, base-down bare 0 0)) (omega (arith, base-down bare 0 0))

-- two arenas of one free block each
abbrev pma : Pma
pma = record { arenas = λ _. six_mb; num_arenas = 2 }

pma-IsPma : IsPma pma
pma-IsPma k l =
    (six_mb_ready.1, six_mb_ready.2, (omega (arith, six_mb_ready.0), omega (arith, six_mb_ready.0)))

pma_buddy_alloc_pages_example :
    let (out, s') = pma_buddy_alloc_pages 1 pma in
    (1 ≤ 2 ^ buddy_get_order 1)
    × (s'.num_arenas ≡ 2)
    × ServedBy pma.arenas (buddy_get_order 1) 0 2 (out, s'.arenas)
pma_buddy_alloc_pages_example = pma_buddy_alloc_pages_lem 1 pma (omega arith) pma-IsPma

free_pages-alloc_pages_example :
    let ((addr, id), s') = pma_buddy_alloc_pages 1 pma in
    HandedOut pma.arenas s'.arenas (buddy_get_order 1) addr id
    × ((k p : ℕ)
        → FreePage ((pma_buddy_free_pages id addr 1 s').1.arenas k) p ↔ FreePage (pma.arenas k) p)
free_pages-alloc_pages_example = free_pages-alloc_pages 1 pma (omega arith) pma-IsPma
