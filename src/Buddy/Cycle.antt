-- ===== src/Buddy/Cycle.antt =====
-- `__buddy_alloc` and then `__buddy_free` of what it returned.
use native.Mathlib.Nat.{mul-lt-mul_of_pos_right, one-le-pow, mod-eq_of_lt}
use twan.Base.{
  ℕ, ◌+◌, ◌-◌, ◌*◌, ◌%◌, ◌^◌, ◌<◌, ◌≤◌, ◌≡◌, ◌≢◌, ◌↔◌, inl, inr, refl, sym, ap, ◌∙◌, arith,
}
use twan.Bits.Scan.{pow-add}
use twan.Buddy.{
  BuddyArena, num_orders, base_order, buddy_alloc, buddy_free, buddy_block_idx_to_addr,
}
use twan.Buddy.Blocks.{IsBlock, num_blocks-pow}
use twan.Buddy.Alloc.{IsArena}
use twan.Buddy.Cover.{FreePage}
use twan.Buddy.Held.{IsDisjoint}
use twan.Buddy.Free.{buddy_free_lem}
use twan.Buddy.Serve.{ServedFrom, addr-base, buddy_alloc-cover}

-- The blocks are within the 32 GB of an arena.
pub block_inside : (order i : ℕ) → IsBlock order i → i * 2 ^ (order + base_order) < 2 ^ 35
block_inside order i (ho, hi) =
    let e : 14 - order + (order + base_order) ≡ 35 = omega (arith, ho) in
    let all : 2 ^ 35 ≡ 2 ^ (14 - order) * 2 ^ (order + base_order) =
      ap (λ (t : ℕ). 2 ^ t) (sym e) ∙ pow-add (14 - order) (order + base_order) in
    rw all (
      mul-lt-mul_of_pos_right (rw (num_blocks-pow order ho) at hi)
        (one-le-pow (order + base_order) 2 (omega arith)))

-- The 32 GB of an arena are within 64 bits and do not start at PMA_NULL.
abbrev pub IsPlaced : BuddyArena → Type 0
IsPlaced arena = (0 < arena.base_addr) × (arena.base_addr + 2 ^ 35 ≤ 2 ^ 64)

pub block_not_null :
    (arena : BuddyArena) (order i : ℕ)
    → IsPlaced arena
    → IsBlock order i
    → buddy_block_idx_to_addr arena i order ≢ 0
unfolding buddy_block_idx_to_addr
block_not_null arena order i (some_addr, fits) b e =
    let inside = block_inside order i b in
    let offset : i * 2 ^ (order + base_order) % 2 ^ 64 ≡ i * 2 ^ (order + base_order) =
      mod-eq_of_lt (omega (arith, inside)) in
    omega (arith, e, offset, inside, some_addr, fits)

pub free_null : (order : ℕ) (a : BuddyArena) → buddy_free 0 order a ≡ a
unfolding buddy_free
free_null order a = refl

module _ (arena : BuddyArena) (order : ℕ) (ok : IsArena arena) (apart : IsDisjoint arena)
    (ho : order < num_orders) (some_addr : 0 < arena.base_addr)
    (fits : arena.base_addr + 2 ^ 35 ≤ 2 ^ 64) where
  back :
      (out : ℕ × BuddyArena)
      → ServedFrom arena order out
      → (p : ℕ) → FreePage (buddy_free out.0 order out.1) p ↔ FreePage arena p
  back (addr, a') (inl (null, _, same)) p = rw (null, free_null order a') (same p)
  back (addr, a') (inr (i, b, e, base, bytes, held, cover)) p =
      let r =
        buddy_free_lem a' order i bytes b (rw base some_addr)
          (omega (arith, base, fits, block_inside order i b)) p in
      rw (e, sym (addr-base arena a' i order base))
        (λ f. (cover p).0 (r.0 f), λ f. r.1 ((cover p).1 f))

  -- `__buddy_free` of what `__buddy_alloc` returned gives back the free pages from before, through all the blocks that
  -- were split and merged; also when PMA_NULL was returned. The order is below 15, the bitmaps are arrays of bytes, no page is
  -- in two free blocks, and the 32 GB from the base are within 64 bits and do not start at PMA_NULL.
  pub free-alloc-cover :
      (p : ℕ)
      → FreePage (buddy_free (buddy_alloc arena order).0 order (buddy_alloc arena order).1) p
        ↔ FreePage arena p
  free-alloc-cover p = back (buddy_alloc arena order) (buddy_alloc-cover arena order ok apart ho) p
