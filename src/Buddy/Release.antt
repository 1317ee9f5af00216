-- ===== src/Buddy/Release.antt =====
-- `__buddy_free` of a block that is handed out, and `buddy_arena_init`: no page is in two free blocks.
use mathlib.Core.Path.{subst}
use native.Mathlib.Nat.{mod-eq_of_lt}
use twan.Base.{
  ℕ, zero, suc, ◌+◌, ◌-◌, ◌*◌, ◌/◌, ◌%◌, ◌^◌, ◌<◌, ◌≡◌, inl, inr, refl, sym, true, false, not, ◌||◌,
  arith, ◌==◌, leb, Bool-cases, ℕ_discrete,
}
use twan.Buddy.{
  BuddyArena, num_orders, base_order, buddy_is_block_free, buddy_block_clear, buddy_block_set_free,
  buddy_order_set_free, buddy_get_idx, buddy_get_parent_idx, buddy_order_num_blocks,
  buddy_update_order_bitmap, merge_loop, buddy_free, buddy_block_idx_to_addr,
}
use twan.Buddy.Bits.{IsBytes}
use twan.Buddy.Blocks.{IsBlock, free-clear}
use twan.Buddy.Split.{block_clear-IsBytes}
use twan.Buddy.Addresses.{addr_round_trip}
use twan.Buddy.Cover.{page_half, buddy_get_idx_is, update_blocks}
use twan.Buddy.Free.{parent-IsBlock}
use twan.Buddy.Held.{
  IsDisjoint, IsHeld, IsDisjoint-same, IsHeld-same, clear-IsHeld, clear-still_IsHeld,
  set_free-IsDisjoint,
}

-- The bits are bytes, and the block exists and is held.
abbrev IsKept : (o i : ℕ) → BuddyArena → Type 0
IsKept o i a = IsBytes a.block_bitmap × IsBlock o i × IsHeld a o i

-- A held block and its free buddy become one held block.
merge-IsHeld :
    (a : BuddyArena) (o i : ℕ)
    → IsBytes a.block_bitmap
    → IsBlock o i
    → IsBlock o (buddy_get_idx i)
    → buddy_is_block_free a o (buddy_get_idx i) ≡ true
    → IsHeld a o i
    → IsHeld (buddy_block_clear (buddy_block_clear a o i) o (buddy_get_idx i)) (suc o) (i / 2)
merge-IsHeld a o i bytes b b' free held =
    let a1 = buddy_block_clear a o i in
    let other = buddy_get_idx i in
    let bytes1 = block_clear-IsBytes a o i bytes in
    let held1 : IsHeld a1 o i = clear-still_IsHeld a o i bytes b o i held in
    let free1 : buddy_is_block_free a1 o other ≡ true =
      ground (arith, free-clear a o o i other bytes b b', buddy_get_idx_is i) in
    let here = clear-still_IsHeld a1 o other bytes1 b' o i held1 in
    let there = clear-IsHeld a1 o other bytes1 b' free1 held1.0 in
    (
      here.0,
      λ p at. elim (ℕ_discrete (p / 2 ^ o) i) [
        | yes left ↦ here.1 p left
        | no right ↦ there.1 p (ground (arith, page_half o p, buddy_get_idx_is i))
      ],
    )

merge_loop-IsKept :
    (rounds o i : ℕ) (a : BuddyArena)
    → o + rounds < num_orders
    → IsKept o i a
    → let out = merge_loop rounds o i a in IsKept out.0 out.1 out.2
unfolding merge_loop buddy_get_parent_idx
merge_loop-IsKept zero o i a h kept = kept
merge_loop-IsKept (suc rounds) o i a h (bytes, b, held) =
    let other = buddy_get_idx i in
    let a2 = buddy_block_clear (buddy_block_clear a o i) o other in
    let a3 = buddy_update_order_bitmap a2 o in
    let same : a3.block_bitmap ≡ a2.block_bitmap = update_blocks a2 o in
    let bytes3 : IsBytes a3.block_bitmap =
      subst (λ t. IsBytes t) (sym same)
        (block_clear-IsBytes _ o other (block_clear-IsBytes a o i bytes)) in
    let rest = λ (held3 : IsHeld a3 (suc o) (i / 2)).
      merge_loop-IsKept rounds (suc o) (i / 2) a3 (omega (arith, h))
        (bytes3, parent-IsBlock o i b (omega (arith, h)), held3) in
    elim (Bool-cases
      (leb (buddy_order_num_blocks o) other || not (buddy_is_block_free a o other))) [
        | inl e ↦ rw (merge_loop, e) (bytes, b, held)
        | inr e ↦
            rw (merge_loop, e)
              (rest (
                IsHeld-same a2 a3 (suc o) (i / 2) same
                  (merge-IsHeld a o i bytes b (b.0, ground arith) (ground arith) held)))
      ]

-- The end of `__buddy_free`.
end-IsDisjoint :
    (out : ℕ × ℕ × BuddyArena)
    → IsKept out.0 out.1 out.2
    → IsDisjoint (buddy_order_set_free (buddy_block_set_free out.2 out.0 out.1) out.0)
unfolding buddy_order_set_free
end-IsDisjoint (o, i, a) (bytes, b, held) =
    IsDisjoint-same (buddy_block_set_free a o i) _ refl (set_free-IsDisjoint a o i bytes b held)

-- `__buddy_free` of a block, by its address, on arrays of bytes: where no page was in two free blocks and no page of the
-- block was free, no page is in two free blocks afterwards, however many buddies the block is merged with. The address is
-- not PMA_NULL, and the block starts within the 64 bits of an address.
pub buddy_free-IsDisjoint :
    (arena : BuddyArena) (order i : ℕ)
    → IsBytes arena.block_bitmap
    → IsBlock order i
    → IsHeld arena order i
    → 0 < arena.base_addr
    → arena.base_addr + i * 2 ^ (order + base_order) < 2 ^ 64
    → IsDisjoint (buddy_free (buddy_block_idx_to_addr arena i order) order arena)
unfolding buddy_free buddy_block_idx_to_addr
buddy_free-IsDisjoint arena order i bytes b held some_addr fits =
    let bytes_idx : i * 2 ^ (order + base_order) % 2 ^ 64 ≡ i * 2 ^ (order + base_order) =
      mod-eq_of_lt (omega (arith, fits)) in
    let real : (arena.base_addr + i * 2 ^ (order + base_order)) % 2 ^ 64
        ≡ arena.base_addr + i * 2 ^ (order + base_order) =
      mod-eq_of_lt fits in
    let not_null : ((buddy_block_idx_to_addr arena i order == 0) || leb num_orders order) ≡ false =
      ground (arith, bytes_idx, real, b.0) in
    rw (not_null, addr_round_trip arena i order fits)
      (end-IsDisjoint _ (
        merge_loop-IsKept (num_orders - 1 - order) order i arena (omega (arith, b.0))
          (bytes, b, held)))
