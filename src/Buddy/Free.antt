-- ===== src/Buddy/Free.antt =====
-- `__buddy_free`: the pages of the block become free, and no other page changes, through all merges.
use mathlib.Core.Path.{subst}
use native.Mathlib.Nat.{pow-suc, mod-eq_of_lt}
use twan.Base.{
  ℕ, zero, suc, ◌+◌, ◌-◌, ◌*◌, ◌/◌, ◌%◌, ◌^◌, ◌<◌, ◌≡◌, ◌⊎◌, ◌↔◌, inl, inr, refl, sym, ap, ◌∙◌,
  true, false, not, ◌&&◌, ◌||◌, arith, ◌==◌, leb, if◌then◌else◌, Bool-cases, ℕ_discrete,
}
use twan.Buddy.{
  BuddyArena, num_orders, base_order, buddy_is_block_free, buddy_block_clear, buddy_block_set_free,
  buddy_order_set_free, buddy_get_idx, buddy_get_parent_idx, buddy_order_num_blocks,
  buddy_update_order_bitmap, merge_loop, buddy_free, buddy_block_idx_to_addr,
}
use twan.Buddy.Bits.{IsBytes}
use twan.Buddy.Blocks.{IsBlock, num_blocks-pow, free-set_free, free-clear}
use twan.Buddy.Split.{block_clear-IsBytes}
use twan.Buddy.Addresses.{addr_round_trip}
use twan.Buddy.Cover.{
  In, FreePage, page_half, buddy_get_idx_is, update_blocks, FreePage-same, moved,
}

module _ (a : BuddyArena) (o i : ℕ) (bytes : IsBytes a.block_bitmap) (b : IsBlock o i) (p : ℕ) where
  -- An arena in which block `i` of order `o` became free.
  set_free-covers : FreePage (buddy_block_set_free a o i) p → FreePage a p ⊎ In o i p
  set_free-covers (o', i', b', f, at) = elim (Bool-cases ((o == o') && (i == i'))) [
    | inl e ↦ inr (let same : o ≡ o' = ground arith in rw same (ground arith))
    | inr e ↦ inl (o', i', b', ground (arith, free-set_free a o o' i i' bytes b b'), at)
  ]

  covers-set_free : FreePage a p ⊎ In o i p → FreePage (buddy_block_set_free a o i) p
  covers-set_free (inl (o', i', b', f, at)) =
      (o', i', b', ground (arith, free-set_free a o o' i i' bytes b b'), at)
  covers-set_free (inr at) = (o, i, b, ground (arith, free-set_free a o o i i bytes b b), at)

-- What a merge clears is in the block one order above.
module _ (a : BuddyArena) (o i : ℕ) where
  abbrev other : ℕ
  other = buddy_get_idx i

  abbrev merged : BuddyArena
  merged = buddy_block_clear (buddy_block_clear a o i) o other

  module _ (bytes : IsBytes a.block_bitmap) (b : IsBlock o i) (b' : IsBlock o other) where
    merged-free :
        (o' i' : ℕ)
        → IsBlock o' i'
        → buddy_is_block_free merged o' i' ≡ (
            if (o == o') && ((other == i') || (i == i'))
            then false
            else buddy_is_block_free a o' i')
    merged-free o' i' block = ground (
      arith,
      free-clear (buddy_block_clear a o i) o o' other i' (block_clear-IsBytes a o i bytes) b' block,
      free-clear a o o' i i' bytes b block,
    )

    covers-merged : (p : ℕ) → FreePage a p ⊎ In o i p → FreePage merged p ⊎ In (suc o) (i / 2) p
    covers-merged p (inr at) = inr (omega (arith, page_half o p, at))
    covers-merged p (inl (o', i', block, f, at)) =
        elim (Bool-cases ((o == o') && ((other == i') || (i == i')))) [
          | inr e ↦ inl (o', i', block, ground (arith, merged-free o' i' block), at)
          | inl e ↦
              let same : o ≡ o' = ground arith in
              inr (ground (arith, page_half o p, buddy_get_idx_is i, rw (sym same) at at))
        ]

    merged-covers :
        buddy_is_block_free a o other ≡ true
        → (p : ℕ) → FreePage merged p ⊎ In (suc o) (i / 2) p
        → FreePage a p ⊎ In o i p
    merged-covers other_free p (inl (o', i', block, f, at)) =
        inl (o', i', block, ground (arith, merged-free o' i' block), at)
    merged-covers other_free p (inr at) = elim (ℕ_discrete (p / 2 ^ o) i) [
      | yes here ↦ inr here
      | no there ↦ inl (o, other, b', other_free, ground (arith, page_half o p, buddy_get_idx_is i))
    ]

pub parent-IsBlock : (o i : ℕ) → IsBlock o i → suc o < num_orders → IsBlock (suc o) (i / 2)
parent-IsBlock o i (ho, hi) next =
    let e : suc (14 - suc o) ≡ 14 - o = omega (arith, next) in
    let size : 2 ^ (14 - o) ≡ 2 ^ (14 - suc o) * 2 =
      ap (λ (t : ℕ). 2 ^ t) (sym e) ∙ pow-suc 2 (14 - suc o) in
    (next, rw (num_blocks-pow (suc o) next) (omega (arith, size, rw (num_blocks-pow o ho) at hi)))

-- The loop ends at a block that covers with the free ones what the first one did.
record Merged (a : BuddyArena) (o i : ℕ) (out : ℕ × ℕ × BuddyArena) : Type 0 where
  bytes : IsBytes out.2.block_bitmap
  block : IsBlock out.0 out.1
  gains : (p : ℕ) → FreePage a p ⊎ In o i p → FreePage out.2 p ⊎ In out.0 out.1 p
  no_more : (p : ℕ) → FreePage out.2 p ⊎ In out.0 out.1 p → FreePage a p ⊎ In o i p

-- A round of the loop, before one that does the rest.
Merged-round :
    (a a3 : BuddyArena) (o i : ℕ) (out : ℕ × ℕ × BuddyArena)
    → IsBytes a.block_bitmap
    → IsBlock o i
    → IsBlock o (other a o i)
    → buddy_is_block_free a o (other a o i) ≡ true
    → a3.block_bitmap ≡ (merged a o i).block_bitmap
    → Merged a3 (suc o) (i / 2) out
    → Merged a o i out
Merged-round a a3 o i out bytes b b' f same rest = record {
  bytes = rest.bytes;
  block = rest.block;
  gains = λ p c.
      rest.gains p
        (moved (merged a o i) a3 same (suc o) (i / 2) p (covers-merged a o i bytes b b' p c));
  no_more = λ p c.
      merged-covers a o i bytes b b' f p
        (moved a3 (merged a o i) (sym same) (suc o) (i / 2) p (rest.no_more p c));
}

Merged-rounds :
    (rounds o i : ℕ) (a : BuddyArena)
    → IsBytes a.block_bitmap
    → IsBlock o i
    → o + rounds < num_orders
    → Merged a o i (merge_loop rounds o i a)
unfolding merge_loop buddy_get_parent_idx
Merged-rounds zero o i a bytes b h = record {
  bytes = bytes;
  block = b;
  gains = λ p c. c;
  no_more = λ p c. c;
}
Merged-rounds (suc rounds) o i a bytes b h =
    let a3 = buddy_update_order_bitmap (merged a o i) o in
    let same : a3.block_bitmap ≡ (merged a o i).block_bitmap = update_blocks (merged a o i) o in
    let bytes3 : IsBytes a3.block_bitmap =
      subst (λ t. IsBytes t) (sym same)
        (block_clear-IsBytes _ o (other a o i) (block_clear-IsBytes a o i bytes)) in
    let rest =
      Merged-rounds rounds (suc o) (i / 2) a3 bytes3 (parent-IsBlock o i b (omega (arith, h)))
        (omega (arith, h)) in
    elim (Bool-cases (
      leb (buddy_order_num_blocks o) (other a o i)
      || not (buddy_is_block_free a o (other a o i)))) [
        | inl e ↦
            rw (merge_loop, e)
              (record { bytes = bytes; block = b; gains = λ p c. c; no_more = λ p c. c })
        | inr e ↦
            rw (merge_loop, e)
              (Merged-round a a3 o i _ bytes b (b.0, ground arith) (ground arith) same rest)
      ]

-- The end of `__buddy_free`.
free_end : (a : BuddyArena) (o i : ℕ) → BuddyArena
free_end a o i = buddy_order_set_free (buddy_block_set_free a o i) o

end-blocks :
    (a : BuddyArena) (o i : ℕ)
    → (free_end a o i).block_bitmap ≡ (buddy_block_set_free a o i).block_bitmap
unfolding free_end buddy_order_set_free
end-blocks a o i = refl

Merged-covers :
    (a : BuddyArena) (o i : ℕ) (out : ℕ × ℕ × BuddyArena)
    → Merged a o i out
    → (p : ℕ) → FreePage (free_end out.2 out.0 out.1) p ↔ (FreePage a p ⊎ In o i p)
Merged-covers a o i (o', i', a') m p =
    let same = end-blocks a' o' i' in
    (
      λ f.
          m.no_more p
            (set_free-covers a' o' i' m.bytes m.block p (FreePage-same _ _ (sym same) p f)),
      λ c. FreePage-same _ _ same p (covers-set_free a' o' i' m.bytes m.block p (m.gains p c)),
    )

-- `__buddy_free` of a block, by its address, on arrays of bytes: afterwards the free pages are those that were free
-- and those of the block, however many buddies it is merged with. The address is not PMA_NULL, and the block
-- starts within the 64 bits of an address.
pub buddy_free_lem :
    (arena : BuddyArena) (order i : ℕ)
    → IsBytes arena.block_bitmap
    → IsBlock order i
    → 0 < arena.base_addr
    → arena.base_addr + i * 2 ^ (order + base_order) < 2 ^ 64
    → (p : ℕ)
    → FreePage (buddy_free (buddy_block_idx_to_addr arena i order) order arena) p
      ↔ (FreePage arena p ⊎ In order i p)
unfolding buddy_free free_end buddy_block_idx_to_addr
buddy_free_lem arena order i ok b some_addr fits p =
    let bytes_idx : i * 2 ^ (order + base_order) % 2 ^ 64 ≡ i * 2 ^ (order + base_order) =
      mod-eq_of_lt (omega (arith, fits)) in
    let real : (arena.base_addr + i * 2 ^ (order + base_order)) % 2 ^ 64
        ≡ arena.base_addr + i * 2 ^ (order + base_order) =
      mod-eq_of_lt fits in
    let not_null : ((buddy_block_idx_to_addr arena i order == 0) || leb num_orders order) ≡ false =
      ground (arith, bytes_idx, real, b.0) in
    rw (not_null, addr_round_trip arena i order fits)
      (Merged-covers arena order i _
        (Merged-rounds (num_orders - 1 - order) order i arena ok b (omega (arith, b.0))) p)
