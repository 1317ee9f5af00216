-- ===== src/Buddy/Cover.antt =====
-- The pages that the free blocks cover, by their numbers from the base of the arena.
use native.Mathlib.Nat.{pow-suc, div-div-eq-div-mul}
use twan.Base.{
  ℕ, zero, suc, ◌+◌, ◌-◌, ◌/◌, ◌%◌, ◌^◌, ◌≤◌, ◌≡◌, ◌⊎◌, ◌↔◌, inl, inr, refl, sym, ap, ◌∙◌, true,
  arith, ◌==◌, if◌then◌else◌, Option-cases, ℕ_discrete, bit_xor,
}
use twan.Bits.Step.{bit_xor_step}
use twan.Buddy.{
  BuddyArena, buddy_update_order_bitmap, buddy_order_set_free, buddy_order_clear,
  buddy_find_block_at_order, buddy_is_block_free, buddy_get_idx,
}
use twan.Buddy.Alloc.{free-same}
use twan.Buddy.Blocks.{IsBlock}

-- page `p` is in block `i` of order `o`
abbrev pub In : (o i p : ℕ) → Type 0
In o i p = p / 2 ^ o ≡ i

abbrev pub FreePage : BuddyArena → (p : ℕ) → Type 0
FreePage arena p =
    (o : ℕ) × (i : ℕ) × IsBlock o i × (buddy_is_block_free arena o i ≡ true) × In o i p

-- The free pages of the first arena and those of its block are the free pages of the second and those of its block.
abbrev pub SameCover : BuddyArena → (o i : ℕ) → BuddyArena → (o' i' : ℕ) → Type 0
SameCover a o i a' o' i' = (p : ℕ) → (FreePage a p ⊎ In o i p) ↔ (FreePage a' p ⊎ In o' i' p)

pub page_half : (o p : ℕ) → p / 2 ^ suc o ≡ p / 2 ^ o / 2
page_half o p = ap (λ (k : ℕ). p / k) (pow-suc 2 o) ∙ sym (div-div-eq-div-mul p (2 ^ o) 2)

xor_zero : (k x : ℕ) → x ≤ k → bit_xor x 0 ≡ x
xor_zero zero x l = let e : x ≡ 0 = omega (arith, l) in rw e refl
xor_zero (suc k) x l = elim (ℕ_discrete x 0) [
  | yes e ↦ rw e refl
  | no ne ↦ omega (arith, bit_xor_step x 0, xor_zero k (x / 2) (omega (arith, l, ne)))
]

-- the other half of the same block
pub buddy_get_idx_is : (i : ℕ) → buddy_get_idx i ≡ (if i % 2 == 0 then i + 1 else i - 1)
unfolding buddy_get_idx
buddy_get_idx_is i = ground (arith, bit_xor_step i 1, xor_zero i (i / 2) (omega arith))

-- `buddy_update_order_bitmap` writes bits of orders alone.
pub update_blocks :
    (a : BuddyArena) (o : ℕ) → (buddy_update_order_bitmap a o).block_bitmap ≡ a.block_bitmap
unfolding buddy_update_order_bitmap buddy_order_set_free buddy_order_clear
update_blocks a o = elim (Option-cases (buddy_find_block_at_order a o)) [
  | inl e ↦ rw (e, buddy_update_order_bitmap) refl
  | inr (i, e) ↦ rw (e, buddy_update_order_bitmap) refl
]

-- Arenas with the same bits of blocks have the same free pages.
pub FreePage-same :
    (a a' : BuddyArena) → a'.block_bitmap ≡ a.block_bitmap → (p : ℕ) → FreePage a p → FreePage a' p
FreePage-same a a' same p (o, i, block, f, at) = (o, i, block, free-same a a' o i same ∙ f, at)

pub moved :
    (a a' : BuddyArena)
    → a'.block_bitmap ≡ a.block_bitmap
    → (o i p : ℕ) → FreePage a p ⊎ In o i p
    → FreePage a' p ⊎ In o i p
moved a a' same o i p (inl free) = inl (FreePage-same a a' same p free)
moved a a' same o i p (inr at) = inr at
