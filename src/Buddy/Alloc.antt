-- ===== src/Buddy/Alloc.antt =====
-- `__buddy_alloc`: the block that is found, and what the allocation makes of the blocks.
use mathlib.Core.Path.{subst}
use mathlib.Core.Bool.{false≢true}
use twan.Base.{
  ℕ, zero, suc, ◌+◌, ◌-◌, ◌*◌, ◌^◌, ◌<◌, ◌≤◌, ◌≡◌, ◌≢◌, ◌⊎◌, inl, inr, refl, sym, ap, ◌∙◌, Bool,
  true, false, ◌&&◌, Option, none, some, arith, ◌==◌, leb, if◌then◌else◌, Bool-cases, ℕ_discrete,
}
use twan.Buddy.{
  BuddyArena, num_orders, buddy_is_order_free, buddy_order_set_free, buddy_order_clear,
  buddy_bitmap_test, buddy_block_bitmap_bit, buddy_is_block_free, buddy_block_clear,
  buddy_find_block_at_order, buddy_update_order_bitmap, buddy_block_idx_to_addr,
  buddy_order_num_blocks, search_loop, split_loop, buddy_alloc,
}
use twan.Buddy.Bits.{
  IsBytes, set-IsBytes, clear-IsBytes, test-buddy_bitmap_set, test-buddy_bitmap_clear,
}
use twan.Buddy.Blocks.{IsBlock, free-clear, IsFirstFree, find_block_lem}
use twan.Buddy.Split.{after_split, IsSplit-rounds, block_clear-IsBytes}

-- The arrays of the arena are arrays of bytes.
pub record IsArena (arena : BuddyArena) : Type 0 where
  pub order_bytes : IsBytes arena.order_bitmap
  pub block_bytes : IsBytes arena.block_bitmap

-- Only the bit of the order `at` may have changed.
record SameBut (at : ℕ) (arena arena' : BuddyArena) : Type 0 where
  blocks : arena'.block_bitmap ≡ arena.block_bitmap
  orders : (o : ℕ) → o ≢ at → buddy_is_order_free arena' o ≡ buddy_is_order_free arena o
  order_bytes : IsBytes arena'.order_bitmap

update-SameBut :
    (arena : BuddyArena) (at : ℕ)
    → IsBytes arena.order_bitmap
    → SameBut at arena (buddy_update_order_bitmap arena at)
unfolding buddy_update_order_bitmap buddy_order_set_free buddy_order_clear buddy_is_order_free
update-SameBut arena at bytes = go (buddy_find_block_at_order arena at)
  where
    go :
        (found : Option ℕ)
        → SameBut at arena (elim found as (λ _. BuddyArena) [
          | none ↦ buddy_order_clear arena at
          | some block_idx ↦ buddy_order_set_free arena at
        ])
    go none = record {
      blocks = refl;
      orders = λ o ne. ground (arith, test-buddy_bitmap_clear arena.order_bitmap at o bytes);
      order_bytes = clear-IsBytes arena.order_bitmap at bytes;
    }
    go (some i) = record {
      blocks = refl;
      orders = λ o ne. ground (arith, test-buddy_bitmap_set arena.order_bitmap at o bytes);
      order_bytes = set-IsBytes arena.order_bitmap at bytes;
    }

pub free-same :
    (a a' : BuddyArena) (o i : ℕ)
    → a'.block_bitmap ≡ a.block_bitmap
    → buddy_is_block_free a' o i ≡ buddy_is_block_free a o i
unfolding buddy_is_block_free
free-same a a' o i e = ap (λ b. buddy_bitmap_test b (buddy_block_bitmap_bit o i)) e

-- What the search of the orders from `first` on, below `last`, finds.
abbrev pub Served : BuddyArena → (first last : ℕ) → Option (ℕ × ℕ) → Type 0
Served arena first last none =
    (o i : ℕ)
    → first ≤ o
    → o < last
    → i < buddy_order_num_blocks o
    → buddy_is_order_free arena o ≡ true
    → buddy_is_block_free arena o i ≡ false
Served arena first last (some (o, i)) =
    (first ≤ o)
    × (o < last)
    × (i < buddy_order_num_blocks o)
    × (buddy_is_block_free arena o i ≡ true)

pub record IsSearched (arena : BuddyArena) (first last : ℕ) (out : Option (ℕ × ℕ) × BuddyArena)
    : Type 0 where
  pub served : Served arena first last out.0
  pub blocks : out.1.block_bitmap ≡ arena.block_bitmap
  pub order_bytes : IsBytes out.1.order_bitmap

-- What was found from the next order on, in an arena that differs in this order's bit.
Served-later :
    (arena arena' : BuddyArena) (at last : ℕ) (found : Option (ℕ × ℕ))
    → SameBut at arena arena'
    → (buddy_is_order_free arena at ≡ false)
      ⊎ ((i : ℕ) → i < buddy_order_num_blocks at → buddy_is_block_free arena at i ≡ false)
    → Served arena' (suc at) last found
    → Served arena at last found
Served-later arena arena' at last none same here h = λ o i l l' hi set. elim (ℕ_discrete o at) [
  | yes e ↦ elim here [
    | inl off ↦ absurd (false≢true (sym off ∙ rw e at set))
    | inr all ↦ rw e (all i (rw e at hi))
  ]
  | no ne ↦
      sym (free-same arena arena' o i same.blocks)
      ∙ h o i (omega (arith, l, ne)) l' hi (same.orders o ne ∙ set)
]
Served-later arena arena' at last (some (o, i)) same here (l, l', hi, f) =
    (omega (arith, l), l', hi, sym (free-same arena arena' o i same.blocks) ∙ f)

same-SameBut : (arena : BuddyArena) (at : ℕ) → IsBytes arena.order_bitmap → SameBut at arena arena
same-SameBut arena at bytes = record { blocks = refl; orders = λ o ne. refl; order_bytes = bytes }

pub search_rounds :
    (rounds : ℕ) (arena : BuddyArena) (at : ℕ)
    → IsBytes arena.order_bitmap
    → IsSearched arena at (at + rounds) (search_loop rounds arena at)
unfolding search_loop
search_rounds zero arena at bytes = record {
  served = λ o i l l'. absurd (omega (arith, l, l'));
  blocks = refl;
  order_bytes = bytes;
}
search_rounds (suc rounds) arena at bytes = elim (Bool-cases (buddy_is_order_free arena at)) [
  | inl set ↦
      rw (search_loop, set)
        (go (λ a b. search_rounds rounds a (suc at) b) (buddy_find_block_at_order arena at) set
          (find_block_lem arena at))
  | inr off ↦
      rw (search_loop, off)
        (later (λ a b. search_rounds rounds a (suc at) b) arena (same-SameBut arena at bytes)
          (inl off))
]
  where
    shift : suc at + rounds ≡ at + suc rounds
    shift = omega arith

    Later : Type 0
    Later =
        (arena' : BuddyArena)
        → IsBytes arena'.order_bitmap
        → IsSearched arena' (suc at) (suc at + rounds) (search_loop rounds arena' (suc at))

    later :
        Later
        → (arena' : BuddyArena) → SameBut at arena arena'
        → (buddy_is_order_free arena at ≡ false)
          ⊎ ((i : ℕ) → i < buddy_order_num_blocks at → buddy_is_block_free arena at i ≡ false)
        → IsSearched arena at (at + suc rounds) (search_loop rounds arena' (suc at))
    later rec arena' same here =
        let r = rec arena' same.order_bytes in
        record {
          served =
              Served-later arena arena' at (at + suc rounds) _ same here (rw shift at r.served);
          blocks = r.blocks ∙ same.blocks;
          order_bytes = r.order_bytes;
        }

    go :
        Later
        → (found : Option ℕ) → buddy_is_order_free arena at ≡ true
        → IsFirstFree arena at found
        → IsSearched arena at (at + suc rounds) (elim found as (λ _. Option (ℕ × ℕ) × BuddyArena) [
          | some block_idx ↦ (some (at, block_idx), arena)
          | none ↦ search_loop rounds (buddy_update_order_bitmap arena at) (suc at)
        ])
    go rec (some i) set (hi, f, first) = record {
      served = (omega arith, omega arith, hi, f);
      blocks = refl;
      order_bytes = bytes;
    }
    go rec none set (inl off) = absurd (false≢true (sym off ∙ set))
    go rec none set (inr all) = later rec _ (update-SameBut arena at bytes) (inr all)

-- The blocks once `low` is served from block `idx` of order `top`.
abbrev pub after_alloc : BuddyArena → (low top idx : ℕ) → (o i : ℕ) → Bool
after_alloc arena low top idx o i =
    if (top == o) && (idx == i) then false else after_split arena low top idx o i

-- What an allocation returns and makes of the blocks: a free block of order at least `order` is found
-- and its leftmost block of that order is returned; or no such block is free and nothing changes
-- but the bits of orders.
abbrev pub Allocated : BuddyArena → (order : ℕ) → ℕ × BuddyArena → Type 0
Allocated arena order (addr, arena') =
    ((addr ≡ 0) × Served arena order num_orders none × (arena'.block_bitmap ≡ arena.block_bitmap))
    ⊎ ((top : ℕ) × (idx : ℕ) × (order ≤ top)
        × IsBlock top idx
        × (buddy_is_block_free arena top idx ≡ true)
        × (addr ≡ buddy_block_idx_to_addr arena' (idx * 2 ^ (top - order)) order)
        × ((o i : ℕ)
            → IsBlock o i
            → buddy_is_block_free arena' o i ≡ after_alloc arena order top idx o i))

order-IsBytes_after :
    (arena : BuddyArena) (o i : ℕ)
    → IsBytes arena.order_bitmap
    → IsBytes (buddy_block_clear arena o i).order_bitmap
unfolding buddy_block_clear
order-IsBytes_after arena o i bytes = bytes

module _ (arena : BuddyArena) (order : ℕ) (ok : IsArena arena) (ho : order < num_orders) where
  found_block :
      (a1 : BuddyArena) (top idx : ℕ)
      → a1.block_bitmap ≡ arena.block_bitmap
      → IsBytes a1.order_bitmap
      → Served arena order num_orders (some (top, idx))
      → let a3 = buddy_update_order_bitmap (buddy_block_clear a1 top idx) top in
        let (left, a4) = split_loop (top - order) order idx a3 in
        Allocated arena order (buddy_block_idx_to_addr a4 left order, a4)
  found_block a1 top idx same bytes (l, l', hi, f) =
      let a2 = buddy_block_clear a1 top idx in
      let bytes1 : IsBytes a1.block_bitmap = subst (λ b. IsBytes b) (sym same) ok.block_bytes in
      let upd = update-SameBut a2 top (order-IsBytes_after a1 top idx bytes) in
      let bytes3 : IsBytes (buddy_update_order_bitmap a2 top).block_bitmap =
        subst (λ b. IsBytes b) (sym upd.blocks) (block_clear-IsBytes a1 top idx bytes1) in
      let down : order + (top - order) ≡ top = omega (arith, l) in
      let split = rw down at (
        IsSplit-rounds (top - order) order idx (buddy_update_order_bitmap a2 top) bytes3
          (rw down (l', hi))) in
      inr (
        top,
        idx,
        l,
        (l', hi),
        f,
        ap
            (λ (i : ℕ).
              buddy_block_idx_to_addr
                (split_loop (top - order) order idx (buddy_update_order_bitmap a2 top)).1 i order)
            split.leftmost,
        λ o i b.
            split.blocks o i b
            ∙ ground (
              arith,
              free-same a2 (buddy_update_order_bitmap a2 top) o i upd.blocks,
              free-clear a1 top o idx i bytes1 (l', hi) b,
              free-same arena a1 o i same,
            ),
      )

  -- `__buddy_alloc` of an order below 15, on arrays of bytes, finds a free block of that order or above. It
  -- takes the block and its left halves down to the order that is asked for, sets the right halves
  -- free, changes no other block and returns the address of the last left half. It returns PMA_NULL,
  -- and changes no block, only if no order from that one on has both its bit set and a free block.
  pub buddy_alloc_lem : Allocated arena order (buddy_alloc arena order)
  unfolding buddy_alloc
  buddy_alloc_lem =
      let whole : order + (num_orders - order) ≡ num_orders = omega (arith, ho) in
      let below : leb num_orders order ≡ false = ground (arith, ho) in
      let r = rw whole at (search_rounds (num_orders - order) arena order ok.order_bytes) in
      rw below (go (search_loop (num_orders - order) arena order) r.served r.blocks r.order_bytes)
    where
      go :
          (out : Option (ℕ × ℕ) × BuddyArena)
          → Served arena order num_orders out.0
          → out.1.block_bitmap ≡ arena.block_bitmap
          → IsBytes out.1.order_bitmap
          → Allocated arena order (elim out.0 as (λ _. ℕ × BuddyArena) [
            | none ↦ (0, out.1)
            | some (alloc_order, block_idx) ↦
                let a2 = buddy_block_clear out.1 alloc_order block_idx in
                let a3 = buddy_update_order_bitmap a2 alloc_order in
                let r = split_loop (alloc_order - order) order block_idx a3 in
                (buddy_block_idx_to_addr r.1 r.0 order, r.1)
          ])
      go (none, a1) served same bytes = inl (refl, served, same)
      go (some (top, idx), a1) served same bytes = found_block a1 top idx same bytes served
