-- ===== src/Buddy.antt =====
-- include/lib/buddy_alloc.h and src/lib/buddy_alloc.c: the allocator of physical pages. Two bitmaps of
-- bytes say which orders have a free block and which blocks are free; the blocks of all orders are
-- numbered as a binary tree. PMA_BASE_ORDER is PAGE_SHIFT, which is 21. An index of -1 is `none`.
pub mod Bits
pub mod Blocks
pub mod Addresses
pub mod Split
pub mod Alloc
pub mod Cover
pub mod Held
pub mod Free
pub mod Serve
pub mod Cycle
pub mod Init
pub mod Release
use twan.Base.{
  ℕ, zero, suc, ◌+◌, ◌-◌, ◌*◌, ◌/◌, ◌%◌, ◌^◌, Bool, true, false, not, ◌||◌, Option, none, some,
  bit_and, bit_or, bit_xor, min, ◌==◌, ltb, leb, if◌then◌else◌, update,
}
use twan.Bitmap.{not64}
use twan.Word.{log2}

abbrev pub base_order : ℕ
base_order = 21

-- BUDDY_NUM_ORDERS
abbrev pub num_orders : ℕ
num_orders = 15

-- BUDDY_MAX_BLOCKS
abbrev pub max_blocks : ℕ
max_blocks = 0x4000

pub record BuddyArena : Type 0 where
  pub base_addr : ℕ
  pub order_bitmap : ℕ → ℕ
  pub block_bitmap : ℕ → ℕ

pub buddy_bitmap_test : (bitmap : ℕ → ℕ) (bit : ℕ) → Bool
buddy_bitmap_test bitmap bit = not (bit_and (bitmap (bit / 8)) (2 ^ (bit % 8)) == 0)

pub buddy_bitmap_set : (bitmap : ℕ → ℕ) (bit : ℕ) → ℕ → ℕ
buddy_bitmap_set bitmap bit =
    update bitmap (bit / 8) (bit_or (bitmap (bit / 8)) (2 ^ (bit % 8)) % 2 ^ 8)

pub buddy_bitmap_clear : (bitmap : ℕ → ℕ) (bit : ℕ) → ℕ → ℕ
buddy_bitmap_clear bitmap bit =
    update bitmap (bit / 8) (bit_and (bitmap (bit / 8)) (not64 (2 ^ (bit % 8))) % 2 ^ 8)

pub buddy_is_order_free : BuddyArena → (order : ℕ) → Bool
buddy_is_order_free arena order = buddy_bitmap_test arena.order_bitmap order

pub buddy_order_set_free : BuddyArena → (order : ℕ) → BuddyArena
buddy_order_set_free arena order = record arena {
  order_bitmap = buddy_bitmap_set arena.order_bitmap order;
}

pub buddy_order_clear : BuddyArena → (order : ℕ) → BuddyArena
buddy_order_clear arena order = record arena {
  order_bitmap = buddy_bitmap_clear arena.order_bitmap order;
}

pub buddy_order_num_blocks : (order : ℕ) → ℕ
buddy_order_num_blocks order = max_blocks / 2 ^ order

pub buddy_block_bitmap_bit : (order block_idx : ℕ) → ℕ
buddy_block_bitmap_bit order block_idx =
    let tree_order = num_orders - 1 - order in 2 ^ tree_order - 1 + block_idx

pub buddy_is_block_free : BuddyArena → (order block_idx : ℕ) → Bool
unfolding buddy_block_bitmap_bit
buddy_is_block_free arena order block_idx =
    buddy_bitmap_test arena.block_bitmap (buddy_block_bitmap_bit order block_idx)

pub buddy_block_set_free : BuddyArena → (order block_idx : ℕ) → BuddyArena
unfolding buddy_block_bitmap_bit
buddy_block_set_free arena order block_idx = record arena {
  block_bitmap = buddy_bitmap_set arena.block_bitmap (buddy_block_bitmap_bit order block_idx);
}

pub buddy_block_clear : BuddyArena → (order block_idx : ℕ) → BuddyArena
unfolding buddy_block_bitmap_bit
buddy_block_clear arena order block_idx = record arena {
  block_bitmap = buddy_bitmap_clear arena.block_bitmap (buddy_block_bitmap_bit order block_idx);
}

-- on addresses of 64 bits
pub buddy_addr_to_block_idx : BuddyArena → (addr order : ℕ) → ℕ
buddy_addr_to_block_idx arena addr order =
    (addr + 2 ^ 64 - arena.base_addr) % 2 ^ 64 / 2 ^ (order + base_order)

pub buddy_block_idx_to_addr : BuddyArena → (block_idx order : ℕ) → ℕ
buddy_block_idx_to_addr arena block_idx order =
    (arena.base_addr + block_idx * 2 ^ (order + base_order) % 2 ^ 64) % 2 ^ 64

pub buddy_get_idx : (block_idx : ℕ) → ℕ
buddy_get_idx block_idx = bit_xor block_idx 1

pub buddy_get_parent_idx : (block_idx : ℕ) → ℕ
buddy_get_parent_idx block_idx = block_idx / 2

-- The loop of `__buddy_find_block_at_order` from block `i` on, with `rounds` blocks to go.
pub find_loop : (rounds : ℕ) → BuddyArena → (order i : ℕ) → Option ℕ
find_loop zero arena order i = none
find_loop (suc rounds) arena order i = elim (buddy_is_block_free arena order i) [
  | true ↦ some i
  | false ↦ find_loop rounds arena order (suc i)
]

pub buddy_find_block_at_order : BuddyArena → (order : ℕ) → Option ℕ
unfolding find_loop buddy_order_num_blocks
buddy_find_block_at_order arena order = elim (buddy_is_order_free arena order) [
  | false ↦ none
  | true ↦ find_loop (buddy_order_num_blocks order) arena order 0
]

pub buddy_update_order_bitmap : BuddyArena → (order : ℕ) → BuddyArena
unfolding buddy_find_block_at_order
buddy_update_order_bitmap arena order = elim (buddy_find_block_at_order arena order) [
  | none ↦ buddy_order_clear arena order
  | some block_idx ↦ buddy_order_set_free arena order
]

-- The first loop of `__buddy_alloc`: the order and the index of the block that is found.
pub search_loop : (rounds : ℕ) → BuddyArena → (alloc_order : ℕ) → Option (ℕ × ℕ) × BuddyArena
search_loop zero arena alloc_order = (none, arena)
search_loop (suc rounds) arena alloc_order = elim (buddy_is_order_free arena alloc_order) [
  | false ↦ search_loop rounds arena (suc alloc_order)
  | true ↦ elim (buddy_find_block_at_order arena alloc_order) [
    | some block_idx ↦ (some (alloc_order, block_idx), arena)
    | none ↦ search_loop rounds (buddy_update_order_bitmap arena alloc_order) (suc alloc_order)
  ]
]

-- The second loop: `rounds` orders are to go down to `order`.
pub split_loop : (rounds order block_idx : ℕ) → BuddyArena → ℕ × BuddyArena
split_loop zero order block_idx arena = (block_idx, arena)
split_loop (suc rounds) order block_idx arena =
    let left = block_idx * 2 in
    let right = bit_or left 1 in
    let a1 = buddy_block_clear arena (order + rounds) left in
    let a2 = buddy_block_set_free a1 (order + rounds) right in
    split_loop rounds order left (buddy_order_set_free a2 (order + rounds))

-- PMA_NULL is 0.
pub buddy_alloc : BuddyArena → (order : ℕ) → ℕ × BuddyArena
unfolding search_loop split_loop
buddy_alloc arena order =
    let (found, a1) = search_loop (num_orders - order) arena order in
    if leb num_orders order then (0, arena) else elim found [
      | none ↦ (0, a1)
      | some (alloc_order, block_idx) ↦
          let a2 = buddy_block_clear a1 alloc_order block_idx in
          let a3 = buddy_update_order_bitmap a2 alloc_order in
          let (left, a4) = split_loop (alloc_order - order) order block_idx a3 in
          (buddy_block_idx_to_addr a4 left order, a4)
    ]

-- The loop of `__buddy_free`: the order and the index of the block that is set free at the end.
pub merge_loop : (rounds current_order block_idx : ℕ) → BuddyArena → ℕ × ℕ × BuddyArena
merge_loop zero current_order block_idx arena = (current_order, block_idx, arena)
merge_loop (suc rounds) current_order block_idx arena =
    let buddy_idx = buddy_get_idx block_idx in
    let a1 = buddy_block_clear arena current_order block_idx in
    let a2 = buddy_block_clear a1 current_order buddy_idx in
    let a3 = buddy_update_order_bitmap a2 current_order in
    elim (leb (buddy_order_num_blocks current_order) buddy_idx
      || not (buddy_is_block_free arena current_order buddy_idx)) [
        | true ↦ (current_order, block_idx, arena)
        | false ↦ merge_loop rounds (suc current_order) (buddy_get_parent_idx block_idx) a3
      ]

pub buddy_free : (addr order : ℕ) → BuddyArena → BuddyArena
unfolding merge_loop
buddy_free addr order arena =
    let block_idx = buddy_addr_to_block_idx arena addr order in
    let (last_order, last_idx, a1) = merge_loop (num_orders - 1 - order) order block_idx arena in
    let a2 = buddy_order_set_free (buddy_block_set_free a1 last_order last_idx) last_order in
    if addr == 0 || leb num_orders order then arena else a2

-- `rounds` orders are left up to the last one.
pub can_alloc_loop : (rounds : ℕ) → BuddyArena → (i : ℕ) → Bool
can_alloc_loop zero arena i = false
can_alloc_loop (suc rounds) arena i =
    buddy_is_order_free arena i || can_alloc_loop rounds arena (suc i)

pub buddy_order_can_alloc : BuddyArena → (order : ℕ) → Bool
unfolding can_alloc_loop
buddy_order_can_alloc arena order =
    if leb num_orders order then false else can_alloc_loop (num_orders - order) arena order

-- `p2align_up` and `p2align_down` to BUDDY_MIN_ARENA_SIZE, on 64 bits
abbrev pub page_up : ℕ → ℕ
page_up x = (x + (2 ^ 21 - 1)) % 2 ^ 64 / 2 ^ 21 * 2 ^ 21

abbrev pub page_down : ℕ → ℕ
page_down x = x / 2 ^ 21 * 2 ^ 21

-- The bytes of an arena: what is left of `size` behind the cutoff, in whole pages and at most BUDDY_MAX_ARENA_SIZE.
abbrev pub arena_size : (base_addr size : ℕ) → ℕ
arena_size base_addr size = min (page_down (size - (page_up base_addr - base_addr))) (2 ^ 35)

-- `none` is -EINVAL.
unfoldable pub buddy_arena_init : BuddyArena → (base_addr size : ℕ) → Option BuddyArena
buddy_arena_init arena base_addr size =
    let aligned_addr = page_up base_addr in
    let cutoff = aligned_addr - base_addr in
    let usable = arena_size base_addr size in
    let empty = record arena {
      base_addr = aligned_addr;
      order_bitmap = λ i. 0;
      block_bitmap = λ i. 0;
    } in
    let order = log2 usable - base_order in
    if base_addr == 0
    then none
    else if ltb aligned_addr base_addr || aligned_addr == 0
    then none
    else if ltb size cutoff
    then none
    else if ltb (page_down (size - cutoff)) (2 ^ 21)
    then none
    else some (buddy_block_set_free (buddy_order_set_free empty order) order 0)
