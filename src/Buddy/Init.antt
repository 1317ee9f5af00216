-- ===== src/Buddy/Init.antt =====
-- `buddy_arena_init`: which pages are free in the new arena.
use native.Mathlib.Nat.{one-le-pow, pow-le-pow_right, div-eq_of_lt}
use mathlib.Core.Bool.{false≢true}
use twan.Base.{
  ℕ, ◌+◌, ◌-◌, ◌*◌, ◌/◌, ◌%◌, ◌^◌, ◌<◌, ◌≤◌, ◌≡◌, ◌≢◌, sym, ap, ◌∙◌, refl, inl, inr, Bool-cases,
  true, false, some, arith, dec_lt,
}
use twan.Bits.Scan.{pow-add}
use twan.Word.{is_pow2_64, log2}
use twan.Word.Log2.{log2-above, log2-power}
use twan.Buddy.{
  BuddyArena, num_orders, page_up, arena_size, buddy_arena_init, buddy_order_set_free,
  buddy_block_set_free, buddy_is_block_free,
}
use twan.Buddy.Bits.{IsBytes, set-IsBytes}
use twan.Buddy.Alloc.{IsArena}
use twan.Buddy.Held.{IsDisjoint, set_free-IsDisjoint, no_bits-IsHeld}
use twan.Buddy.Blocks.{IsBlock, num_blocks-pow, free-set_free}
use twan.Buddy.Cover.{FreePage}

-- The new arena of `order`.
abbrev made : BuddyArena → (addr order : ℕ) → BuddyArena
made arena addr order =
    buddy_block_set_free
      (buddy_order_set_free
        (record arena { base_addr = addr; order_bitmap = λ i. 0; block_bitmap = λ i. 0 }) order)
      order 0

made-first :
    (arena : BuddyArena) (addr order : ℕ)
    → IsBlock order 0
    → buddy_is_block_free (made arena addr order) order 0 ≡ true
unfolding buddy_order_set_free
made-first arena addr order b =
    let bytes : IsBytes (λ i. 0) = λ i. omega arith in
    ground (
      arith,
      free-set_free
          (buddy_order_set_free
            (record arena { base_addr = addr; order_bitmap = λ i. 0; block_bitmap = λ i. 0 }) order)
          order order 0 0 bytes b b,
    )

made-IsArena :
    (arena : BuddyArena) (addr order : ℕ)
    → IsBlock order 0
    → ((made arena addr order).base_addr ≡ addr)
      × IsArena (made arena addr order)
      × IsDisjoint (made arena addr order)
unfolding buddy_order_set_free buddy_block_set_free
made-IsArena arena addr order b =
    let bytes : IsBytes (λ i. 0) = λ i. omega arith in
    let bare : BuddyArena =
      buddy_order_set_free
        (record arena { base_addr = addr; order_bitmap = λ i. 0; block_bitmap = λ i. 0 }) order in
    (
      refl,
      record { order_bytes = set-IsBytes _ order bytes; block_bytes = set-IsBytes _ _ bytes },
      set_free-IsDisjoint bare order 0 bytes b (no_bits-IsHeld bare (λ j. refl) order 0),
    )

first-IsBlock : (order : ℕ) → order < num_orders → IsBlock order 0
first-IsBlock order l = (l, rw (num_blocks-pow order l) (one-le-pow (14 - order) 2 (omega arith)))

-- The order of an arena of a size that is no power of 2, and the first page behind that size.
overrun :
    (size : ℕ)
    → 2 ^ 21 ≤ size
    → size ≤ 2 ^ 35
    → size % 2 ^ 21 ≡ 0
    → is_pow2_64 size ≡ false
    → (log2 size - 21 < num_orders) × (size / 2 ^ 21 < 2 ^ (log2 size - 21))
overrun size low high pages no_pow =
    let (r, e, below, above) = log2-above size (omega (arith, high)) (omega (arith, low)) no_pow in
    let r_high : r < 35 = elim (dec_lt r 35) [
      | yes l ↦ l
      | no ge ↦
          let whole : size ≡ 2 ^ 35 = omega (
            arith,
            high,
            below,
            pow-le-pow_right {n = 2} (omega arith) {i = 35} {j = r} (omega (arith, ge)),
          ) in
          absurd (false≢true (sym no_pow ∙ ap is_pow2_64 whole))
    ] in
    let r_low : 21 < r + 1 = elim (dec_lt 21 (r + 1)) [
      | yes l ↦ l
      | no ge ↦ absurd (
          omega (
            arith,
            low,
            above,
            pow-le-pow_right {n = 2} (omega arith) {i = r + 1} {j = 21} (omega (arith, ge)),
          ))
    ] in
    let parts : 2 ^ (r + 1) ≡ 2 ^ 21 * 2 ^ (r + 1 - 21) =
      ap (λ (k : ℕ). 2 ^ k) (omega (arith, r_low)) ∙ pow-add 21 (r + 1 - 21) in
    rw e (omega (arith, r_high), omega (arith, parts, above))

-- The order of an arena is one of the orders.
order_in :
    (size : ℕ) → 2 ^ 21 ≤ size → size ≤ 2 ^ 35 → size % 2 ^ 21 ≡ 0 → log2 size - 21 < num_orders
order_in size low high pages = elim (Bool-cases (is_pow2_64 size)) [
  | inr no_pow ↦ (overrun size low high pages no_pow).0
  | inl pow ↦ elim (dec_lt (log2 size) 36) [
    | yes l ↦ omega (arith, l)
    | no ge ↦ absurd (
        omega (
          arith,
          high,
          log2-power size (omega (arith, high)) (omega (arith, low)) pow,
          pow-le-pow_right {n = 2} (omega arith) {i = 36} {j = log2 size} (omega (arith, ge)),
        ))
  ]
]

module _ (arena : BuddyArena) (base_addr size : ℕ) (new : BuddyArena)
    (done : buddy_arena_init arena base_addr size ≡ some new) where
  init-made :
      (2 ^ 21 ≤ arena_size base_addr size)
      × (base_addr ≤ page_up base_addr)
      × (page_up base_addr - base_addr ≤ size)
      × (made arena (page_up base_addr) (log2 (arena_size base_addr size) - 21) ≡ new)
  unfolding buddy_arena_init
  init-made = ground arith

  -- When `buddy_arena_init` accepts a range, the new arena starts at the first 2 MB boundary of it, its bitmaps are arrays of
  -- bytes, and no page is in two free blocks.
  pub init-IsArena : (new.base_addr ≡ page_up base_addr) × IsArena new × IsDisjoint new
  unfolding buddy_order_set_free
  init-IsArena =
      let usable = arena_size base_addr size in
      let order = log2 usable - 21 in
      let (low, up, cut, same) = init-made in
      let b : IsBlock order 0 =
        first-IsBlock order (order_in usable low (omega arith) (ground arith)) in
      rw same at (made-IsArena arena (page_up base_addr) order b)

  -- When `buddy_arena_init` accepts a range and the bytes that it uses of it are no power of 2, the page behind those bytes
  -- is free in the new arena, and it does not end within the range.
  pub buddy_arena_init-FreePage :
      is_pow2_64 (arena_size base_addr size) ≡ false
      → FreePage new (arena_size base_addr size / 2 ^ 21)
        × (base_addr + size < page_up base_addr + (arena_size base_addr size / 2 ^ 21 + 1) * 2 ^ 21)
  buddy_arena_init-FreePage no_pow =
      let usable = arena_size base_addr size in
      let order = log2 usable - 21 in
      let (low, up, cut, same) = init-made in
      let (in_range, page_in) = overrun usable low (omega arith) (ground arith) no_pow in
      let b = first-IsBlock order in_range in
      let first : FreePage (made arena (page_up base_addr) order) (usable / 2 ^ 21) =
        (order, 0, b, made-first arena (page_up base_addr) order b, div-eq_of_lt page_in) in
      let not_all : usable ≢ 2 ^ 35 = λ whole. false≢true (sym no_pow ∙ ap is_pow2_64 whole) in
      (rw same at first, omega (arith, up, cut, not_all))
