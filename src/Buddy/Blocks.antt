-- ===== src/Buddy/Blocks.antt =====
-- The blocks of all orders in one array of bits.
use native.Mathlib.Nat.{mul-div_cancel_left, one-le-pow, pow-le-pow_right, pow-suc}
use twan.Base.{
  ℕ, zero, suc, ◌+◌, ◌-◌, ◌*◌, ◌^◌, ◌<◌, ◌≤◌, ◌≡◌, ◌⊎◌, inl, inr, sym, ap, ◌∙◌, true, false, ◌&&◌,
  Option, none, some, arith, ◌==◌, if◌then◌else◌, Bool-cases, ℕ_discrete,
}
use twan.Bits.Scan.{pow-add}
use twan.Buddy.{
  BuddyArena, num_orders, max_blocks, buddy_order_num_blocks, buddy_block_bitmap_bit,
  buddy_is_block_free, buddy_block_set_free, buddy_block_clear, buddy_is_order_free, find_loop,
  buddy_find_block_at_order,
}
use twan.Buddy.Bits.{IsBytes, test-buddy_bitmap_set, test-buddy_bitmap_clear}

-- A block of the arena: its order and its index.
abbrev pub IsBlock : (order idx : ℕ) → Type 0
IsBlock order idx = (order < num_orders) × (idx < buddy_order_num_blocks order)

pub num_blocks-pow :
    (order : ℕ) → order < num_orders → buddy_order_num_blocks order ≡ 2 ^ (14 - order)
unfolding buddy_order_num_blocks
num_blocks-pow order h =
    let whole : order + (14 - order) ≡ 14 = omega arith in
    let e : 2 ^ (order + (14 - order)) ≡ 2 ^ 14 = ap (λ (t : ℕ). 2 ^ t) whole in
    let split : max_blocks ≡ 2 ^ order * 2 ^ (14 - order) = sym e ∙ pow-add order (14 - order) in
    rw split (mul-div_cancel_left (2 ^ (14 - order)) (one-le-pow order 2 (omega arith)))

-- A small index is a block's in each order up to 11.
pub some-IsBlock : (order idx : ℕ) → order ≤ 11 → idx < 8 → IsBlock order idx
some-IsBlock order idx h l =
    let eight : 2 ^ 3 ≤ 2 ^ (14 - order) = pow-le-pow_right (omega arith) {i = 3} (omega arith) in
    (omega (arith, h), rw (num_blocks-pow order (omega (arith, h))) (omega (arith, eight, l)))

-- The places of the levels of a binary tree do not meet.
level_unique :
    (t t' i i' : ℕ)
    → i < 2 ^ t
    → i' < 2 ^ t'
    → 2 ^ t - 1 + i ≡ 2 ^ t' - 1 + i'
    → (t ≡ t') × (i ≡ i')
level_unique t t' i i' h h' e = elim (ℕ_discrete t t') [
  | yes same ↦ (same, omega (arith, e, one-le-pow t 2 (omega arith), ap (λ (k : ℕ). 2 ^ k) same))
  | no ne ↦
      ground
        (arith, one-le-pow t 2 (omega arith), one-le-pow t' 2 (omega arith), above t t', above t' t)
]
  where
    above : (j k : ℕ) → j < k → 2 ^ j * 2 ≤ 2 ^ k
    above j k l =
        let next : 2 ^ suc j ≤ 2 ^ k = pow-le-pow_right (omega arith) (omega arith) in
        omega (arith, next, pow-suc 2 j)

-- Blocks of different orders or indices have different bits.
pub bit_unique :
    (o o' i i' : ℕ)
    → IsBlock o i
    → IsBlock o' i'
    → buddy_block_bitmap_bit o i ≡ buddy_block_bitmap_bit o' i'
    → (o ≡ o') × (i ≡ i')
unfolding buddy_block_bitmap_bit
bit_unique o o' i i' (ho, hi) (ho', hi') e =
    let r =
      level_unique (14 - o) (14 - o') i i' (rw (num_blocks-pow o ho) at hi)
        (rw (num_blocks-pow o' ho') at hi') e in
    (omega (arith, r.0), r.1)

bit_same :
    (o o' i i' : ℕ) → o ≡ o' → i ≡ i' → buddy_block_bitmap_bit o i ≡ buddy_block_bitmap_bit o' i'
bit_same o o' i i' e f = λ j. buddy_block_bitmap_bit (e j) (f j)

module _ (arena : BuddyArena) (o o' i i' : ℕ) (bytes : IsBytes arena.block_bitmap) (b : IsBlock o i)
    (b' : IsBlock o' i') where
  -- On an array of bytes, `__buddy_block_set_free` of a block sets it free, and leaves every other block of every order.
  pub free-set_free :
      buddy_is_block_free (buddy_block_set_free arena o i) o' i'
      ≡ (if (o == o') && (i == i') then true else buddy_is_block_free arena o' i')
  unfolding buddy_is_block_free buddy_block_set_free
  free-set_free = ground (
    arith,
    test-buddy_bitmap_set arena.block_bitmap (buddy_block_bitmap_bit o i)
        (buddy_block_bitmap_bit o' i') bytes,
    bit_unique o o' i i' b b',
    bit_same o o' i i',
  )

  -- On an array of bytes, `__buddy_block_clear` of a block makes it not free, and leaves every other block of every order.
  pub free-clear :
      buddy_is_block_free (buddy_block_clear arena o i) o' i'
      ≡ (if (o == o') && (i == i') then false else buddy_is_block_free arena o' i')
  unfolding buddy_is_block_free buddy_block_clear
  free-clear = ground (
    arith,
    test-buddy_bitmap_clear arena.block_bitmap (buddy_block_bitmap_bit o i)
        (buddy_block_bitmap_bit o' i') bytes,
    bit_unique o o' i i' b b',
    bit_same o o' i i',
  )

-- The first free block of an order, if the order's bit says that it has one.
abbrev pub IsFirstFree : BuddyArena → (order : ℕ) → Option ℕ → Type 0
IsFirstFree arena order none =
    (buddy_is_order_free arena order ≡ false)
    ⊎ ((c : ℕ) → c < buddy_order_num_blocks order → buddy_is_block_free arena order c ≡ false)
IsFirstFree arena order (some r) =
    (r < buddy_order_num_blocks order)
    × (buddy_is_block_free arena order r ≡ true)
    × ((c : ℕ) → c < r → buddy_is_block_free arena order c ≡ false)

find_rounds :
    (rounds : ℕ) (arena : BuddyArena) (order i : ℕ)
    → i + rounds ≡ buddy_order_num_blocks order
    → ((c : ℕ) → c < i → buddy_is_block_free arena order c ≡ false)
    → IsFirstFree arena order (find_loop rounds arena order i)
unfolding find_loop
find_rounds zero arena order i e h = inr (λ c l. h c (omega (arith, e)))
find_rounds (suc rounds) arena order i e h = elim (Bool-cases (buddy_is_block_free arena order i)) [
  | inl f ↦ rw (find_loop, f) (omega (arith, e), f, h)
  | inr f ↦
      rw (find_loop, f)
        (find_rounds rounds arena order (suc i) (omega (arith, e))
          (λ c l. elim (ℕ_discrete c i) [ yes same ↦ rw same f | no ne ↦ h c (omega (arith, ne)) ]))
]

-- `__buddy_find_block_at_order` returns the first free block of the order, and none only if the
-- order's bit is not set or no block of the order is free.
pub find_block_lem :
    (arena : BuddyArena) (order : ℕ)
    → IsFirstFree arena order (buddy_find_block_at_order arena order)
unfolding buddy_find_block_at_order
find_block_lem arena order = elim (Bool-cases (buddy_is_order_free arena order)) [
  | inl e ↦
      rw (buddy_find_block_at_order, e)
        (find_rounds (buddy_order_num_blocks order) arena order 0 (omega arith) (λ c l. elim l [ ]))
  | inr e ↦ rw (buddy_find_block_at_order, e) (inl e)
]
