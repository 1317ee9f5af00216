-- ===== src/Buddy/Addresses.antt =====
-- Between the blocks and the addresses, and which orders an allocation can be served from.
use native.Mathlib.Nat.{mod-eq_of_lt, mul-div_cancel, one-le-pow}
use twan.Base.{
  ℕ, zero, suc, ◌+◌, ◌-◌, ◌*◌, ◌%◌, ◌^◌, ◌<◌, ◌≤◌, ◌≡◌, inl, inr, Bool, true, false, arith, leb,
  Bool-cases, ℕ_discrete,
}
use twan.Buddy.{
  BuddyArena, base_order, num_orders, buddy_addr_to_block_idx, buddy_block_idx_to_addr,
  buddy_is_order_free, can_alloc_loop, buddy_order_can_alloc,
}

-- `buddy_addr_to_block_idx` takes the address of a block back to its index, if the block starts within
-- the 64 bits of an address.
pub addr_round_trip :
    (arena : BuddyArena) (block_idx order : ℕ)
    → arena.base_addr + block_idx * 2 ^ (order + base_order) < 2 ^ 64
    → buddy_addr_to_block_idx arena (buddy_block_idx_to_addr arena block_idx order) order
      ≡ block_idx
unfolding buddy_addr_to_block_idx buddy_block_idx_to_addr
addr_round_trip arena block_idx order h =
    let size = 2 ^ (order + base_order) in
    let inner : block_idx * 2 ^ (order + base_order) % 2 ^ 64
        ≡ block_idx * 2 ^ (order + base_order) =
      mod-eq_of_lt (omega (arith, h)) in
    let outer : (arena.base_addr + block_idx * 2 ^ (order + base_order)) % 2 ^ 64
        ≡ arena.base_addr + block_idx * 2 ^ (order + base_order) =
      mod-eq_of_lt h in
    let back : (arena.base_addr + block_idx * 2 ^ (order + base_order) + 2 ^ 64 - arena.base_addr)
          % 2 ^ 64
        ≡ block_idx * 2 ^ (order + base_order) =
      omega (arith, h) in
    rw (inner, outer, back)
      (mul-div_cancel block_idx {n = 2 ^ (order + base_order)}
        (one-le-pow (order + base_order) 2 (omega arith)))

-- What a test says of the orders from `i` on: one is free, or none is.
abbrev pub SomeOrder : BuddyArena → (first last : ℕ) → Bool → Type 0
SomeOrder arena first last true =
    (o : ℕ) × (first ≤ o) × (o < last) × (buddy_is_order_free arena o ≡ true)
SomeOrder arena first last false =
    (o : ℕ) → first ≤ o → o < last → buddy_is_order_free arena o ≡ false

can_alloc_rounds :
    (rounds : ℕ) (arena : BuddyArena) (i : ℕ)
    → SomeOrder arena i (i + rounds) (can_alloc_loop rounds arena i)
unfolding can_alloc_loop
can_alloc_rounds zero arena i = λ o l l'. absurd (omega arith)
can_alloc_rounds (suc rounds) arena i = elim (Bool-cases (buddy_is_order_free arena i)) [
  | inl f ↦ rw (can_alloc_loop, f) (i, omega arith, omega arith, f)
  | inr f ↦
      rw (can_alloc_loop, f)
        (further (can_alloc_loop rounds arena (suc i)) f (can_alloc_rounds rounds arena (suc i)))
]
  where
    further :
        (b : Bool)
        → buddy_is_order_free arena i ≡ false
        → SomeOrder arena (suc i) (suc i + rounds) b
        → SomeOrder arena i (i + suc rounds) b
    further true f (o, l, l', g) = (o, omega (arith, l), omega (arith, l'), g)
    further false f h = λ o l l'. elim (ℕ_discrete o i) [
      | yes e ↦ rw e f
      | no ne ↦ h o (omega (arith, ne, l)) (omega (arith, l'))
    ]

-- `__buddy_order_can_alloc` tells whether an order from the given one on has its bit set.
pub order_can_alloc_lem :
    (arena : BuddyArena) (order : ℕ)
    → SomeOrder arena order num_orders (buddy_order_can_alloc arena order)
unfolding buddy_order_can_alloc
order_can_alloc_lem arena order = elim (Bool-cases (leb num_orders order)) [
  | inl e ↦ rw (buddy_order_can_alloc, e) (λ o l l'. absurd (ground arith))
  | inr e ↦
      let last : order + (num_orders - order) ≡ num_orders = ground arith in
      rw (buddy_order_can_alloc, e) (rw last at (can_alloc_rounds (num_orders - order) arena order))
]
