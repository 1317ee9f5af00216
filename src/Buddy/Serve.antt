-- ===== src/Buddy/Serve.antt =====
-- `__buddy_alloc`: which pages are free after it, through the search and the descent.
use mathlib.Core.Path.{subst}
use twan.Base.{
  ℕ, zero, suc, ◌+◌, ◌-◌, ◌*◌, ◌/◌, ◌^◌, ◌<◌, ◌≡◌, ◌⊎◌, ◌↔◌, inl, inr, refl, sym, ◌∙◌, true, false,
  ◌&&◌, Option, none, some, arith, ◌==◌, leb, Bool-cases, Option-cases, ℕ_discrete, bit_or,
}
use twan.Buddy.{
  BuddyArena, num_orders, buddy_is_order_free, buddy_is_block_free, buddy_block_clear,
  buddy_block_set_free, buddy_order_set_free, buddy_order_clear, buddy_find_block_at_order,
  buddy_update_order_bitmap, search_loop, split_loop, buddy_alloc, buddy_block_idx_to_addr,
}
use twan.Buddy.Bits.{IsBytes}
use twan.Buddy.Blocks.{IsBlock, free-clear}
use twan.Buddy.Split.{halves, block_clear-IsBytes, round-IsBytes, split_round}
use twan.Buddy.Alloc.{IsArena, Served, search_rounds, free-same}
use twan.Buddy.Cover.{In, FreePage, page_half, update_blocks, FreePage-same, moved}
use twan.Buddy.Held.{
  IsDisjoint, IsHeld, IsDisjoint-same, IsHeld-same, clear-IsHeld, split_loop-IsHeld,
}

-- A round of the descent: the left half is kept and the right half is free.
module _ (a : BuddyArena) (at idx : ℕ) (bytes : IsBytes a.block_bitmap)
    (b : IsBlock (suc at) idx) where
  abbrev down : BuddyArena
  down =
      buddy_order_set_free
        (buddy_block_set_free (buddy_block_clear a at (idx * 2)) at (bit_or (idx * 2) 1)) at

  covers-down : (p : ℕ) → FreePage a p ⊎ In (suc at) idx p → FreePage down p ⊎ In at (idx * 2) p
  covers-down p (inl (o, i, block, f, page)) = elim (Bool-cases ((at == o) && (idx * 2 == i))) [
    | inl e ↦ inr (let same : at ≡ o = ground arith in rw same (ground arith))
    | inr e ↦ inl (o, i, block, ground (arith, split_round a at idx o i bytes b block), page)
  ]
  covers-down p (inr page) = elim (ℕ_discrete (p / 2 ^ at) (idx * 2)) [
    | yes left ↦ inr left
    | no right ↦
        let half = (halves at idx b).1 in
        inl (
          at,
          idx * 2 + 1,
          half,
          ground (arith, split_round a at idx at (idx * 2 + 1) bytes b half),
          omega (arith, page_half at p, page, right),
        )
  ]

  down-covers : (p : ℕ) → FreePage down p ⊎ In at (idx * 2) p → FreePage a p ⊎ In (suc at) idx p
  down-covers p (inl (o, i, block, f, page)) = elim (Bool-cases ((at == o) && (idx * 2 + 1 == i))) [
    | inl e ↦
        let same : at ≡ o = ground arith in
        inr (ground (arith, page_half at p, rw (sym same) at page))
    | inr e ↦ inl (o, i, block, ground (arith, split_round a at idx o i bytes b block), page)
  ]
  down-covers p (inr page) = inr (omega (arith, page_half at p, page))

-- What the descent from block `idx` of order `top` leaves.
record Descended (a : BuddyArena) (top idx order : ℕ) (out : ℕ × BuddyArena) : Type 0 where
  same_base : out.1.base_addr ≡ a.base_addr
  bytes : IsBytes out.1.block_bitmap
  block : IsBlock order out.0
  gains : (p : ℕ) → FreePage a p ⊎ In top idx p → FreePage out.1 p ⊎ In order out.0 p
  no_more : (p : ℕ) → FreePage out.1 p ⊎ In order out.0 p → FreePage a p ⊎ In top idx p

pub base-down :
    (a : BuddyArena) (at idx : ℕ)
    → (buddy_order_set_free
        (buddy_block_set_free (buddy_block_clear a at (idx * 2)) at (bit_or (idx * 2) 1))
        at).base_addr
      ≡ a.base_addr
unfolding buddy_order_set_free buddy_block_set_free buddy_block_clear
base-down a at idx = refl

Descended-rounds :
    (rounds order idx : ℕ) (a : BuddyArena)
    → IsBytes a.block_bitmap
    → IsBlock (order + rounds) idx
    → Descended a (order + rounds) idx order (split_loop rounds order idx a)
unfolding split_loop
Descended-rounds zero order idx a bytes b =
    let e : order + 0 ≡ order = omega arith in
    rw e (record {
      same_base = refl;
      bytes = bytes;
      block = rw e at b;
      gains = λ p c. c;
      no_more = λ p c. c;
    })
Descended-rounds (suc rounds) order idx a bytes b =
    let e : order + suc rounds ≡ suc (order + rounds) = omega arith in
    let at = order + rounds in
    let b1 : IsBlock (suc at) idx = rw e at b in
    let a1 =
      buddy_order_set_free
        (buddy_block_set_free (buddy_block_clear a at (idx * 2)) at (bit_or (idx * 2) 1)) at in
    let rest =
      Descended-rounds rounds order (idx * 2) a1 (round-IsBytes a at _ _ bytes)
        (halves at idx b1).0 in
    rw e (record {
      same_base = rest.same_base ∙ base-down a at idx;
      bytes = rest.bytes;
      block = rest.block;
      gains = λ p c. rest.gains p (covers-down a at idx bytes b1 p c);
      no_more = λ p c. down-covers a at idx bytes b1 p (rest.no_more p c);
    })

-- What an allocation returns and which pages are free after it. An address of a block: no page of the block is free, and
-- with the block's pages the free pages are those from before. PMA_NULL: the free pages are those from before. In both
-- cases no page is in two free blocks.
abbrev pub ServedFrom : BuddyArena → (order : ℕ) → ℕ × BuddyArena → Type 0
ServedFrom arena order (addr, a') =
    ((addr ≡ 0) × IsDisjoint a' × ((p : ℕ) → FreePage a' p ↔ FreePage arena p))
    ⊎ ((i : ℕ) × IsBlock order i
        × (addr ≡ buddy_block_idx_to_addr arena i order)
        × (a'.base_addr ≡ arena.base_addr)
        × IsBytes a'.block_bitmap
        × IsHeld a' order i
        × ((p : ℕ) → (FreePage a' p ⊎ In order i p) ↔ FreePage arena p))

base-clear : (a : BuddyArena) (o i : ℕ) → (buddy_block_clear a o i).base_addr ≡ a.base_addr
unfolding buddy_block_clear
base-clear a o i = refl

base-update : (a : BuddyArena) (o : ℕ) → (buddy_update_order_bitmap a o).base_addr ≡ a.base_addr
unfolding buddy_update_order_bitmap buddy_order_set_free buddy_order_clear
base-update a o = elim (Option-cases (buddy_find_block_at_order a o)) [
  | inl e ↦ rw (e, buddy_update_order_bitmap) refl
  | inr (i, e) ↦ rw (e, buddy_update_order_bitmap) refl
]

base-search :
    (rounds : ℕ) (a : BuddyArena) (at : ℕ) → (search_loop rounds a at).1.base_addr ≡ a.base_addr
unfolding search_loop
base-search zero a at = refl
base-search (suc rounds) a at = elim (Bool-cases (buddy_is_order_free a at)) [
  | inr off ↦ rw (search_loop, off) (base-search rounds a (suc at))
  | inl set ↦ elim (Option-cases (buddy_find_block_at_order a at)) [
    | inl e ↦
        rw (search_loop, set, e)
          (base-search rounds (buddy_update_order_bitmap a at) (suc at) ∙ base-update a at)
    | inr (i, e) ↦ rw (search_loop, set, e) refl
  ]
]

-- A free block that is cleared.
module _ (a : BuddyArena) (o i : ℕ) (bytes : IsBytes a.block_bitmap) (b : IsBlock o i)
    (free : buddy_is_block_free a o i ≡ true) where
  covers-clear : (p : ℕ) → FreePage a p → FreePage (buddy_block_clear a o i) p ⊎ In o i p
  covers-clear p (o', i', b', f, page) = elim (Bool-cases ((o == o') && (i == i'))) [
    | inl e ↦ inr (let same : o ≡ o' = ground arith in rw same (ground arith))
    | inr e ↦ inl (o', i', b', ground (arith, free-clear a o o' i i' bytes b b'), page)
  ]

  clear-covers : (p : ℕ) → FreePage (buddy_block_clear a o i) p ⊎ In o i p → FreePage a p
  clear-covers p (inl (o', i', b', f, page)) =
      (o', i', b', ground (arith, free-clear a o o' i i' bytes b b'), page)
  clear-covers p (inr page) = (o, i, b, free, page)

pub addr-base :
    (a a' : BuddyArena) (i order : ℕ)
    → a'.base_addr ≡ a.base_addr
    → buddy_block_idx_to_addr a' i order ≡ buddy_block_idx_to_addr a i order
unfolding buddy_block_idx_to_addr
addr-base a a' i order e = rw e refl

module _ (arena : BuddyArena) (order : ℕ) (ok : IsArena arena) (apart : IsDisjoint arena)
    (ho : order < num_orders) where
  serve_found :
      (a1 : BuddyArena) (top idx : ℕ)
      → a1.block_bitmap ≡ arena.block_bitmap
      → a1.base_addr ≡ arena.base_addr
      → Served arena order num_orders (some (top, idx))
      → let a3 = buddy_update_order_bitmap (buddy_block_clear a1 top idx) top in
        let (left, a4) = split_loop (top - order) order idx a3 in
        ServedFrom arena order (buddy_block_idx_to_addr a4 left order, a4)
  serve_found a1 top idx same base (l, l', hi, f) =
      let a2 = buddy_block_clear a1 top idx in
      let a3 = buddy_update_order_bitmap a2 top in
      let bytes1 : IsBytes a1.block_bitmap = subst (λ b. IsBytes b) (sym same) ok.block_bytes in
      let same3 : a3.block_bitmap ≡ a2.block_bitmap = update_blocks a2 top in
      let bytes3 : IsBytes a3.block_bitmap =
        subst (λ b. IsBytes b) (sym same3) (block_clear-IsBytes a1 top idx bytes1) in
      let f1 : buddy_is_block_free a1 top idx ≡ true = free-same arena a1 top idx same ∙ f in
      let whole : order + (top - order) ≡ top = omega (arith, l) in
      let d =
        rw whole at (Descended-rounds (top - order) order idx a3 bytes3 (rw whole (l', hi))) in
      let held3 : IsHeld a3 top idx =
        IsHeld-same a2 a3 top idx same3
          (clear-IsHeld a1 top idx bytes1 (l', hi) f1 (IsDisjoint-same arena a1 same apart)) in
      let held =
        split_loop-IsHeld (top - order) order idx a3 bytes3 (rw whole (l', hi)) (rw whole held3) in
      let kept = d.same_base ∙ base-update a2 top ∙ base-clear a1 top idx ∙ base in
      inr (
        (split_loop (top - order) order idx a3).0,
        d.block,
        addr-base arena (split_loop (top - order) order idx a3).1 _ order kept,
        kept,
        d.bytes,
        held,
        λ p. (
          λ c. FreePage-same a1 arena (sym same) p (
              clear-covers a1 top idx bytes1 (l', hi) f1 p
                (moved a3 a2 (sym same3) top idx p (d.no_more p c))),
          λ c. d.gains p (
              moved a2 a3 same3 top idx p
                (covers-clear a1 top idx bytes1 (l', hi) f1 p (FreePage-same arena a1 same p c))),
        ),
      )

  -- `__buddy_alloc` of an order below 15, on arrays of bytes and where no page is in two free blocks, returns the address
  -- of a block of that order: afterwards no page of the block is free, and the free pages are with the block's those that
  -- were free before. Or it returns PMA_NULL, and the free pages are as before. In both cases no page is in two free
  -- blocks.
  pub buddy_alloc-cover : ServedFrom arena order (buddy_alloc arena order)
  unfolding buddy_alloc
  buddy_alloc-cover =
      let whole : order + (num_orders - order) ≡ num_orders = omega (arith, ho) in
      let below : leb num_orders order ≡ false = ground (arith, ho) in
      let r = rw whole at (search_rounds (num_orders - order) arena order ok.order_bytes) in
      rw below (
        go (search_loop (num_orders - order) arena order) r.served r.blocks
          (base-search (num_orders - order) arena order))
    where
      go :
          (out : Option (ℕ × ℕ) × BuddyArena)
          → Served arena order num_orders out.0
          → out.1.block_bitmap ≡ arena.block_bitmap
          → out.1.base_addr ≡ arena.base_addr
          → ServedFrom arena order (elim out.0 as (λ _. ℕ × BuddyArena) [
            | none ↦ (0, out.1)
            | some (alloc_order, block_idx) ↦
                let a2 = buddy_block_clear out.1 alloc_order block_idx in
                let a3 = buddy_update_order_bitmap a2 alloc_order in
                let r = split_loop (alloc_order - order) order block_idx a3 in
                (buddy_block_idx_to_addr r.1 r.0 order, r.1)
          ])
      go (none, a1) served same base = inl (
        refl,
        IsDisjoint-same arena a1 same apart,
        λ p. (FreePage-same a1 arena (sym same) p, FreePage-same arena a1 same p),
      )
      go (some (top, idx), a1) served same base = serve_found a1 top idx same base served
