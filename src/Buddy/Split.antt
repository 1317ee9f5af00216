-- ===== src/Buddy/Split.antt =====
-- The descent of `__buddy_alloc` from the block that was found to the order that is asked for.
use native.Mathlib.Nat.{pow-suc, one-le-pow}
use twan.Base.{
  ℕ, zero, suc, ◌+◌, ◌-◌, ◌*◌, ◌/◌, ◌%◌, ◌^◌, ◌<◌, ◌≡◌, sym, ap, ◌∙◌, Bool, true, false, ◌&&◌,
  arith, ◌==◌, ltb, leb, if◌then◌else◌, ℕ_discrete, bit_or,
}
use twan.Bits.Masks.{bit_of-or, bit_of-zero, bit_or-lt, eq_of_bits}
use twan.Bits.Step.{bit_or_step}
use twan.Buddy.{
  BuddyArena, num_orders, buddy_is_block_free, buddy_block_set_free, buddy_block_clear,
  buddy_order_set_free, split_loop,
}
use twan.Buddy.Bits.{IsBytes, set-IsBytes, clear-IsBytes}
use twan.Buddy.Blocks.{IsBlock, free-set_free, free-clear, num_blocks-pow}

bit_or-none : (k a : ℕ) → a < 2 ^ k → bit_or a 0 ≡ a
bit_or-none k a h =
    eq_of_bits k (bit_or a 0) a (bit_or-lt k a 0 h (one-le-pow k 2 (omega arith))) h
      (λ i l. omega (arith, bit_of-or a 0 i, bit_of-zero i))

pub right_is : (k idx : ℕ) → idx < 2 ^ k → bit_or (idx * 2) 1 ≡ idx * 2 + 1
right_is k idx h =
    let half : idx * 2 / 2 ≡ idx = omega arith in
    let digit : idx * 2 % 2 ≡ 0 = omega arith in
    bit_or_step (idx * 2) 1 ∙ rw (half, digit, bit_or-none k idx h)

-- What the descent from block `idx` of order `top` makes of a block of the order `o`, for the orders from
-- `low` below `top`: the leftmost block below `idx` is taken and the one beside it is free.
abbrev pub after_split : BuddyArena → (low top idx : ℕ) → (o i : ℕ) → Bool
after_split arena low top idx o i =
    if leb low o && ltb o top
    then if i == idx * 2 ^ (top - o)
      then false
      else if i == idx * 2 ^ (top - o) + 1
      then true
      else buddy_is_block_free arena o i
    else buddy_is_block_free arena o i

pub record IsSplit (arena : BuddyArena) (low top idx : ℕ) (out : ℕ × BuddyArena) : Type 0 where
  pub leftmost : out.0 ≡ idx * 2 ^ (top - low)
  pub bytes : IsBytes out.1.block_bitmap
  pub blocks :
      (o i : ℕ) → IsBlock o i → buddy_is_block_free out.1 o i ≡ after_split arena low top idx o i

-- A block of an order above 0 has two halves.
pub halves : (o idx : ℕ) → IsBlock (suc o) idx → IsBlock o (idx * 2) × IsBlock o (idx * 2 + 1)
halves o idx (ho, hi) =
    let next : suc (14 - suc o) ≡ 14 - o = omega (arith, ho) in
    let size : 2 ^ (14 - o) ≡ 2 ^ (14 - suc o) * 2 =
      ap (λ (t : ℕ). 2 ^ t) (sym next) ∙ pow-suc 2 (14 - suc o) in
    let small : o < num_orders = omega (arith, ho) in
    let below = rw (num_blocks-pow (suc o) ho) at hi in
    (
      (small, rw (num_blocks-pow o small) (omega (arith, size, below))),
      (small, rw (num_blocks-pow o small) (omega (arith, size, below))),
    )

pub block_clear-IsBytes :
    (arena : BuddyArena) (at idx : ℕ)
    → IsBytes arena.block_bitmap
    → IsBytes (buddy_block_clear arena at idx).block_bitmap
unfolding buddy_block_clear
block_clear-IsBytes arena at idx bytes = clear-IsBytes arena.block_bitmap _ bytes

pub round-IsBytes :
    (arena : BuddyArena) (at left right : ℕ)
    → IsBytes arena.block_bitmap
    → IsBytes
        (buddy_order_set_free
          (buddy_block_set_free (buddy_block_clear arena at left) at right)
          at).block_bitmap
unfolding buddy_order_set_free buddy_block_set_free
round-IsBytes arena at left right bytes = set-IsBytes _ _ (block_clear-IsBytes arena at left bytes)

-- A round of the descent.
pub split_round :
    (arena : BuddyArena) (at idx o i : ℕ)
    → IsBytes arena.block_bitmap
    → IsBlock (suc at) idx
    → IsBlock o i
    → buddy_is_block_free
        (buddy_order_set_free
          (buddy_block_set_free (buddy_block_clear arena at (idx * 2)) at (bit_or (idx * 2) 1))
          at)
        o
        i
      ≡ (if (at == o) && (idx * 2 + 1 == i)
          then true
          else if (at == o) && (idx * 2 == i)
          then false
          else buddy_is_block_free arena o i)
unfolding buddy_order_set_free buddy_is_block_free
split_round arena at idx o i bytes b b' =
    let (left, right) = halves at idx b in
    rw (right_is (14 - suc at) idx (rw (num_blocks-pow (suc at) b.0) at b.1)) (
      free-set_free (buddy_block_clear arena at (idx * 2)) at o (idx * 2 + 1) i
        (block_clear-IsBytes arena at (idx * 2) bytes) right b'
      ∙ ap (λ t. if (at == o) && (idx * 2 + 1 == i) then true else t)
          (free-clear arena at o (idx * 2) i bytes left b'))

pub IsSplit-rounds :
    (rounds order idx : ℕ) (arena : BuddyArena)
    → IsBytes arena.block_bitmap
    → IsBlock (order + rounds) idx
    → IsSplit arena order (order + rounds) idx (split_loop rounds order idx arena)
unfolding split_loop
IsSplit-rounds zero order idx arena bytes b = record {
  leftmost = let e : order + 0 - order ≡ 0 = omega arith in rw e (omega arith);
  bytes = bytes;
  blocks = λ o i b'. ground arith;
}
IsSplit-rounds (suc rounds) order idx arena bytes b =
    let at = order + rounds in
    let b1 : IsBlock (suc (order + rounds)) idx = rw order_up at b in
    let a1 =
      buddy_order_set_free
        (buddy_block_set_free (buddy_block_clear arena at (idx * 2)) at (bit_or (idx * 2) 1)) at in
    let rest =
      IsSplit-rounds rounds order (idx * 2) a1 (round-IsBytes arena at _ _ bytes)
        (halves (order + rounds) idx b1).0 in
    record {
      leftmost = rest.leftmost ∙ leftmost_is;
      bytes = rest.bytes;
      blocks =
          λ o i b'. rest.blocks o i b' ∙ step o i a1 (split_round arena at idx o i bytes b1 b');
    }
  where
    order_up : order + suc rounds ≡ suc (order + rounds)
    order_up = omega arith

    double : (j k : ℕ) → k ≡ suc j → idx * 2 * 2 ^ j ≡ idx * 2 ^ k
    double j k e = rw (e, pow-suc 2 j) (grind arith)

    leftmost_is : idx * 2 * 2 ^ (order + rounds - order) ≡ idx * 2 ^ (order + suc rounds - order)
    leftmost_is = double (order + rounds - order) (order + suc rounds - order) (omega arith)

    step :
        (o i : ℕ) (a' : BuddyArena)
        → buddy_is_block_free a' o i ≡ (
            if (order + rounds == o) && (idx * 2 + 1 == i)
            then true
            else if (order + rounds == o) && (idx * 2 == i)
            then false
            else buddy_is_block_free arena o i)
        → after_split a' order (order + rounds) (idx * 2) o i
          ≡ after_split arena order (order + suc rounds) idx o i
    step o i a' e = elim (ℕ_discrete o (order + rounds)) [
      | yes same ↦
          let k : order + suc rounds - o ≡ 1 = omega (arith, same) in rw k (ground (arith, e))
      | no ne ↦ ground (
        arith,
        e,
        λ (l : o < order + rounds).
            double (order + rounds - o) (order + suc rounds - o) (omega (arith, l)),
      )
    ]
