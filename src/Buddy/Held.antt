-- ===== src/Buddy/Held.antt =====
-- include/lib/buddy_alloc.h and src/lib/buddy_alloc.c: blocks that are handed out, beside the free blocks.
use mathlib.Core.Bool.{false≢true}
use twan.Base.{
  ℕ, zero, suc, ◌+◌, ◌*◌, ◌/◌, ◌^◌, ◌<◌, ◌≡◌, ◌⊎◌, inl, inr, sym, ◌∙◌, true, ◌&&◌, ◌%◌, not, ap,
  bit_and, arith, ◌==◌, Bool-cases, bit_or,
}
use twan.Bits.Masks.{zero-bit_and}
use twan.Buddy.{
  BuddyArena, buddy_is_block_free, buddy_bitmap_test, buddy_block_bitmap_bit, buddy_block_clear,
  buddy_block_set_free, buddy_order_set_free, split_loop,
}
use twan.Buddy.Bits.{IsBytes}
use twan.Buddy.Blocks.{IsBlock, free-clear, free-set_free}
use twan.Buddy.Split.{halves, round-IsBytes, split_round}
use twan.Buddy.Alloc.{free-same}
use twan.Buddy.Cover.{In, FreePage, page_half}

-- Block `i` of order `o` is free and has page `p`.
abbrev pub FreeIn : BuddyArena → (o i p : ℕ) → Type 0
FreeIn a o i p = IsBlock o i × (buddy_is_block_free a o i ≡ true) × In o i p

-- No page is in two free blocks.
abbrev pub IsDisjoint : BuddyArena → Type 0
IsDisjoint a = (p o i o' i' : ℕ) → FreeIn a o i p → FreeIn a o' i' p → (o ≡ o') × (i ≡ i')

-- No page of block `i` of order `o` is free, and no page is in two free blocks.
abbrev pub IsHeld : BuddyArena → (o i : ℕ) → Type 0
IsHeld a o i = IsDisjoint a × ((p : ℕ) → In o i p → ¬ FreePage a p)

-- Arenas whose free blocks are free in the first.
IsDisjoint-fewer :
    (a a' : BuddyArena)
    → ((o i : ℕ)
        → IsBlock o i
        → buddy_is_block_free a' o i ≡ true
        → buddy_is_block_free a o i ≡ true)
    → IsDisjoint a
    → IsDisjoint a'
IsDisjoint-fewer a a' kept apart p o i o' i' (b, f, at) (b', f', at') =
    apart p o i o' i' (b, kept o i b f, at) (b', kept o' i' b' f', at')

pub IsDisjoint-same :
    (a a' : BuddyArena) → a'.block_bitmap ≡ a.block_bitmap → IsDisjoint a → IsDisjoint a'
IsDisjoint-same a a' same = IsDisjoint-fewer a a' (λ o i b f. free-same a' a o i (sym same) ∙ f)

pub IsHeld-same :
    (a a' : BuddyArena) (o i : ℕ) → a'.block_bitmap ≡ a.block_bitmap → IsHeld a o i → IsHeld a' o i
IsHeld-same a a' o i same (apart, none_free) = (
  IsDisjoint-same a a' same apart,
  λ p at (o', i', b, f, at'). none_free p at (o', i', b, free-same a' a o' i' (sym same) ∙ f, at'),
)

-- In an arena without a free block every block may be handed out.
pub no_bits-IsHeld : (a : BuddyArena) → ((j : ℕ) → a.block_bitmap j ≡ 0) → (o i : ℕ) → IsHeld a o i
unfolding buddy_is_block_free buddy_bitmap_test
no_bits-IsHeld a none_set o i =
    let no_free = λ (o' i' : ℕ) (f : buddy_is_block_free a o' i' ≡ true). false≢true (
      sym (
        ap (λ (w : ℕ). not (w == 0))
          (ap (λ (w : ℕ). bit_and w (2 ^ (buddy_block_bitmap_bit o' i' % 8)))
              (none_set (buddy_block_bitmap_bit o' i' / 8))
            ∙ zero-bit_and (2 ^ (buddy_block_bitmap_bit o' i' % 8))))
      ∙ f) in
    (λ p o1 i1 o2 i2 f f'. absurd (no_free o1 i1 f.1), λ p at (o1, i1, b, f, at'). no_free o1 i1 f)

module _ (a : BuddyArena) (o i : ℕ) (bytes : IsBytes a.block_bitmap) (b : IsBlock o i) where
  pub clear-IsDisjoint : IsDisjoint a → IsDisjoint (buddy_block_clear a o i)
  clear-IsDisjoint =
      IsDisjoint-fewer a (buddy_block_clear a o i)
        (λ o' i' b' f. ground (arith, free-clear a o o' i i' bytes b b'))

  pub clear-still_IsHeld : (o' i' : ℕ) → IsHeld a o' i' → IsHeld (buddy_block_clear a o i) o' i'
  clear-still_IsHeld o' i' (apart, none_free) = (
    clear-IsDisjoint apart,
    λ p at (o1, i1, b1, f, at1).
        none_free p at (o1, i1, b1, ground (arith, free-clear a o o1 i i1 bytes b b1), at1),
  )

  -- a free block that is cleared is held
  pub clear-IsHeld :
      buddy_is_block_free a o i ≡ true → IsDisjoint a → IsHeld (buddy_block_clear a o i) o i
  clear-IsHeld free apart = (
    clear-IsDisjoint apart,
    λ p at (o', i', b', f, at').
        let old : buddy_is_block_free a o' i' ≡ true =
          ground (arith, free-clear a o o' i i' bytes b b') in
        let (same_o, same_i) = apart p o i o' i' (b, free, at) (b', old, at') in
        ground (arith, free-clear a o o' i i' bytes b b'),
  )

  -- a free block after the block has been set free: that block, or one that was free before
  set_free_cases :
      (o' i' p : ℕ)
      → FreeIn (buddy_block_set_free a o i) o' i' p
      → ((o ≡ o') × (i ≡ i') × In o i p) ⊎ FreeIn a o' i' p
  set_free_cases o' i' p (b', f, at) = elim (Bool-cases ((o == o') && (i == i'))) [
    | inl e ↦
        let same_o : o ≡ o' = ground arith in
        let same_i : i ≡ i' = ground arith in inl (same_o, same_i, rw (same_o, same_i) at)
    | inr e ↦ inr (b', ground (arith, free-set_free a o o' i i' bytes b b'), at)
  ]

  -- a held block that is set free
  pub set_free-IsDisjoint : IsHeld a o i → IsDisjoint (buddy_block_set_free a o i)
  set_free-IsDisjoint (apart, none_free) p o1 i1 o2 i2 f1 f2 =
      go (set_free_cases o1 i1 p f1) (set_free_cases o2 i2 p f2)
    where
      go :
          ((o ≡ o1) × (i ≡ i1) × In o i p) ⊎ FreeIn a o1 i1 p
          → ((o ≡ o2) × (i ≡ i2) × In o i p) ⊎ FreeIn a o2 i2 p
          → (o1 ≡ o2) × (i1 ≡ i2)
      go (inl (e, e', _)) (inl (g, g', _)) = (sym e ∙ g, sym e' ∙ g')
      go (inl (_, _, at)) (inr old) = absurd (none_free p at (o2, i2, old.0, old.1, old.2))
      go (inr old) (inl (_, _, at)) = absurd (none_free p at (o1, i1, old.0, old.1, old.2))
      go (inr old) (inr old') = apart p o1 i1 o2 i2 old old'

abbrev pub down : BuddyArena → (at idx : ℕ) → BuddyArena
down a at idx =
    buddy_order_set_free
      (buddy_block_set_free (buddy_block_clear a at (idx * 2)) at (bit_or (idx * 2) 1)) at

-- A round of the descent: its left half is held.
module _ (a : BuddyArena) (at idx : ℕ) (bytes : IsBytes a.block_bitmap)
    (b : IsBlock (suc at) idx) where
  down_cases :
      (o i p : ℕ)
      → FreeIn (down a at idx) o i p
      → ((at ≡ o) × (idx * 2 + 1 ≡ i) × In at (idx * 2 + 1) p) ⊎ FreeIn a o i p
  down_cases o i p (block, f, page) = elim (Bool-cases ((at == o) && (idx * 2 + 1 == i))) [
    | inl e ↦
        let same_o : at ≡ o = ground arith in
        let same_i : idx * 2 + 1 ≡ i = ground arith in
        inl (same_o, same_i, rw (same_o, same_i) page)
    | inr e ↦ inr (block, ground (arith, split_round a at idx o i bytes b block), page)
  ]

  pub down-IsHeld : IsHeld a (suc at) idx → IsHeld (down a at idx) at (idx * 2)
  down-IsHeld (apart, none_free) = (
    λ p o1 i1 o2 i2 f1 f2.
        apart_cases p o1 i1 o2 i2 (down_cases o1 i1 p f1) (down_cases o2 i2 p f2),
    λ p left (o, i, block, f, page). not_left p left o i (down_cases o i p (block, f, page)),
  )
    where
      whole : (p half : ℕ) → half < 2 → In at (idx * 2 + half) p → In (suc at) idx p
      whole p half l page = omega (arith, page_half at p, page, l)

      apart_cases :
          (p o1 i1 o2 i2 : ℕ)
          → ((at ≡ o1) × (idx * 2 + 1 ≡ i1) × In at (idx * 2 + 1) p) ⊎ FreeIn a o1 i1 p
          → ((at ≡ o2) × (idx * 2 + 1 ≡ i2) × In at (idx * 2 + 1) p) ⊎ FreeIn a o2 i2 p
          → (o1 ≡ o2) × (i1 ≡ i2)
      apart_cases p o1 i1 o2 i2 (inl (e, e', _)) (inl (g, g', _)) = (sym e ∙ g, sym e' ∙ g')
      apart_cases p o1 i1 o2 i2 (inl (_, _, page)) (inr old) =
          absurd (none_free p (whole p 1 (omega arith) page) (o2, i2, old.0, old.1, old.2))
      apart_cases p o1 i1 o2 i2 (inr old) (inl (_, _, page)) =
          absurd (none_free p (whole p 1 (omega arith) page) (o1, i1, old.0, old.1, old.2))
      apart_cases p o1 i1 o2 i2 (inr old) (inr old') = apart p o1 i1 o2 i2 old old'

      not_left :
          (p : ℕ)
          → In at (idx * 2) p
          → (o i : ℕ) → ((at ≡ o) × (idx * 2 + 1 ≡ i) × In at (idx * 2 + 1) p) ⊎ FreeIn a o i p
          → ⊥
      not_left p left o i (inl (_, _, right)) = omega (arith, left, right)
      not_left p left o i (inr old) =
          none_free p (omega (arith, page_half at p, left)) (o, i, old.0, old.1, old.2)

pub split_loop-IsHeld :
    (rounds order idx : ℕ) (a : BuddyArena)
    → IsBytes a.block_bitmap
    → IsBlock (order + rounds) idx
    → IsHeld a (order + rounds) idx
    → let out = split_loop rounds order idx a in IsHeld out.1 order out.0
unfolding split_loop
split_loop-IsHeld zero order idx a bytes b held =
    let e : order + 0 ≡ order = omega arith in rw e at held
split_loop-IsHeld (suc rounds) order idx a bytes b held =
    let e : order + suc rounds ≡ suc (order + rounds) = omega arith in
    let at = order + rounds in
    let b1 : IsBlock (suc at) idx = rw e at b in
    let held1 : IsHeld a (suc at) idx = rw e at held in
    split_loop-IsHeld rounds order (idx * 2) (down a at idx) (round-IsBytes a at _ _ bytes)
      (halves at idx b1).0 (down-IsHeld a at idx bytes b1 held1)
