-- ===== src/Pma/Pages.antt =====
-- Which pages of which arena are free after an allocation.
use twan.Base.{
  ℕ, zero, suc, ◌+◌, ◌<◌, ◌≤◌, ◌≡◌, ◌≢◌, ◌⊎◌, ◌↔◌, inl, inr, refl, sym, ◌∙◌, true, ◌==◌,
  if◌then◌else◌, arith, update, Bool-cases, ℕ_discrete,
}
use twan.Buddy.{BuddyArena, num_orders, buddy_alloc, buddy_order_can_alloc, buddy_block_idx_to_addr}
use twan.Buddy.Bits.{IsBytes}
use twan.Buddy.Blocks.{IsBlock}
use twan.Buddy.Alloc.{IsArena}
use twan.Buddy.Addresses.{order_can_alloc_lem}
use twan.Buddy.Cover.{In, FreePage}
use twan.Buddy.Held.{IsDisjoint, IsHeld}
use twan.Buddy.Cycle.{IsPlaced, block_not_null}
use twan.Buddy.Serve.{ServedFrom, buddy_alloc-cover}
use twan.Pma.{alloc_loop}

-- No arena but `id` has other free pages than before.
abbrev pub SameBut : (id : ℕ) (before after : ℕ → BuddyArena) → Type 0
SameBut id before after = (k : ℕ) → k ≢ id → (p : ℕ) → FreePage (after k) p ↔ FreePage (before k) p

-- What an allocation among the arenas from `first` on, below `last`, returns and leaves: the address of a block of one arena,
-- where no page of the block is free and the free pages are with the block's those from before, while all others are as
-- before; or PMA_NULL, and all are as before.
abbrev pub ServedBy :
    (before : ℕ → BuddyArena) (order first last : ℕ) → (ℕ × ℕ) × (ℕ → BuddyArena) → Type 0
ServedBy before order first last ((addr, id), after) =
    ((addr ≡ 0) × ((k p : ℕ) → FreePage (after k) p ↔ FreePage (before k) p))
    ⊎ ((first ≤ id)
        × (id < last)
        × SameBut id before after
        × (b : ℕ) × IsBlock order b
        × (addr ≡ buddy_block_idx_to_addr (before id) b order)
        × ((after id).base_addr ≡ (before id).base_addr)
        × IsBytes (after id).block_bitmap
        × IsHeld (after id) order b
        × ((p : ℕ) → (FreePage (after id) p ⊎ In order b p) ↔ FreePage (before id) p))

can_alloc-order :
    (arena : BuddyArena) (order : ℕ) → buddy_order_can_alloc arena order ≡ true → order < num_orders
can_alloc-order arena order can =
    let (o, l, l', set) = rw can at (order_can_alloc_lem arena order) in omega (arith, l, l')

-- Arena `i` failed, or was passed over; then `out` came of the others.
ServedBy-later :
    (before middle : ℕ → BuddyArena) (order i last : ℕ) (out : (ℕ × ℕ) × (ℕ → BuddyArena))
    → ((k : ℕ) → k ≢ i → middle k ≡ before k)
    → ((p : ℕ) → FreePage (middle i) p ↔ FreePage (before i) p)
    → ServedBy middle order (i + 1) last out
    → ServedBy before order i last out
ServedBy-later before middle order i last ((addr, id), after) others here (inl (null, same)) = inl (
  null,
  λ k p. elim (ℕ_discrete k i) [
    | yes e ↦ rw e (λ f. (here p).0 ((same i p).0 f), λ f. (same i p).1 ((here p).1 f))
    | no ne ↦ rw (others k ne) at (same k p)
  ],
)
ServedBy-later before middle order i last ((addr, id), after) others here
      (inr (l, l', same, b, block, e, base, bytes, held, cover)) =
    let kept = others id (omega (arith, l)) in
    inr (
      omega (arith, l),
      l',
      λ k ne p. elim (ℕ_discrete k i) [
        | yes q ↦ rw q (
          λ f. (here p).0 ((same i (omega (arith, l)) p).0 f),
          λ f. (same i (omega (arith, l)) p).1 ((here p).1 f),
        )
        | no nq ↦ rw (others k nq) at (same k ne p)
      ],
      b,
      block,
      rw kept at e,
      rw kept at base,
      bytes,
      held,
      rw kept at cover,
    )

pub update_other :
    (arenas : ℕ → BuddyArena) (i k : ℕ) (a : BuddyArena) → k ≢ i → update arenas i a k ≡ arenas k
update_other arenas i k a ne = ground arith

pub update_here : (arenas : ℕ → BuddyArena) (i : ℕ) (a : BuddyArena) → update arenas i a i ≡ a
update_here arenas i a = ground arith

module _ (order : ℕ) where
  -- Arena `i` is asked.
  asked :
      (arenas : ℕ → BuddyArena) (i last : ℕ) (out : ℕ × BuddyArena)
      → (failed : (ℕ × ℕ) × (ℕ → BuddyArena)) → i < last
      → IsPlaced (arenas i)
      → ServedFrom (arenas i) order out
      → (((p : ℕ) → FreePage out.1 p ↔ FreePage (arenas i) p) → ServedBy arenas order i last failed)
      → ServedBy arenas order i last
          (if out.0 == 0 then failed else ((out.0, i), update arenas i out.1))
  asked arenas i last (addr, a) failed l placed (inl (null, _, same)) later = rw null (later same)
  asked arenas i last (addr, a) failed l placed (inr (b, block, e, base, bytes, held, cover))
        later =
      elim (Bool-cases (addr == 0)) [
        | inl null ↦ absurd (block_not_null (arenas i) order b placed block (sym e ∙ ground arith))
        | inr real ↦ rw real (
            inr (
              omega arith,
              l,
              λ k ne p. rw (update_other arenas i k a ne) (λ f. f, λ f. f),
              b,
              block,
              e,
              rw (update_here arenas i a) base,
              rw (update_here arenas i a) bytes,
              rw (update_here arenas i a) held,
              rw (update_here arenas i a) cover,
            ))
      ]

  pub ServedBy-rounds :
      (rounds i : ℕ) (arenas : ℕ → BuddyArena)
      → ((k : ℕ)
          → i ≤ k
          → k < i + rounds
          → IsArena (arenas k) × IsDisjoint (arenas k) × IsPlaced (arenas k))
      → ServedBy arenas order i (i + rounds) (alloc_loop rounds order i arenas)
  unfolding alloc_loop
  ServedBy-rounds zero i arenas ok = inl (refl, λ k p. (λ f. f, λ f. f))
  ServedBy-rounds (suc rounds) i arenas ok =
      let up : i + suc rounds ≡ i + 1 + rounds = omega arith in
      let (arena_ok, apart, placed) = ok i (omega arith) (omega arith) in
      elim (Bool-cases (buddy_order_can_alloc (arenas i) order)) [
        | inr cannot ↦
            rw (alloc_loop, cannot, up)
              (ServedBy-later arenas arenas order i (i + 1 + rounds) _ (λ k ne. refl)
                (λ p. (λ f. f, λ f. f))
                (ServedBy-rounds rounds (i + 1) arenas
                  (λ k l l'. ok k (omega (arith, l)) (omega (arith, l')))))
        | inl can ↦
            let a = (buddy_alloc (arenas i) order).1 in
            rw (alloc_loop, can, up)
              (asked arenas i (i + 1 + rounds) (buddy_alloc (arenas i) order) _ (omega arith) placed
                (buddy_alloc-cover (arenas i) order arena_ok apart
                  (can_alloc-order (arenas i) order can))
                (λ same.
                  ServedBy-later arenas (update arenas i a) order i (i + 1 + rounds) _
                    (λ k ne. update_other arenas i k a ne) (rw (update_here arenas i a) same)
                    (ServedBy-rounds rounds (i + 1) (update arenas i a) (λ k l l'.
                      rw (update_other arenas i k a (omega (arith, l)))
                        (ok k (omega (arith, l)) (omega (arith, l')))))))
      ]
