-- ===== src/Pma/Cycle.antt =====
-- The calls on all arenas: an allocation of pages, and their release.
use native.Mathlib.Nat.{pow-suc}
use twan.Base.{
  ℕ, zero, suc, ◌+◌, ◌*◌, ◌^◌, ◌<◌, ◌≤◌, ◌≡◌, ◌≢◌, ◌⊎◌, ◌↔◌, inl, inr, refl, sym, ap, ◌∙◌, false,
  ltb, leb, arith, update, Bool-cases, ℕ_discrete,
}
use twan.Buddy.{BuddyArena, buddy_free, buddy_block_idx_to_addr}
use twan.Buddy.Alloc.{IsArena}
use twan.Buddy.Cover.{In, FreePage}
use twan.Buddy.Held.{IsDisjoint}
use twan.Buddy.Free.{buddy_free_lem}
use twan.Buddy.Cycle.{IsPlaced, free_null, block_inside}
use twan.Buddy.Serve.{addr-base}
use twan.Pma.{Pma, get_order_loop, buddy_get_order, pma_buddy_alloc_pages, pma_buddy_free_pages}
use twan.Pma.Pages.{ServedBy, ServedBy-rounds, update_here, update_other}

-- The arenas that were initialised: bitmaps of bytes, no page in two free blocks, and 32 GB within 64 bits.
abbrev pub IsPma : Pma → Type 0
IsPma s =
    (k : ℕ)
    → k < s.num_arenas
    → IsArena (s.arenas k) × IsDisjoint (s.arenas k) × IsPlaced (s.arenas k)

loop_enough :
    (rounds n order : ℕ)
    → n ≤ 2 ^ (order + rounds)
    → n ≤ 2 ^ get_order_loop rounds n order (2 ^ order)
unfolding get_order_loop
loop_enough zero n order h = let e : order + 0 ≡ order = omega arith in rw e at h
loop_enough (suc rounds) n order h = elim (Bool-cases (ltb (2 ^ order) n)) [
  | inr e ↦ rw e (ground arith)
  | inl e ↦
      let up : order + suc rounds ≡ order + 1 + rounds = omega arith in
      let next : suc order ≡ order + 1 = omega arith in
      let double : 2 ^ order * 2 ≡ 2 ^ (order + 1) =
        sym (pow-suc 2 order) ∙ ap (λ (k : ℕ). 2 ^ k) next in
      rw (e, double) (loop_enough rounds n (order + 1) (rw up at h))
]

-- `__buddy_get_order` of a `u32` gives an order whose blocks have at least that many pages.
get_order-le : (n : ℕ) → n < 2 ^ 32 → n ≤ 2 ^ buddy_get_order n
unfolding buddy_get_order
get_order-le n l = loop_enough 33 n 0 (omega (arith, l))

-- `pma_buddy_alloc_pages` of fewer than 2 ^ 32 pages, from arenas in order, returns a block of one arena that has at least
-- that many pages. No page of the block is free afterwards, that arena's free pages are with the block's those from
-- before, and the other arenas' are as before. Or it returns PMA_NULL, and the free pages of all arenas are as before.
pub pma_buddy_alloc_pages_lem :
    (num_pages : ℕ) (s : Pma)
    → num_pages < 2 ^ 32
    → IsPma s
    → let (out, s') = pma_buddy_alloc_pages num_pages s in
      (num_pages ≤ 2 ^ buddy_get_order num_pages)
      × (s'.num_arenas ≡ s.num_arenas)
      × ServedBy s.arenas (buddy_get_order num_pages) 0 s.num_arenas (out, s'.arenas)
unfolding pma_buddy_alloc_pages
pma_buddy_alloc_pages_lem num_pages s few ok = (
  get_order-le num_pages few,
  refl,
  let e : 0 + s.num_arenas ≡ s.num_arenas = omega arith in
      rw e at (
        ServedBy-rounds (buddy_get_order num_pages) s.num_arenas 0 s.arenas
          (λ k l l'. ok k (omega (arith, l')))),
)

-- A release in arena `id` that gives its pages back gives all pages back.
free_there :
    (before now : ℕ → BuddyArena) (id : ℕ) (freed : BuddyArena)
    → ((k : ℕ) → k ≢ id → (p : ℕ) → FreePage (now k) p ↔ FreePage (before k) p)
    → ((p : ℕ) → FreePage freed p ↔ FreePage (before id) p)
    → (k p : ℕ) → FreePage (update now id freed k) p ↔ FreePage (before k) p
free_there before now id freed others here k p = elim (ℕ_discrete k id) [
  | yes e ↦ rw (e, update_here now id freed) (here p)
  | no ne ↦ rw (update_other now id k freed ne) (others k ne p)
]

free_back :
    (num_pages : ℕ) (s s' : Pma) (addr id : ℕ)
    → IsPma s
    → s'.num_arenas ≡ s.num_arenas
    → ServedBy s.arenas (buddy_get_order num_pages) 0 s.num_arenas ((addr, id), s'.arenas)
    → (k p : ℕ)
    → FreePage ((pma_buddy_free_pages id addr num_pages s').1.arenas k) p ↔ FreePage (s.arenas k) p
unfolding pma_buddy_free_pages
free_back num_pages s s' addr id ok count (inl (null, same)) k p =
    elim (Bool-cases (leb s'.num_arenas id)) [
      | inl e ↦ rw e (same k p)
      | inr e ↦
          rw (e, null)
            (free_there s.arenas s'.arenas id
              (buddy_free 0 (buddy_get_order num_pages) (s'.arenas id)) (λ j ne. same j)
              (rw (free_null (buddy_get_order num_pages) (s'.arenas id)) (same id)) k p)
    ]
free_back num_pages s s' addr id ok count (inr (l, l', same, b, block, e, base, bytes, held, cover))
      k p =
    let order = buddy_get_order num_pages in
    let valid : leb s'.num_arenas id ≡ false = ground (arith, count, l') in
    let (some_addr, fits) = (ok id l').2 in
    let here : (q : ℕ)
        → FreePage (buddy_free addr order (s'.arenas id)) q ↔ FreePage (s.arenas id) q =
      λ q.
        let r =
          buddy_free_lem (s'.arenas id) order b bytes block (rw base some_addr)
            (omega (arith, base, fits, block_inside order b block)) q in
        rw (e, sym (addr-base (s.arenas id) (s'.arenas id) b order base))
          (λ f. (cover q).0 (r.0 f), λ f. r.1 ((cover q).1 f)) in
    rw valid (free_there s.arenas s'.arenas id _ same here k p)

-- The pages that an allocation hands out: none, for PMA_NULL, or those of a block at that address of arena `id`, which were
-- free before and are not free after it.
abbrev pub HandedOut : (before after : ℕ → BuddyArena) (order addr id : ℕ) → Type 0
HandedOut before after order addr id =
    (addr ≡ 0)
    ⊎ ((b : ℕ) × (addr ≡ buddy_block_idx_to_addr (before id) b order)
        × ((p : ℕ) → In order b p → FreePage (before id) p × ¬ FreePage (after id) p))

served-HandedOut :
    (before after : ℕ → BuddyArena) (order last addr id : ℕ)
    → ServedBy before order 0 last ((addr, id), after)
    → HandedOut before after order addr id
served-HandedOut before after order last addr id (inl (null, same)) = inl null
served-HandedOut before after order last addr id
      (inr (l, l', same, b, block, e, base, bytes, held, cover)) =
    inr (b, e, λ p at. ((cover p).0 (inr at), held.1 p at))

-- What `pma_buddy_alloc_pages` returns for fewer than 2 ^ 32 pages, from arenas in order, is PMA_NULL or the address of a
-- block whose pages were free before and are not free while it is handed out. `pma_buddy_free_pages` of it for the same
-- number of pages gives every arena the free pages that it had before.
pub free_pages-alloc_pages :
    (num_pages : ℕ) (s : Pma)
    → num_pages < 2 ^ 32
    → IsPma s
    → let ((addr, id), s') = pma_buddy_alloc_pages num_pages s in
      HandedOut s.arenas s'.arenas (buddy_get_order num_pages) addr id
      × ((k p : ℕ)
          → FreePage ((pma_buddy_free_pages id addr num_pages s').1.arenas k) p
            ↔ FreePage (s.arenas k) p)
free_pages-alloc_pages num_pages s few ok =
    let (enough, count, served) = pma_buddy_alloc_pages_lem num_pages s few ok in
    (served-HandedOut _ _ _ _ _ _ served, free_back num_pages s _ _ _ ok count served)
