-- ===== src/Tlsf/Heap/Sizes.antt =====
-- The sizes in the headers of the blocks, beside the two flags.
use twan.Base.{
  ℕ, ◌≢◌, true, not, ◌+◌, ◌%◌, ◌^◌, zero, suc, ◌≤◌, ◌-◌, ◌*◌, ◌/◌, ◌%◌, ◌^◌, ◌<◌, ◌≡◌, refl, sym,
  ap, ◌∙◌, false, arith, bit_and, bit_or, ◌==◌, if◌then◌else◌, ℕ_discrete,
}
use twan.Bitmap.{not64}
use twan.Bits.Step.{bit_and_step, bit_or_step}
use twan.Bits.Masks.{bit_and_low, bit_and_shifted}
use twan.Tlsf.Heap.{
  Tlsf, header, tlsf_get_block_size, tlsf_set_block_size, tlsf_set_block_free, tlsf_block_is_free,
  tlsf_unset_block_free, tlsf_unset_prev_phys_free, tlsf_unmark_free, tlsf_next_block,
  tlsf_insert_free_block, tlsf_remove_free_block, unset_bits,
}

-- the part of a word of a header that is the size
no_flags : (w : ℕ) → bit_and w (not64 3) ≡ w / 4 % 2 ^ 62 * 4
no_flags w = bit_and_shifted 2 w (2 ^ 62 - 1) ∙ ap (λ (t : ℕ). t * 4) (bit_and_low 62 (w / 4))

and_quarter : (w m : ℕ) → bit_and w m / 4 ≡ bit_and (w / 4) (m / 4)
and_quarter w m =
    let w4 : w / 2 / 2 ≡ w / 4 = omega arith in
    let m4 : m / 2 / 2 ≡ m / 4 = omega arith in
    rw (sym w4, sym m4) (omega (arith, bit_and_step w m, bit_and_step (w / 2) (m / 2)))

or_quarter : (w m : ℕ) → bit_or w m / 4 ≡ bit_or (w / 4) (m / 4)
or_quarter w m =
    let w4 : w / 2 / 2 ≡ w / 4 = omega arith in
    let m4 : m / 2 / 2 ≡ m / 4 = omega arith in
    rw (sym w4, sym m4) (omega (arith, bit_or_step w m, bit_or_step (w / 2) (m / 2)))

or_zero : (k x : ℕ) → x ≤ k → bit_or x 0 ≡ x
or_zero zero x l = let e : x ≡ 0 = omega (arith, l) in rw e refl
or_zero (suc k) x l = elim (ℕ_discrete x 0) [
  | yes e ↦ rw e refl
  | no ne ↦ omega (arith, bit_or_step x 0, or_zero k (x / 2) (omega (arith, l, ne)))
]

and_zero : (k x : ℕ) → x ≤ k → bit_and x 0 ≡ 0
and_zero k x l = bit_and_low 0 x ∙ omega arith

-- A word of a header after a flag was set or reset has the same size.
set_flag : (w m : ℕ) → m < 4 → bit_and (bit_or w m) (not64 3) ≡ bit_and w (not64 3)
set_flag w m l =
    let none_high : m / 4 ≡ 0 = omega (arith, l) in
    let e : bit_or w m / 4 ≡ w / 4 =
      or_quarter w m ∙ rw none_high (or_zero (w / 4) (w / 4) (omega arith)) in
    no_flags (bit_or w m) ∙ ap (λ (t : ℕ). t % 2 ^ 62 * 4) e ∙ sym (no_flags w)

reset_flag : (w m : ℕ) → m / 4 ≡ 2 ^ 62 - 1 → bit_and (bit_and w m) (not64 3) ≡ bit_and w (not64 3)
reset_flag w m high =
    let e : bit_and w m / 4 ≡ w / 4 % 2 ^ 62 =
      and_quarter w m ∙ ap (λ (t : ℕ). bit_and (w / 4) t) high ∙ bit_and_low 62 (w / 4) in
    no_flags (bit_and w m) ∙ ap (λ (t : ℕ). t % 2 ^ 62 * 4) e ∙ omega arith ∙ sym (no_flags w)

-- A size that is a multiple of 4 is kept beside the old flags.
new_size_word :
    (n w : ℕ)
    → n < 2 ^ 64
    → n % 4 ≡ 0
    → bit_and (bit_or (bit_and n (not64 3)) (bit_and w 3)) (not64 3) ≡ n
new_size_word n w small mult =
    let flags : bit_and w 3 < 4 = omega (arith, bit_and_low 2 w) in
    set_flag (bit_and n (not64 3)) (bit_and w 3) flags
    ∙ reset_flag n (not64 3) refl
    ∙ no_flags n
    ∙ omega (arith, small, mult)

module _ (t : Tlsf) (block x : ℕ) where
  pub size-set_free : tlsf_get_block_size (tlsf_set_block_free t block) x ≡ tlsf_get_block_size t x
  unfolding tlsf_get_block_size tlsf_set_block_free
  size-set_free = ground (arith, set_flag (t.size block) 1 (omega arith))

  size-unset_free : tlsf_get_block_size (tlsf_unset_block_free t block) x ≡ tlsf_get_block_size t x
  unfolding tlsf_get_block_size tlsf_unset_block_free
  size-unset_free = ground (arith, reset_flag (t.size block) (not64 1) refl)

  size-unset_prev :
      tlsf_get_block_size (tlsf_unset_prev_phys_free t block) x ≡ tlsf_get_block_size t x
  unfolding tlsf_get_block_size tlsf_unset_prev_phys_free
  size-unset_prev = ground (arith, reset_flag (t.size block) (not64 2) refl)

  pub size-set_size :
      (n : ℕ)
      → n < 2 ^ 64
      → n % 4 ≡ 0
      → tlsf_get_block_size (tlsf_set_block_size t block n) x
        ≡ (if x == block then n else tlsf_get_block_size t x)
  unfolding tlsf_get_block_size tlsf_set_block_size
  size-set_size n small mult = ground (arith, new_size_word n (t.size block) small mult)

  -- the size of a block is a multiple of 4
  pub size_multiple : (tlsf_get_block_size t x % 4 ≡ 0) × (tlsf_get_block_size t x < 2 ^ 64)
  unfolding tlsf_get_block_size
  size_multiple = (omega (arith, no_flags (t.size x)), omega (arith, no_flags (t.size x)))

pub size-unmark_free :
    (t : Tlsf) (block x : ℕ)
    → tlsf_get_block_size (tlsf_unmark_free t block) x ≡ tlsf_get_block_size t x
unfolding tlsf_unmark_free
size-unmark_free t block x = ground (
  arith,
  size-unset_free t block x,
  size-unset_prev (tlsf_unset_block_free t block)
      (tlsf_next_block (tlsf_unset_block_free t block) block) x,
)

-- Memories with the same words have the same sizes.
pub size-same :
    (t u : Tlsf) (x : ℕ) → u.size ≡ t.size → tlsf_get_block_size u x ≡ tlsf_get_block_size t x
unfolding tlsf_get_block_size
size-same t u x same = ap (λ (w : ℕ → ℕ). bit_and (w x) (not64 3)) same

-- The flag of a block that is handed out.
unset_word : (w : ℕ) → bit_and (bit_and w (not64 1)) 1 ≡ 0
unset_word w = omega (arith, bit_and_low 1 (bit_and w (not64 1)), bit_and_step w (not64 1))

unset_word_prev : (w : ℕ) → bit_and (bit_and (bit_and w (not64 1)) (not64 2)) 1 ≡ 0
unset_word_prev w =
    let v = bit_and w (not64 1) in
    omega (
      arith,
      bit_and_low 1 (bit_and v (not64 2)),
      bit_and_step v (not64 2),
      bit_and_low 1 v,
      unset_word w,
    )

pub unmark_free-in_use :
    (t : Tlsf) (block : ℕ) → tlsf_block_is_free (tlsf_unmark_free t block) block ≡ false
unfolding tlsf_unmark_free tlsf_block_is_free tlsf_unset_block_free tlsf_unset_prev_phys_free
    tlsf_next_block
unmark_free-in_use t block =
    ground (arith, unset_word (t.size block), unset_word_prev (t.size block))

set_word : (w : ℕ) → bit_and (bit_or w 1) 1 ≡ 1
set_word w = omega (arith, bit_and_low 1 (bit_or w 1), bit_or_step w 1)

pub set_block_free-is_free :
    (t : Tlsf) (block : ℕ) → tlsf_block_is_free (tlsf_set_block_free t block) block ≡ true
unfolding tlsf_block_is_free tlsf_set_block_free
set_block_free-is_free t block = ground (arith, set_word (t.size block))

unset_prev_word : (w : ℕ) → bit_and (bit_and w (not64 2)) 1 ≡ bit_and w 1
unset_prev_word w =
    omega (arith, bit_and_low 1 (bit_and w (not64 2)), bit_and_step w (not64 2), bit_and_low 1 w)

-- A block keeps its flag while another is written.
module _ (t : Tlsf) (block x : ℕ) (ne : x ≢ block) where
  pub unmark_free-is_free : tlsf_block_is_free (tlsf_unmark_free t block) x ≡ tlsf_block_is_free t x
  unfolding tlsf_unmark_free tlsf_block_is_free tlsf_unset_block_free tlsf_unset_prev_phys_free
      tlsf_next_block
  unmark_free-is_free = ground (arith, unset_prev_word (t.size x))

  pub set_block_size-is_free :
      (n : ℕ) → tlsf_block_is_free (tlsf_set_block_size t block n) x ≡ tlsf_block_is_free t x
  unfolding tlsf_block_is_free tlsf_set_block_size
  set_block_size-is_free n = ground arith

pub is_free-same :
    (t u : Tlsf) (x : ℕ) → u.size ≡ t.size → tlsf_block_is_free u x ≡ tlsf_block_is_free t x
unfolding tlsf_block_is_free
is_free-same t u x same = ap (λ (w : ℕ → ℕ). not (bit_and (w x) 1 == 0)) same

-- The lists are kept apart from the sizes.
pub insert_free_block-size :
    (t : Tlsf) (block fli sli : ℕ) → (tlsf_insert_free_block t block fli sli).size ≡ t.size
unfolding tlsf_insert_free_block
insert_free_block-size t block fli sli = ground arith

pub remove_free_block-size :
    (t : Tlsf) (block fli sli : ℕ) → (tlsf_remove_free_block t block fli sli).size ≡ t.size
unfolding tlsf_remove_free_block unset_bits
remove_free_block-size t block fli sli = ground arith

-- An insertion, a removal and a mark leave the physical neighbours and the end of the heap alone.
pub insert_free_block-prev_phys :
    (t : Tlsf) (block fli sli : ℕ)
    → (tlsf_insert_free_block t block fli sli).prev_phys ≡ t.prev_phys
unfolding tlsf_insert_free_block
insert_free_block-prev_phys t block fli sli = ground arith

pub remove_free_block-prev_phys :
    (t : Tlsf) (block fli sli : ℕ)
    → ((tlsf_remove_free_block t block fli sli).prev_phys ≡ t.prev_phys)
      × ((tlsf_remove_free_block t block fli sli).heap_end ≡ t.heap_end)
unfolding tlsf_remove_free_block unset_bits
remove_free_block-prev_phys t block fli sli = (ground arith, ground arith)

pub unmark_free-prev_phys :
    (t : Tlsf) (block : ℕ) → (tlsf_unmark_free t block).prev_phys ≡ t.prev_phys
unfolding tlsf_unmark_free tlsf_unset_block_free tlsf_unset_prev_phys_free
unmark_free-prev_phys t block = ground arith

-- The next block depends on the size alone.
pub next_block-same :
    (t u : Tlsf) (block : ℕ)
    → tlsf_get_block_size u block ≡ tlsf_get_block_size t block
    → tlsf_next_block u block ≡ tlsf_next_block t block
unfolding tlsf_next_block
next_block-same t u block same = ap (λ (n : ℕ). (block + header + n) % 2 ^ 64) same
