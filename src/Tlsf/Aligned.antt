-- ===== src/Tlsf/Aligned.antt =====
-- Allocation at an aligned address. A header of 16 bytes before the address keeps the block's own address;
-- these headers are a store of their own.
use twan.Base.{
  ℕ, ◌+◌, ◌-◌, ◌%◌, ◌^◌, Bool, not, ◌||◌, bit_and, ◌==◌, ltb, leb, if◌then◌else◌, update,
}
use twan.Bitmap.{not64}
use twan.Dq.{link}
use twan.Tlsf.Map.{block_min, max_alloc}
use twan.Tlsf.Heap.{
  Tlsf, header, tlsf_get_block_size, tlsf_set_block_size, tlsf_unset_block_free,
  tlsf_unset_prev_phys_free, tlsf_next_block, tlsf_block_to_ptr, tlsf_ptr_to_block, set_prev_phys,
}
use twan.Tlsf.Alloc.{Bytes, memcpy, is_outside, tlsf_alloc, tlsf_free}

pub record AlignedHeap : Type 0 where
  pub tlsf : Tlsf
  pub bytes : Bytes
  pub original_ptr : ℕ → ℕ
  pub aligned_size : ℕ → ℕ

-- `sizeof(struct aligned_block)`
abbrev pub aligned_header : ℕ
aligned_header = 16

-- subtraction on 64 bits
abbrev pub sub64 : ℕ → ℕ → ℕ
sub64 a b = (a + 2 ^ 64 - b) % 2 ^ 64

-- `is_pow2` of a `u32`
abbrev pub is_pow2 : ℕ → Bool
is_pow2 x = bit_and x ((x + 2 ^ 32 - 1) % 2 ^ 32) == 0

-- `p2align_up` on 64 bits
pub p2align_up : (x y : ℕ) → ℕ
p2align_up x y = bit_and ((x + y + 2 ^ 64 - 1) % 2 ^ 64) (not64 (sub64 y 1))

-- The padding before the aligned header is cut off as a block and released.
pub cut_padding : Tlsf → (ptr head : ℕ) → ℕ × Tlsf
cut_padding t ptr head =
    let orig_block = tlsf_ptr_to_block ptr in
    let new_block = sub64 head header in
    let padding_size = sub64 new_block ptr in
    let new_size = sub64 (sub64 (tlsf_get_block_size t orig_block) padding_size) header in
    let t1 = tlsf_set_block_size t new_block new_size in
    let t2 = tlsf_unset_prev_phys_free (tlsf_unset_block_free t1 new_block) new_block in
    let t3 = set_prev_phys t2 new_block orig_block in
    let t4 = record t3 { free = update t3.free new_block (link 0 0) } in
    let next = tlsf_next_block t4 new_block in
    let t5 = if ltb next t4.heap_end then set_prev_phys t4 next new_block else t4 in
    let t6 = tlsf_set_block_size t5 orig_block padding_size in
    (tlsf_block_to_ptr new_block, tlsf_free t6 ptr)

pub tlsf_alloc_p2aligned : AlignedHeap → (size alignment : ℕ) → ℕ × AlignedHeap
unfolding p2align_up cut_padding
tlsf_alloc_p2aligned h size alignment =
    let total_size = (size + alignment + aligned_header) % 2 ^ 64 in
    let (ptr, t1) = tlsf_alloc h.tlsf total_size in
    let aligned_ptr = p2align_up ((ptr + aligned_header) % 2 ^ 64) alignment in
    let head = sub64 aligned_ptr aligned_header in
    let r : ℕ × Tlsf =
      if leb (header + block_min) (sub64 head ptr) then cut_padding t1 ptr head else (ptr, t1) in
    if not (is_pow2 alignment) || (size == 0 || (ltb max_alloc size || ltb max_alloc total_size))
    then (0, h)
    else if ptr == 0
    then (0, record h { tlsf = t1 })
    else (
      aligned_ptr,
      record h {
        tlsf = r.1;
        original_ptr = update h.original_ptr head r.0;
        aligned_size = update h.aligned_size head size;
      },
    )

-- the test of the header before an aligned address
abbrev pub is_no_header : Tlsf → (addr : ℕ) → Bool
is_no_header t addr = let head = sub64 addr aligned_header in is_outside t head || leb addr head

pub tlsf_free_p2aligned : AlignedHeap → (addr : ℕ) → AlignedHeap
tlsf_free_p2aligned h addr =
    if is_no_header h.tlsf addr
    then h
    else record h { tlsf = tlsf_free h.tlsf (h.original_ptr (sub64 addr aligned_header)) }

pub tlsf_realloc_p2aligned : AlignedHeap → (addr size alignment : ℕ) → ℕ × AlignedHeap
unfolding tlsf_alloc_p2aligned tlsf_free_p2aligned
tlsf_realloc_p2aligned h addr size alignment =
    let (new_addr, h1) = tlsf_alloc_p2aligned h size alignment in
    let old_size = h.aligned_size (sub64 addr aligned_header) in
    let copy_size = if ltb old_size size then old_size else size in
    let h2 = record h1 { bytes = memcpy new_addr addr copy_size h1.bytes } in
    if addr == 0
    then (new_addr, h1)
    else if size == 0
    then (0, tlsf_free_p2aligned h addr)
    else if is_no_header h.tlsf addr
    then (0, h)
    else if new_addr == 0
    then (0, h1)
    else (new_addr, tlsf_free_p2aligned h2 addr)
