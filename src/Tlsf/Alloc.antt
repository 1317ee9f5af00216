-- ===== src/Tlsf/Alloc.antt =====
-- Allocation, release and reallocation. NULL is 0.
pub mod Cut
pub mod Take
use twan.Base.{
  ℕ, ◌+◌, ◌-◌, ◌%◌, ◌^◌, Bool, true, false, ◌&&◌, ◌||◌, Option, none, some, ◌==◌, ltb, leb,
  if◌then◌else◌, update,
}
use twan.Dq.{link}
use twan.Tlsf.Map.{tlsf_map, tlsf_align_up, block_min, max_alloc}
use twan.Tlsf.Heap.{
  Tlsf, header, tlsf_get_block_size, tlsf_set_block_size, tlsf_block_is_free, tlsf_set_block_free,
  tlsf_unset_prev_phys_free, tlsf_next_block, tlsf_block_to_ptr, tlsf_ptr_to_block, set_prev_phys,
  tlsf_remove_free_block, tlsf_insert_free_block, tlsf_search_suitable_block, tlsf_merge_prev,
  tlsf_merge_next, tlsf_mark_free, tlsf_unmark_free,
}

-- the end of `__tlsf_try_carve` and of the cut in `__tlsf_alloc`: `t` has the sizes of the two blocks
pub link_cutout : Tlsf → (cutout cutout_size : ℕ) → Tlsf
link_cutout t cutout cutout_size =
    let next = tlsf_next_block t cutout in
    let t1 = if ltb next t.heap_end then set_prev_phys t next cutout else t in
    let (fli, sli) = tlsf_map cutout_size in tlsf_insert_free_block t1 cutout fli sli

pub tlsf_try_carve : Tlsf → (block size : ℕ) → Bool × Tlsf
unfolding link_cutout
tlsf_try_carve t block size =
    let merged_size = tlsf_get_block_size t block in
    let cutout = (tlsf_block_to_ptr block + size) % 2 ^ 64 in
    let cutout_size = merged_size - size - header in
    let t1 = tlsf_set_block_size t cutout cutout_size in
    let t2 = tlsf_unset_prev_phys_free (tlsf_set_block_free t1 cutout) cutout in
    let t3 = tlsf_set_block_size (set_prev_phys t2 cutout block) block size in
    if ltb merged_size ((size + header + block_min) % 2 ^ 64)
    then (false, t)
    else (true, link_cutout t3 cutout cutout_size)

-- The lock is not modelled. The memory before is `t`; -EINVAL is `none`.
pub tlsf_init : Tlsf → (heap_start heap_size : ℕ) → Option Tlsf
tlsf_init t heap_start heap_size =
    let aligned = tlsf_align_up heap_start in
    let cut = (aligned + 2 ^ 64 - heap_start) % 2 ^ 64 in
    let adjusted = heap_size - cut in
    let t1 = record t {
      heap_start = aligned;
      heap_end = (aligned + adjusted) % 2 ^ 64;
      heap_size = adjusted;
    } in
    let block_size = (adjusted + 2 ^ 64 - header) % 2 ^ 64 in
    let t2 = tlsf_set_block_free (tlsf_set_block_size t1 aligned block_size) aligned in
    let t3 = record (set_prev_phys t2 aligned 0) { free = update t2.free aligned (link 0 0) } in
    let (fli, sli) = tlsf_map block_size in
    if heap_start == 0 || ltb heap_size (block_min + header)
    then none
    else if leb heap_size cut
    then none
    else some (tlsf_insert_free_block t3 aligned fli sli)

-- the size that is allocated
unfoldable pub request : (size : ℕ) → ℕ
request size =
    let aligned = tlsf_align_up size in if ltb aligned block_min then block_min else aligned

-- The rest of a block that is large enough becomes a free block.
pub cut_block : Tlsf → (block block_size size : ℕ) → Tlsf
unfolding link_cutout
cut_block t block block_size size =
    let cutout = (tlsf_block_to_ptr block + size) % 2 ^ 64 in
    let cutout_size = block_size - size - header in
    let t1 = tlsf_set_block_free (tlsf_set_block_size t cutout cutout_size) cutout in
    let t2 = tlsf_set_block_size (set_prev_phys t1 cutout block) block size in
    if leb (size + header + block_min) block_size then link_cutout t2 cutout cutout_size else t

-- `__tlsf_alloc` of the block that the search found
pub take_block : Tlsf → (size block fli sli : ℕ) → ℕ × Tlsf
unfolding cut_block
take_block t size block fli sli =
    let block_size = tlsf_get_block_size t block in
    let t1 = tlsf_remove_free_block t block fli sli in
    let t2 = cut_block t1 block block_size size in
    if block == 0
    then (0, t)
    else if ltb block_size size
    then (0, t)
    else (tlsf_block_to_ptr block, tlsf_unmark_free t2 block)

pub tlsf_alloc : Tlsf → (size : ℕ) → ℕ × Tlsf
unfolding request take_block
tlsf_alloc t size =
    let (fli, sli) = tlsf_map (request size) in
    if size == 0 || ltb max_alloc size
    then (0, t)
    else elim (tlsf_search_suitable_block t fli sli) [
      | none ↦ (0, t)
      | some (block, fli, sli) ↦ take_block t (request size) block fli sli
    ]

abbrev pub is_outside : Tlsf → (addr : ℕ) → Bool
is_outside t addr = ltb addr t.heap_start || leb t.heap_end addr

pub tlsf_free : Tlsf → (addr : ℕ) → Tlsf
tlsf_free t addr =
    let block = tlsf_ptr_to_block addr in
    let t1 = tlsf_mark_free t block in
    let (same, t2) = tlsf_merge_next t1 block in
    let (merged, t3) = tlsf_merge_prev t2 same in
    let (fli, sli) = tlsf_map (tlsf_get_block_size t3 merged) in
    if is_outside t addr
    then t
    else if is_outside t block
    then t
    else tlsf_insert_free_block t3 merged fli sli

-- the bytes of the memory, beside the headers
abbrev pub Bytes : Type 0
Bytes = ℕ → ℕ

pub memcpy : (dest src n : ℕ) → Bytes → Bytes
memcpy dest src n bytes a =
    if leb dest a && ltb a (dest + n) then bytes (src + (a - dest)) else bytes a

-- `__tlsf_realloc` where neither the block nor its neighbour is large enough
pub move_block : Tlsf × Bytes → (addr block_size size : ℕ) → ℕ × Tlsf × Bytes
unfolding tlsf_alloc tlsf_free memcpy
move_block (t, bytes) addr block_size size =
    let (new_addr, t1) = tlsf_alloc t size in
    if new_addr == 0
    then (0, t1, bytes)
    else (new_addr, tlsf_free t1 addr, memcpy new_addr addr block_size bytes)

-- `__tlsf_realloc` of a block to a larger size
pub grow_block : Tlsf × Bytes → (addr size : ℕ) → ℕ × Tlsf × Bytes
unfolding tlsf_try_carve move_block
grow_block (t, bytes) addr size =
    let block = tlsf_ptr_to_block addr in
    let block_size = tlsf_get_block_size t block in
    let next = tlsf_next_block t block in
    let merged_size = (tlsf_get_block_size t next + block_size) % 2 ^ 64 in
    let (same, t1) = tlsf_merge_next t block in
    let (carved, t2) = tlsf_try_carve t1 block size in
    if ltb next t.heap_end && tlsf_block_is_free t next && leb size merged_size
    then (tlsf_block_to_ptr block, t2, bytes)
    else move_block (t, bytes) addr block_size size

pub tlsf_realloc : Tlsf × Bytes → (addr size : ℕ) → ℕ × Tlsf × Bytes
unfolding tlsf_alloc tlsf_free request tlsf_try_carve grow_block
tlsf_realloc (t, bytes) addr size =
    let wanted = request size in
    let block = tlsf_ptr_to_block addr in
    let block_size = tlsf_get_block_size t block in
    let (fresh, t1) = tlsf_alloc t size in
    let (carved, t2) = tlsf_try_carve t block wanted in
    if addr == 0
    then (fresh, t1, bytes)
    else if size == 0
    then (0, tlsf_free t addr, bytes)
    else if is_outside t addr || ltb max_alloc size
    then (0, t, bytes)
    else if block_size == wanted
    then (addr, t, bytes)
    else if ltb wanted block_size
    then (addr, t2, bytes)
    else grow_block (t, bytes) addr wanted
