-- ===== src/Tlsf/Heap.antt =====
-- The headers of the blocks, the free lists, and the merge of neighbours. A header stands at its address and
-- takes 32 bytes; headers do not overlap each other or the bytes that are handed out. Its `prev_free` and
-- `next_free` are the links of the store `free`.
pub mod Lists
pub mod Insert
pub mod Remove
pub mod Search
pub mod Sizes
use twan.Base.{
  ℕ, zero, suc, ◌+◌, ◌-◌, ◌*◌, ◌/◌, ◌%◌, ◌^◌, Bool, true, false, not, ◌&&◌, Option, none, some,
  bit_and, bit_or, ◌==◌, ltb, leb, if◌then◌else◌, update,
}
use twan.Bitmap.{not64}
use twan.Dq.{Links, link, set_next, set_prev}
use twan.Word.{ffs32}
use twan.Tlsf.Map.{tlsf_map, block_min}

-- `struct tlsf`, without its lock and the field `max`, and the `struct tlsf_block` of every address
pub record Tlsf : Type 0 where
  pub fl_bitmap : ℕ
  pub sl_bitmaps : ℕ → ℕ
  pub blocks : ℕ → ℕ → ℕ
  pub heap_start : ℕ
  pub heap_end : ℕ
  pub heap_size : ℕ
  pub size : ℕ → ℕ
  pub prev_phys : ℕ → ℕ
  pub free : Links

-- `sizeof(struct tlsf_block)`
abbrev pub header : ℕ
header = 32

abbrev pub set_size : Tlsf → ℕ → ℕ → Tlsf
set_size t block w = record t { size = update t.size block w }

abbrev pub set_prev_phys : Tlsf → ℕ → ℕ → Tlsf
set_prev_phys t block prev = record t { prev_phys = update t.prev_phys block prev }

-- The two low bits of a size are flags: the block is free, and the one before it is.
pub tlsf_get_block_size : Tlsf → (block : ℕ) → ℕ
tlsf_get_block_size t block = bit_and (t.size block) (not64 3)

unfoldable pub tlsf_set_block_size : Tlsf → (block new_size : ℕ) → Tlsf
tlsf_set_block_size t block new_size =
    set_size t block (bit_or (bit_and new_size (not64 3)) (bit_and (t.size block) 3))

pub tlsf_block_is_free : Tlsf → (block : ℕ) → Bool
tlsf_block_is_free t block = not (bit_and (t.size block) 1 == 0)

pub tlsf_prev_is_free : Tlsf → (block : ℕ) → Bool
tlsf_prev_is_free t block = not (bit_and (t.size block) 2 == 0)

unfoldable pub tlsf_set_block_free : Tlsf → (block : ℕ) → Tlsf
tlsf_set_block_free t block = set_size t block (bit_or (t.size block) 1)

unfoldable pub tlsf_unset_block_free : Tlsf → (block : ℕ) → Tlsf
tlsf_unset_block_free t block = set_size t block (bit_and (t.size block) (not64 1))

pub tlsf_set_prev_phys_free : Tlsf → (block : ℕ) → Tlsf
tlsf_set_prev_phys_free t block = set_size t block (bit_or (t.size block) 2)

unfoldable pub tlsf_unset_prev_phys_free : Tlsf → (block : ℕ) → Tlsf
tlsf_unset_prev_phys_free t block = set_size t block (bit_and (t.size block) (not64 2))

unfoldable pub tlsf_next_block : Tlsf → (block : ℕ) → ℕ
unfolding tlsf_get_block_size
tlsf_next_block t block = (block + header + tlsf_get_block_size t block) % 2 ^ 64

abbrev pub tlsf_block_to_ptr : (block : ℕ) → ℕ
tlsf_block_to_ptr block = (block + header) % 2 ^ 64

abbrev pub tlsf_ptr_to_block : (addr : ℕ) → ℕ
tlsf_ptr_to_block addr = (addr + 2 ^ 64 - header) % 2 ^ 64

-- `~x` on 32 bits
abbrev pub not32 : ℕ → ℕ
not32 x = 0xffff_ffff - x

abbrev pub set_block : Tlsf → (fli sli block : ℕ) → Tlsf
set_block t fli sli block = record t {
  blocks = update t.blocks fli (update (t.blocks fli) sli block);
}

-- the bitmaps once the list (fli, sli) is empty
pub unset_bits : Tlsf → (fli sli : ℕ) → Tlsf
unset_bits t fli sli =
    let w = bit_and (t.sl_bitmaps fli) (not32 (2 ^ sli)) in
    record t {
      sl_bitmaps = update t.sl_bitmaps fli w;
      fl_bitmap = if w == 0 then bit_and t.fl_bitmap (not32 (2 ^ fli)) else t.fl_bitmap;
    }

pub tlsf_remove_free_block : Tlsf → (block fli sli : ℕ) → Tlsf
unfolding unset_bits
tlsf_remove_free_block t block fli sli =
    let prev_free = (t.free block).prev in
    let next_free = (t.free block).next in
    let m1 = if prev_free == 0 then t.free else set_next t.free prev_free next_free in
    let m2 = if next_free == 0 then m1 else set_prev m1 next_free prev_free in
    let t1 = record t { free = m2 } in
    if t.blocks fli sli == block
    then if next_free == 0
      then unset_bits (set_block t1 fli sli next_free) fli sli
      else set_block t1 fli sli next_free
    else t1

pub tlsf_insert_free_block : Tlsf → (block fli sli : ℕ) → Tlsf
tlsf_insert_free_block t block fli sli =
    let cur = t.blocks fli sli in
    let m1 = set_prev (set_next t.free block cur) block 0 in
    let m2 = if cur == 0 then m1 else set_prev m1 cur block in
    let t1 = set_block (record t { free = m2 }) fli sli block in
    record t1 {
      fl_bitmap = bit_or t.fl_bitmap (2 ^ fli);
      sl_bitmaps = update t.sl_bitmaps fli (bit_or (t.sl_bitmaps fli) (2 ^ sli));
    }

-- the first list from bit `sli` on in row `fli`
pub first_list : Tlsf → (fli sli_bits : ℕ) → Option (ℕ × ℕ × ℕ)
first_list t fli sli_bits = elim (ffs32 sli_bits) [
  | none ↦ none
  | some sli ↦ some (t.blocks fli sli, fli, sli)
]

-- The block comes with the indices that the pointers receive; NULL is `none`.
pub tlsf_search_suitable_block : Tlsf → (fli sli : ℕ) → Option (ℕ × ℕ × ℕ)
unfolding first_list
tlsf_search_suitable_block t fli sli =
    let available_sl_bins = bit_and (t.sl_bitmaps fli) (0xffff_ffff * 2 ^ sli % 2 ^ 32) in
    let available_fl_bins = bit_and t.fl_bitmap (0xffff_ffff * 2 ^ (fli + 1) % 2 ^ 32) in
    if available_sl_bins == 0
    then elim (ffs32 available_fl_bins) [
      | none ↦ none
      | some next_fli ↦ first_list t next_fli (t.sl_bitmaps next_fli)
    ]
    else first_list t fli available_sl_bins

pub tlsf_merge_prev : Tlsf → (block : ℕ) → ℕ × Tlsf
unfolding tlsf_next_block
tlsf_merge_prev t block =
    let prev = t.prev_phys block in
    let prev_size = tlsf_get_block_size t prev in
    let (fli, sli) = tlsf_map prev_size in
    let t1 = tlsf_remove_free_block t prev fli sli in
    let new_size = (prev_size + header + tlsf_get_block_size t1 block) % 2 ^ 64 in
    let t2 = tlsf_set_block_size t1 prev new_size in
    let next = tlsf_next_block t2 block in
    let t3 = if ltb next t2.heap_end then set_prev_phys t2 next prev else t2 in
    if tlsf_prev_is_free t block then (prev, t3) else (block, t)

pub tlsf_merge_next : Tlsf → (block : ℕ) → ℕ × Tlsf
unfolding tlsf_next_block
tlsf_merge_next t block =
    let next = tlsf_next_block t block in
    let next_size = tlsf_get_block_size t next in
    let (fli, sli) = tlsf_map next_size in
    let t1 = tlsf_remove_free_block t next fli sli in
    let new_size = (tlsf_get_block_size t1 block + next_size + header) % 2 ^ 64 in
    let t2 = tlsf_set_block_size t1 block new_size in
    let next_next = tlsf_next_block t2 next in
    let t3 = if ltb next_next t2.heap_end then set_prev_phys t2 next_next block else t2 in
    if ltb next t.heap_end && tlsf_block_is_free t next then (block, t3) else (block, t)

pub tlsf_mark_free : Tlsf → (block : ℕ) → Tlsf
unfolding tlsf_next_block
tlsf_mark_free t block =
    let t1 = tlsf_set_block_free t block in
    let next = tlsf_next_block t1 block in
    if ltb next t1.heap_end then tlsf_set_prev_phys_free t1 next else t1

unfoldable pub tlsf_unmark_free : Tlsf → (block : ℕ) → Tlsf
unfolding tlsf_next_block
tlsf_unmark_free t block =
    let t1 = tlsf_unset_block_free t block in
    let next = tlsf_next_block t1 block in
    if ltb next t1.heap_end then tlsf_unset_prev_phys_free t1 next else t1
