-- ===== src/Tlsf/Alloc/Cut.antt =====
-- The headers that `__tlsf_alloc` writes, and the block that it cuts off.
use twan.Base.{
  ℕ, ◌+◌, ◌-◌, ◌%◌, ◌^◌, ◌<◌, ◌≤◌, ◌≡◌, true, ◌==◌, ◌&&◌, ◌≢◌, inl, inr, refl, ap, ◌∙◌, Bool, ◌∷◌,
  arith, ltb, leb, if◌then◌else◌, Bool-cases,
}
use twan.Tlsf.Map.{tlsf_map, block_min}
use twan.Tlsf.Map.Bins.{tlsf_map-lt}
use twan.Tlsf.Heap.{
  Tlsf, header, tlsf_block_is_free, set_prev_phys, tlsf_set_block_size, tlsf_set_block_free,
  tlsf_unset_block_free, tlsf_unset_prev_phys_free, tlsf_unmark_free, tlsf_get_block_size,
  tlsf_block_to_ptr, tlsf_next_block,
}
use twan.Tlsf.Heap.Lists.{FreeLists, put, IsFreeLists, IsUnlisted}
use twan.Tlsf.Heap.Sizes.{
  size-same, size-set_size, size-set_free, insert_free_block-size, insert_free_block-prev_phys,
  next_block-same, is_free-same, set_block_size-is_free, set_block_free-is_free,
}
use twan.Tlsf.Heap.Insert.{tlsf_insert_free_block_lem}
use twan.Tlsf.Alloc.{link_cutout, cut_block}

-- Only the sizes and the physical neighbours of headers differ.
pub record IsSameLists (t u : Tlsf) : Type 0 where
  pub blocks : u.blocks ≡ t.blocks
  pub fl_bitmap : u.fl_bitmap ≡ t.fl_bitmap
  pub sl_bitmaps : u.sl_bitmaps ≡ t.sl_bitmaps
  pub free : u.free ≡ t.free

pub same-IsFreeLists :
    (t u : Tlsf) (lists : FreeLists) → IsSameLists t u → IsFreeLists t lists → IsFreeLists u lists
same-IsFreeLists t u lists same ok = record {
  heads = λ f s l. ap (λ b. b f s) same.blocks ∙ ok.heads f s l;
  chains = λ f s l. rw same.free (ok.chains f s l);
  bits = λ f s l. rw same.sl_bitmaps (ok.bits f s l);
  rows = λ f l. rw (same.sl_bitmaps, same.fl_bitmap) (ok.rows f l);
  words = λ f l. rw same.sl_bitmaps (ok.words f l);
  row_word = rw same.fl_bitmap ok.row_word;
  apart = ok.apart;
}

pub unmark-IsSameLists : (t : Tlsf) (block : ℕ) → IsSameLists t (tlsf_unmark_free t block)
unfolding tlsf_unmark_free tlsf_unset_block_free tlsf_unset_prev_phys_free tlsf_next_block
unmark-IsSameLists t block = record {
  blocks = ground arith;
  fl_bitmap = ground arith;
  sl_bitmaps = ground arith;
  free = ground arith;
}

-- the address of the block that is cut off
abbrev pub cutout_of : (block size : ℕ) → ℕ
cutout_of block size = (tlsf_block_to_ptr block + size) % 2 ^ 64

-- whether a block is large enough to be cut
abbrev pub is_cut : (block_size size : ℕ) → Bool
is_cut block_size size = leb (size + header + block_min) block_size

-- the list of the rest
abbrev pub rest_list : (block_size size : ℕ) → ℕ × ℕ
rest_list block_size size = tlsf_map (block_size - size - header)

abbrev pub cut_lists : FreeLists → (block block_size size : ℕ) → FreeLists
cut_lists lists block block_size size =
    let (f, s) = rest_list block_size size in
    if is_cut block_size size then put lists f s (cutout_of block size ∷ lists f s) else lists

link_cutout-IsFreeLists :
    (t : Tlsf) (lists : FreeLists) (cutout size : ℕ)
    → IsFreeLists t lists
    → IsUnlisted lists cutout
    → let (f, s) = tlsf_map size in
      IsFreeLists (link_cutout t cutout size) (put lists f s (cutout ∷ lists f s))
unfolding link_cutout
link_cutout-IsFreeLists t lists cutout size ok fresh =
    tlsf_insert_free_block_lem _ lists cutout (tlsf_map size).0 (tlsf_map size).1
      (same-IsFreeLists t _ lists (neighbour t cutout) ok) (tlsf_map-lt size) fresh
  where
    neighbour :
        (t : Tlsf) (cutout : ℕ)
        → (let next = tlsf_next_block t cutout in
            IsSameLists t (if ltb next t.heap_end then set_prev_phys t next cutout else t))
    neighbour t cutout = record {
      blocks = ground arith;
      fl_bitmap = ground arith;
      sl_bitmaps = ground arith;
      free = ground arith;
    }

pub cut_block-IsFreeLists :
    (t : Tlsf) (lists : FreeLists) (block block_size size : ℕ)
    → IsFreeLists t lists
    → (is_cut block_size size ≡ true → IsUnlisted lists (cutout_of block size))
    → IsFreeLists (cut_block t block block_size size) (cut_lists lists block block_size size)
unfolding cut_block tlsf_set_block_size tlsf_set_block_free
cut_block-IsFreeLists t lists block block_size size ok fresh =
    elim (Bool-cases (is_cut block_size size)) [
      | inl e ↦ rw e (
          link_cutout-IsFreeLists _ lists (cutout_of block size) (block_size - size - header)
            (same-IsFreeLists t _ lists
              (record { blocks = refl; fl_bitmap = refl; sl_bitmaps = refl; free = refl }) ok)
            (fresh e))
      | inr e ↦ rw e ok
    ]

-- The sizes after a cut: the block has the size that was asked for, what is cut off has the rest but its header, and no
-- other block changes its size. Where nothing is cut no block does.
abbrev pub cut_sizes : Tlsf → (block block_size size : ℕ) → (x : ℕ) → ℕ
cut_sizes t block block_size size x =
    if is_cut block_size size
    then if x == block
      then size
      else if x == cutout_of block size
      then block_size - size - header
      else tlsf_get_block_size t x
    else tlsf_get_block_size t x

link_cutout-size : (t : Tlsf) (cutout size : ℕ) → (link_cutout t cutout size).size ≡ t.size
unfolding link_cutout
link_cutout-size t cutout size =
    insert_free_block-size _ cutout (tlsf_map size).0 (tlsf_map size).1 ∙ ground arith

pub cut_block-sizes :
    (t : Tlsf) (block block_size size : ℕ)
    → block_size < 2 ^ 64
    → block_size % 4 ≡ 0
    → size % 4 ≡ 0
    → (x : ℕ)
    → tlsf_get_block_size (cut_block t block block_size size) x
      ≡ cut_sizes t block block_size size x
unfolding cut_block
cut_block-sizes t block block_size size fits mult mult' x =
    elim (Bool-cases (is_cut block_size size)) [
      | inr e ↦ rw e refl
      | inl e ↦
          let room : size + 48 ≤ block_size = ground (arith, e) in
          let cutout = cutout_of block size in
          let rest = block_size - size - header in
          let t0 = tlsf_set_block_size t cutout rest in
          let t1 = tlsf_set_block_free t0 cutout in
          let t2 = set_prev_phys t1 cutout block in
          let t3 = tlsf_set_block_size t2 block size in
          rw e (
            size-same t3 (link_cutout t3 cutout rest) x (link_cutout-size t3 cutout rest)
            ∙ size-set_size t2 block x size (omega (arith, room, fits)) mult'
            ∙ ap (λ (n : ℕ). if x == block then size else n)
                (size-same t1 t2 x refl
                  ∙ size-set_free t0 cutout x
                  ∙ size-set_size t cutout x rest (omega (arith, room, fits))
                      (omega (arith, room, mult, mult'))))
    ]

-- The physical neighbours after a cut, where `next` is the block behind what is cut off: the block before that one is what
-- is cut off, if it is within the heap, the one before what is cut off is the block, and no other changes.
abbrev pub cut_prevs : Tlsf → (next block block_size size : ℕ) → (x : ℕ) → ℕ
cut_prevs t next block block_size size x =
    if is_cut block_size size
    then if ltb next t.heap_end && (x == next)
      then cutout_of block size
      else if x == cutout_of block size
      then block
      else t.prev_phys x
    else t.prev_phys x

link_cutout-prev_phys :
    (t : Tlsf) (cutout size x : ℕ)
    → (let next = tlsf_next_block t cutout in
        (link_cutout t cutout size).prev_phys x
        ≡ (if ltb next t.heap_end && (x == next) then cutout else t.prev_phys x))
unfolding link_cutout
link_cutout-prev_phys t cutout size x =
    ap (λ (m : ℕ → ℕ). m x)
      (insert_free_block-prev_phys _ cutout (tlsf_map size).0 (tlsf_map size).1)
    ∙ ground arith

pub cut_block-prevs :
    (t : Tlsf) (block block_size size x : ℕ)
    → (let u = cut_block t block block_size size in
        u.prev_phys x
        ≡ cut_prevs t (tlsf_next_block u (cutout_of block size)) block block_size size x)
unfolding cut_block tlsf_set_block_size tlsf_set_block_free
cut_block-prevs t block block_size size x = elim (Bool-cases (is_cut block_size size)) [
  | inr e ↦ rw e refl
  | inl e ↦
      let cutout = cutout_of block size in
      let rest = block_size - size - header in
      let t1 = tlsf_set_block_free (tlsf_set_block_size t cutout rest) cutout in
      let t3 = tlsf_set_block_size (set_prev_phys t1 cutout block) block size in
      let u = link_cutout t3 cutout rest in
      let next : tlsf_next_block u cutout ≡ tlsf_next_block t3 cutout =
        next_block-same t3 u cutout (size-same t3 u cutout (link_cutout-size t3 cutout rest)) in
      rw (e, next) (link_cutout-prev_phys t3 cutout rest x ∙ ground arith)
]

-- What is cut off is a free block.
pub cut_block-is_free :
    (t : Tlsf) (block block_size size : ℕ)
    → block_size < 2 ^ 64
    → is_cut block_size size ≡ true
    → (cutout_of block size ≢ block)
      × (tlsf_block_is_free (cut_block t block block_size size) (cutout_of block size) ≡ true)
unfolding cut_block
cut_block-is_free t block block_size size fits e =
    let cutout = cutout_of block size in
    let rest = block_size - size - header in
    let room : size + 48 ≤ block_size = ground (arith, e) in
    let t0 = tlsf_set_block_size t cutout rest in
    let t1 = tlsf_set_block_free t0 cutout in
    let t2 = set_prev_phys t1 cutout block in
    let t3 = tlsf_set_block_size t2 block size in
    let apart : cutout ≢ block = λ same. omega (arith, same, room, fits) in
    (
      apart,
      rw e (
          is_free-same t3 (link_cutout t3 cutout rest) cutout (link_cutout-size t3 cutout rest)
          ∙ set_block_size-is_free t2 block cutout apart size
          ∙ is_free-same t1 t2 cutout refl
          ∙ set_block_free-is_free t0 cutout),
    )
