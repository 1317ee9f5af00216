-- ===== src/Tests/Tlsf.antt =====
-- A heap with one free block, in the list (5, 3).
use twan.Base.{refl, [], ◌∷◌, arith}
use twan.Bits.Masks.{bit_of-zero}
use twan.Dq.{link}
use twan.Tlsf.Map.{tlsf_map}
use twan.Tlsf.Map.Bins.{IsBin, tlsf_map-IsBin}
use twan.Tlsf.Heap.{Tlsf, tlsf_insert_free_block, tlsf_remove_free_block}
use twan.Tlsf.Heap.Lists.{FreeLists, put, IsFreeLists}
use twan.Tlsf.Heap.Insert.{tlsf_insert_free_block_lem}
use twan.Tlsf.Heap.Remove.{tlsf_remove_free_block_lem}

abbrev no_blocks : Tlsf
no_blocks = record {
  fl_bitmap = 0;
  sl_bitmaps = λ f. 0;
  blocks = λ f s. 0;
  heap_start = 0x1000;
  heap_end = 0x9000;
  heap_size = 0x8000;
  size = λ a. 0x4000;
  prev_phys = λ a. 0;
  free = λ a. link 0 0;
}

abbrev none_listed : FreeLists
none_listed f s = []

no_blocks-IsFreeLists : IsFreeLists no_blocks none_listed
no_blocks-IsFreeLists = record {
  heads = λ f s l. refl;
  chains = λ f s l. record {
    front_first = refl;
    rear_last = refl;
    chain = tt;
    distinct = tt;
    no_null = refl;
  };
  bits = λ f s l. bit_of-zero s;
  rows = λ f l. bit_of-zero f;
  words = λ f l. omega arith;
  row_word = omega arith;
  apart = λ f s g r a l k h. ground arith;
}

tlsf_insert_free_block_example :
    IsFreeLists (tlsf_insert_free_block no_blocks 0x1000 5 3) (put none_listed 5 3 (0x1000 ∷ []))
tlsf_insert_free_block_example =
    tlsf_insert_free_block_lem no_blocks none_listed 0x1000 5 3 no_blocks-IsFreeLists
      (omega arith, omega arith) (omega arith, λ f s l. refl)

abbrev one_block : Tlsf
one_block = tlsf_insert_free_block no_blocks 0x1000 5 3

abbrev one_listed : FreeLists
one_listed = put none_listed 5 3 (0x1000 ∷ [])

one_block-IsFreeLists : IsFreeLists one_block one_listed
one_block-IsFreeLists =
    tlsf_insert_free_block_lem no_blocks none_listed 0x1000 5 3 no_blocks-IsFreeLists
      (omega arith, omega arith) (omega arith, λ f s l. refl)

tlsf_remove_free_block_example :
    IsFreeLists (tlsf_remove_free_block one_block 0x1000 5 3) (put one_listed 5 3 [])
tlsf_remove_free_block_example =
    tlsf_remove_free_block_lem one_block one_listed 5 3 0x1000 [] [] one_block-IsFreeLists
      (omega arith, omega arith) refl

tlsf_map-IsBin_example : IsBin 100 (tlsf_map 100)
tlsf_map-IsBin_example = tlsf_map-IsBin 100 (omega arith)
