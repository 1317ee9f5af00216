-- ===== src/Tlsf.antt =====
-- include/lib/tlsf_alloc.h and src/lib/tlsf_alloc.c: the allocator with two levels of free lists. The list
-- (fli, sli) is that of a range of sizes, and two levels of bitmaps tell the lists that are not empty.
pub mod Map
pub mod Heap
pub mod Alloc
pub mod Aligned
