-- ===== src/Tlsf/Map.antt =====
-- `__tlsf_map`: the list of a size. Sizes are of 64 bits, and an address is a number.
pub mod Bins
use twan.Base.{
  ℕ, suc, ◌+◌, ◌-◌, ◌*◌, ◌/◌, ◌%◌, ◌^◌, Bool, true, false, Option, none, some, bit_and, ◌==◌, ltb,
  leb, if◌then◌else◌,
}
use twan.Bitmap.{not64}
use twan.Word.{fls32}

-- TLSF_FL_SHIFT, which is PAGE_SHIFT_2MB + 6
abbrev pub fl_shift : ℕ
fl_shift = 27

-- TLSF_SL_SHIFT
abbrev pub sl_shift : ℕ
sl_shift = 5

-- TLSF_SL_COUNT
abbrev pub sl_count : ℕ
sl_count = 32

-- TLSF_BLOCK_MIN
abbrev pub block_min : ℕ
block_min = 16

-- TLSF_MAX_ALLOC
abbrev pub max_alloc : ℕ
max_alloc = 0x8000000

-- `tlsf_align_up`, to TLSF_ALIGNMENT, which is 8: `p2align_up` of std.h
unfoldable pub tlsf_align_up : (x : ℕ) → ℕ
tlsf_align_up x = bit_and ((x + 7) % 2 ^ 64) (not64 7)

-- `__tlsf_map` from the point where `fls32` has found `fli`.
pub map_from : (size fli : ℕ) → ℕ × ℕ
map_from size fli =
    let sli = bit_and (size / 2 ^ (fli - sl_shift)) (sl_count - 1) in
    let rounded : ℕ × ℕ =
      if bit_and size (2 ^ (fli - sl_shift) - 1) == 0
      then (fli, sli)
      else if leb sl_count (sli + 1)
      then (fli + 1, 0)
      else (fli, sli + 1) in
    (if ltb fl_shift rounded.0 then fl_shift else rounded.0, rounded.1)

-- `__tlsf_map`. `fls32` takes the low 32 bits of the size; if these are 0 it returns -1 and the shift that
-- follows has no meaning in C. That case, of a size of at least 4 GB, is the last list's here.
pub tlsf_map : (size : ℕ) → ℕ × ℕ
unfolding map_from
tlsf_map size =
    if ltb size sl_count
    then (0, size)
    else elim (fls32 (size % 2 ^ 32)) [ none ↦ (fl_shift, 0) | some fli ↦ map_from size fli ]
