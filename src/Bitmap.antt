-- ===== src/Bitmap.antt =====
-- include/lib/dsa/bmp256.h: a set of the numbers below 256 in four words of 64 bits.
-- `bmp` is the array; the code indexes it at 0 to 3. A parameter `u8 bit` is a number below 256.
pub mod Laws
pub mod Scan
pub mod Wide
use twan.Base.{
  ℕ, ◌+◌, ◌-◌, ◌*◌, ◌/◌, ◌%◌, ◌^◌, ◌<◌, Bool, not, Option, none, some, bit_and, bit_or, ◌==◌, ltb,
  if◌then◌else◌, update,
}
use twan.Word.{ffs64, fls64}

pub record Bmp256 : Type 0 where
  pub bmp : ℕ → ℕ

abbrev pub u64_max : ℕ
u64_max = 0xffff_ffff_ffff_ffff

-- `(u64)~x`
abbrev pub not64 : ℕ → ℕ
not64 x = u64_max - x

abbrev set_word : Bmp256 → ℕ → ℕ → Bmp256
set_word m i w = record { bmp = update m.bmp i w }

pub bmp256_and : Bmp256 → Bmp256 → Bmp256
bmp256_and dest src =
    let m0 = set_word dest 0 (bit_and (dest.bmp 0) (src.bmp 0)) in
    let m1 = set_word m0 1 (bit_and (m0.bmp 1) (src.bmp 1)) in
    let m2 = set_word m1 2 (bit_and (m1.bmp 2) (src.bmp 2)) in
    set_word m2 3 (bit_and (m2.bmp 3) (src.bmp 3))

pub bmp256_or : Bmp256 → Bmp256 → Bmp256
bmp256_or dest src =
    let m0 = set_word dest 0 (bit_or (dest.bmp 0) (src.bmp 0)) in
    let m1 = set_word m0 1 (bit_or (m0.bmp 1) (src.bmp 1)) in
    let m2 = set_word m1 2 (bit_or (m1.bmp 2) (src.bmp 2)) in
    set_word m2 3 (bit_or (m2.bmp 3) (src.bmp 3))

pub bmp256_test : Bmp256 → ℕ → Bool
bmp256_test m bit =
    let index = bit / 64 in let off = bit % 64 in not (bit_and (m.bmp index / 2 ^ off) 1 == 0)

pub bmp256_set : Bmp256 → ℕ → Bmp256
bmp256_set m bit =
    let index = bit / 64 in let off = bit % 64 in set_word m index (bit_or (m.bmp index) (2 ^ off))

pub bmp256_unset : Bmp256 → ℕ → Bmp256
bmp256_unset m bit =
    let index = bit / 64 in
    let off = bit % 64 in set_word m index (bit_and (m.bmp index) (not64 (2 ^ off)))

-- `base != -1 ? base + n : rest`
abbrev or_else : ℕ → Option ℕ → Option ℕ → Option ℕ
or_else n none rest = rest
or_else n (some base) rest = some (base + n)

pub bmp256_ffs : Bmp256 → Option ℕ
bmp256_ffs m = or_else 0 (ffs64 (m.bmp 0)) (
    or_else 64 (ffs64 (m.bmp 1))
      (or_else 128 (ffs64 (m.bmp 2)) (or_else 192 (ffs64 (m.bmp 3)) none)))

pub bmp256_fls : Bmp256 → Option ℕ
bmp256_fls m =
    or_else 192 (fls64 (m.bmp 3))
      (or_else 128 (fls64 (m.bmp 2)) (or_else 64 (fls64 (m.bmp 1)) (fls64 (m.bmp 0))))

-- `memset` of the 32 bytes of the array
pub bmp256_set_all : Bmp256 → Bmp256
bmp256_set_all m =
    set_word (set_word (set_word (set_word m 0 u64_max) 1 u64_max) 2 u64_max) 3 u64_max

pub bmp256_unset_all : Bmp256 → Bmp256
bmp256_unset_all m = set_word (set_word (set_word (set_word m 0 0) 1 0) 2 0) 3 0

pub bmp256_unset_all_above : Bmp256 → ℕ → Bmp256
bmp256_unset_all_above m bit =
    let index = bit / 64 in
    let off = bit % 64 in
    let mask = if off == 63 then u64_max else 2 ^ (off + 1) - 1 in
    let m' = set_word m index (bit_and (m.bmp index) mask) in
    let m3 = if ltb index 3 then set_word m' 3 0 else m' in
    let m2 = if ltb index 2 then set_word m3 2 0 else m3 in
    if ltb index 1 then set_word m2 1 0 else m2
