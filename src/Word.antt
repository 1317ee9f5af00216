-- ===== src/Word.antt =====
-- include/std.h: the scans `fls32`, `ffs32`, `fls64` and `ffs64` of a machine word, and `log2`.
-- An `int` result of -1 is `none`. Each scan is a ladder of masks: a test that fails shifts the
-- word and moves the bit; the pair of the two variables goes from one test to the next.
mod Steps
pub mod Highest
pub mod Lowest
pub mod Log2
use twan.Base.{
  ℕ, zero, suc, ◌+◌, ◌-◌, ◌*◌, ◌/◌, ◌%◌, ◌^◌, Bool, Option, none, some, bit_and, ◌==◌,
  if◌then◌else◌,
}

-- `if (!(val & mask)) { val <<= w; bit -= w; }` on a word of `n` bits
unfoldable pub shift_up : (n mask w : ℕ) → ℕ × ℕ → ℕ × ℕ
shift_up n mask w (val, bit) =
    if bit_and val mask == 0 then (val * 2 ^ w % 2 ^ n, bit - w) else (val, bit)

-- `if (!(val & mask)) { val >>= w; bit += w; }`
unfoldable pub shift_down : (mask w : ℕ) → ℕ × ℕ → ℕ × ℕ
shift_down mask w (val, bit) = if bit_and val mask == 0 then (val / 2 ^ w, bit + w) else (val, bit)

pub fls32 : ℕ → Option ℕ
fls32 val =
    let at16 = shift_up 32 0xffff0000 16 (val, 31) in
    let at8 = shift_up 32 0xff000000 8 at16 in
    let at4 = shift_up 32 0xf0000000 4 at8 in
    let at2 = shift_up 32 0xc0000000 2 at4 in
    let bit = if bit_and at2.0 0x80000000 == 0 then at2.1 - 1 else at2.1 in
    if val == 0 then none else some bit

pub ffs32 : ℕ → Option ℕ
ffs32 val =
    let at16 = shift_down 0x0000ffff 16 (val, 0) in
    let at8 = shift_down 0x000000ff 8 at16 in
    let at4 = shift_down 0x0000000f 4 at8 in
    let at2 = shift_down 0x00000003 2 at4 in
    let bit = if bit_and at2.0 0x00000001 == 0 then at2.1 + 1 else at2.1 in
    if val == 0 then none else some bit

pub fls64 : ℕ → Option ℕ
fls64 val =
    let at32 = shift_up 64 0xffffffff00000000 32 (val, 63) in
    let at16 = shift_up 64 0xffff000000000000 16 at32 in
    let at8 = shift_up 64 0xff00000000000000 8 at16 in
    let at4 = shift_up 64 0xf000000000000000 4 at8 in
    let at2 = shift_up 64 0xc000000000000000 2 at4 in
    let bit = if bit_and at2.0 0x8000000000000000 == 0 then at2.1 - 1 else at2.1 in
    if val == 0 then none else some bit

pub ffs64 : ℕ → Option ℕ
ffs64 val =
    let at32 = shift_down 0x00000000ffffffff 32 (val, 0) in
    let at16 = shift_down 0x000000000000ffff 16 at32 in
    let at8 = shift_down 0x00000000000000ff 8 at16 in
    let at4 = shift_down 0x000000000000000f 4 at8 in
    let at2 = shift_down 0x0000000000000003 2 at4 in
    let bit = if bit_and at2.0 0x0000000000000001 == 0 then at2.1 + 1 else at2.1 in
    if val == 0 then none else some bit

-- `is_pow2` of a `u64` that is not 0
abbrev pub is_pow2_64 : ℕ → Bool
is_pow2_64 x = bit_and x (x - 1) == 0

-- The loop of `log2`; a word has 64 bits, so 64 rounds bring it to 0.
unfoldable pub log2_loop : (rounds order temp : ℕ) → ℕ
log2_loop zero order temp = order
log2_loop (suc rounds) order temp =
    let rest = log2_loop rounds (order + 1) (temp / 2) in if temp == 0 then order else rest

unfoldable pub log2 : (size : ℕ) → ℕ
unfolding log2_loop
log2 size =
    let order = log2_loop 64 0 (size / 2) in
    if size == 0 then 0 else if is_pow2_64 size then order else order + 1
