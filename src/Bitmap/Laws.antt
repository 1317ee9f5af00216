-- ===== src/Bitmap/Laws.antt =====
-- Membership in the set after each operation of bmp256.h, and the words stay 64 bits wide.
use native.Mathlib.Nat.{pow-le-pow_right}
use twan.Base.{
  ℕ, ◌+◌, ◌-◌, ◌/◌, ◌%◌, ◌^◌, ◌<◌, ◌≡◌, true, false, not, ◌&&◌, ◌||◌, arith, ◌==◌, leb,
  if◌then◌else◌, Bool-cases, ==_iff, inl, inr,
}
use twan.Bits.Masks.{
  bit_of, bit_of-shift, bit_of-le-one, bit_of-or, bit_of-and, bit_of-pow, bit_of-not, bit_and_low,
  bit_and-le, bit_or-lt, bit_of-zero, bit_of-ones,
}
use twan.Bitmap.{
  Bmp256, u64_max, not64, bmp256_and, bmp256_or, bmp256_test, bmp256_set, bmp256_unset,
  bmp256_set_all, bmp256_unset_all, bmp256_unset_all_above,
}

off-lt : (b : ℕ) → 2 ^ (b % 64) < 2 ^ 64
off-lt b = omega (arith, pow-le-pow_right {n = 2} (omega arith) {i = b % 64} {j = 63} (omega arith))

-- Each word of the array is a `u64`.
abbrev pub IsWords : Bmp256 → Type 0
IsWords m = (i : ℕ) → i < 4 → m.bmp i < 2 ^ 64

-- What `bmp256_test` reads is the bit of the word.
pub test-bit_of :
    (m : Bmp256) (b : ℕ) → bmp256_test m b ≡ not (bit_of (m.bmp (b / 64)) (b % 64) == 0)
unfolding bmp256_test
test-bit_of m b =
    ground
      (arith, bit_and_low 1 (m.bmp (b / 64) / 2 ^ (b % 64)), bit_of-shift (m.bmp (b / 64)) (b % 64))

-- `bmp256_set` adds its bit and changes no other.
pub test-set :
    (m : Bmp256) (b c : ℕ)
    → bmp256_test (bmp256_set m b) c ≡ (if b == c then true else bmp256_test m c)
unfolding bmp256_set
test-set m b c = ground (
  arith,
  test-bit_of m c,
  test-bit_of (bmp256_set m b) c,
  bit_of-or (m.bmp (b / 64)) (2 ^ (b % 64)) (c % 64),
  bit_of-pow (b % 64) (c % 64),
)

-- On words of 64 bits, `bmp256_unset` of a bit below 256 removes its bit and changes no other.
pub test-unset :
    (m : Bmp256) (b c : ℕ)
    → IsWords m
    → b < 256
    → bmp256_test (bmp256_unset m b) c ≡ (if b == c then false else bmp256_test m c)
unfolding bmp256_unset
test-unset m b c ok hb = ground (
  arith,
  test-bit_of m c,
  test-bit_of (bmp256_unset m b) c,
  bit_of-and (m.bmp (b / 64)) (not64 (2 ^ (b % 64))) (c % 64),
  bit_of-le-one (m.bmp (b / 64)) (c % 64),
  bit_of-not 64 (2 ^ (b % 64)) (c % 64) (off-lt b),
  bit_of-pow (b % 64) (c % 64),
)

-- `bmp256_and` is the intersection and `bmp256_or` the union, on the 256 bits.
pub test-and :
    (m n : Bmp256) (c : ℕ)
    → c < 256
    → bmp256_test (bmp256_and m n) c ≡ (bmp256_test m c && bmp256_test n c)
unfolding bmp256_and
test-and m n c hc = ground (
  arith,
  test-bit_of m c,
  test-bit_of n c,
  test-bit_of (bmp256_and m n) c,
  bit_of-and (m.bmp (c / 64)) (n.bmp (c / 64)) (c % 64),
)

pub test-or :
    (m n : Bmp256) (c : ℕ)
    → c < 256
    → bmp256_test (bmp256_or m n) c ≡ (bmp256_test m c || bmp256_test n c)
unfolding bmp256_or
test-or m n c hc = ground (
  arith,
  test-bit_of m c,
  test-bit_of n c,
  test-bit_of (bmp256_or m n) c,
  bit_of-or (m.bmp (c / 64)) (n.bmp (c / 64)) (c % 64),
)

pub test-set_all : (m : Bmp256) (c : ℕ) → c < 256 → bmp256_test (bmp256_set_all m) c ≡ true
unfolding bmp256_set_all
test-set_all m c hc = ground (arith, test-bit_of (bmp256_set_all m) c, bit_of-ones 64 (c % 64))

pub test-unset_all : (m : Bmp256) (c : ℕ) → c < 256 → bmp256_test (bmp256_unset_all m) c ≡ false
unfolding bmp256_unset_all
test-unset_all m c hc = ground (arith, test-bit_of (bmp256_unset_all m) c, bit_of-zero (c % 64))

-- The mask of `bmp256_unset_all_above`: the bits up to `off`.
above_mask : (off : ℕ) → (if off == 63 then u64_max else 2 ^ (off + 1) - 1) ≡ 2 ^ (off + 1) - 1
above_mask off = elim (Bool-cases (off == 63)) [
  | inl e ↦ rw (e, (==_iff off 63).0 e)
  | inr e ↦ rw e
]

-- `bmp256_unset_all_above` of a bit below 256 keeps the members up to the bit and removes the others.
pub test-unset_all_above :
    (m : Bmp256) (b c : ℕ)
    → b < 256
    → c < 256
    → bmp256_test (bmp256_unset_all_above m b) c ≡ (leb c b && bmp256_test m c)
unfolding bmp256_unset_all_above
test-unset_all_above m b c hb hc = ground (
  arith,
  test-bit_of m c,
  test-bit_of (bmp256_unset_all_above m b) c,
  above_mask (b % 64),
  bit_of-and (m.bmp (b / 64)) (2 ^ (b % 64 + 1) - 1) (c % 64),
  bit_of-le-one (m.bmp (c / 64)) (c % 64),
  bit_of-ones (b % 64 + 1) (c % 64),
  bit_of-zero (c % 64),
)

-- Every operation keeps the words within 64 bits.
pub set-IsWords : (m : Bmp256) (b : ℕ) → IsWords m → IsWords (bmp256_set m b)
unfolding bmp256_set
set-IsWords m b ok i hi =
    ground (arith, ok i hi, bit_or-lt 64 (m.bmp i) (2 ^ (b % 64)) (ok i hi) (off-lt b))

pub unset-IsWords : (m : Bmp256) (b : ℕ) → IsWords m → IsWords (bmp256_unset m b)
unfolding bmp256_unset
unset-IsWords m b ok i hi = ground (arith, ok i hi, bit_and-le (m.bmp i) (not64 (2 ^ (b % 64))))

pub and-IsWords : (m n : Bmp256) → IsWords m → IsWords (bmp256_and m n)
unfolding bmp256_and
and-IsWords m n ok i hi = ground (arith, ok i hi, bit_and-le (m.bmp i) (n.bmp i))

pub or-IsWords : (m n : Bmp256) → IsWords m → IsWords n → IsWords (bmp256_or m n)
unfolding bmp256_or
or-IsWords m n ok ok' i hi =
    ground (arith, ok i hi, bit_or-lt 64 (m.bmp i) (n.bmp i) (ok i hi) (ok' i hi))

pub set_all-IsWords : (m : Bmp256) → IsWords (bmp256_set_all m)
unfolding bmp256_set_all
set_all-IsWords m i hi = ground arith

pub unset_all-IsWords : (m : Bmp256) → IsWords (bmp256_unset_all m)
unfolding bmp256_unset_all
unset_all-IsWords m i hi = ground arith

pub unset_all_above-IsWords :
    (m : Bmp256) (b : ℕ) → IsWords m → IsWords (bmp256_unset_all_above m b)
unfolding bmp256_unset_all_above
unset_all_above-IsWords m b ok i hi =
    let mask = if b % 64 == 63 then u64_max else 2 ^ (b % 64 + 1) - 1 in
    ground (arith, ok i hi, bit_and-le (m.bmp i) mask)
