-- ===== src/Buddy/Bits.antt =====
-- The bits of an array of bytes.
use native.Mathlib.Nat.{mod-eq_of_lt, one-le-pow, pow-le-pow_right}
use twan.Base.{
  ℕ, zero, suc, ◌*◌, ◌/◌, ◌%◌, ◌^◌, ◌<◌, ◌≤◌, ◌≡◌, ap, ◌∙◌, true, false, not, arith, ◌==◌,
  if◌then◌else◌, bit_and, bit_or,
}
use twan.Bits.Masks.{
  bit_of, bit_of-shift, bit_of-or, bit_of-and, bit_of-pow, bit_of-not, bit_and-le, bit_or-lt,
  bit_and_low, bit_and_shifted, bit_of-le-one,
}
use twan.Bitmap.{not64}
use twan.Buddy.{buddy_bitmap_test, buddy_bitmap_set, buddy_bitmap_clear}

abbrev pub IsBytes : (ℕ → ℕ) → Type 0
IsBytes bitmap = (i : ℕ) → bitmap i < 2 ^ 8

pub test-bit_of :
    (bitmap : ℕ → ℕ) (b : ℕ)
    → buddy_bitmap_test bitmap b ≡ not (bit_of (bitmap (b / 8)) (b % 8) == 0)
unfolding buddy_bitmap_test
test-bit_of bitmap b = by_digit (bitmap (b / 8)) (b % 8)
  where
    by_digit : (x k : ℕ) → not (bit_and x (2 ^ k) == 0) ≡ not (bit_of x k == 0)
    by_digit x k =
        let whole : 2 ^ k ≡ 1 * 2 ^ k = omega arith in
        let shifted : bit_and x (2 ^ k) ≡ bit_and (x / 2 ^ k) 1 * 2 ^ k =
          ap (λ (t : ℕ). bit_and x t) whole ∙ bit_and_shifted k x 1 in
        let low : bit_and (x / 2 ^ k) 1 ≡ bit_of x k =
          omega (arith, bit_and_low 1 (x / 2 ^ k), bit_of-shift x k) in
        rw (shifted, low) (digit (bit_of x k) (bit_of-le-one x k))
      where
        digit : (d : ℕ) → d ≤ 1 → not (d * 2 ^ k == 0) ≡ not (d == 0)
        digit zero h = ground arith
        digit (suc zero) h = ground (arith, one-le-pow k 2 (omega arith))
        digit (suc (suc d)) h = absurd (omega arith)

off-lt : (b : ℕ) → 2 ^ (b % 8) < 2 ^ 8
off-lt b =
    let h : 2 ^ (b % 8) ≤ 2 ^ 7 = pow-le-pow_right (omega arith) {j = 7} (omega arith) in
    omega (arith, h)

pub set-IsBytes : (bitmap : ℕ → ℕ) (b : ℕ) → IsBytes bitmap → IsBytes (buddy_bitmap_set bitmap b)
unfolding buddy_bitmap_set
set-IsBytes bitmap b ok i = ground (arith, ok i)

pub clear-IsBytes :
    (bitmap : ℕ → ℕ) (b : ℕ) → IsBytes bitmap → IsBytes (buddy_bitmap_clear bitmap b)
unfolding buddy_bitmap_clear
clear-IsBytes bitmap b ok i = ground (arith, ok i)

pub test-buddy_bitmap_set :
    (bitmap : ℕ → ℕ) (b c : ℕ)
    → IsBytes bitmap
    → buddy_bitmap_test (buddy_bitmap_set bitmap b) c
      ≡ (if b == c then true else buddy_bitmap_test bitmap c)
unfolding buddy_bitmap_set
test-buddy_bitmap_set bitmap b c ok =
    let whole : bit_or (bitmap (b / 8)) (2 ^ (b % 8)) % 2 ^ 8
        ≡ bit_or (bitmap (b / 8)) (2 ^ (b % 8)) =
      mod-eq_of_lt (bit_or-lt 8 (bitmap (b / 8)) (2 ^ (b % 8)) (ok (b / 8)) (off-lt b)) in
    ground (
      arith,
      whole,
      test-bit_of (buddy_bitmap_set bitmap b) c,
      test-bit_of bitmap c,
      bit_of-or (bitmap (b / 8)) (2 ^ (b % 8)) (c % 8),
      bit_of-pow (b % 8) (c % 8),
    )

pub test-buddy_bitmap_clear :
    (bitmap : ℕ → ℕ) (b c : ℕ)
    → IsBytes bitmap
    → buddy_bitmap_test (buddy_bitmap_clear bitmap b) c
      ≡ (if b == c then false else buddy_bitmap_test bitmap c)
unfolding buddy_bitmap_clear
test-buddy_bitmap_clear bitmap b c ok =
    let whole : bit_and (bitmap (b / 8)) (not64 (2 ^ (b % 8))) % 2 ^ 8
        ≡ bit_and (bitmap (b / 8)) (not64 (2 ^ (b % 8))) =
      mod-eq_of_lt (omega (arith, bit_and-le (bitmap (b / 8)) (not64 (2 ^ (b % 8))), ok (b / 8))) in
    ground (
      arith,
      whole,
      test-bit_of (buddy_bitmap_clear bitmap b) c,
      test-bit_of bitmap c,
      bit_of-and (bitmap (b / 8)) (not64 (2 ^ (b % 8))) (c % 8),
      bit_of-le-one (bitmap (b / 8)) (c % 8),
      bit_of-not 64 (2 ^ (b % 8)) (c % 8) (omega (arith, off-lt b)) (omega arith),
      bit_of-pow (b % 8) (c % 8),
    )
