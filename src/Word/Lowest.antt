-- ===== src/Word/Lowest.antt =====
-- `ffs32` and `ffs64` return the lowest bit that is set.
use native.Mathlib.Nat.{mod-eq_of_lt, pow-le-pow_right}
use twan.Base.{
  ℕ, ◌+◌, ◌^◌, ◌≤◌, ◌<◌, ◌≡◌, ◌≢◌, refl, sym, ap, Option, none, some, bit_and, arith, ◌==◌,
  ==_false, if◌then◌else◌, dec_lt,
}
use twan.Bits.Scan.{IsFirst, IsFirst-of_mul}
use twan.Word.{shift_down, ffs32, ffs64}
use twan.Word.Steps.{IsCut, shift_down-IsCut}

-- What a scan from the bottom returns on a word that is not zero.
pub record IsLowest (n v : ℕ) (out : Option ℕ) : Type 0 where
  pub bit : ℕ
  pub found : out ≡ some bit
  pub bit_in : bit < n
  pub first : IsFirst v bit

IsFirst-of_IsCut : (v : ℕ) (at : ℕ × ℕ) → IsCut v at 1 → IsFirst v at.1
IsFirst-of_IsCut v (x, b) c = rw c.value (IsFirst-of_mul b x (omega (arith, c.left)))

-- A bit that a word of `n` bits has lies below `n`.
bit-lt : (n v : ℕ) (at : ℕ × ℕ) → v < 2 ^ n → IsCut v at 1 → at.1 < n
bit-lt n v (x, b) fits c = elim (dec_lt b n) [
  | yes l ↦ l
  | no l ↦ absurd (grind (arith, c.left, c.value, pow-le-pow_right {n = 2} (omega arith) (le l)))
]
  where
    le : ¬ (b < n) → n ≤ b
    le l = omega arith

bit-shift_down :
    (mask : ℕ) (at : ℕ × ℕ)
    → (shift_down mask 1 at).1 ≡ (if bit_and at.0 mask == 0 then at.1 + 1 else at.1)
unfolding shift_down
bit-shift_down mask (x, b) = ground arith

start : (n v : ℕ) → v < 2 ^ n → v ≢ 0 → IsCut v (v, 0) n
start n v fits ne = record { value = omega arith; left = rw (mod-eq_of_lt fits) ne }

-- `ffs64` of a 64-bit word that is not zero returns the number of its lowest set bit.
pub ffs64_nonzero : (v : ℕ) → v < 2 ^ 64 → v ≢ 0 → IsLowest 64 v (ffs64 v)
unfolding ffs64
ffs64_nonzero v fits ne =
    let c32 = shift_down-IsCut v 32 _ (start 64 v fits ne) in
    let c16 = shift_down-IsCut v 16 _ c32 in
    let c8 = shift_down-IsCut v 8 _ c16 in
    let c4 = shift_down-IsCut v 4 _ c8 in
    let c2 = shift_down-IsCut v 2 _ c4 in
    let c1 = shift_down-IsCut v 1 _ c2 in
    record {
      bit = _;
      found = rw (==_false v 0 ne) (ap some (sym (bit-shift_down 1 _)));
      bit_in = bit-lt 64 v _ fits c1;
      first = IsFirst-of_IsCut v _ c1;
    }

pub ffs32_nonzero : (v : ℕ) → v < 2 ^ 32 → v ≢ 0 → IsLowest 32 v (ffs32 v)
unfolding ffs32
ffs32_nonzero v fits ne =
    let c16 = shift_down-IsCut v 16 _ (start 32 v fits ne) in
    let c8 = shift_down-IsCut v 8 _ c16 in
    let c4 = shift_down-IsCut v 4 _ c8 in
    let c2 = shift_down-IsCut v 2 _ c4 in
    let c1 = shift_down-IsCut v 1 _ c2 in
    record {
      bit = _;
      found = rw (==_false v 0 ne) (ap some (sym (bit-shift_down 1 _)));
      bit_in = bit-lt 32 v _ fits c1;
      first = IsFirst-of_IsCut v _ c1;
    }

pub ffs64-zero : ffs64 0 ≡ none
unfolding ffs64
ffs64-zero = refl

pub ffs32-zero : ffs32 0 ≡ none
unfolding ffs32
ffs32-zero = refl
