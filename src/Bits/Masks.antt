-- ===== src/Bits/Masks.antt =====
-- Bit `i` of a word, and the words that the sources write: single bits, low masks, complements.
use native.Mathlib.Nat.{pow-suc, pow-succ', one-le-pow, div-div-eq-div-mul}
use Prim.Native.Nat.{bit_and-bitwise, bit_or-bitwise}
use twan.Bits.Step.{bit_and_step, bit_or_step}
use twan.Base.{
  ℕ, zero, suc, ◌+◌, ◌-◌, ◌*◌, ◌/◌, ◌%◌, ◌^◌, ◌≤◌, ◌<◌, ◌≡◌, refl, min, max, bit_and, bit_or, arith,
  ap, ltb, dec_lt, ◌==◌, if◌then◌else◌,
}

-- Bit `i` of `x`, as 0 or 1.
unfoldable pub bit_of : ℕ → ℕ → ℕ
bit_of x zero = x % 2
bit_of x (suc i) = bit_of (x / 2) i

-- It is what `(x >> i) & 1` reads.
pub bit_of-shift : (x i : ℕ) → x / 2 ^ i % 2 ≡ bit_of x i
unfolding bit_of
bit_of-shift x zero = omega arith
bit_of-shift x (suc i) = rw (pow-succ' 2 i, ← div-div-eq-div-mul) (bit_of-shift (x / 2) i)

pub bit_of-le-one : (x i : ℕ) → bit_of x i ≤ 1
unfolding bit_of
bit_of-le-one x zero = omega arith
bit_of-le-one x (suc i) = bit_of-le-one (x / 2) i

pub bit_of-or : (a b i : ℕ) → bit_of (bit_or a b) i ≡ max (bit_of a i) (bit_of b i)
unfolding bit_of
bit_of-or a b zero = omega (arith, bit_or_step a b)
bit_of-or a b (suc i) =
    let e : bit_or a b / 2 ≡ bit_or (a / 2) (b / 2) = omega (arith, bit_or_step a b) in
    rw e (bit_of-or (a / 2) (b / 2) i)

pub bit_of-and : (a b i : ℕ) → bit_of (bit_and a b) i ≡ min (bit_of a i) (bit_of b i)
unfolding bit_of
bit_of-and a b zero = omega (arith, bit_and_step a b)
bit_of-and a b (suc i) =
    let e : bit_and a b / 2 ≡ bit_and (a / 2) (b / 2) = omega (arith, bit_and_step a b) in
    rw e (bit_of-and (a / 2) (b / 2) i)

pub bit_of-zero : (i : ℕ) → bit_of 0 i ≡ 0
unfolding bit_of
bit_of-zero zero = refl
bit_of-zero (suc i) = bit_of-zero i

pub bit_of-pow : (k i : ℕ) → bit_of (2 ^ k) i ≡ (if k == i then 1 else 0)
unfolding bit_of
bit_of-pow zero zero = refl
bit_of-pow zero (suc i) = ground (arith, bit_of-zero i)
bit_of-pow (suc k) zero = ground (arith, pow-suc 2 k)
bit_of-pow (suc k) (suc i) =
    let e : 2 ^ suc k / 2 ≡ 2 ^ k = omega (arith, pow-suc 2 k) in
    rw e (ground (arith, bit_of-pow k i))

-- `2 ^ k - 1 - x` is the complement of `x` in `k` bits.
pub bit_of-not : (k x i : ℕ) → x < 2 ^ k → i < k → bit_of (2 ^ k - 1 - x) i ≡ 1 - bit_of x i
unfolding bit_of
bit_of-not zero x i h p = absurd (omega arith)
bit_of-not (suc k) x zero h p = omega (arith, pow-suc 2 k)
bit_of-not (suc k) x (suc i) h p =
    let e : (2 ^ suc k - 1 - x) / 2 ≡ 2 ^ k - 1 - x / 2 = omega (arith, pow-suc 2 k) in
    rw e (bit_of-not k (x / 2) i (omega (arith, pow-suc 2 k)) (omega arith))

pub bit_of_high : (k x i : ℕ) → x < 2 ^ k → k ≤ i → bit_of x i ≡ 0
unfolding bit_of
bit_of_high zero x i h p = ground (arith, bit_of-zero i)
bit_of_high (suc k) x zero h p = absurd (omega arith)
bit_of_high (suc k) x (suc i) h p =
    bit_of_high k (x / 2) i (omega (arith, pow-suc 2 k)) (omega arith)

pub zero-bit_and : (b : ℕ) → bit_and 0 b ≡ 0
zero-bit_and b = bit_and-bitwise 0 b

bit_and-le_count : (n a b : ℕ) → a ≤ n → bit_and a b ≤ a
bit_and-le_count n zero b h = omega (arith, zero-bit_and b)
bit_and-le_count zero (suc a) b h = absurd (omega arith)
bit_and-le_count (suc n) (suc a) b h =
    omega (arith, bit_and_step (suc a) b, bit_and-le_count n (suc a / 2) (b / 2) (omega arith))

pub bit_and-le : (a b : ℕ) → bit_and a b ≤ a
bit_and-le a b = bit_and-le_count a a b (omega arith)

zero-bit_or : (b : ℕ) → bit_or 0 b ≡ b
zero-bit_or b = bit_or-bitwise 0 b

pub bit_or-lt : (k a b : ℕ) → a < 2 ^ k → b < 2 ^ k → bit_or a b < 2 ^ k
bit_or-lt zero zero b p q = omega (arith, zero-bit_or b)
bit_or-lt zero (suc a) b p q = absurd (omega arith)
bit_or-lt (suc k) a b p q = omega (
  arith,
  bit_or_step a b,
  pow-suc 2 k,
  bit_or-lt k (a / 2) (b / 2) (omega (arith, pow-suc 2 k)) (omega (arith, pow-suc 2 k)),
)

-- The mask of the `k` low bits.
pub bit_of-ones : (k i : ℕ) → bit_of (2 ^ k - 1) i ≡ (if ltb i k then 1 else 0)
bit_of-ones k i = elim (dec_lt i k) [
  | yes l ↦ ground (arith, bit_of-not k 0 i (one-le-pow k 2 (omega arith)) l, bit_of-zero i)
  | no l ↦ ground (
    arith,
    bit_of_high k (2 ^ k - 1) i (omega (arith, one-le-pow k 2 (omega arith))) (omega arith),
  )
]

-- Equal bits make equal words.
pub eq_of_bits :
    (k a b : ℕ) → a < 2 ^ k → b < 2 ^ k → ((i : ℕ) → i < k → bit_of a i ≡ bit_of b i) → a ≡ b
unfolding bit_of
eq_of_bits zero a b p q h = omega arith
eq_of_bits (suc k) a b p q h = omega (
  arith,
  h 0 (omega arith),
  eq_of_bits k (a / 2) (b / 2) (omega (arith, pow-suc 2 k)) (omega (arith, pow-suc 2 k))
      (λ i l. h (suc i) (omega arith)),
)

bit_and-zero_count : (n a : ℕ) → a ≤ n → bit_and a 0 ≡ 0
bit_and-zero_count n zero h = refl
bit_and-zero_count zero (suc a) h = absurd (omega arith)
bit_and-zero_count (suc n) (suc a) h =
    omega (arith, bit_and_step (suc a) 0, bit_and-zero_count n (suc a / 2) (omega arith))

bit_and-zero : (a : ℕ) → bit_and a 0 ≡ 0
bit_and-zero a = bit_and-zero_count a a (omega arith)

mod_double : (p a : ℕ) → 0 < p → a % (p * 2) ≡ a / 2 % p * 2 + a % 2
mod_double p a h = grind arith

-- `x & m` for the mask `m` of the `k` low bits.
pub bit_and_low : (k a : ℕ) → bit_and a (2 ^ k - 1) ≡ a % 2 ^ k
bit_and_low zero a = omega (arith, bit_and-zero a)
bit_and_low (suc k) a =
    let e : (2 ^ suc k - 1) / 2 ≡ 2 ^ k - 1 = omega (arith, pow-suc 2 k) in
    omega (
      arith,
      bit_and_step a (2 ^ suc k - 1),
      ap (λ (t : ℕ). bit_and (a / 2) t) e,
      bit_and_low k (a / 2),
      mod_double (2 ^ k) a (one-le-pow k 2 (omega arith)),
      pow-suc 2 k,
      ap (λ (t : ℕ). a % t) (pow-suc 2 k),
      one-le-pow k 2 (omega arith),
    )

-- `x & (m << s)` keeps the bits from `s` on.
pub bit_and_shifted : (s a m : ℕ) → bit_and a (m * 2 ^ s) ≡ bit_and (a / 2 ^ s) m * 2 ^ s
bit_and_shifted zero a m = ground arith
bit_and_shifted (suc s) a m =
    let e : m * 2 ^ suc s ≡ m * 2 ^ s * 2 = omega (arith, ap (λ (t : ℕ). m * t) (pow-suc 2 s)) in
    rw (e, pow-succ' 2 s, ← div-div-eq-div-mul)
      (omega (
        arith,
        bit_and_step a (m * 2 ^ s * 2),
        ap (λ (t : ℕ). bit_and (a / 2) t) half,
        bit_and_shifted s (a / 2) m,
      ))
  where
    half : m * 2 ^ s * 2 / 2 ≡ m * 2 ^ s
    half = omega arith
