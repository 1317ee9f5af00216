-- ===== src/Word/Highest.antt =====
-- `fls32` and `fls64` return the highest bit that is set.
use native.Mathlib.Nat.{one-le-pow}
use twan.Base.{
  ℕ, suc, ◌-◌, ◌*◌, ◌^◌, ◌≤◌, ◌<◌, ◌≡◌, ◌≢◌, refl, sym, ap, Option, none, some, bit_and, arith,
  ◌==◌, ==_false, if◌then◌else◌,
}
use twan.Bits.Scan.{IsLast, IsLast-of_range, pow-add}
use twan.Word.{shift_up, fls32, fls64}
use twan.Word.Steps.{IsRaised, shift_up-IsRaised}

-- What a scan from the top returns on a word that is not zero.
pub record IsHighest (n v : ℕ) (out : Option ℕ) : Type 0 where
  pub bit : ℕ
  pub found : out ≡ some bit
  pub bit_in : bit < n
  pub last : IsLast v bit

IsLast-of_IsRaised : (n v : ℕ) (at : ℕ × ℕ) → 0 < n → IsRaised n v at 1 → IsLast v at.1
IsLast-of_IsRaised n v (x, b) pos r = IsLast-of_range b v lower upper
  where
    p : 1 ≤ 2 ^ (n - 1 - b)
    p = one-le-pow (n - 1 - b) 2 (omega arith)

    low_split : 2 ^ (n - 1) ≡ 2 ^ b * 2 ^ (n - 1 - b)
    low_split = rw (sym (pow-add b (n - 1 - b))) (ap (λ (t : ℕ). 2 ^ t) (omega (arith, r.bit_in)))

    high_split : 2 ^ n ≡ 2 ^ suc b * 2 ^ (n - 1 - b)
    high_split =
        rw (sym (pow-add (suc b) (n - 1 - b))) (ap (λ (t : ℕ). 2 ^ t) (omega (arith, r.bit_in)))

    lower : 2 ^ b ≤ v
    lower = grind (arith, p, low_split, r.value, r.high)

    upper : v < 2 ^ suc b
    upper = grind (arith, p, high_split, r.value, r.fits)

bit-shift_up :
    (n mask : ℕ) (at : ℕ × ℕ)
    → (shift_up n mask 1 at).1 ≡ (if bit_and at.0 mask == 0 then at.1 - 1 else at.1)
unfolding shift_up
bit-shift_up n mask (x, b) = ground arith

start : (n v : ℕ) → 0 < n → v < 2 ^ n → v ≢ 0 → IsRaised n v (v, n - 1) n
start n v pos fits ne = record {
  value = let e : n - 1 - (n - 1) ≡ 0 = omega arith in rw e (omega arith);
  bit_in = omega arith;
  fits = fits;
  high = let e : n - n ≡ 0 = omega arith in rw e (omega arith);
  room = omega arith;
}

-- `fls64` of a 64-bit word that is not zero returns the number of its highest set bit.
pub fls64_nonzero : (v : ℕ) → v < 2 ^ 64 → v ≢ 0 → IsHighest 64 v (fls64 v)
unfolding fls64
fls64_nonzero v fits ne =
    let r64 = start 64 v (omega arith) fits ne in
    let r32 = shift_up-IsRaised 64 v 32 _ (omega arith) (omega arith) r64 in
    let r16 = shift_up-IsRaised 64 v 16 _ (omega arith) (omega arith) r32 in
    let r8 = shift_up-IsRaised 64 v 8 _ (omega arith) (omega arith) r16 in
    let r4 = shift_up-IsRaised 64 v 4 _ (omega arith) (omega arith) r8 in
    let r2 = shift_up-IsRaised 64 v 2 _ (omega arith) (omega arith) r4 in
    let r1 = shift_up-IsRaised 64 v 1 _ (omega arith) (omega arith) r2 in
    record {
      bit = _;
      found = rw (==_false v 0 ne) (ap some (sym (bit-shift_up 64 0x8000000000000000 _)));
      bit_in = r1.bit_in;
      last = IsLast-of_IsRaised 64 v _ (omega arith) r1;
    }

pub fls32_nonzero : (v : ℕ) → v < 2 ^ 32 → v ≢ 0 → IsHighest 32 v (fls32 v)
unfolding fls32
fls32_nonzero v fits ne =
    let r32 = start 32 v (omega arith) fits ne in
    let r16 = shift_up-IsRaised 32 v 16 _ (omega arith) (omega arith) r32 in
    let r8 = shift_up-IsRaised 32 v 8 _ (omega arith) (omega arith) r16 in
    let r4 = shift_up-IsRaised 32 v 4 _ (omega arith) (omega arith) r8 in
    let r2 = shift_up-IsRaised 32 v 2 _ (omega arith) (omega arith) r4 in
    let r1 = shift_up-IsRaised 32 v 1 _ (omega arith) (omega arith) r2 in
    record {
      bit = _;
      found = rw (==_false v 0 ne) (ap some (sym (bit-shift_up 32 0x80000000 _)));
      bit_in = r1.bit_in;
      last = IsLast-of_IsRaised 32 v _ (omega arith) r1;
    }

pub fls64-zero : fls64 0 ≡ none
unfolding fls64
fls64-zero = refl

pub fls32-zero : fls32 0 ≡ none
unfolding fls32
fls32-zero = refl
