-- ===== src/Bits/Step.antt =====
-- The law of each bitwise operation of the sources for the lowest digit. The native operations are
-- a recursion on binary digits with a count of digits to go, which is dropped here.
use Prim.Native.Nat.{digits, bitwise, differ, bit_and-bitwise, bit_or-bitwise, bit_xor-bitwise}
use twan.Base.{
  ℕ, zero, suc, ◌+◌, ◌*◌, ◌/◌, ◌%◌, ◌≤◌, ◌<◌, ◌≡◌, refl, min, max, bit_and, bit_or, bit_xor, arith,
}

module _ (rest : ℕ → ℕ) (op : ℕ → ℕ → ℕ) where
  digits_count : (j k x y : ℕ) → x ≤ j → x ≤ k → digits rest op j x y ≡ digits rest op k x y
  digits_count zero zero x y l r = refl
  digits_count zero (suc k) zero y l r = refl
  digits_count zero (suc k) (suc x) y l r = absurd (omega arith)
  digits_count (suc j) zero zero y l r = refl
  digits_count (suc j) zero (suc x) y l r = absurd (omega arith)
  digits_count (suc j) (suc k) zero y l r = refl
  digits_count (suc j) (suc k) (suc x) y l r =
      rw (digits_count j k (suc x / 2) (y / 2) (omega arith) (omega arith))

  bitwise_step :
      (x y : ℕ)
      → bitwise rest op (suc x) y ≡ op (suc x % 2) (y % 2) + bitwise rest op (suc x / 2) (y / 2) * 2
  bitwise_step x y =
      omega (arith, digits_count x (suc x / 2) (suc x / 2) (y / 2) (omega arith) (omega arith))

differ_bits : (x y : ℕ) → x < 2 → y < 2 → differ x y ≡ (x + y) % 2
differ_bits zero zero l r = refl
differ_bits zero (suc zero) l r = refl
differ_bits zero (suc (suc y)) l r = absurd (omega arith)
differ_bits (suc zero) zero l r = refl
differ_bits (suc zero) (suc zero) l r = refl
differ_bits (suc zero) (suc (suc y)) l r = absurd (omega arith)
differ_bits (suc (suc x)) y l r = absurd (omega arith)

pub bit_and_step : (x y : ℕ) → bit_and x y ≡ bit_and (x / 2) (y / 2) * 2 + min (x % 2) (y % 2)
bit_and_step zero y = simp bit_and-bitwise (omega arith)
bit_and_step (suc x) y = simp bit_and-bitwise (omega (arith, bitwise_step (λ t. 0) min x y))

pub bit_or_step : (x y : ℕ) → bit_or x y ≡ bit_or (x / 2) (y / 2) * 2 + max (x % 2) (y % 2)
bit_or_step zero y = simp bit_or-bitwise (omega arith)
bit_or_step (suc x) y = simp bit_or-bitwise (omega (arith, bitwise_step (λ t. t) max x y))

pub bit_xor_step : (x y : ℕ) → bit_xor x y ≡ bit_xor (x / 2) (y / 2) * 2 + (x % 2 + y % 2) % 2
bit_xor_step zero y = simp bit_xor-bitwise (omega arith)
bit_xor_step (suc x) y = simp bit_xor-bitwise (
    omega (
      arith,
      bitwise_step (λ t. t) differ x y,
      differ_bits (suc x % 2) (y % 2) (omega arith) (omega arith),
    ))
