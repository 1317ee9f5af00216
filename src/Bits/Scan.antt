-- ===== src/Bits/Scan.antt =====
-- The lowest and the highest bit that is set, in terms of powers of two.
use native.Mathlib.Nat.{
  pow-suc, one-le-pow, div-eq_of_lt, mod-eq_of_lt, div-lt_iff_lt-mul, mul_comm, add-suc,
}
use twan.Base.{
  ℕ, zero, suc, ◌+◌, ◌-◌, ◌*◌, ◌/◌, ◌%◌, ◌^◌, ◌≤◌, ◌<◌, ◌≡◌, ◌↔◌, ap, sym, ◌∙◌, bit_and, arith,
}
use twan.Bits.Masks.{bit_of, bit_of_high, bit_and_low, bit_and_shifted}

pub pow-add : (m n : ℕ) → 2 ^ (m + n) ≡ 2 ^ m * 2 ^ n
pow-add m zero = grind arith
pow-add m (suc n) = omega (
  arith,
  ap (λ (t : ℕ). 2 ^ t) (add-suc m n),
  pow-suc 2 (m + n),
  pow-add m n,
  ap (λ (t : ℕ). 2 ^ m * t) (pow-suc 2 n),
)

-- `x & m` for the mask `m` of the `w` bits from `s` on is zero exactly if `x` fits `s` bits.
pub high_test :
    (s w x : ℕ) → x < 2 ^ s * 2 ^ w → (bit_and x ((2 ^ w - 1) * 2 ^ s) ≡ 0) ↔ (x < 2 ^ s)
high_test s w x h = (λ e. small (zero_of (e' e)), λ l. back l)
  where
    pos : 1 ≤ 2 ^ s
    pos = one-le-pow s 2 (omega arith)

    fits : x / 2 ^ s < 2 ^ w
    fits = (div-lt_iff_lt-mul pos).1 (omega (arith, mul_comm (2 ^ s) (2 ^ w)))

    value : bit_and x ((2 ^ w - 1) * 2 ^ s) ≡ x / 2 ^ s * 2 ^ s
    value = rw (bit_and_shifted s x (2 ^ w - 1), bit_and_low, mod-eq_of_lt fits)

    e' : bit_and x ((2 ^ w - 1) * 2 ^ s) ≡ 0 → x / 2 ^ s * 2 ^ s ≡ 0
    e' e = sym value ∙ e

    zero_of : x / 2 ^ s * 2 ^ s ≡ 0 → x / 2 ^ s ≡ 0
    zero_of e = grind arith

    small : x / 2 ^ s ≡ 0 → x < 2 ^ s
    small e = grind arith

    back : x < 2 ^ s → bit_and x ((2 ^ w - 1) * 2 ^ s) ≡ 0
    back l = rw (value, div-eq_of_lt l) (omega arith)

pub record IsFirst (x r : ℕ) : Type 0 where
  pub is_set : bit_of x r ≡ 1
  pub below : (i : ℕ) → i < r → bit_of x i ≡ 0

pub record IsLast (x r : ℕ) : Type 0 where
  pub is_set : bit_of x r ≡ 1
  pub above : (i : ℕ) → r < i → bit_of x i ≡ 0

half_mul : (q s : ℕ) → q * 2 ^ suc s / 2 ≡ q * 2 ^ s
half_mul q s = omega (arith, ap (λ (t : ℕ). q * t) (pow-suc 2 s))

pub IsFirst-of_mul : (s q : ℕ) → q % 2 ≡ 1 → IsFirst (q * 2 ^ s) s
unfolding bit_of
IsFirst-of_mul zero q h = record { is_set = omega arith; below = λ i l. elim l [ ] }
IsFirst-of_mul (suc s) q h =
    let rest = IsFirst-of_mul s q h in record { is_set = rw half_mul rest.is_set; below = low rest }
  where
    low : IsFirst (q * 2 ^ s) s → (i : ℕ) → i < suc s → bit_of (q * 2 ^ suc s) i ≡ 0
    low rest zero l = omega (arith, ap (λ (t : ℕ). q * t) (pow-suc 2 s))
    low rest (suc i) l = rw half_mul (rest.below i (omega arith))

pub IsLast-of_range : (r x : ℕ) → 2 ^ r ≤ x → x < 2 ^ suc r → IsLast x r
unfolding bit_of
IsLast-of_range r x p q = record {
  is_set = top r x p q;
  above = λ i l. bit_of_high (suc r) x i q l;
}
  where
    top : (r x : ℕ) → 2 ^ r ≤ x → x < 2 ^ suc r → bit_of x r ≡ 1
    top zero x p q = omega arith
    top (suc r) x p q =
        top r (x / 2) (omega (arith, pow-suc 2 r)) (omega (arith, pow-suc 2 r, pow-suc 2 (suc r)))
