-- ===== src/Word/Log2.antt =====
-- `log2` rounds up.
use native.Mathlib.Nat.{pow-suc, one-le-pow, div-div-eq-div-mul, div-lt_iff_lt-mul, div-eq_of_lt}
use twan.Base.{
  ℕ, zero, suc, ◌+◌, ◌/◌, ◌^◌, ◌<◌, ◌≤◌, ◌≡◌, ◌≢◌, refl, sym, ap, ◌∙◌, true, false, arith,
  ℕ_discrete, dec_lt, ==_false,
}
use twan.Word.{is_pow2_64, log2_loop, log2}

-- `r` is the greatest exponent of a power of 2 up to `v`.
record IsFloor (v r : ℕ) : Type 0 where
  below : 2 ^ r ≤ v
  above : v < 2 ^ (r + 1)

module _ (v : ℕ) where
  next_half : (order : ℕ) → v / 2 ^ (order + 1) / 2 ≡ v / 2 ^ (order + 1 + 1)
  next_half order =
      let up : suc (order + 1) ≡ order + 1 + 1 = omega arith in
      div-div-eq-div-mul v (2 ^ (order + 1)) 2
      ∙ ap (λ (k : ℕ). v / k) (sym (pow-suc 2 (order + 1)) ∙ ap (λ (k : ℕ). 2 ^ k) up)

  below_pow : (k : ℕ) → v / 2 ^ k ≡ 0 → v < 2 ^ k
  below_pow k e =
      let h =
        (div-lt_iff_lt-mul {k = 2 ^ k} {x = v} {y = 1} (one-le-pow k 2 (omega arith))).0
          (omega (arith, e)) in
      omega (arith, h)

  above_pow : (k : ℕ) → v / 2 ^ k ≢ 0 → 2 ^ k ≤ v
  above_pow k ne = elim (dec_lt v (2 ^ k)) [
    | no big ↦ omega (arith, big)
    | yes small ↦ absurd (ne (div-eq_of_lt small))
  ]

  IsFloor-loop :
      (rounds order : ℕ)
      → v < 2 ^ (order + 1 + rounds)
      → 2 ^ order ≤ v
      → IsFloor v (log2_loop rounds order (v / 2 ^ (order + 1)))
  unfolding log2_loop
  IsFloor-loop zero order h l = record {
    below = l;
    above = let e : order + 1 + 0 ≡ order + 1 = omega arith in rw e at h;
  }
  IsFloor-loop (suc rounds) order h l = elim (ℕ_discrete (v / 2 ^ (order + 1)) 0) [
    | yes e ↦ rw e (record { below = l; above = below_pow (order + 1) e })
    | no ne ↦
        let same : order + 1 + suc rounds ≡ order + 1 + 1 + rounds = omega arith in
        rw (==_false _ 0 ne, next_half order)
          (IsFloor-loop rounds (order + 1) (rw same at h) (above_pow (order + 1) ne))
  ]

  -- A word that is no power of 2 is strictly below the power of 2 that `log2` gives, and above the one before.
  pub log2-above :
      v < 2 ^ 64
      → v ≢ 0
      → is_pow2_64 v ≡ false
      → (r : ℕ) × (log2 v ≡ r + 1) × (2 ^ r ≤ v) × (v < 2 ^ (r + 1))
  unfolding log2
  log2-above small some_bit no_pow =
      let wide : v < 2 ^ (0 + 1 + 64) = omega (arith, small) in
      let f = IsFloor-loop 64 0 wide (omega (arith, some_bit)) in
      (log2_loop 64 0 (v / 2), rw (==_false v 0 some_bit, no_pow) refl, f.below, f.above)

  -- `log2` of a power of 2 is not above it.
  pub log2-power : v < 2 ^ 64 → v ≢ 0 → is_pow2_64 v ≡ true → 2 ^ log2 v ≤ v
  unfolding log2
  log2-power small some_bit pow =
      let wide : v < 2 ^ (0 + 1 + 64) = omega (arith, small) in
      rw (==_false v 0 some_bit, pow) (IsFloor-loop 64 0 wide (omega (arith, some_bit))).below
