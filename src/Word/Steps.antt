-- ===== src/Word/Steps.antt =====
-- One step of each scan.
use native.Mathlib.Nat.{one-le-pow, mod-eq_of_lt, mul_assoc, div-add-mod', mul-mod_left}
use twan.Base.{
  ℕ, ◌+◌, ◌-◌, ◌*◌, ◌/◌, ◌%◌, ◌^◌, ◌≤◌, ◌<◌, ◌≡◌, ◌≢◌, sym, ap, ◌∙◌, ◌↔◌, true, false, inl, inr,
  bit_and, arith, ◌==◌, ==_iff, Bool-cases,
}
use twan.Bits.Masks.{bit_and_low}
use twan.Bits.Scan.{high_test, pow-add}
use twan.Word.{shift_up, shift_down}

-- `x` is `v` with its low zeros cut: `bit` of them.
pub record IsCut (v : ℕ) (at : ℕ × ℕ) (w : ℕ) : Type 0 where
  pub value : v ≡ at.0 * 2 ^ at.1
  pub left : at.0 % 2 ^ w ≢ 0

mod_square : (p x : ℕ) → 0 < p → x % p ≡ 0 → x / p % p ≡ 0 → x % (p * p) ≡ 0
mod_square p x h e f =
    let flat : x ≡ x / p / p * (p * p) =
      grind (arith, div-add-mod' x p, div-add-mod' (x / p) p, mul_assoc (x / p / p) p p) in
    ap (λ (t : ℕ). t % (p * p)) flat ∙ mul-mod_left (x / p / p) (p * p)

pub shift_down-IsCut :
    (v w : ℕ) (at : ℕ × ℕ) → IsCut v at (w + w) → IsCut v (shift_down (2 ^ w - 1) w at) w
unfolding shift_down
shift_down-IsCut v w (x, b) c = elim (Bool-cases (bit_and x (2 ^ w - 1) == 0)) [
  | inl z ↦ rw z (record { value = value (zero_of z); left = left (zero_of z) })
  | inr nz ↦ rw nz (record {
    value = c.value;
    left = λ e. keep (rw nz at ((==_iff _ _).1 (bit_and_low w x ∙ e)));
  })
]
  where
    zero_of : (bit_and x (2 ^ w - 1) == 0) ≡ true → x % 2 ^ w ≡ 0
    zero_of z = sym (bit_and_low w x) ∙ (==_iff _ _).0 z

    value : x % 2 ^ w ≡ 0 → v ≡ x / 2 ^ w * 2 ^ (b + w)
    value e =
        c.value
        ∙ grind (arith, div-add-mod' x (2 ^ w), pow-add b w, mul_assoc (x / 2 ^ w) (2 ^ w) (2 ^ b))

    keep : false ≡ true → ⊥
    keep e = cc

    left : x % 2 ^ w ≡ 0 → x / 2 ^ w % 2 ^ w ≢ 0
    left e f = c.left (rw (pow-add w w) (mod_square (2 ^ w) x (one-le-pow w 2 (omega arith)) e f))

-- `x` is `v` moved up by `n - 1 - bit` places, and reaches into the top `w` bits.
pub record IsRaised (n v : ℕ) (at : ℕ × ℕ) (w : ℕ) : Type 0 where
  pub value : at.0 ≡ v * 2 ^ (n - 1 - at.1)
  pub bit_in : at.1 < n
  pub fits : at.0 < 2 ^ n
  pub high : 2 ^ (n - w) ≤ at.0
  pub room : w ≤ at.1 + 1

pub shift_up-IsRaised :
    (n v w : ℕ) (at : ℕ × ℕ)
    → 0 < w
    → w + w ≤ n
    → IsRaised n v at (w + w)
    → IsRaised n v (shift_up n ((2 ^ w - 1) * 2 ^ (n - w)) w at) w
unfolding shift_up
shift_up-IsRaised n v w (x, b) pos le r =
    elim (Bool-cases (bit_and x ((2 ^ w - 1) * 2 ^ (n - w)) == 0)) [
      | inl z ↦
          rw (z, moved (small z))
            (record {
              value = value;
              bit_in = omega arith;
              fits = below (small z);
              high = high;
              room = omega arith;
            })
      | inr nz ↦ rw nz (record {
        value = r.value;
        bit_in = r.bit_in;
        fits = r.fits;
        high = stay nz;
        room = omega arith;
      })
    ]
  where
    split : 2 ^ n ≡ 2 ^ (n - w) * 2 ^ w
    split = rw (sym (pow-add (n - w) w)) (ap (λ (t : ℕ). 2 ^ t) (omega arith))

    test : (bit_and x ((2 ^ w - 1) * 2 ^ (n - w)) ≡ 0) ↔ (x < 2 ^ (n - w))
    test = high_test (n - w) w x (rw (← split) r.fits)

    small : (bit_and x ((2 ^ w - 1) * 2 ^ (n - w)) == 0) ≡ true → x < 2 ^ (n - w)
    small z = test.0 ((==_iff _ _).0 z)

    below : x < 2 ^ (n - w) → x * 2 ^ w < 2 ^ n
    below l = grind (arith, split, one-le-pow w 2 (omega arith))

    stay : (bit_and x ((2 ^ w - 1) * 2 ^ (n - w)) == 0) ≡ false → 2 ^ (n - w) ≤ x
    stay nz = grind (arith, test)

    value : x * 2 ^ w ≡ v * 2 ^ (n - 1 - (b - w))
    value =
        let e : n - 1 - (b - w) ≡ n - 1 - b + w = omega arith in
        rw (e, pow-add (n - 1 - b) w)
          (grind (arith, r.value, mul_assoc v (2 ^ (n - 1 - b)) (2 ^ w)))

    high : 2 ^ (n - w) ≤ x * 2 ^ w
    high =
        let e : n - w ≡ n - (w + w) + w = omega arith in
        rw (e, pow-add (n - (w + w)) w) (grind (arith, r.high))

    moved : x < 2 ^ (n - w) → x * 2 ^ w % 2 ^ n ≡ x * 2 ^ w
    moved l = mod-eq_of_lt (below l)
