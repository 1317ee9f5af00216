-- ===== src/Bitmap/Scan.antt =====
-- `bmp256_ffs` and `bmp256_fls` return the lowest and the highest member of the set.
use twan.Base.{
  ℕ, ◌+◌, ◌-◌, ◌*◌, ◌/◌, ◌%◌, ◌^◌, ◌≤◌, ◌<◌, ◌≡◌, refl, true, false, not, Option, none, some, arith,
  ◌==◌, dec_lt, ℕ_discrete,
}
use twan.Bits.Masks.{bit_of, bit_of-zero}
use twan.Word.{ffs64, fls64}
use twan.Word.Highest.{IsHighest, fls64_nonzero, fls64-zero}
use twan.Word.Lowest.{IsLowest, ffs64_nonzero, ffs64-zero}
use twan.Bitmap.{Bmp256, bmp256_test, bmp256_ffs, bmp256_fls, or_else}
use twan.Bitmap.Laws.{IsWords, test-bit_of}

module _ (m : Bmp256) where
  -- the highest member below `n`, or that there is none
  abbrev pub HighestBelow : ℕ → Option ℕ → Type 0
  HighestBelow n none = (c : ℕ) → c < n → bmp256_test m c ≡ false
  HighestBelow n (some r) =
      (r < n) × (bmp256_test m r ≡ true) × ((c : ℕ) → r < c → c < n → bmp256_test m c ≡ false)

  -- the lowest member of at least `n`, or that there is none
  abbrev pub LowestFrom : ℕ → Option ℕ → Type 0
  LowestFrom n none = (c : ℕ) → n ≤ c → c < 256 → bmp256_test m c ≡ false
  LowestFrom n (some r) =
      (n ≤ r)
      × (r < 256)
      × (bmp256_test m r ≡ true)
      × ((c : ℕ) → n ≤ c → c < r → bmp256_test m c ≡ false)

  test_at : (k c : ℕ) → c / 64 ≡ k → bmp256_test m c ≡ not (bit_of (m.bmp k) (c - 64 * k) == 0)
  test_at k c e = let off : c % 64 ≡ c - 64 * k = omega arith in ground (arith, test-bit_of m c)

  test_zero : (k c : ℕ) → c / 64 ≡ k → bit_of (m.bmp k) (c - 64 * k) ≡ 0 → bmp256_test m c ≡ false
  test_zero k c e z = ground (arith, test_at k c e)

  test_one : (k b : ℕ) → b < 64 → bit_of (m.bmp k) b ≡ 1 → bmp256_test m (64 * k + b) ≡ true
  test_one k b l o =
      let e : 64 * k + b - 64 * k ≡ b = omega arith in
      ground (arith, test_at k (64 * k + b) (omega arith))

  module _ (k : ℕ) (ok : m.bmp k < 2 ^ 64) where
    highest_step :
        (rest : Option ℕ)
        → HighestBelow (64 * k) rest
        → HighestBelow (64 * k + 64) (or_else (64 * k) (fls64 (m.bmp k)) rest)
    highest_step rest h = elim (ℕ_discrete (m.bmp k) 0) [
      | yes z ↦ rw (z, fls64-zero) (empty rest h z)
      | no nz ↦ found (fls64_nonzero (m.bmp k) ok nz)
    ]
      where
        empty :
            (rest : Option ℕ)
            → HighestBelow (64 * k) rest
            → m.bmp k ≡ 0
            → HighestBelow (64 * k + 64) rest
        empty none h z = λ c l. elim (dec_lt c (64 * k)) [
          | yes below ↦ h c below
          | no l' ↦ test_zero k c (omega arith) (rw z (bit_of-zero (c - 64 * k)))
        ]
        empty (some r) h z = (
          omega arith,
          h.1,
          λ c l l'. elim (dec_lt c (64 * k)) [
            | yes below ↦ h.2 c l below
            | no n ↦ test_zero k c (omega arith) (rw z (bit_of-zero (c - 64 * k)))
          ],
        )

        found :
            IsHighest 64 (m.bmp k) (fls64 (m.bmp k))
            → HighestBelow (64 * k + 64) (or_else (64 * k) (fls64 (m.bmp k)) rest)
        found f =
            let e : f.bit + 64 * k ≡ 64 * k + f.bit = omega arith in
            rw (f.found, e)
              (
                omega (arith, f.bit_in),
                test_one k f.bit f.bit_in f.last.is_set,
                λ c l l'. test_zero k c (omega arith) (f.last.above (c - 64 * k) (omega arith)),
              )

    lowest_step :
        (rest : Option ℕ)
        → k < 4
        → LowestFrom (64 * k + 64) rest
        → LowestFrom (64 * k) (or_else (64 * k) (ffs64 (m.bmp k)) rest)
    lowest_step rest hk h = elim (ℕ_discrete (m.bmp k) 0) [
      | yes z ↦ rw (z, ffs64-zero) (empty rest h z)
      | no nz ↦ found (ffs64_nonzero (m.bmp k) ok nz)
    ]
      where
        empty :
            (rest : Option ℕ)
            → LowestFrom (64 * k + 64) rest
            → m.bmp k ≡ 0
            → LowestFrom (64 * k) rest
        empty none h z = λ c l l'. elim (dec_lt c (64 * k + 64)) [
          | yes below ↦ test_zero k c (omega arith) (rw z (bit_of-zero (c - 64 * k)))
          | no n ↦ h c (omega arith) l'
        ]
        empty (some r) h z = (
          omega arith,
          h.1,
          h.2,
          λ c l l'. elim (dec_lt c (64 * k + 64)) [
            | yes below ↦ test_zero k c (omega arith) (rw z (bit_of-zero (c - 64 * k)))
            | no n ↦ h.3 c (omega arith) l'
          ],
        )

        found :
            IsLowest 64 (m.bmp k) (ffs64 (m.bmp k))
            → LowestFrom (64 * k) (or_else (64 * k) (ffs64 (m.bmp k)) rest)
        found f =
            let e : f.bit + 64 * k ≡ 64 * k + f.bit = omega arith in
            rw (f.found, e)
              (
                omega arith,
                omega (arith, f.bit_in),
                test_one k f.bit f.bit_in f.first.is_set,
                λ c l l'.
                    test_zero k c (omega (arith, f.bit_in))
                      (f.first.below (c - 64 * k) (omega arith)),
              )

or_else_zero : (o : Option ℕ) → or_else 0 o none ≡ o
or_else_zero none = refl
or_else_zero (some b) = ground arith

-- On words of 64 bits, `bmp256_fls` returns the highest member, and `none` exactly if the set is empty.
pub bmp256_fls_lem : (m : Bmp256) → IsWords m → HighestBelow m 256 (bmp256_fls m)
unfolding bmp256_fls
bmp256_fls_lem m ok =
    let nothing : HighestBelow m 0 none = λ c l. elim l [ ] in
    let h0 = rw or_else_zero at (highest_step m 0 (ok 0 (omega arith)) none nothing) in
    let h1 = highest_step m 1 (ok 1 (omega arith)) _ h0 in
    let h2 = highest_step m 2 (ok 2 (omega arith)) _ h1 in
    highest_step m 3 (ok 3 (omega arith)) _ h2

-- On words of 64 bits, `bmp256_ffs` returns the lowest member, and `none` exactly if the set is empty.
pub bmp256_ffs_lem : (m : Bmp256) → IsWords m → LowestFrom m 0 (bmp256_ffs m)
unfolding bmp256_ffs
bmp256_ffs_lem m ok =
    let nothing : LowestFrom m 256 none = λ c l l'. absurd (omega arith) in
    let l3 = lowest_step m 3 (ok 3 (omega arith)) none (omega arith) nothing in
    let l2 = lowest_step m 2 (ok 2 (omega arith)) _ (omega arith) l3 in
    let l1 = lowest_step m 1 (ok 1 (omega arith)) _ (omega arith) l2 in
    lowest_step m 0 (ok 0 (omega arith)) _ (omega arith) l1
