-- ===== src/Tlsf/Map/Bins.antt =====
-- Which sizes belong to which list.
use mathlib.Core.Path.{subst}
use native.Mathlib.Nat.{
  mod-eq_of_lt, mod-lt, pow-suc, one-le-pow, pow-le-pow_right, div-add-mod', le-div_iff_mul-le,
  div-lt_iff_lt-mul,
}
use native.Mathlib.Numerals.{add-one}
use twan.Base.{
  ℕ, suc, ◌+◌, ◌-◌, ◌*◌, ◌/◌, ◌%◌, ◌^◌, ◌≤◌, ◌<◌, ◌≡◌, inl, inr, refl, sym, ap, ◌∙◌, true, false,
  bit_and, arith, ◌==◌, ltb, leb, if◌then◌else◌, Bool-cases, Option-cases, dec_lt,
}
use twan.Bits.Masks.{
  bit_of, bit_and_low, bit_of_high, bit_of-and, bit_of-ones, bit_of-le-one, bit_and-le, eq_of_bits,
}
use twan.Bits.Scan.{pow-add, IsLast}
use twan.Word.{fls32}
use twan.Word.Highest.{fls32_nonzero}
use twan.Tlsf.Map.{tlsf_map, map_from, fl_shift, sl_count, max_alloc}

-- The size that a list is named for: each block that is inserted into the list is of this size or smaller.
abbrev pub bound : (fli sli : ℕ) → ℕ
bound fli sli = if fli == 0 then sli else 2 ^ fli + sli * 2 ^ (fli - 5)

-- What the map returns: the least bound that is no less than the size.
pub record IsBin (size : ℕ) (bin : ℕ × ℕ) : Type 0 where
  pub row : bin.0 ≤ fl_shift
  pub column : bin.1 < sl_count
  pub covers : size ≤ bound bin.0 bin.1
  pub close : bound bin.0 bin.1 < size + 2 ^ (bin.0 - 5)

-- the number behind the bits of `map_from`
map_from-div :
    (size fli : ℕ)
    → map_from size fli ≡ (
        let unit = 2 ^ (fli - 5) in
        let sli = size / unit % 32 in
        let rounded : ℕ × ℕ =
          if size % unit == 0
          then (fli, sli)
          else if leb 32 (sli + 1)
          then (fli + 1, 0)
          else (fli, sli + 1) in
        (if ltb 27 rounded.0 then 27 else rounded.0, rounded.1))
unfolding map_from
map_from-div size fli = rw (bit_and_low 5 (size / 2 ^ (fli - 5)), bit_and_low (fli - 5) size)

-- A word lies in the range of its last bit.
last_range : (x f : ℕ) → x < 2 ^ 32 → IsLast x f → (2 ^ f ≤ x) × (x < 2 ^ suc f)
last_range x f small last = (lower, upper)
  where
    lower : 2 ^ f ≤ x
    lower = elim (dec_lt x (2 ^ f)) [
      | yes l ↦ absurd (omega (arith, bit_of_high f x f l (omega arith), last.is_set))
      | no l ↦ omega (arith, l)
    ]

    digit : (i : ℕ) → bit_of x i ≡ bit_of (bit_and x (2 ^ suc f - 1)) i
    digit i = ground (
      arith,
      bit_of-and x (2 ^ suc f - 1) i,
      bit_of-ones (suc f) i,
      bit_of-le-one x i,
      last.above i,
    )

    low : x ≡ x % 2 ^ suc f
    low =
        eq_of_bits 32 x (bit_and x (2 ^ suc f - 1)) small
          (omega (arith, bit_and-le x (2 ^ suc f - 1), small)) (λ i l. digit i)
        ∙ bit_and_low (suc f) x

    upper : x < 2 ^ suc f
    upper = rw low (mod-lt x (one-le-pow (suc f) 2 (omega arith)))

-- The rounding, on the parts of a size in units of the row: the size is `32 + k` units and `r` more.
rounding : (size u k r : ℕ) → size ≡ (32 + k) * u + r → r < u → record {
  whole : r ≡ 0 → (32 * u + k * u ≡ size);
  up : 0 < r → (size ≤ 32 * u + (k + 1) * u) × (32 * u + (k + 1) * u < size + u);
  carry : 0 < r → k ≡ 31 → (size ≤ 64 * u) × (64 * u < size + u);
}
rounding size u k r e l =
    let parts : (32 + k) * u ≡ 32 * u + k * u = grind arith in
    let next : (k + 1) * u ≡ k * u + u = grind arith in
    record {
      whole = λ z. omega (arith, e, parts, z);
      up = λ p. omega (arith, e, parts, next, l, p);
      carry = λ p z. omega (arith, e, parts, ap (λ (t : ℕ). t * u) z, l, p);
    }

-- A size of the row `f`: its units, and how many there are.
record IsRow (size f : ℕ) : Type 0 where
  not_first : 5 ≤ f
  in_rows : f ≤ 27
  base : 2 ^ f ≡ 32 * 2 ^ (f - 5)
  next_base : 2 ^ suc f ≡ 64 * 2 ^ (f - 5)
  next_unit : 2 ^ (f - 5) ≤ 2 ^ (suc f - 5)
  units : (32 ≤ size / 2 ^ (f - 5)) × (size / 2 ^ (f - 5) < 64)

IsRow-of : (size f : ℕ) → 32 ≤ size → size ≤ 2 ^ 27 → 2 ^ f ≤ size → size < 2 ^ suc f → IsRow size f
IsRow-of size f large small lower upper =
    let not_first : 5 ≤ f = elim (dec_lt f 5) [
      | yes l ↦
          let few : 2 ^ suc f ≤ 2 ^ 5 = pow-le-pow_right (omega arith) {j = 5} (omega arith) in
          absurd (omega (arith, few, upper, large))
      | no l ↦ omega (arith, l)
    ] in
    let in_rows : f ≤ 27 = elim (dec_lt 27 f) [
      | yes l ↦
          let many : 2 ^ 28 ≤ 2 ^ f = pow-le-pow_right (omega arith) {i = 28} (omega arith) in
          absurd (omega (arith, many, lower, small))
      | no l ↦ omega (arith, l)
    ] in
    let whole : f ≡ 5 + (f - 5) = omega arith in
    let base : 2 ^ f ≡ 32 * 2 ^ (f - 5) = ap (λ (t : ℕ). 2 ^ t) whole ∙ pow-add 5 (f - 5) in
    let next_base : 2 ^ suc f ≡ 64 * 2 ^ (f - 5) = omega (arith, pow-suc 2 f, base) in
    let pos : 0 < 2 ^ (f - 5) = one-le-pow (f - 5) 2 (omega arith) in
    record {
      not_first = not_first;
      in_rows = in_rows;
      base = base;
      next_base = next_base;
      next_unit = pow-le-pow_right (omega arith) (omega arith);
      units = (
        (le-div_iff_mul-le pos).1 (omega (arith, base, lower)),
        (div-lt_iff_lt-mul pos).1 (omega (arith, next_base, upper)),
      );
    }

IsBin-of :
    (size f u k : ℕ)
    → IsRow size f
    → u ≡ 2 ^ (f - 5)
    → k < 32
    → size ≤ 32 * u + k * u
    → 32 * u + k * u < size + u
    → IsBin size (f, k)
IsBin-of size f u k row unit few lower upper =
    let f0 : (f == 0) ≡ false = ground (arith, row.not_first) in
    let at : k * 2 ^ (f - 5) ≡ k * u = ap (λ (t : ℕ). k * t) (sym unit) in
    record {
      row = row.in_rows;
      column = few;
      covers = rw f0 (omega (arith, row.base, at, unit, lower));
      close = rw f0 (omega (arith, row.base, at, unit, upper));
    }

next_row-IsBin :
    (size f u : ℕ)
    → 2 ^ suc f ≡ 64 * u
    → u ≡ 2 ^ (f - 5)
    → f < 27
    → IsRow size f
    → size ≤ 64 * u
    → 64 * u < size + u
    → IsBin size (f + 1, 0)
next_row-IsBin size f u base unit below row lower upper =
    let n0 : (f + 1 == 0) ≡ false = ground arith in
    let at : 2 ^ (f + 1) ≡ 2 ^ suc f = rw (add-one f) refl in
    let unit_at : 2 ^ (f + 1 - 5) ≡ 2 ^ (suc f - 5) = rw (add-one f) refl in
    record {
      row = omega (arith, below);
      column = omega arith;
      covers = rw n0 (omega (arith, at, base, lower));
      close = rw n0 (omega (arith, at, unit_at, base, upper, unit, row.next_unit));
    }

-- Only a size over 2 ^ 27 would be rounded out of the last row.
below_top :
    (size f u : ℕ) → 2 ^ f ≡ 32 * u → size ≤ 2 ^ 27 → 64 * u < size + u → IsRow size f → f < 27
below_top size f u base small over row = elim (dec_lt f 27) [
  | yes l ↦ l
  | no l ↦
      let last : f ≡ 27 = omega (arith, l, row.in_rows) in
      let top : 2 ^ f ≡ 2 ^ 27 = ap (λ (t : ℕ). 2 ^ t) last in
      absurd (omega (arith, top, base, small, over))
]

-- The rounded row and column of a size, whatever way the rounding goes.
rounded-IsBin :
    (size f u k r : ℕ)
    → size ≤ 2 ^ 27
    → IsRow size f
    → u ≡ 2 ^ (f - 5)
    → k < 32
    → r < u
    → size ≡ (32 + k) * u + r
    → (let rounded : ℕ × ℕ =
          if r == 0 then (f, k) else if leb 32 (k + 1) then (f + 1, 0) else (f, k + 1) in
        IsBin size (if ltb 27 rounded.0 then 27 else rounded.0, rounded.1))
rounded-IsBin size f u k r small row unit few l e =
    let parts = rounding size u k r e l in
    let base : 2 ^ f ≡ 32 * u = row.base ∙ ap (λ (t : ℕ). 32 * t) (sym unit) in
    let next_base : 2 ^ suc f ≡ 64 * u = row.next_base ∙ ap (λ (t : ℕ). 64 * t) (sym unit) in
    elim (dec_lt 0 r) [
      | yes p ↦ elim (dec_lt k 31) [
        | yes m ↦
            (let r0 : (r == 0) ≡ false = ground (arith, p) in
              let k0 : leb 32 (k + 1) ≡ false = ground (arith, m) in
              let f0 : ltb 27 f ≡ false = ground (arith, row.in_rows) in
              rw (r0, k0, f0)
                (IsBin-of size f u (k + 1) row unit (omega (arith, m)) (parts.up p).0
                  (parts.up p).1))
        | no m ↦
            (let r0 : (r == 0) ≡ false = ground (arith, p) in
              let k0 : leb 32 (k + 1) ≡ true = ground (arith, m) in
              let last : k ≡ 31 = omega (arith, m, few) in
              let carried = parts.carry p last in
              let below : f < 27 = below_top size f u base small carried.1 row in
              let f0 : ltb 27 (f + 1) ≡ false = ground (arith, below) in
              rw (r0, k0, f0)
                (next_row-IsBin size f u next_base unit below row carried.0 carried.1))
      ]
      | no p ↦
          (let r0 : (r == 0) ≡ true = ground (arith, p) in
            let f0 : ltb 27 f ≡ false = ground (arith, row.in_rows) in
            let whole = parts.whole (omega (arith, p)) in
            rw (r0, f0)
              (IsBin-of size f u k row unit few (omega (arith, whole)) (omega (arith, whole, l))))
    ]

map_from-IsBin : (size f : ℕ) → size ≤ 2 ^ 27 → IsRow size f → IsBin size (map_from size f)
map_from-IsBin size f small row =
    let u = 2 ^ (f - 5) in
    let pos : 0 < u = one-le-pow (f - 5) 2 (omega arith) in
    let k : size / u % 32 ≡ size / u - 32 = omega (arith, row.units.0, row.units.1) in
    let back : size / u ≡ 32 + (size / u - 32) = omega (arith, row.units.0) in
    rw (map_from-div size f, k)
      (rounded-IsBin size f u (size / u - 32) (size % u) small row refl (omega (arith, row.units.1))
        (mod-lt size pos) (sym (div-add-mod' size u) ∙ ap (λ (t : ℕ). t * u + size % u) back))

-- For a size up to TLSF_MAX_ALLOC, `__tlsf_map` returns the indices of a list of the table. The bound of that
-- list is no less than the size, and exceeds it by less than one unit of its row.
pub tlsf_map-IsBin : (size : ℕ) → size ≤ max_alloc → IsBin size (tlsf_map size)
unfolding tlsf_map
tlsf_map-IsBin size small = elim (Bool-cases (ltb size 32)) [
  | inl e ↦ rw e (record {
    row = omega arith;
    column = ground arith;
    covers = omega arith;
    close = omega arith;
  })
  | inr e ↦
      let whole : size % 2 ^ 32 ≡ size = mod-eq_of_lt (omega (arith, small)) in
      let high = fls32_nonzero size (omega (arith, small)) (ground (arith, e)) in
      let (lower, upper) = last_range size high.bit (omega (arith, small)) high.last in
      rw (e, whole, high.found)
        (map_from-IsBin size high.bit small
          (IsRow-of size high.bit (ground (arith, e)) small lower upper))
]

map_from-row :
    (size f k r : ℕ)
    → k < 32
    → (let rounded : ℕ × ℕ =
          if r == 0 then (f, k) else if leb 32 (k + 1) then (f + 1, 0) else (f, k + 1) in
        ((if ltb 27 rounded.0 then 27 else rounded.0) < 28) × (rounded.1 < 32))
map_from-row size f k r h = ground arith

-- Every size has a list.
pub tlsf_map-lt : (size : ℕ) → ((tlsf_map size).0 < 28) × ((tlsf_map size).1 < 32)
unfolding tlsf_map
tlsf_map-lt size = elim (Bool-cases (ltb size 32)) [
  | inl e ↦ rw e (omega arith, ground (arith, e))
  | inr e ↦ elim (Option-cases (fls32 (size % 2 ^ 32))) [
    | inl n ↦ rw (e, n) (omega arith, omega arith)
    | inr (f, b) ↦
        rw (e, b)
          (subst (λ (bin : ℕ × ℕ). (bin.0 < 28) × (bin.1 < 32)) (sym (map_from-div size f))
            (map_from-row size f (size / 2 ^ (f - 5) % 32) (size % 2 ^ (f - 5)) (omega arith)))
  ]
]
