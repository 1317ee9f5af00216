-- ===== src/Tlsf/Heap/Search.antt =====
-- `__tlsf_search_suitable_block` finds the first list, from a given one on, that has a block.
use native.Mathlib.Nat.{one-le-pow}
use mathlib.Core.Path.{subst}
use twan.Base.{
  ℕ, suc, ◌+◌, ◌-◌, ◌*◌, ◌%◌, ◌^◌, ◌≤◌, ◌<◌, ◌≡◌, ◌⊎◌, inl, inr, refl, sym, ap, ◌∙◌, true, false,
  Option, none, some, arith, ◌==◌, if◌then◌else◌, bit_and, leb, ℕ_discrete, dec_lt,
}
use twan.Bits.Masks.{
  bit_of, bit_of-and, bit_of-le-one, bit_and-le, bit_of-zero, bit_of_high, bit_of-not, bit_of-ones,
}
use twan.Word.{ffs32}
use twan.Word.Lowest.{IsLowest, ffs32_nonzero, ffs32-zero}
use twan.Dq.Chain.{is_nil, first_or}
use twan.Tlsf.Heap.Insert.{pow-lt, nonzero}
use twan.Tlsf.Heap.{Tlsf, first_list, tlsf_search_suitable_block}
use twan.Tlsf.Heap.Lists.{FreeLists, IsList, IsFreeLists}

-- The list (g, r) comes at or after the list (f, s).
abbrev pub IsFrom : (f s g r : ℕ) → Type 0
IsFrom f s g r = ((f ≡ g) × (s ≤ r)) ⊎ (f < g)

-- the block `b` of the list (g, r) is the first block of the first list from (f, s) on that has one
pub record IsFound (lists : FreeLists) (f s : ℕ) (found : ℕ × ℕ × ℕ) : Type 0 where
  pub is_list : IsList found.1 found.2
  pub from : IsFrom f s found.1 found.2
  pub some_block : is_nil (lists found.1 found.2) ≡ false
  pub is_first : found.0 ≡ first_or 0 (lists found.1 found.2)
  pub skipped :
      (g r : ℕ)
      → IsList g r
      → IsFrom f s g r
      → IsFrom g (suc r) found.1 found.2
      → is_nil (lists g r) ≡ true

abbrev pub Found : FreeLists → (f s : ℕ) → Option (ℕ × ℕ × ℕ) → Type 0
Found lists f s none = (g r : ℕ) → IsList g r → IsFrom f s g r → is_nil (lists g r) ≡ true
Found lists f s (some found) = IsFound lists f s found

-- The bits from `s` on, as the mask with the shift has them.
bit_of-from :
    (s i : ℕ)
    → s < 32
    → i < 32
    → bit_of (0xffff_ffff * 2 ^ s % 2 ^ 32) i ≡ (if leb s i then 1 else 0)
bit_of-from s i hs hi =
    let pos : 0 < 2 ^ s = one-le-pow s 2 (omega arith) in
    let whole : 0xffff_ffff * 2 ^ s % 2 ^ 32 ≡ 2 ^ 32 - 1 - (2 ^ s - 1) =
      omega (arith, pos, pow-lt s 32 hs) in
    rw whole (
      ground
        (arith, bit_of-not 32 (2 ^ s - 1) i (omega (arith, pow-lt s 32 hs)) hi, bit_of-ones s i))

bit_of-masked :
    (w s i : ℕ)
    → s < 32
    → i < 32
    → bit_of (bit_and w (0xffff_ffff * 2 ^ s % 2 ^ 32)) i ≡ (if leb s i then bit_of w i else 0)
bit_of-masked w s i hs hi =
    ground (
      arith,
      bit_of-and w (0xffff_ffff * 2 ^ s % 2 ^ 32) i,
      bit_of-from s i hs hi,
      bit_of-le-one w i,
    )

-- `ffs32` of a word, or of one that is 0
pub lowest : (w : ℕ) → w < 2 ^ 32 → ((w ≡ 0) × (ffs32 w ≡ none)) ⊎ IsLowest 32 w (ffs32 w)
lowest w fits = elim (ℕ_discrete w 0) [
  | yes e ↦ inl (e, ap ffs32 e ∙ ffs32-zero)
  | no ne ↦ inr (ffs32_nonzero w fits ne)
]

module _ (t : Tlsf) (lists : FreeLists) (f s : ℕ) (ok : IsFreeLists t lists) (l : IsList f s) where
  w1 : ℕ
  w1 = bit_and (t.sl_bitmaps f) (0xffff_ffff * 2 ^ s % 2 ^ 32)

  w2 : ℕ
  w2 = bit_and t.fl_bitmap (0xffff_ffff * 2 ^ (f + 1) % 2 ^ 32)

  w1-bit : (i : ℕ) → i < 32 → bit_of w1 i ≡ (if leb s i then bit_of (t.sl_bitmaps f) i else 0)
  unfolding w1
  w1-bit i h = bit_of-masked (t.sl_bitmaps f) s i l.1 h

  w2-bit : (i : ℕ) → i < 32 → bit_of w2 i ≡ (if leb (f + 1) i then bit_of t.fl_bitmap i else 0)
  unfolding w2
  w2-bit i h = bit_of-masked t.fl_bitmap (f + 1) i (omega (arith, l.0)) h

  -- the list of a bit of a row
  nil_of : (g r : ℕ) → IsList g r → bit_of (t.sl_bitmaps g) r ≡ 0 → is_nil (lists g r) ≡ true
  nil_of g r k h = ground (arith, ok.bits g r k)

  full_of : (g r : ℕ) → IsList g r → bit_of (t.sl_bitmaps g) r ≡ 1 → is_nil (lists g r) ≡ false
  full_of g r k h = ground (arith, ok.bits g r k)

  -- a row that has no bit in the first bitmap
  nil_row : (g r : ℕ) → IsList g r → bit_of t.fl_bitmap g ≡ 0 → is_nil (lists g r) ≡ true
  nil_row g r k h = nil_of g r k (
      let empty : t.sl_bitmaps g ≡ 0 = ground (arith, ok.rows g k.0) in
      ap (λ (w : ℕ). bit_of w r) empty ∙ bit_of-zero r)

  nil_same : (g r : ℕ) → f ≡ g → is_nil (lists f r) ≡ true → is_nil (lists g r) ≡ true
  nil_same g r e = subst (λ (h : ℕ). is_nil (lists h r) ≡ true) e

  first_list_found : (g w i : ℕ) → ffs32 w ≡ some i → first_list t g w ≡ some (t.blocks g i, g, i)
  unfolding first_list
  first_list_found g w i e = rw (first_list, e) refl

  -- The row of the start has a list.
  in_row : IsLowest 32 w1 (ffs32 w1) → Found lists f s (first_list t f w1)
  in_row low = subst (Found lists f s) (sym (first_list_found f w1 low.bit low.found)) (record {
    is_list = (l.0, low.bit_in);
    from = inl (refl, bit_from.0);
    some_block = full_of f low.bit (l.0, low.bit_in) bit_from.1;
    is_first = ok.heads f low.bit (l.0, low.bit_in);
    skipped = λ g r k from before. skipped g r k from before;
  })
    where
      bit_from : (s ≤ low.bit) × (bit_of (t.sl_bitmaps f) low.bit ≡ 1)
      bit_from = ground (arith, w1-bit low.bit low.bit_in, low.first.is_set)

      skipped :
          (g r : ℕ)
          → IsList g r
          → IsFrom f s g r
          → IsFrom g (suc r) f low.bit
          → is_nil (lists g r) ≡ true
      skipped g r k from before = elim (ℕ_discrete f g) [
        | no ne ↦ absurd (ground arith)
        | yes e ↦
            nil_same g r e (nil_of f r (l.0, k.1) (ground (arith, w1-bit r k.1, low.first.below r)))
      ]

  module _ (none_here : w1 ≡ 0) where
    -- No list of the start's row, from the start on.
    row_empty : (g r : ℕ) → IsList g r → f ≡ g → s ≤ r → is_nil (lists g r) ≡ true
    row_empty g r k e from = nil_same g r e (
        nil_of f r (l.0, k.1)
          (ground (arith, w1-bit r k.1, ap (λ (w : ℕ). bit_of w r) none_here, bit_of-zero r)))

    no_row : w2 ≡ 0 → (g r : ℕ) → IsList g r → IsFrom f s g r → is_nil (lists g r) ≡ true
    no_row z g r k (inl (e, from)) = row_empty g r k e from
    no_row z g r k (inr below) =
        nil_row g r k (
          ground
            (arith, w2-bit g (omega (arith, k.0)), ap (λ (w : ℕ). bit_of w g) z, bit_of-zero g))

    module _ (row : IsLowest 32 w2 (ffs32 w2)) where
      row_from : (f < row.bit) × (bit_of t.fl_bitmap row.bit ≡ 1)
      row_from = ground (arith, w2-bit row.bit row.bit_in, row.first.is_set)

      row_fits : row.bit < 28
      row_fits = elim (dec_lt row.bit 28) [
        | yes h ↦ h
        | no h ↦ absurd (
            omega (
              arith,
              row_from.1,
              bit_of_high 28 t.fl_bitmap row.bit ok.row_word (omega (arith, h)),
            ))
      ]

      in_next :
          IsLowest 32 (t.sl_bitmaps row.bit) (ffs32 (t.sl_bitmaps row.bit))
          → Found lists f s (first_list t row.bit (t.sl_bitmaps row.bit))
      in_next low =
          subst (Found lists f s)
            (sym (first_list_found row.bit (t.sl_bitmaps row.bit) low.bit low.found))
            (record {
              is_list = (row_fits, low.bit_in);
              from = inr row_from.0;
              some_block = full_of row.bit low.bit (row_fits, low.bit_in) low.first.is_set;
              is_first = ok.heads row.bit low.bit (row_fits, low.bit_in);
              skipped = λ g r k from before. skipped g r k from before;
            })
        where
          skipped :
              (g r : ℕ)
              → IsList g r
              → IsFrom f s g r
              → IsFrom g (suc r) row.bit low.bit
              → is_nil (lists g r) ≡ true
          skipped g r k (inl (e, from)) before = row_empty g r k e from
          skipped g r k (inr below) (inl (e, before)) =
              nil_of g r k (ap (λ (h : ℕ). bit_of (t.sl_bitmaps h) r) e ∙ low.first.below r before)
          skipped g r k (inr below) (inr before) =
              nil_row g r k
                (ground (arith, w2-bit g (omega (arith, k.0)), row.first.below g before))

  search_here : (w1 == 0) ≡ false → tlsf_search_suitable_block t f s ≡ first_list t f w1
  unfolding tlsf_search_suitable_block w1
  search_here e = rw e refl

  search_none : (w1 == 0) ≡ true → ffs32 w2 ≡ none → tlsf_search_suitable_block t f s ≡ none
  unfolding tlsf_search_suitable_block w1 w2
  search_none e n = rw (e, n) refl

  search_next :
      (g : ℕ)
      → (w1 == 0) ≡ true
      → ffs32 w2 ≡ some g
      → tlsf_search_suitable_block t f s ≡ first_list t g (t.sl_bitmaps g)
  unfolding tlsf_search_suitable_block w1 w2
  search_next g e n = rw (e, n) refl

  w1_fits : w1 < 2 ^ 32
  unfolding w1
  w1_fits =
      omega (arith, bit_and-le (t.sl_bitmaps f) (0xffff_ffff * 2 ^ s % 2 ^ 32), ok.words f l.0)

  w2_fits : w2 < 2 ^ 32
  unfolding w2
  w2_fits = omega (arith, bit_and-le t.fl_bitmap (0xffff_ffff * 2 ^ (f + 1) % 2 ^ 32), ok.row_word)

  next_row :
      (z : w1 ≡ 0) (row : IsLowest 32 w2 (ffs32 w2))
      → Found lists f s (first_list t row.bit (t.sl_bitmaps row.bit))
  next_row z row = elim (lowest (t.sl_bitmaps row.bit) (ok.words row.bit (row_fits z row))) [
    | inl (e, n) ↦ absurd (ground (arith, ok.rows row.bit (row_fits z row), (row_from z row).1))
    | inr low ↦ in_next z row low
  ]

  -- Under the invariant, from a list (fli, sli) of the table on, `__tlsf_search_suitable_block` returns the
  -- first block of the first list that has one, in the order of the ranges of sizes, with the indices of that
  -- list; it returns NULL exactly if all of them are empty.
  pub tlsf_search_suitable_block_lem : Found lists f s (tlsf_search_suitable_block t f s)
  tlsf_search_suitable_block_lem = elim (lowest w1 w1_fits) [
    | inl (z, n) ↦ elim (lowest w2 w2_fits) [
      | inl (z2, n2) ↦
          subst (Found lists f s) (sym (search_none (ground (arith, z)) n2)) (no_row z z2)
      | inr row ↦
          subst (Found lists f s) (sym (search_next row.bit (ground (arith, z)) row.found))
            (next_row z row)
    ]
    | inr low ↦
        subst (Found lists f s) (sym (search_here (nonzero w1 low.bit low.first.is_set)))
          (in_row low)
  ]
