-- ===== src/Tlsf/Heap/Insert.antt =====
-- `__tlsf_insert_free_block` puts a block first in its list.
use native.Mathlib.Nat.{pow-le-pow_right, pow-suc, one-le-pow}
use twan.Base.{
  ℕ, suc, ◌≤◌, ◌^◌, ◌<◌, ◌≡◌, ap, ◌∙◌, false, ◌&&◌, ◌∷◌, arith, ◌==◌, if◌then◌else◌, bit_or,
}
use twan.Bits.Masks.{bit_of, bit_of-or, bit_of-pow, bit_of-le-one, bit_or-lt, bit_of-zero}
use twan.Dq.{dq, dq_pushfront}
use twan.Dq.Chain.{last_or, IsDq-frame}
use twan.Dq.Insert.{Holds, dq_pushfront_lem}
use twan.Tlsf.Heap.{Tlsf, tlsf_insert_free_block}
use twan.Tlsf.Heap.Lists.{
  FreeLists, put, IsList, ends, IsFreeLists, IsUnlisted, IsDq-ends, insert_store, Replaced,
  replaced,
}

pub pow-lt : (k n : ℕ) → k < n → 2 ^ k < 2 ^ n
pow-lt k n l =
    let next : 2 ^ suc k ≤ 2 ^ n = pow-le-pow_right (omega arith) l in
    omega (arith, next, pow-suc 2 k, one-le-pow k 2 (omega arith))

-- A word that has a bit is not 0.
pub nonzero : (x i : ℕ) → bit_of x i ≡ 1 → (x == 0) ≡ false
nonzero x i h = ground (arith, bit_of-zero i)

module _ (t : Tlsf) (lists : FreeLists) (block fli sli : ℕ) (ok : IsFreeLists t lists)
    (l : IsList fli sli) (free : IsUnlisted lists block) where
  u : Tlsf
  u = tlsf_insert_free_block t block fli sli

  insert-bits :
      (f s : ℕ)
      → IsList f s
      → bit_of (u.sl_bitmaps f) s
        ≡ (if (f == fli) && (s == sli) then 1 else bit_of (t.sl_bitmaps f) s)
  unfolding u tlsf_insert_free_block
  insert-bits f s k = ground (
    arith,
    bit_of-or (t.sl_bitmaps fli) (2 ^ sli) s,
    bit_of-pow sli s,
    bit_of-le-one (t.sl_bitmaps fli) s,
  )

  insert-rows : (f : ℕ) → f < 28 → bit_of u.fl_bitmap f ≡ (if u.sl_bitmaps f == 0 then 0 else 1)
  unfolding u tlsf_insert_free_block
  insert-rows f k = ground (
    arith,
    bit_of-or t.fl_bitmap (2 ^ fli) f,
    bit_of-pow fli f,
    bit_of-le-one t.fl_bitmap f,
    ok.rows f k,
    nonzero (bit_or (t.sl_bitmaps fli) (2 ^ sli)) sli (
        ground (
          arith,
          bit_of-or (t.sl_bitmaps fli) (2 ^ sli) sli,
          bit_of-pow sli sli,
          bit_of-le-one (t.sl_bitmaps fli) sli,
        )),
  )

  insert-words : (f : ℕ) → f < 28 → u.sl_bitmaps f < 2 ^ 32
  unfolding u tlsf_insert_free_block
  insert-words f k = ground (
    arith,
    ok.words f k,
    bit_or-lt 32 (t.sl_bitmaps fli) (2 ^ sli) (ok.words fli l.0) (pow-lt sli 32 l.1),
  )

  pushed : Holds t.free (block ∷ lists fli sli) (dq_pushfront block (t.free, ends (lists fli sli)))
  pushed =
      dq_pushfront_lem t.free (ends (lists fli sli)) (lists fli sli) block (ok.chains fli sli l)
        (free.1 fli sli l) free.0

  store : (a : ℕ) → u.free a ≡ (dq_pushfront block (t.free, ends (lists fli sli))).0 a
  unfolding u
  store a =
      insert_store t block fli sli (last_or 0 (lists fli sli)) a
      ∙ ap (λ h. (dq_pushfront block (t.free, dq h (last_or 0 (lists fli sli)))).0 a)
          (ok.heads fli sli l)

  insert-head : u.blocks fli sli ≡ block
  unfolding u tlsf_insert_free_block
  insert-head = ground arith

  insert-other_heads : (f s : ℕ) → ((f == fli) && (s == sli)) ≡ false → u.blocks f s ≡ t.blocks f s
  unfolding u tlsf_insert_free_block
  insert-other_heads f s h = ground arith

  inserted : Replaced t u lists fli sli (block ∷ lists fli sli) (block ∷ lists fli sli)
  unfolding u tlsf_insert_free_block
  inserted = record {
    head = insert-head;
    other_heads = insert-other_heads;
    chain =
        IsDq-frame _ u.free (ends (block ∷ lists fli sli)) (block ∷ lists fli sli) (λ a h. store a)
          (IsDq-ends _ _ (block ∷ lists fli sli) pushed.0);
    same = λ a h. store a ∙ pushed.1 a h;
    others = λ f s a k e h.
        ground (arith, ok.apart f s fli sli a k l h, free.1 f s k, ok.apart f s fli sli a k l h);
    sub = λ a h. h;
    words = insert-words;
    row_word = bit_or-lt 28 t.fl_bitmap (2 ^ fli) ok.row_word (pow-lt fli 28 l.0);
    bits = insert-bits;
    rows = insert-rows;
  }

  -- Under the invariant, `__tlsf_insert_free_block` of a block that is not NULL and in no list puts it first
  -- in a list of the table, leaves every other list as it was, and keeps the invariant: the chains run both
  -- ways and the two levels of bits tell exactly the lists and the rows that are not empty.
  pub tlsf_insert_free_block_lem :
      IsFreeLists
        (tlsf_insert_free_block t block fli sli)
        (put lists fli sli (block ∷ lists fli sli))
  unfolding u
  tlsf_insert_free_block_lem =
      replaced t u lists fli sli (block ∷ lists fli sli) (block ∷ lists fli sli) ok inserted
