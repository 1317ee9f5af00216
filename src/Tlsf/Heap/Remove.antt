-- ===== src/Tlsf/Heap/Remove.antt =====
-- `__tlsf_remove_free_block` takes a block out of its list.
use mathlib.Core.Bool.{false≢true}
use mathlib.Core.Path.{subst}
use twan.Base.{
  ℕ, ◌^◌, ◌<◌, ◌≡◌, ◌≢◌, refl, sym, ap, ◌∙◌, true, false, ◌&&◌, List, [], ◌∷◌, ◌++◌, arith, ◌==◌,
  if◌then◌else◌, bit_and,
}
use twan.Bits.Masks.{bit_of, bit_of-and, bit_of-pow, bit_of-not, bit_of-le-one, bit_and-le}
use twan.Dq.{dq_dequeue}
use twan.Dq.Chain.{has, is_nil, first_or, IsDq, IsDq-frame, has-append}
use twan.Dq.Remove.{IsMember, member-IsMember, Left, dq_dequeue_lem}
use twan.Tlsf.Heap.{Tlsf, not32, unset_bits, tlsf_remove_free_block}
use twan.Tlsf.Heap.Lists.{
  FreeLists, put, IsList, ends, IsFreeLists, IsDq-ends, remove_store, Replaced, replaced,
}
use twan.Tlsf.Heap.Insert.{pow-lt}

-- a word without one bit
bit_of-unset :
    (w s i : ℕ)
    → s < 32
    → i < 32
    → bit_of (bit_and w (not32 (2 ^ s))) i ≡ (if i == s then 0 else bit_of w i)
bit_of-unset w s i hs hi = ground (
  arith,
  bit_of-and w (not32 (2 ^ s)) i,
  bit_of-not 32 (2 ^ s) i (pow-lt s 32 hs) hi,
  bit_of-pow s i,
  bit_of-le-one w i,
)

module _ (t : Tlsf) (lists : FreeLists) (fli sli block : ℕ) (front back : List ℕ)
    (ok : IsFreeLists t lists) (l : IsList fli sli)
    (e : lists fli sli ≡ front ++ block ∷ back) where
  u : Tlsf
  u = tlsf_remove_free_block t block fli sli

  chain : IsDq t.free (ends (front ++ block ∷ back)) (front ++ block ∷ back)
  chain = subst (λ xs. IsDq t.free (ends xs) xs) e (ok.chains fli sli l)

  member : IsMember t.free front back block
  member = member-IsMember t.free (ends (front ++ block ∷ back)) front back block chain

  left :
      Left t.free
        (front ++ block ∷ back)
        block
        (front ++ back)
        (dq_dequeue block (t.free, ends (front ++ block ∷ back)))
  left = dq_dequeue_lem t.free (ends (front ++ block ∷ back)) front back block chain

  -- The head is the block exactly if the block is the first.
  head_first : (t.blocks fli sli == block) ≡ is_nil front
  head_first = is_first front (ok.heads fli sli l ∙ ap (first_or 0) e) member.not_before
    where
      is_first :
          (xs : List ℕ)
          → t.blocks fli sli ≡ first_or 0 (xs ++ block ∷ back)
          → has block xs ≡ false
          → (t.blocks fli sli == block) ≡ is_nil xs
      is_first [] h n = ground arith
      is_first (x ∷ xs) h n = ground arith

  next_first : ((t.free block).next == 0) ≡ is_nil back
  next_first =
      is_first back member.next_is (ground (arith, left.0.no_null, has-append 0 front back))
    where
      is_first :
          (xs : List ℕ)
          → (t.free block).next ≡ first_or 0 xs
          → has 0 xs ≡ false
          → ((t.free block).next == 0) ≡ is_nil xs
      is_first [] h n = ground arith
      is_first (x ∷ xs) h n = ground arith

  is_nil-both : is_nil (front ++ back) ≡ (is_nil front && is_nil back)
  is_nil-both = is_nil-append front
    where
      is_nil-append : (xs : List ℕ) → is_nil (xs ++ back) ≡ (is_nil xs && is_nil back)
      is_nil-append [] = refl
      is_nil-append (x ∷ xs) = refl

  -- what the call stores in the table and the bitmaps
  remove-word :
      (f : ℕ)
      → u.sl_bitmaps f ≡ (
          if (f == fli) && is_nil (front ++ back)
          then bit_and (t.sl_bitmaps fli) (not32 (2 ^ sli))
          else t.sl_bitmaps f)
  unfolding u tlsf_remove_free_block unset_bits
  remove-word f = rw (is_nil-both, ← head_first, ← next_first) (ground arith)

  remove-row_word : u.fl_bitmap ≡ (
      if is_nil (front ++ back) && (bit_and (t.sl_bitmaps fli) (not32 (2 ^ sli)) == 0)
      then bit_and t.fl_bitmap (not32 (2 ^ fli))
      else t.fl_bitmap)
  unfolding u tlsf_remove_free_block unset_bits
  remove-row_word = rw (is_nil-both, ← head_first, ← next_first) (ground arith)

  remove-block :
      (f s : ℕ)
      → u.blocks f s
        ≡ (if ((f == fli) && (s == sli)) && is_nil front then (t.free block).next else t.blocks f s)
  unfolding u tlsf_remove_free_block unset_bits
  remove-block f s = rw (← head_first) (ground arith)

  store :
      (a : ℕ) → a ≢ block → u.free a ≡ (dq_dequeue block (t.free, ends (front ++ block ∷ back))).0 a
  unfolding u
  store a =
      remove_store t block fli sli (ends (front ++ block ∷ back)) a
        (λ h. member.not_prev (h ∙ member.prev_is)) (λ h. member.not_next (h ∙ member.next_is))

  others_in : (a : ℕ) → has a (front ++ back) ≡ true → has a (front ++ block ∷ back) ≡ true
  others_in a h = ground (arith, has-append a front back, has-append a front (block ∷ back))

  block-not_in : has block (front ++ back) ≡ false
  block-not_in = ground (arith, has-append block front back, member.not_before, member.not_behind)

  block_in : has block (front ++ block ∷ back) ≡ true
  block_in = ground (arith, has-append block front (block ∷ back))

  remove-bits :
      (f s : ℕ)
      → IsList f s
      → bit_of (u.sl_bitmaps f) s ≡ (
          if (f == fli) && (s == sli)
          then if is_nil (front ++ back) then 0 else 1
          else bit_of (t.sl_bitmaps f) s)
  remove-bits f s k =
      rw (remove-word f)
        (ground (arith, bit_of-unset (t.sl_bitmaps fli) sli s l.1 k.1, ok.bits fli sli l, was_some))
    where
      was_some : is_nil (lists fli sli) ≡ false
      was_some = rw e (some_of front)
        where
          some_of : (xs : List ℕ) → is_nil (xs ++ block ∷ back) ≡ false
          some_of [] = refl
          some_of (x ∷ xs) = refl

  remove-rows : (f : ℕ) → f < 28 → bit_of u.fl_bitmap f ≡ (if u.sl_bitmaps f == 0 then 0 else 1)
  remove-rows f k =
      rw (remove-word f, remove-row_word)
        (ground (
          arith,
          bit_of-unset t.fl_bitmap fli f (omega (arith, l.0)) (omega (arith, k)),
          ok.rows f k,
          ok.rows fli l.0,
          bit_and-le (t.sl_bitmaps fli) (not32 (2 ^ sli)),
        ))

  remove-words : (f : ℕ) → f < 28 → u.sl_bitmaps f < 2 ^ 32
  remove-words f k = rw (remove-word f) (
      ground
        (arith, ok.words f k, ok.words fli l.0, bit_and-le (t.sl_bitmaps fli) (not32 (2 ^ sli))))

  remove-row_fits : u.fl_bitmap < 2 ^ 28
  remove-row_fits =
      rw remove-row_word (ground (arith, ok.row_word, bit_and-le t.fl_bitmap (not32 (2 ^ fli))))

  remove-head : u.blocks fli sli ≡ first_or 0 (front ++ back)
  remove-head =
      rw (remove-block fli sli)
        (ground (arith, ok.heads fli sli l, ap (first_or 0) e, member.next_is, head_of front))
    where
      head_of :
          (xs : List ℕ)
          → first_or 0 (xs ++ back)
            ≡ (if is_nil xs then first_or 0 back else first_or 0 (xs ++ block ∷ back))
      head_of [] = refl
      head_of (x ∷ xs) = refl

  removed : Replaced t u lists fli sli (front ++ back) (front ++ block ∷ back)
  removed = record {
    head = remove-head;
    other_heads = λ f s h. rw (remove-block f s) (ground arith);
    chain =
        IsDq-frame _ u.free (ends (front ++ back)) (front ++ back)
          (λ a h. store a (λ z.
            absurd (false≢true (sym (block-not_in) ∙ ap (λ b. has b (front ++ back)) (sym z) ∙ h))))
          (IsDq-ends _ _ (front ++ back) left.0);
    same = λ a h.
        store a
          (λ z. absurd (false≢true (sym h ∙ ap (λ b. has b (front ++ block ∷ back)) z ∙ block_in)))
        ∙ left.1 a h;
    others = λ f s a k ne h. ground (arith, ok.apart f s fli sli a k l h, ap (has a) e);
    sub = others_in;
    words = remove-words;
    row_word = remove-row_fits;
    bits = remove-bits;
    rows = remove-rows;
  }

  -- Under the invariant, `__tlsf_remove_free_block` of a block of the list (fli, sli) of the table takes it
  -- out, leaves the other blocks of the list in order and every other list as it was, and keeps the invariant:
  -- the bit of the list is dropped exactly if no block is left, and that of the row exactly if no list of the
  -- row has one.
  pub tlsf_remove_free_block_lem :
      IsFreeLists (tlsf_remove_free_block t block fli sli) (put lists fli sli (front ++ back))
  unfolding u
  tlsf_remove_free_block_lem =
      replaced t u lists fli sli (front ++ back) (front ++ block ∷ back) ok removed
