-- ===== src/Tlsf/Heap/Lists.antt =====
-- The free lists: `__tlsf_insert_free_block` and `__tlsf_remove_free_block` against lists of blocks.
use twan.Base.{
  ℕ, ◌^◌, ◌<◌, ◌≡◌, ◌≢◌, inl, inr, refl, ◌∙◌, true, false, ◌&&◌, List, arith, ◌==◌, Bool-cases,
  if◌then◌else◌,
}
use twan.Bits.Masks.{bit_of}
use twan.Dq.{Links, Dq, dq, dq_pushfront, dq_dequeue}
use twan.Dq.Chain.{has, is_nil, first_or, last_or, IsDq, IsDq-frame, SameOutside}
use twan.Tlsf.Heap.{Tlsf, unset_bits, tlsf_insert_free_block, tlsf_remove_free_block}

-- the blocks of each list, the first one first
abbrev pub FreeLists : Type 0
FreeLists = ℕ → ℕ → List ℕ

abbrev pub put : FreeLists → (fli sli : ℕ) → List ℕ → FreeLists
put lists fli sli xs f s = if (f == fli) && (s == sli) then xs else lists f s

-- a row and a column of the table of lists
abbrev pub IsList : (fli sli : ℕ) → Type 0
IsList fli sli = (fli < 28) × (sli < 32)

-- the two ends of a chain of blocks, the last of which is stored nowhere
abbrev pub ends : List ℕ → Dq
ends xs = dq (first_or 0 xs) (last_or 0 xs)

-- Each list is chained both ways from its head, the bits tell the lists and the rows that are not empty, and
-- no block is in two lists.
pub record IsFreeLists (t : Tlsf) (lists : FreeLists) : Type 0 where
  pub heads : (f s : ℕ) → IsList f s → t.blocks f s ≡ first_or 0 (lists f s)
  pub chains : (f s : ℕ) → IsList f s → IsDq t.free (ends (lists f s)) (lists f s)
  pub bits :
      (f s : ℕ) → IsList f s → bit_of (t.sl_bitmaps f) s ≡ (if is_nil (lists f s) then 0 else 1)
  pub rows : (f : ℕ) → f < 28 → bit_of t.fl_bitmap f ≡ (if t.sl_bitmaps f == 0 then 0 else 1)
  pub words : (f : ℕ) → f < 28 → t.sl_bitmaps f < 2 ^ 32
  pub row_word : t.fl_bitmap < 2 ^ 28
  pub apart :
      (f s g r a : ℕ)
      → IsList f s
      → IsList g r
      → has a (lists f s) ≡ true
      → has a (lists g r) ≡ true
      → (f ≡ g) × (s ≡ r)

-- A block that is in no list.
abbrev pub IsUnlisted : FreeLists → (block : ℕ) → Type 0
IsUnlisted lists block = (block ≢ 0) × ((f s : ℕ) → IsList f s → has block (lists f s) ≡ false)

pub IsDq-ends : (m : Links) (d : Dq) (xs : List ℕ) → IsDq m d xs → IsDq m (ends xs) xs
IsDq-ends m d xs ok = record {
  front_first = refl;
  rear_last = refl;
  chain = ok.chain;
  distinct = ok.distinct;
  no_null = ok.no_null;
}

-- the stores of the two operations
pub insert_store :
    (t : Tlsf) (block fli sli last a : ℕ)
    → (tlsf_insert_free_block t block fli sli).free a
      ≡ (dq_pushfront block (t.free, dq (t.blocks fli sli) last)).0 a
unfolding tlsf_insert_free_block dq_pushfront
insert_store t block fli sli last a = ground arith

pub remove_store :
    (t : Tlsf) (block fli sli : ℕ) (d : Dq) (a : ℕ)
    → block ≢ (t.free block).prev
    → block ≢ (t.free block).next
    → a ≢ block
    → (tlsf_remove_free_block t block fli sli).free a ≡ (dq_dequeue block (t.free, d)).0 a
unfolding tlsf_remove_free_block unset_bits dq_dequeue
remove_store t block fli sli d a np nq ne = ground arith

-- One list is replaced by `xs`: the store differs at the blocks of `ys` alone, which stand in no other list.
module _ (t u : Tlsf) (lists : FreeLists) (fli sli : ℕ) (xs ys : List ℕ) where
  pub record Replaced : Type 0 where
    pub head : u.blocks fli sli ≡ first_or 0 xs
    pub other_heads : (f s : ℕ) → ((f == fli) && (s == sli)) ≡ false → u.blocks f s ≡ t.blocks f s
    pub chain : IsDq u.free (ends xs) xs
    pub same : SameOutside ys t.free u.free
    pub others :
        (f s a : ℕ)
        → IsList f s
        → ((f == fli) && (s == sli)) ≡ false
        → has a (lists f s) ≡ true
        → has a ys ≡ false
    pub sub : (a : ℕ) → has a xs ≡ true → has a ys ≡ true
    pub words : (f : ℕ) → f < 28 → u.sl_bitmaps f < 2 ^ 32
    pub row_word : u.fl_bitmap < 2 ^ 28
    pub bits :
        (f s : ℕ)
        → IsList f s
        → bit_of (u.sl_bitmaps f) s ≡ (
            if (f == fli) && (s == sli)
            then if is_nil xs then 0 else 1
            else bit_of (t.sl_bitmaps f) s)
    pub rows : (f : ℕ) → f < 28 → bit_of u.fl_bitmap f ≡ (if u.sl_bitmaps f == 0 then 0 else 1)

  module _ (ok : IsFreeLists t lists) (new : Replaced) where
    replaced_head : (f s : ℕ) → IsList f s → u.blocks f s ≡ first_or 0 (put lists fli sli xs f s)
    replaced_head f s l = elim (Bool-cases ((f == fli) && (s == sli))) [
      | inl e ↦ rw e (at f s e ∙ new.head)
      | inr e ↦ rw e (new.other_heads f s e ∙ ok.heads f s l)
    ]
      where
        at : (f s : ℕ) → ((f == fli) && (s == sli)) ≡ true → u.blocks f s ≡ u.blocks fli sli
        at f s e =
            let same : (f ≡ fli) × (s ≡ sli) = ground arith in λ i. u.blocks (same.0 i) (same.1 i)

    replaced_chain :
        (f s : ℕ)
        → IsList f s
        → IsDq u.free (ends (put lists fli sli xs f s)) (put lists fli sli xs f s)
    replaced_chain f s l = elim (Bool-cases ((f == fli) && (s == sli))) [
      | inl e ↦ rw e new.chain
      | inr e ↦ rw e (
          IsDq-frame t.free u.free (ends (lists f s)) (lists f s)
            (λ a h. new.same a (new.others f s a l e h)) (ok.chains f s l))
    ]

    replaced_apart :
        (f s g r a : ℕ)
        → IsList f s
        → IsList g r
        → has a (put lists fli sli xs f s) ≡ true
        → has a (put lists fli sli xs g r) ≡ true
        → (f ≡ g) × (s ≡ r)
    replaced_apart f s g r a l k =
        ground (arith, ok.apart f s g r a l k, new.others f s a l, new.others g r a k, new.sub a)

    pub replaced : IsFreeLists u (put lists fli sli xs)
    replaced = record {
      heads = replaced_head;
      chains = replaced_chain;
      bits = λ f s l. ground (arith, new.bits f s l, ok.bits f s l);
      rows = new.rows;
      words = new.words;
      row_word = new.row_word;
      apart = replaced_apart;
    }
