-- ===== src/Tlsf/Alloc/Take.antt =====
-- `__tlsf_alloc` and the free lists.
use mathlib.Core.Bool.{true≢false}
use twan.Base.{
  ℕ, not, ◌≤◌, ◌<◌, ◌≡◌, sym, ap, true, false, ◌||◌, none, List, [], ◌∷◌, ◌==◌, ltb, ◌%◌,
}
use twan.Dq.Chain.{has, is_nil, first_or}
use twan.Tlsf.Map.{tlsf_map, max_alloc}
use twan.Tlsf.Heap.{
  Tlsf, tlsf_get_block_size, tlsf_block_is_free, tlsf_next_block, tlsf_block_to_ptr,
  tlsf_remove_free_block,
}
use twan.Tlsf.Heap.Lists.{FreeLists, put, IsList, IsFreeLists, IsUnlisted}
use twan.Tlsf.Heap.Remove.{tlsf_remove_free_block_lem}
use twan.Tlsf.Heap.Search.{IsFound, Found}
use twan.Tlsf.Alloc.Cut.{cut_prevs, cutout_of, is_cut, cut_lists, cut_sizes}
use twan.Tlsf.Alloc.{request}

abbrev pub rest : List ℕ → List ℕ
rest [] = []
rest (x ∷ xs) = xs

-- What would be cut off a listed block that is large enough is no header of a free block.
unfoldable pub IsApart : Tlsf → FreeLists → (size : ℕ) → Type 0
IsApart t lists size =
    (f s block : ℕ)
    → IsList f s
    → has block (lists f s) ≡ true
    → is_cut (tlsf_get_block_size t block) size ≡ true
    → IsUnlisted lists (cutout_of block size)

-- The found block is handed out: it was large enough, it is marked as in use, it leaves its list, and what is cut off is a
-- free block and enters the list of its size. The sizes and the physical neighbours are those after the cut.
pub record IsTaken (t : Tlsf) (lists : FreeLists) (size : ℕ) (found : ℕ × ℕ × ℕ) (r : ℕ × Tlsf)
    : Type 0 where
  pub large : size ≤ tlsf_get_block_size t found.0
  pub address : r.0 ≡ tlsf_block_to_ptr found.0
  pub sizes_after :
      (x : ℕ)
      → tlsf_get_block_size r.1 x ≡ cut_sizes t found.0 (tlsf_get_block_size t found.0) size x
  pub prevs_after :
      (x : ℕ)
      → r.1.prev_phys x
        ≡ cut_prevs t
            (tlsf_next_block r.1 (cutout_of found.0 size))
            found.0
            (tlsf_get_block_size t found.0)
            size
            x
  pub in_use : tlsf_block_is_free r.1 found.0 ≡ false
  pub rest_free :
      (not (is_cut (tlsf_get_block_size t found.0) size)
        || tlsf_block_is_free r.1 (cutout_of found.0 size))
      ≡ true
  pub lists_after : IsFreeLists r.1 (
      cut_lists
        (put lists found.1 found.2 (rest (lists found.1 found.2)))
        found.0
        (tlsf_get_block_size t found.0)
        size)

-- The ways `__tlsf_alloc` ends. `size` is the size that was asked for.
pub data Allocated (t : Tlsf) (lists : FreeLists) (size : ℕ) : ℕ × Tlsf → Type 0 where
  bad_size : (size == 0 || ltb max_alloc size) ≡ true → Allocated t lists size (0, t)
  no_block :
      (let (f, s) = tlsf_map (request size) in Found lists f s none) → Allocated t lists size (0, t)
  too_small :
      (found : ℕ × ℕ × ℕ)
      → (let (f, s) = tlsf_map (request size) in IsFound lists f s found)
      → tlsf_get_block_size t found.0 < request size
      → Allocated t lists size (0, t)
  taken :
      (found : ℕ × ℕ × ℕ) (r : ℕ × Tlsf)
      → (let (f, s) = tlsf_map (request size) in IsFound lists f s found)
      → IsTaken t lists (request size) found r
      → Allocated t lists size r

first_of : (xs : List ℕ) (b : ℕ) → is_nil xs ≡ false → b ≡ first_or 0 xs → xs ≡ b ∷ rest xs
first_of [] b h e = absurd (true≢false h)
first_of (x ∷ xs) b h e = ap (λ (y : ℕ). y ∷ xs) (sym e)

module _ (t : Tlsf) (lists : FreeLists) (size : ℕ) (ok : IsFreeLists t lists)
    (fresh : IsApart t lists size) (mult : size % 4 ≡ 0) (f s : ℕ) (found : ℕ × ℕ × ℕ)
    (is_found : IsFound lists f s found) where
  list : lists found.1 found.2 ≡ found.0 ∷ rest (lists found.1 found.2)
  list = first_of (lists found.1 found.2) found.0 is_found.some_block is_found.is_first

  removed :
      IsFreeLists
        (tlsf_remove_free_block t found.0 found.1 found.2)
        (put lists found.1 found.2 (rest (lists found.1 found.2)))
  removed =
      tlsf_remove_free_block_lem t lists found.1 found.2 found.0 [] (rest (lists found.1 found.2))
        ok is_found.is_list list
