-- ===== src/Priorityq/Invariant.antt =====
-- What a priority queue stands for: the nodes of each priority in order. Its bitmap says which of
-- the 256 lists are not empty, and no node stands in two of them.
use twan.Base.{
  ℕ, ◌<◌, ◌≡◌, ◌≢◌, inl, inr, true, false, not, List, arith, ◌==◌, Bool-cases, if◌then◌else◌,
  update,
}
use twan.Bitmap.{Bmp256, bmp256_test}
use twan.Bitmap.Laws.{IsWords}
use twan.Dq.{Links, Dq}
use twan.Dq.Chain.{has, is_nil, IsDq, IsDq-frame, SameOutside}
use twan.Priorityq.{Priorityq}

-- the nodes of each priority
abbrev pub Queues : Type 0
Queues = ℕ → List ℕ

pub record IsPriorityq (m : Links) (q : Priorityq) (s : Queues) : Type 0 where
  pub bins : (i : ℕ) → i < 256 → IsDq m (q.priority_bins i) (s i)
  pub bits : (i : ℕ) → i < 256 → bmp256_test q.priority_bitmap i ≡ not (is_nil (s i))
  pub words : IsWords q.priority_bitmap
  pub apart : (i j a : ℕ) → i < 256 → j < 256 → has a (s i) ≡ true → has a (s j) ≡ true → i ≡ j

-- One list is replaced: its queue is `d` in the store `g`, which differs from `m` at the nodes `ys`
-- alone, and these stand in no other list.
module _ (m g : Links) (q : Priorityq) (s : Queues) (p : ℕ) (d : Dq) (b : Bmp256)
    (xs ys : List ℕ) where
  pub replace_bin :
      IsPriorityq m q s
      → p < 256
      → IsDq g d xs
      → SameOutside ys m g
      → ((i a : ℕ) → i < 256 → i ≢ p → has a (s i) ≡ true → has a ys ≡ false)
      → ((a : ℕ) → has a xs ≡ true → has a ys ≡ true)
      → IsWords b
      → ((i : ℕ)
          → i < 256
          → bmp256_test b i ≡ (if p == i then not (is_nil xs) else bmp256_test q.priority_bitmap i))
      → IsPriorityq g
          (record { priority_bins = update q.priority_bins p d; priority_bitmap = b })
          (update s p xs)
  replace_bin ok hp new same others sub words bits = record {
    bins = λ i hi. elim (Bool-cases (p == i)) [
      | inl e ↦ rw e new
      | inr e ↦ rw e (
          IsDq-frame m g (q.priority_bins i) (s i) (λ a h. same a (others i a hi (ground arith) h))
            (ok.bins i hi))
    ];
    bits = λ i hi. ground (arith, bits i hi, ok.bits i hi);
    words = words;
    apart = λ i j a hi hj h k.
        ground (arith, ok.apart i j a hi hj, others i a hi, others j a hj, sub a);
  }
