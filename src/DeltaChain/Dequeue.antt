-- ===== src/DeltaChain/Dequeue.antt =====
-- `delta_chain_dequeue_no_callback`: the node behind takes over the ticks of the one that leaves.
use twan.Base.{
  ℕ, ◌+◌, ◌%◌, ◌^◌, ◌<◌, ◌≡◌, refl, ap, ◌∙◌, true, false, List, [], ◌∷◌, ◌++◌, arith, ◌==◌,
  ==_false, if◌then◌else◌, update,
}
use twan.Dq.Chain.{
  has, has-append, first_or, IsDq, Distinct, Distinct-apart, Distinct-right, Seg-split,
}
use twan.Dq.Remove.{dq_dequeue_lem}
use twan.DeltaChain.{DeltaChain, delta_chain_dequeue_no_callback}
use twan.DeltaChain.Due.{
  total, due, due-cons, total-cons, due-append, due-same, total-same, total-append,
}

-- The deltas once the node between `front` and `back` is out.
abbrev handed_over : (ℕ → ℕ) → ℕ → List ℕ → ℕ → ℕ
handed_over delta node [] = delta
handed_over delta node (b ∷ bs) = update delta b ((delta b + delta node) % 2 ^ 64)

module _ (delta : ℕ → ℕ) (front back : List ℕ) (node : ℕ) (d : Distinct (front ++ node ∷ back))
    (small : total delta (front ++ node ∷ back) < 2 ^ 64) where
  total_small : total delta front + (delta node + total delta back) < 2 ^ 64
  total_small =
      ground (arith, small, total-append delta front (node ∷ back), total-cons delta node back)

  others_due :
      (ys : List ℕ)
      → ys ≡ back
      → (a : ℕ) → has a (front ++ ys) ≡ true
      → due (handed_over delta node ys) (front ++ ys) a ≡ due delta (front ++ node ∷ ys) a
  others_due [] e a h = ground (
    arith,
    due-append delta front [] a,
    due-append delta front (node ∷ []) a,
    has-append a front [],
  )
  others_due (b ∷ bs) e a h =
      let d' : Distinct (front ++ node ∷ b ∷ bs) = rw e d in
      let delta' = handed_over delta node (b ∷ bs) in
      let same_front : (x : ℕ) → has x front ≡ true → delta' x ≡ delta x =
        λ x i. ground (arith, Distinct-apart front (node ∷ b ∷ bs) x d') in
      let same_back : (x : ℕ) → has x bs ≡ true → delta' x ≡ delta x =
        λ x i. ground (arith, Distinct-right front (node ∷ b ∷ bs) d') in
      ground (
        arith,
        due-append delta' front (b ∷ bs) a,
        due-append delta front (node ∷ b ∷ bs) a,
        due-same delta delta' front a same_front,
        total-same delta delta' front same_front,
        due-cons delta' b bs a,
        due-cons delta node (b ∷ bs) a,
        due-cons delta b bs a,
        due-same delta delta' bs a same_back,
        has-append a front (b ∷ bs),
        Distinct-right front (node ∷ b ∷ bs) d',
        total_small,
        ap (total delta) e,
        total-cons delta b bs,
      )

module _ (c : DeltaChain) (front back : List ℕ) (node : ℕ)
    (ok : IsDq c.links c.queue (front ++ node ∷ back))
    (small : total c.delta (front ++ node ∷ back) < 2 ^ 64) where
  next_is : (c.links node).next ≡ first_or 0 back
  next_is = (Seg-split c.links front (node ∷ back) 0 0 ok.chain).1.1

  no_null : has 0 back ≡ false
  no_null = ground (arith, ok.no_null, has-append 0 front (node ∷ back))

  delta_after : (delta_chain_dequeue_no_callback node c).delta ≡ handed_over c.delta node back
  unfolding delta_chain_dequeue_no_callback
  delta_after = rw next_is (by_back back no_null)
    where
      by_back :
          (ys : List ℕ)
          → has 0 ys ≡ false
          → (if first_or 0 ys == 0
              then c.delta
              else update c.delta
                  (first_or 0 ys)
                  ((c.delta (first_or 0 ys) + c.delta node) % 2 ^ 64))
            ≡ handed_over c.delta node ys
      by_back [] z = refl
      by_back (y ∷ ys) z = rw (==_false y 0 (ground arith))

  -- `delta_chain_dequeue_no_callback` takes its node out of a chain whose ticks fit a `u64`, and every
  -- other node is due when it was.
  pub delta_chain_dequeue_lem :
      (a : ℕ)
      → has a (front ++ back) ≡ true
      → let c' = delta_chain_dequeue_no_callback node c in
        IsDq c'.links c'.queue (front ++ back)
        × (due c'.delta (front ++ back) a ≡ due c.delta (front ++ node ∷ back) a)
  unfolding delta_chain_dequeue_no_callback
  delta_chain_dequeue_lem a h = (
    (dq_dequeue_lem c.links c.queue front back node ok).0,
    ap (λ (f : ℕ → ℕ). due f (front ++ back) a) delta_after
        ∙ others_due c.delta front back node ok.distinct small back refl a h,
  )
