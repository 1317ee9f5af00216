-- ===== src/Sched/Dequeue.antt =====
-- The removal of a task from every bin that it stands in.
use twan.Base.{
  ℕ, zero, suc, ◌<◌, ◌≤◌, ◌≡◌, inl, inr, ap, true, false, List, ◌∷◌, ◌++◌, arith, ◌==◌, ltb, leb,
  Bool-cases, update,
}
use twan.Dq.{Links}
use twan.Dq.Chain.{has, has-append}
use twan.Priorityq.Invariant.{Queues}
use twan.Priorityq.Push.{priorityq_dequeue_lem, dequeue_frame}
use twan.Sched.{Metadata, SchedPriorityq, node_of, dequeue_bins, sched_priorityq_dequeue}
use twan.Sched.Bins.{
  at_least, at_least-append, nodes, nodes-append, nodes-out, AllBins, same-IsPriorityq,
}
use twan.Sched.Push.{IsSched, IsReady, midway, midway_start, midway_step, midway_here}

module _ (levels : ℕ) (tasks : ℕ → Metadata) (m : Links) (q : SchedPriorityq) (s : Queues) (t : ℕ)
    (front back : List ℕ) (ok : IsSched levels tasks m q s) (fits : (tasks t).priority < 256)
    (here : s (tasks t).priority ≡ front ++ t ∷ back) where
  removed : Queues
  removed = update s (tasks t).priority (front ++ back)

  in_levels : (tasks t).criticality < levels
  in_levels = (ok.ready (tasks t).priority t fits (rw (here, has-append) (ground arith))).in_levels

  node_here :
      (k : ℕ)
      → k ≤ (tasks t).criticality
      → nodes levels k (at_least tasks k (s (tasks t).priority))
        ≡ nodes levels k (at_least tasks k front)
          ++ node_of levels t k ∷ nodes levels k (at_least tasks k back)
  node_here k h =
      let l : leb k (tasks t).criticality ≡ true = ground arith in
      rw (here, at_least-append tasks k front (t ∷ back), l, nodes-append)

  bin_after :
      (k p : ℕ)
      → update
          (λ p. nodes levels k (at_least tasks k (s p)))
          (tasks t).priority
          (nodes levels k (at_least tasks k front) ++ nodes levels k (at_least tasks k back))
          p
        ≡ nodes levels k (at_least tasks k (removed p))
  unfolding removed
  bin_after k p = elim (Bool-cases ((tasks t).priority == p)) [
    | inl e ↦ rw (e, at_least-append tasks k front back, nodes-append)
    | inr e ↦ rw e
  ]

  unchanged :
      (i p : ℕ)
      → leb i (tasks t).criticality ≡ false
      → at_least tasks i (s p) ≡ at_least tasks i (removed p)
  unfolding removed
  unchanged i p l = elim (Bool-cases ((tasks t).priority == p)) [
    | inl e ↦
        let same : (tasks t).priority ≡ p = ground arith in
        rw (
          e,
          ← same,
          here,
          at_least-append tasks i front (t ∷ back),
          l,
          at_least-append tasks i front back,
        )
    | inr e ↦ rw e
  ]

  all_after :
      (i p : ℕ)
      → midway levels tasks s removed (suc (tasks t).criticality) i p ≡ at_least tasks i (removed p)
  all_after i p = elim (Bool-cases (ltb i (suc (tasks t).criticality))) [
    | inl e ↦ rw e
    | inr e ↦ rw e (unchanged i p (ground arith))
  ]

  dequeue_rounds :
      (k : ℕ)
      → k ≤ suc (tasks t).criticality
      → let (g, q') = dequeue_bins levels tasks k t (m, q) in
        AllBins levels g q' (midway levels tasks s removed k)
  unfolding dequeue_bins
  dequeue_rounds zero h = midway_start levels tasks m q s removed ok.in_bins
  dequeue_rounds (suc k) h =
      let (g, q') = dequeue_bins levels tasks k t (m, q) in
      let hk : k < levels = omega (arith, in_levels) in
      let before = dequeue_rounds k (omega arith) in
      let bin = midway_here levels tasks g q' s removed k before hk in
      midway_step levels tasks g _ q' s removed k _ before
        (same-IsPriorityq _ _ _ _ (bin_after k)
          (priorityq_dequeue_lem g (q'.bins k) _ (node_of levels t k) (tasks t).priority _ _ bin
            fits (node_here k (omega arith))).0)
        (λ a out.
          dequeue_frame g (q'.bins k) _ (node_of levels t k) (tasks t).priority _ _ a bin fits
            (node_here k (omega arith)) (nodes-out levels k a _ hk out))

  IsReady-after : (p u : ℕ) → p < 256 → has u (removed p) ≡ true → IsReady levels tasks p u
  unfolding removed
  IsReady-after p u hp h = ok.ready p u hp (
      ground (
        arith,
        has-append u front (t ∷ back),
        has-append u front back,
        ap (has u) here,
        λ (i : (tasks t).priority ≡ p). ap (λ x. has u (s x)) i,
      ))

  -- `__sched_priorityq_dequeue` of a ready task takes it out of every bin, and the others stay in order.
  pub sched_priorityq_dequeue_lem :
      let (g, q') = sched_priorityq_dequeue levels tasks t (m, q) in
      IsSched levels tasks g q' (update s (tasks t).priority (front ++ back))
  unfolding sched_priorityq_dequeue removed
  sched_priorityq_dequeue_lem = record {
    in_bins = λ i hi.
        same-IsPriorityq _ _ _ _ (λ p. ap (nodes levels i) (all_after i p))
          (dequeue_rounds (suc (tasks t).criticality) (omega arith) i hi);
    ready = IsReady-after;
  }
