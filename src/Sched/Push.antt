-- ===== src/Sched/Push.antt =====
-- The queue of the ready tasks as one list of tasks for each priority, and the push of a task.
use mathlib.Core.List.{append-nil}
use native.Mathlib.Nat.{mul-pos}
use twan.Base.{
  ℕ, zero, suc, ◌*◌, ◌%◌, ◌<◌, ◌≤◌, ◌≡◌, ◌≢◌, inl, inr, refl, ap, ◌∙◌, true, false, [], ◌∷◌, ◌++◌,
  arith, ◌==◌, ltb, leb, Bool-cases, if◌then◌else◌, update, ℕ_discrete,
}
use twan.Dq.{Links}
use twan.Dq.Chain.{has, has-append}
use twan.Priorityq.{Priorityq}
use twan.Priorityq.Invariant.{Queues, IsPriorityq}
use twan.Priorityq.Push.{IsFree, priorityq_push_lem, push_frame}
use twan.Sched.{Metadata, SchedPriorityq, put_bin, node_of, push_bins, sched_priorityq_push}
use twan.Sched.Bins.{
  at_least, at_least-append, has-at_least, nodes, nodes-append, node-mod, nodes-out, has-nodes,
  AllBins, put-AllBins, same-IsPriorityq,
}

module _ (levels : ℕ) (tasks : ℕ → Metadata) where
  -- What a task that stands at a priority has in its metadata; it is not NULL.
  pub record IsReady (p t : ℕ) : Type 0 where
    pub at_priority : (tasks t).priority ≡ p
    pub in_levels : (tasks t).criticality < levels
    pub real : t ≢ 0

  pub record IsSched (m : Links) (q : SchedPriorityq) (s : Queues) : Type 0 where
    pub in_bins : AllBins levels m q (λ i p. at_least tasks i (s p))
    pub ready : (p t : ℕ) → p < 256 → has t (s p) ≡ true → IsReady p t

  -- the lists once the bins below `k` hold `s'` and the others `s`
  abbrev pub midway : (s s' : Queues) (k : ℕ) → ℕ → Queues
  midway s s' k i p = if ltb i k then at_least tasks i (s' p) else at_least tasks i (s p)

  pub midway_start :
      (m : Links) (q : SchedPriorityq) (s s' : Queues)
      → AllBins levels m q (λ i p. at_least tasks i (s p))
      → AllBins levels m q (midway s s' 0)
  midway_start m q s s' ok i hi =
      same-IsPriorityq m (q.bins i) _ _ (λ p. ap (nodes levels i) (ground arith)) (ok i hi)

  -- A step of a loop over the bins.
  pub midway_step :
      (m g : Links) (q : SchedPriorityq) (s s' : Queues) (k : ℕ) (b : Priorityq)
      → AllBins levels m q (midway s s' k)
      → IsPriorityq g b (λ p. nodes levels k (at_least tasks k (s' p)))
      → ((a : ℕ) → a % levels ≢ k → g a ≡ m a)
      → AllBins levels g (put_bin q k b) (midway s s' (suc k))
  midway_step m g q s s' k b ok new frame =
      put-AllBins levels m g q (midway s s' k) (midway s s' (suc k)) k b ok
        (same-IsPriorityq g b _ _ (λ p. ap (nodes levels k) (ground arith)) new)
        (λ i p ne. ground arith) frame

  pub midway_here :
      (m : Links) (q : SchedPriorityq) (s s' : Queues) (k : ℕ)
      → AllBins levels m q (midway s s' k)
      → k < levels
      → IsPriorityq m (q.bins k) (λ p. nodes levels k (at_least tasks k (s p)))
  midway_here m q s s' k ok hk =
      same-IsPriorityq m (q.bins k) _ _ (λ p. ap (nodes levels k) (ground arith)) (ok k hk)

  module _ (m : Links) (q : SchedPriorityq) (s : Queues) (t : ℕ) (ok : IsSched m q s)
      (fits : (tasks t).priority < 256) (in_levels : (tasks t).criticality < levels) (real : t ≢ 0)
      (fresh : (p : ℕ) → p < 256 → has t (s p) ≡ false) where
    pushed : Queues
    pushed = update s (tasks t).priority (s (tasks t).priority ++ t ∷ [])

    IsFree-node :
        (k : ℕ)
        → k < levels
        → IsFree (λ p. nodes levels k (at_least tasks k (s p))) (node_of levels t k)
    IsFree-node k hk = (
      not_null,
      λ p hp. ground (
        arith,
        has-nodes levels k t (at_least tasks k (s p)) hk,
        has-at_least tasks t k (s p),
        fresh p hp,
      ),
    )
      where
        not_null : node_of levels t k ≢ 0
        not_null e =
            let pos : 0 < t * levels = mul-pos (ground arith) (omega arith) in absurd (omega arith)

    bin_after :
        (k : ℕ)
        → k ≤ (tasks t).criticality
        → (p : ℕ)
        → update
            (λ p. nodes levels k (at_least tasks k (s p)))
            (tasks t).priority
            (nodes levels k (at_least tasks k (s (tasks t).priority)) ++ node_of levels t k ∷ [])
            p
          ≡ nodes levels k (at_least tasks k (pushed p))
    unfolding pushed
    bin_after k h p =
        let l : leb k (tasks t).criticality ≡ true = ground arith in
        elim (Bool-cases ((tasks t).priority == p)) [
          | inl e ↦ rw (
            e,
            at_least-append tasks k (s (tasks t).priority) (t ∷ []),
            l,
            nodes-append levels k (at_least tasks k (s (tasks t).priority)) (t ∷ []),
          )
          | inr e ↦ rw e
        ]

    unchanged :
        (i p : ℕ)
        → leb i (tasks t).criticality ≡ false
        → at_least tasks i (s p) ≡ at_least tasks i (pushed p)
    unfolding pushed
    unchanged i p l = elim (Bool-cases ((tasks t).priority == p)) [
      | inl e ↦
          let here : (tasks t).priority ≡ p = ground arith in
          rw (e, at_least-append tasks i (s (tasks t).priority) (t ∷ []), l, append-nil, here)
      | inr e ↦ rw e
    ]

    all_after :
        (i p : ℕ) → midway s pushed (suc (tasks t).criticality) i p ≡ at_least tasks i (pushed p)
    all_after i p = elim (Bool-cases (ltb i (suc (tasks t).criticality))) [
      | inl e ↦ rw e
      | inr e ↦ rw e (unchanged i p (ground arith))
    ]

    push_rounds :
        (k : ℕ)
        → k ≤ suc (tasks t).criticality
        → let (g, q') = push_bins levels tasks k t (m, q) in AllBins levels g q' (midway s pushed k)
    unfolding push_bins
    push_rounds zero h = midway_start m q s pushed ok.in_bins
    push_rounds (suc k) h =
        let (g, q') = push_bins levels tasks k t (m, q) in
        let hk : k < levels = omega (arith, in_levels) in
        let before = push_rounds k (omega arith) in
        let bin = midway_here g q' s pushed k before hk in
        let free = IsFree-node k hk in
        midway_step g _ q' s pushed k _ before
          (same-IsPriorityq _ _ _ _ (bin_after k (omega arith)) (
            priorityq_push_lem g (q'.bins k) _ (node_of levels t k) (tasks t).priority bin fits free
              false))
          (λ a out.
            push_frame g (q'.bins k) _ (node_of levels t k) (tasks t).priority false a bin fits free
              (λ e. out (ap (λ x. x % levels) e ∙ node-mod levels t k hk))
              (nodes-out levels k a _ hk out))

    IsReady-after : (p u : ℕ) → p < 256 → has u (pushed p) ≡ true → IsReady p u
    unfolding pushed
    IsReady-after p u hp h = elim (ℕ_discrete u t) [
      | yes e ↦ rw e (record { at_priority = here e; in_levels = in_levels; real = real })
      | no ne ↦ ok.ready p u hp (
          ground (
            arith,
            has-append u (s (tasks t).priority) (t ∷ []),
            λ (i : (tasks t).priority ≡ p). ap (λ x. has u (s x)) i,
          ))
    ]
      where
        here : u ≡ t → (tasks t).priority ≡ p
        here e = ground (arith, fresh p hp)

    -- `__sched_priorityq_push` of a task that is not ready yet, with a priority below 256 and a criticality
    -- below the number of levels, puts it last among its priority: in every bin up to its criticality.
    pub sched_priorityq_push_lem :
        let (g, q') = sched_priorityq_push levels tasks t (m, q) in
        IsSched g q' (update s (tasks t).priority (s (tasks t).priority ++ t ∷ []))
    unfolding sched_priorityq_push pushed
    sched_priorityq_push_lem = record {
      in_bins = λ i hi.
          same-IsPriorityq _ _ _ _ (λ p. ap (nodes levels i) (all_after i p))
            (push_rounds (suc (tasks t).criticality) (omega arith) i hi);
      ready = IsReady-after;
    }

  push_bins-criticality_level :
      (k t : ℕ) (x : Links × SchedPriorityq)
      → (push_bins levels tasks k t x).1.criticality_level ≡ x.1.criticality_level
  unfolding push_bins
  push_bins-criticality_level zero t x = refl
  push_bins-criticality_level (suc k) t x = push_bins-criticality_level k t x

  pub push-criticality_level :
      (t : ℕ) (x : Links × SchedPriorityq)
      → (sched_priorityq_push levels tasks t x).1.criticality_level ≡ x.1.criticality_level
  unfolding sched_priorityq_push
  push-criticality_level t x = push_bins-criticality_level (suc (tasks t).criticality) t x
