-- ===== src/Sched/Switch.antt =====
-- `sched_pop`: when a ready task takes the processor from the current one.
use twan.Base.{
  ℕ, ◌<◌, ◌≤◌, ◌≡◌, ◌⊎◌, inl, inr, refl, sym, ap, ◌∙◌, true, false, Option, none, some, List, arith,
  Bool-cases, if◌then◌else◌,
}
use twan.Dq.{Links}
use twan.Dq.Chain.{has}
use twan.Priorityq.Invariant.{Queues}
use twan.Priorityq.Pop.{IsNext, AllEmpty, Awaits}
use twan.Sched.{
  Metadata, SchedPriorityq, sched_priorityq_get_bin, sched_priorityq_pop, sched_pop, takes_over,
}
use twan.Sched.Bins.{at_least, has-at_least}
use twan.Sched.Push.{IsSched}
use twan.Sched.Pop.{
  above, Considered, Found, TakesNext, sched_priorityq_get_bin_lem, pop_found, pop_bin_lem,
  Considered-lt,
}

module _ (levels : ℕ) (tasks : ℕ → Metadata) where
  -- A task goes before the current one: it is of the level and of no lower priority; or, if the current
  -- one is below the level, one of the two is enough.
  abbrev pub Outranks : (level current task : ℕ) → Type 0
  Outranks level current task =
      ((level ≤ (tasks task).criticality) × ((tasks current).priority ≤ (tasks task).priority))
      ⊎ (((tasks current).criticality < level)
          × ((level ≤ (tasks task).criticality)
              ⊎ ((tasks current).priority ≤ (tasks task).priority)))

  -- No ready task goes before the current one and nothing changes, or the next task does and is taken.
  abbrev pub Decided :
      (current : ℕ) → Links → SchedPriorityq → Queues → ℕ × Links × SchedPriorityq → Type 0
  Decided current m q s (task, m', q') =
      ((task ≡ 0)
        × (m' ≡ m)
        × (q' ≡ q)
        × ((p u : ℕ) → p < 256 → has u (s p) ≡ true → Outranks q.criticality_level current u → ⊥))
      ⊎ (Outranks q.criticality_level current task
          × ((c : ℕ) × (p : ℕ) × TakesNext levels tasks q.criticality_level s c p task m' q'))

  module _ (m : Links) (q : SchedPriorityq) (s : Queues) (current : ℕ)
      (ok : IsSched levels tasks m q s) (hl : q.criticality_level < levels) where
    within :
        (c p x : ℕ) (xs : List ℕ) (p' u : ℕ)
        → IsNext (above levels tasks c s) p x xs
        → p' < 256
        → has u (s p') ≡ true
        → c ≤ (tasks u).criticality
        → p' ≤ p
    within c p x xs p' u n hp h hc =
        ground
          (arith, has-at_least tasks u c (s p'), λ (l : p < p'). ap (has u) (n.highest p' l hp))

    below_level :
        (level p' u : ℕ)
        → AllEmpty (above levels tasks level s)
        → p' < 256
        → has u (s p') ≡ true
        → (tasks u).criticality < level
    below_level level p' u empty hp h =
        ground (arith, has-at_least tasks u level (s p'), ap (has u) (empty p' hp))

    none-Outranks :
        (p c : ℕ)
        → Awaits (above levels tasks c s) (some p)
        → Considered levels tasks q.criticality_level s c
        → takes_over levels tasks q.criticality_level (tasks current) (p, c) ≡ false
        → (p' u : ℕ) → p' < 256
        → has u (s p') ≡ true
        → Outranks q.criticality_level current u
        → ⊥
    none-Outranks p c (x, xs, n) (inl e) stays p' u hp h out =
        ground (arith, within c p x xs p' u n hp h, (ok.ready p' u hp h).at_priority, stays, e)
    none-Outranks p c (x, xs, n) (inr (e, empty)) stays p' u hp h out = ground (
      arith,
      within c p x xs p' u n hp h,
      below_level q.criticality_level p' u empty hp h,
      (ok.ready p' u hp h).at_priority,
      stays,
      e,
    )

    next-Outranks :
        (p c task : ℕ) (m' : Links) (q' : SchedPriorityq)
        → takes_over levels tasks q.criticality_level (tasks current) (p, c) ≡ true
        → TakesNext levels tasks q.criticality_level s c p task m' q'
        → Outranks q.criticality_level current task
    next-Outranks p c task m' q' goes taken =
        let found : has task (at_least tasks c (s p)) ≡ true = rw taken.next.queue (ground arith) in
        let split = sym (has-at_least tasks task c (s p)) ∙ found in
        let ready = ok.ready p task taken.next.priority_in (ground (arith, split)) in
        ground (arith, split, ready.at_priority, goes)

    -- If the level is below the number of levels, `sched_pop` takes the next task exactly if a ready task goes
    -- before the current one, and then the next task does; otherwise it returns NULL and changes
    -- nothing. Of two tasks, one goes before the current one if it is of the level and of no lower
    -- priority, or, where the current one is below the level, if one of the two holds.
    pub sched_pop_lem : Decided current m q s (sched_pop levels tasks current (m, q))
    unfolding sched_pop
    sched_pop_lem =
        go (sched_priorityq_get_bin q) refl (sched_priorityq_get_bin_lem levels tasks m q s ok hl)
      where
        go :
            (o : Option (ℕ × ℕ))
            → sched_priorityq_get_bin q ≡ o
            → Found levels tasks q.criticality_level s o
            → Decided current m q s (elim o as (λ _. ℕ × Links × SchedPriorityq) [
              | none ↦ (0, m, q)
              | some next ↦
                  if takes_over levels tasks q.criticality_level (tasks current) next
                  then sched_priorityq_pop levels tasks (m, q)
                  else (0, m, q)
            ])
        go none e h = inl (refl, refl, refl, λ p u hp i out. ground (arith, ap (has u) (h p hp)))
        go (some (p, c)) e (h, chosen) =
            elim (Bool-cases (takes_over levels tasks q.criticality_level (tasks current) (p, c))) [
              | inl goes ↦
                  let taken =
                    pop_bin_lem levels tasks m q s ok hl c p
                      (Considered-lt levels tasks m q s ok hl c chosen) chosen h in
                  rw (goes, pop_found levels tasks m q s ok hl p c e)
                    (inr (next-Outranks p c _ _ _ goes taken, (c, p, taken)))
              | inr stays ↦ rw stays (inl (refl, refl, refl, none-Outranks p c h chosen stays))
            ]
