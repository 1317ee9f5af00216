-- ===== src/Sched/Pop.antt =====
-- Which task comes next, and what the pop of it leaves.
use mathlib.Core.Path.{subst}
use twan.Base.{
  ℕ, ◌<◌, ◌≡◌, ◌≢◌, ◌⊎◌, inl, inr, refl, sym, ap, ◌∙◌, true, false, Option, none, some, List, [],
  ◌∷◌, ◌++◌, arith, ◌==◌, leb, Bool-cases, update,
}
use twan.Dq.{Links}
use twan.Dq.Chain.{has, has-append, first_or, is_nil}
use twan.Priorityq.{priorityq_awaiting_priority}
use twan.Priorityq.Invariant.{Queues}
use twan.Priorityq.Pop.{IsNext, AllEmpty, Awaits, awaiting_lem, priorityq_peekfront_lem}
use twan.Sched.{
  Metadata, SchedPriorityq, node_to_task, sched_priorityq_get_bin, sched_priorityq_dequeue, pop_bin,
  sched_priorityq_pop,
}
use twan.Sched.Bins.{at_least, nodes, to_task-node}
use twan.Sched.Push.{IsSched}
use twan.Sched.Dequeue.{sched_priorityq_dequeue_lem}

module _ (levels : ℕ) (tasks : ℕ → Metadata) where
  -- the lists of the tasks of criticality at least `c`
  abbrev pub above : ℕ → Queues → Queues
  above c s p = at_least tasks c (s p)

  nil_of_nodes : (c : ℕ) (xs : List ℕ) → nodes levels c xs ≡ [] → xs ≡ []
  nil_of_nodes c [] e = refl
  nil_of_nodes c (x ∷ xs) e = ground arith

  at_least-zero : (xs : List ℕ) → at_least tasks 0 xs ≡ xs
  at_least-zero [] = refl
  at_least-zero (x ∷ xs) =
      let h : leb 0 (tasks x).criticality ≡ true = ground arith in rw (h, at_least-zero xs)

  -- The first task of criticality at least `c`, between the tasks before and behind it.
  record IsSplit (c t : ℕ) (xs : List ℕ) : Type 0 where
    before : List ℕ
    behind : List ℕ
    parts : xs ≡ before ++ t ∷ behind

  IsSplit-at : (c t : ℕ) (xs ys : List ℕ) → at_least tasks c xs ≡ t ∷ ys → IsSplit c t xs
  IsSplit-at c t [] ys e = ground arith
  IsSplit-at c t (x ∷ xs) ys e = elim (Bool-cases (leb c (tasks x).criticality)) [
    | inl h ↦
        let same : x ≡ t = ap (first_or 0) (rw h at e) in
        record { before = []; behind = xs; parts = ap (λ z. z ∷ xs) same }
    | inr h ↦
        let r = IsSplit-at c t xs ys (ground arith) in
        record { before = x ∷ r.before; behind = r.behind; parts = ap (λ ys. x ∷ ys) r.parts }
  ]

  nodes-IsNext :
      (c : ℕ) (s : Queues) (p x : ℕ) (xs : List ℕ)
      → c < levels
      → IsNext (λ p. nodes levels c (s p)) p x xs
      → (rest : List ℕ) × IsNext s p (node_to_task levels x c) rest
  nodes-IsNext c s p x xs hc n = go (s p) refl n.queue
    where
      go :
          (ys : List ℕ)
          → s p ≡ ys
          → nodes levels c ys ≡ x ∷ xs
          → (rest : List ℕ) × IsNext s p (node_to_task levels x c) rest
      go [] e f = ground arith
      go (t ∷ ys) e f = (
        ys,
        record {
          priority_in = n.priority_in;
          queue =
              e
              ∙ ap (λ u. u ∷ ys)
                  (sym (to_task-node levels t c hc)
                    ∙ ap (λ (a : ℕ). node_to_task levels a c) (ap (first_or 0) f));
          highest = λ j l hj. nil_of_nodes c (s j) (n.highest j l hj);
        },
      )

  -- The criticality whose tasks are considered: the level's own, or 0 if none of them is ready.
  abbrev pub Considered : (level : ℕ) → Queues → (c : ℕ) → Type 0
  Considered level s c = (c ≡ level) ⊎ ((c ≡ 0) × AllEmpty (above level s))

  -- What the search finds: the priority of a ready task of a criticality considered, the highest one.
  abbrev pub Found : (level : ℕ) → Queues → Option (ℕ × ℕ) → Type 0
  Found level s none = AllEmpty s
  Found level s (some (p, c)) = Awaits (above c s) (some p) × Considered level s c

  -- What a pop returns and leaves: the task is first in the highest priority that has a task of the
  -- criticality considered, and the others stay in order.
  pub record TakesNext (level : ℕ) (s : Queues) (c p task : ℕ) (m' : Links) (q' : SchedPriorityq)
      : Type 0 where
    pub considered : Considered level s c
    pub rest : List ℕ
    pub next : IsNext (above c s) p task rest
    pub front : List ℕ
    pub back : List ℕ
    pub parts : s p ≡ front ++ task ∷ back
    pub left : IsSched levels tasks m' q' (update s p (front ++ back))

  abbrev pub TaskPopped :
      (level : ℕ) → Links → SchedPriorityq → Queues → ℕ × Links × SchedPriorityq → Type 0
  TaskPopped level m q s (task, m', q') =
      ((task ≡ 0) × (m' ≡ m) × (q' ≡ q) × AllEmpty s)
      ⊎ ((c : ℕ) × (p : ℕ) × TakesNext level s c p task m' q')

  Awaits-tasks :
      (c : ℕ) (s : Queues) (o : Option ℕ)
      → c < levels
      → Awaits (λ p. nodes levels c (above c s p)) o
      → Awaits (above c s) o
  Awaits-tasks c s none hc h = λ i hi. nil_of_nodes c (above c s i) (h i hi)
  Awaits-tasks c s (some p) hc (x, xs, n) =
      let (rest, n') = nodes-IsNext c (above c s) p x xs hc n in (node_to_task levels x c, rest, n')

  next_unique :
      (s : Queues) (p p' x x' : ℕ) (xs xs' : List ℕ) → IsNext s p x xs → IsNext s p' x' xs' → p ≡ p'
  next_unique s p p' x x' xs xs' n n' = ground (
    arith,
    n.priority_in,
    n'.priority_in,
    ap is_nil n.queue,
    ap is_nil n'.queue,
    λ (l : p < p'). ap is_nil (n.highest p' l n'.priority_in),
    λ (l : p' < p). ap is_nil (n'.highest p l n.priority_in),
  )

  module _ (m : Links) (q : SchedPriorityq) (s : Queues) (ok : IsSched levels tasks m q s)
      (hl : q.criticality_level < levels) where
    Awaits-bin : (c : ℕ) → c < levels → Awaits (above c s) (priorityq_awaiting_priority (q.bins c))
    Awaits-bin c hc = Awaits-tasks c s _ hc (awaiting_lem m (q.bins c) _ (ok.in_bins c hc))

    empty_of_zero : AllEmpty (above 0 s) → AllEmpty s
    empty_of_zero h i hi = sym (at_least-zero (s i)) ∙ h i hi

    -- If the level is below the number of levels, `__sched_priorityq_get_bin` finds the highest priority that
    -- has a ready task of the level's criticality or above; if there is no such task, the highest
    -- that has any ready task; and nothing exactly if no task is ready.
    pub sched_priorityq_get_bin_lem : Found q.criticality_level s (sched_priorityq_get_bin q)
    unfolding sched_priorityq_get_bin
    sched_priorityq_get_bin_lem =
        go _ (Awaits-bin q.criticality_level hl) _ (Awaits-bin 0 (omega (arith, hl)))
      where
        go :
            (o : Option ℕ)
            → Awaits (above q.criticality_level s) o
            → (o' : Option ℕ) → Awaits (above 0 s) o'
            → Found q.criticality_level s (elim o as (λ _. Option (ℕ × ℕ)) [
              | some priority ↦ some (priority, q.criticality_level)
              | none ↦ elim (q.criticality_level == 0) as (λ _. Option (ℕ × ℕ)) [
                | true ↦ none
                | false ↦ elim o' as (λ _. Option (ℕ × ℕ)) [
                  | none ↦ none
                  | some priority ↦ some (priority, 0)
                ]
              ]
            ])
        go (some p) h o' h' = (h, inl refl)
        go none h o' h' = elim (Bool-cases (q.criticality_level == 0)) [
          | inl e ↦
              let z : q.criticality_level ≡ 0 = ground arith in rw e (empty_of_zero (rw z at h))
          | inr e ↦ rw e (fallback o' h')
        ]
          where
            fallback :
                (o' : Option ℕ)
                → Awaits (above 0 s) o'
                → Found q.criticality_level s (elim o' as (λ _. Option (ℕ × ℕ)) [
                  | none ↦ none
                  | some priority ↦ some (priority, 0)
                ])
            fallback none h' = empty_of_zero h'
            fallback (some p) h' = (h', inr (refl, h))

    found_at :
        (c p : ℕ) (rest : List ℕ) (task : ℕ)
        → Considered q.criticality_level s c
        → IsNext (above c s) p task rest
        → TakesNext q.criticality_level s c p task
            (sched_priorityq_dequeue levels tasks task (m, q)).0
            (sched_priorityq_dequeue levels tasks task (m, q)).1
    found_at c p rest t chosen n =
        let split = IsSplit-at c t (s p) rest n.queue in
        let member : has t (s p) ≡ true = rw (split.parts, has-append) (ground arith) in
        let ready = ok.ready p t n.priority_in member in
        let at = ready.at_priority in
        record {
          considered = chosen;
          rest = rest;
          next = n;
          front = split.before;
          back = split.behind;
          parts = split.parts;
          left =
              subst
                (λ r.
                  IsSched levels tasks (sched_priorityq_dequeue levels tasks t (m, q)).0
                    (sched_priorityq_dequeue levels tasks t (m, q)).1
                    (update s r (split.before ++ split.behind)))
                at
                (sched_priorityq_dequeue_lem levels tasks m q s t split.before split.behind ok
                  (rw at n.priority_in) (rw at split.parts));
        }

    pub pop_bin_lem :
        (c p : ℕ)
        → c < levels
        → Considered q.criticality_level s c
        → Awaits (above c s) (some p)
        → let (task, m', q') = pop_bin levels tasks c (m, q) in
          TakesNext q.criticality_level s c p task m' q'
    unfolding pop_bin
    pop_bin_lem c p hc chosen (x, xs, n) =
        elim (priorityq_peekfront_lem m (q.bins c) _ (ok.in_bins c hc)) [
          | inl (e, empty) ↦
              absurd (cons_nil (sym n.queue ∙ nil_of_nodes c (above c s p) (empty p n.priority_in)))
          | inr (p', ys, n') ↦
              let (rest, next) = nodes-IsNext c (above c s) p' _ ys hc n' in
              let same = next_unique (above c s) p' p _ x rest xs next n in
              found_at c p rest _ chosen (rw same at next)
        ]
      where
        cons_nil : x ∷ xs ≢ []
        cons_nil e = ground arith

    pub Considered-lt : (c : ℕ) → Considered q.criticality_level s c → c < levels
    Considered-lt c (inl e) = omega (arith, hl, e)
    Considered-lt c (inr (e, h)) = omega (arith, hl, e)

    -- If the level is below the number of levels, `__sched_priorityq_pop` takes the first task of the
    -- highest priority among those of the level's criticality or above, or among all if there is
    -- none, out of every bin and leaves the others in order; if no task is ready it returns NULL and
    -- changes nothing.
    pub sched_priorityq_pop_lem :
        TaskPopped q.criticality_level m q s (sched_priorityq_pop levels tasks (m, q))
    unfolding sched_priorityq_pop
    sched_priorityq_pop_lem = go (sched_priorityq_get_bin q) sched_priorityq_get_bin_lem
      where
        go :
            (o : Option (ℕ × ℕ))
            → Found q.criticality_level s o
            → TaskPopped q.criticality_level m q s (elim o as (λ _. ℕ × Links × SchedPriorityq) [
              | none ↦ (0, m, q)
              | some (priority, criticality) ↦ pop_bin levels tasks criticality (m, q)
            ])
        go none h = inl (refl, refl, refl, h)
        go (some (p, c)) (h, chosen) = inr (c, p, pop_bin_lem c p (Considered-lt c chosen) chosen h)

    pub pop_found :
        (p c : ℕ)
        → sched_priorityq_get_bin q ≡ some (p, c)
        → sched_priorityq_pop levels tasks (m, q) ≡ pop_bin levels tasks c (m, q)
    unfolding sched_priorityq_pop
    pop_found p c e = rw (sched_priorityq_pop, e)
