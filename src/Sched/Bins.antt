-- ===== src/Sched/Bins.antt =====
-- What the bins stand for: one list of tasks for each priority. The bin of criticality `i` holds the
-- `i`th nodes of the tasks of criticality at least `i`, in the same order.
use mathlib.Core.Path.{subst}
use native.Mathlib.Nat.{mul-add-mod_self_right, mod-eq_of_lt, mul-div_cancel}
use twan.Base.{
  ℕ, ◌-◌, ◌*◌, ◌%◌, ◌<◌, ◌≡◌, ◌≢◌, inl, inr, refl, sym, ap, ◌∙◌, fun_ext, true, false, ◌&&◌, List,
  [], ◌∷◌, ◌++◌, arith, leb, ==_false, Bool-cases, if◌then◌else◌, ℕ_discrete,
}
use twan.Dq.{Links}
use twan.Dq.Chain.{has, IsDq-frame}
use twan.Priorityq.{Priorityq}
use twan.Priorityq.Invariant.{Queues, IsPriorityq}
use twan.Sched.{Metadata, SchedPriorityq, put_bin, node_of, node_to_task}

pub frame-IsPriorityq :
    (m g : Links) (q : Priorityq) (s : Queues)
    → ((i a : ℕ) → i < 256 → has a (s i) ≡ true → g a ≡ m a)
    → IsPriorityq m q s
    → IsPriorityq g q s
frame-IsPriorityq m g q s same ok = record {
  bins = λ i hi. IsDq-frame m g (q.priority_bins i) (s i) (λ a h. same i a hi h) (ok.bins i hi);
  bits = ok.bits;
  words = ok.words;
  apart = ok.apart;
}

pub same-IsPriorityq :
    (m : Links) (q : Priorityq) (s s' : Queues)
    → ((i : ℕ) → s i ≡ s' i)
    → IsPriorityq m q s
    → IsPriorityq m q s'
same-IsPriorityq m q s s' e ok = subst (λ t. IsPriorityq m q t) (fun_ext e) ok

module _ (tasks : ℕ → Metadata) where
  -- the tasks of a criticality of at least `c`
  abbrev pub at_least : ℕ → List ℕ → List ℕ
  at_least c [] = []
  at_least c (t ∷ ts) = if leb c (tasks t).criticality then t ∷ at_least c ts else at_least c ts

  pub at_least-append :
      (c : ℕ) (xs ys : List ℕ) → at_least c (xs ++ ys) ≡ at_least c xs ++ at_least c ys
  at_least-append c [] ys = refl
  at_least-append c (x ∷ xs) ys = elim (Bool-cases (leb c (tasks x).criticality)) [
    | inl e ↦ rw (e, at_least-append c xs ys)
    | inr e ↦ rw (e, at_least-append c xs ys)
  ]

  pub has-at_least :
      (a c : ℕ) (xs : List ℕ) → has a (at_least c xs) ≡ (has a xs && leb c (tasks a).criticality)
  has-at_least a c [] = refl
  has-at_least a c (x ∷ xs) = elim (ℕ_discrete a x) [
    | yes e ↦ rw e (ground (arith, has-at_least x c xs))
    | no ne ↦ ground (arith, has-at_least a c xs)
  ]

module _ (levels : ℕ) where
  -- the `i`th nodes of the tasks
  abbrev pub nodes : ℕ → List ℕ → List ℕ
  nodes i [] = []
  nodes i (t ∷ ts) = node_of levels t i ∷ nodes i ts

  pub nodes-append : (i : ℕ) (xs ys : List ℕ) → nodes i (xs ++ ys) ≡ nodes i xs ++ nodes i ys
  nodes-append i [] ys = refl
  nodes-append i (x ∷ xs) ys = rw (nodes-append i xs ys)

  pub node-mod : (t i : ℕ) → i < levels → node_of levels t i % levels ≡ i
  node-mod t i hi = rw (mul-add-mod_self_right t levels i, mod-eq_of_lt hi)

  pub to_task-node : (t i : ℕ) → i < levels → node_to_task levels (node_of levels t i) i ≡ t
  to_task-node t i hi =
      let e : node_of levels t i - i ≡ t * levels = omega arith in
      rw (e, mul-div_cancel t {n = levels} (omega arith))

  pub nodes-mod : (i a : ℕ) (xs : List ℕ) → i < levels → has a (nodes i xs) ≡ true → a % levels ≡ i
  nodes-mod i a [] hi h = ground arith
  nodes-mod i a (x ∷ xs) hi h = elim (ℕ_discrete a (node_of levels x i)) [
    | yes e ↦ rw e (node-mod x i hi)
    | no ne ↦ nodes-mod i a xs hi (ground arith)
  ]

  pub nodes-out : (i a : ℕ) (xs : List ℕ) → i < levels → a % levels ≢ i → has a (nodes i xs) ≡ false
  nodes-out i a xs hi out = elim (Bool-cases (has a (nodes i xs))) [
    | inl e ↦ absurd (out (nodes-mod i a xs hi e))
    | inr e ↦ e
  ]

  pub has-nodes :
      (i t : ℕ) (xs : List ℕ) → i < levels → has (node_of levels t i) (nodes i xs) ≡ has t xs
  has-nodes i t [] hi = refl
  has-nodes i t (x ∷ xs) hi = elim (ℕ_discrete t x) [
    | yes e ↦ rw e (ground arith)
    | no ne ↦ rw (
      ==_false t x ne,
      ==_false (node_of levels t i) (node_of levels x i) (λ e.
          ne (
            sym (to_task-node t i hi) ∙ ap (λ a. node_to_task levels a i) e ∙ to_task-node x i hi)),
      has-nodes i t xs hi,
    )
  ]

  -- The bin `i` holds the `i`th nodes of the tasks in `s i`, by priority.
  abbrev pub AllBins : Links → SchedPriorityq → (ℕ → Queues) → Type 0
  AllBins m q s = (i : ℕ) → i < levels → IsPriorityq m (q.bins i) (λ p. nodes i (s i p))

  -- One bin is replaced, and the store is changed at its nodes alone.
  pub put-AllBins :
      (m g : Links) (q : SchedPriorityq) (s s' : ℕ → Queues) (k : ℕ) (b : Priorityq)
      → AllBins m q s
      → IsPriorityq g b (λ p. nodes k (s' k p))
      → ((i p : ℕ) → i ≢ k → s i p ≡ s' i p)
      → ((a : ℕ) → a % levels ≢ k → g a ≡ m a)
      → AllBins g (put_bin q k b) s'
  put-AllBins m g q s s' k b ok new others frame i hi = elim (ℕ_discrete k i) [
    | yes e ↦ rw (← e) (ground arith)
    | no ne ↦ rw (==_false k i ne) (
        same-IsPriorityq g (q.bins i) _ _ (λ p. ap (nodes i) (others i p (λ e. ne (sym e))))
          (frame-IsPriorityq m g (q.bins i) _
            (λ p a hp h. frame a (λ e. ne (sym e ∙ nodes-mod i a (s i p) hi h))) (ok i hi)))
  ]
