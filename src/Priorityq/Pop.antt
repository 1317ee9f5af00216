-- ===== src/Priorityq/Pop.antt =====
-- The highest priority that waits, and taking its first node; moving a node to another priority.
use mathlib.Core.Bool.{false≢true}
use twan.Base.{
  ℕ, ◌<◌, ◌≡◌, ◌⊎◌, inl, inr, refl, sym, ap, ◌∙◌, Bool, true, false, not, List, [], ◌∷◌, ◌++◌,
  Option, none, some, arith, ◌==◌, Bool-cases, if◌then◌else◌, update,
}
use twan.Bitmap.{bmp256_fls}
use twan.Bitmap.Scan.{HighestBelow, bmp256_fls_lem}
use twan.Dq.{Links, link, dq_peekfront}
use twan.Dq.Chain.{has, is_nil, has-append, IsDq, Distinct-right, Distinct-apart}
use twan.Dq.Pop.{dq_popfront_lem, popfront-peekfront}
use twan.Priorityq.{
  Priorityq, pop_at, priorityq_awaiting_priority, priorityq_peekfront, priorityq_popfront,
  priorityq_requeue,
}
use twan.Priorityq.Invariant.{Queues, IsPriorityq}
use twan.Priorityq.Push.{IsFree, priorityq_push_lem, priorityq_dequeue_lem, shrunk}

nil_of : (xs : List ℕ) → not (is_nil xs) ≡ false → xs ≡ []
nil_of [] h = refl
nil_of (x ∷ xs) h = cc

cons_of : (xs : List ℕ) → not (is_nil xs) ≡ true → (x : ℕ) × (ys : List ℕ) × (xs ≡ x ∷ ys)
cons_of [] h = absurd (false≢true h)
cons_of (x ∷ xs) h = (x, xs, refl)

-- `x` comes first in the highest priority `p` that has a node, and `xs` are the nodes behind it.
pub record IsNext (s : Queues) (p x : ℕ) (xs : List ℕ) : Type 0 where
  pub priority_in : p < 256
  pub queue : s p ≡ x ∷ xs
  pub highest : (j : ℕ) → p < j → j < 256 → s j ≡ []

abbrev pub AllEmpty : Queues → Type 0
AllEmpty s = (i : ℕ) → i < 256 → s i ≡ []

-- What the scan of the bitmap says of the queues.
abbrev pub Awaits : Queues → Option ℕ → Type 0
Awaits s none = AllEmpty s
Awaits s (some p) = (x : ℕ) × (xs : List ℕ) × IsNext s p x xs

Awaits-of :
    (m : Links) (q : Priorityq) (s : Queues) (o : Option ℕ)
    → IsPriorityq m q s
    → HighestBelow q.priority_bitmap 256 o
    → Awaits s o
Awaits-of m q s none ok h = λ i hi. nil_of (s i) (sym (ok.bits i hi) ∙ h i hi)
Awaits-of m q s (some p) ok (hp, set, above) =
    let (x, xs, e) = cons_of (s p) (sym (ok.bits p hp) ∙ set) in
    (
      x,
      xs,
      record {
        priority_in = hp;
        queue = e;
        highest = λ j l hj. nil_of (s j) (sym (ok.bits j hj) ∙ above j l hj);
      },
    )

-- `priorityq_awaiting_priority` is the highest priority with a node, and -1 exactly if there is none.
pub awaiting_lem :
    (m : Links) (q : Priorityq) (s : Queues)
    → IsPriorityq m q s
    → Awaits s (priorityq_awaiting_priority q)
unfolding priorityq_awaiting_priority
awaiting_lem m q s ok = Awaits-of m q s _ ok (bmp256_fls_lem q.priority_bitmap ok.words)

-- What `priorityq_popfront` returns and leaves.
abbrev pub PoppedHighest : Links → Priorityq → Queues → ℕ × Links × Priorityq → Type 0
PoppedHighest m q s (node, g, q') =
    ((node ≡ 0) × (g ≡ m) × (q' ≡ q) × AllEmpty s)
    ⊎ ((p : ℕ) × (xs : List ℕ) × IsNext s p node xs
        × IsPriorityq g q' (update s p xs)
        × (g node ≡ link 0 0))

pop_at_lem :
    (m : Links) (q : Priorityq) (s : Queues) (p x : ℕ) (xs : List ℕ)
    → IsPriorityq m q s
    → IsNext s p x xs
    → PoppedHighest m q s (pop_at p (m, q))
unfolding pop_at
pop_at_lem m q s p x xs ok n =
    let (e, left) =
      dq_popfront_lem m (q.priority_bins p) (x ∷ xs) (rw n.queue at (ok.bins p n.priority_in)) in
    rw e (
      inr (
        p,
        xs,
        n,
        shrunk m q s x p (x ∷ xs) xs _ _ ok n.priority_in n.queue refl (λ a h. ground arith) left,
        left.2,
      ))

-- Under the invariant, `priorityq_popfront` takes the first node of the highest priority that has one and unlinks it, or
-- returns NULL and changes nothing if every queue is empty.
pub priorityq_popfront_lem :
    (m : Links) (q : Priorityq) (s : Queues)
    → IsPriorityq m q s
    → PoppedHighest m q s (priorityq_popfront (m, q))
unfolding priorityq_popfront
priorityq_popfront_lem m q s ok =
    go (bmp256_fls q.priority_bitmap)
      (Awaits-of m q s _ ok (bmp256_fls_lem q.priority_bitmap ok.words))
  where
    go :
        (o : Option ℕ)
        → Awaits s o
        → PoppedHighest m q s (elim o as (λ _. ℕ × Links × Priorityq) [
          | none ↦ (0, m, q)
          | some priority ↦ pop_at priority (m, q)
        ])
    go none h = inl (refl, refl, refl, h)
    go (some p) (x, xs, n) = pop_at_lem m q s p x xs ok n

-- `priorityq_peekfront` returns the node that `priorityq_popfront` would take.
pub peekfront-popfront :
    (m : Links) (q : Priorityq) → priorityq_peekfront q ≡ (priorityq_popfront (m, q)).0
unfolding priorityq_peekfront priorityq_popfront pop_at
peekfront-popfront m q = go (bmp256_fls q.priority_bitmap)
  where
    go :
        (o : Option ℕ)
        → (elim o as (λ _. ℕ) [
          | none ↦ 0
          | some priority ↦ dq_peekfront (q.priority_bins priority)
        ])
          ≡ (elim o as (λ _. ℕ × Links × Priorityq) [
            | none ↦ (0, m, q)
            | some priority ↦ pop_at priority (m, q)
          ]).0
    go none = refl
    go (some p) = popfront-peekfront m (q.priority_bins p)

-- `priorityq_peekfront` returns the first node of the highest priority that has one, or NULL.
pub priorityq_peekfront_lem :
    (m : Links) (q : Priorityq) (s : Queues)
    → IsPriorityq m q s
    → ((priorityq_peekfront q ≡ 0) × AllEmpty s)
      ⊎ ((p : ℕ) × (xs : List ℕ) × IsNext s p (priorityq_peekfront q) xs)
priorityq_peekfront_lem m q s ok =
    rw (peekfront-popfront m q) (elim (priorityq_popfront_lem m q s ok) [
      | inl (e, g, f, empty) ↦ inl (e, empty)
      | inr (p, xs, n, rest, cut) ↦ inr (p, xs, n)
    ])

-- A member is free once it is out.
taken-IsFree :
    (m : Links) (q : Priorityq) (s : Queues) (node p : ℕ) (front back : List ℕ)
    → IsPriorityq m q s
    → p < 256
    → s p ≡ front ++ node ∷ back
    → IsFree (update s p (front ++ back)) node
taken-IsFree m q s node p front back ok hp e =
    let bin : IsDq m (q.priority_bins p) (front ++ node ∷ back) = rw e at (ok.bins p hp) in
    let out_back = Distinct-right front (node ∷ back) bin.distinct in
    let here : has node (s p) ≡ true = ap (has node) e ∙ rw has-append (ground arith) in
    (
      ground (arith, bin.no_null, has-append 0 front (node ∷ back)),
      λ i hi. elim (Bool-cases (p == i)) [
        | inl h ↦
            rw (h, has-append)
              (ground (arith, out_back.0, Distinct-apart front (node ∷ back) node bin.distinct))
        | inr h ↦ rw h (ground (arith, ok.apart i p node hi hp, here))
      ],
    )

-- `priorityq_requeue` moves a member from one priority to either end of another or of its own.
pub priorityq_requeue_lem :
    (m : Links) (q : Priorityq) (s : Queues) (node new_priority old_priority : ℕ)
    (front back : List ℕ) (direction : Bool)
    → IsPriorityq m q s
    → old_priority < 256
    → new_priority < 256
    → s old_priority ≡ front ++ node ∷ back
    → let (g, q') = priorityq_requeue node new_priority old_priority direction (m, q) in
      let s' = update s old_priority (front ++ back) in
      IsPriorityq g q' (
        update s' new_priority
          (if direction then node ∷ s' new_priority else s' new_priority ++ node ∷ []))
unfolding priorityq_requeue
priorityq_requeue_lem m q s node new old front back direction ok hold hnew e =
    priorityq_push_lem _ _ _ node new (priorityq_dequeue_lem m q s node old front back ok hold e).0
      hnew (taken-IsFree m q s node old front back ok hold e) direction
