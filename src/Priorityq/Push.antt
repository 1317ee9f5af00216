-- ===== src/Priorityq/Push.antt =====
-- Pushing a new node on either side, and taking a member out.
use twan.Base.{
  ℕ, ◌<◌, ◌≡◌, ◌≢◌, inl, inr, refl, ap, Bool, true, false, ◌||◌, List, [], ◌∷◌, ◌++◌, arith, ◌==◌,
  Bool-cases, if◌then◌else◌, update,
}
use twan.Bitmap.{bmp256_test, bmp256_set}
use twan.Bitmap.Laws.{test-set, test-unset, set-IsWords, unset-IsWords}
use twan.Dq.{Links, Dq, link, dq_push}
use twan.Dq.Chain.{has, is_nil, has-append}
use twan.Dq.Insert.{Holds, dq_pushfront_lem, dq_pushback_lem}
use twan.Dq.Remove.{Left, dq_dequeue_lem}
use twan.Dq.Pop.{is_empty_lem}
use twan.Priorityq.{
  Priorityq, drop_if_empty, set_bin, priorityq_unset_priority, priorityq_pushfront,
  priorityq_pushback, priorityq_push, priorityq_dequeue,
}
use twan.Priorityq.Invariant.{Queues, IsPriorityq, replace_bin}

-- A node that stands in no queue.
abbrev pub IsFree : Queues → ℕ → Type 0
IsFree s node = (node ≢ 0) × ((i : ℕ) → i < 256 → has node (s i) ≡ false)

-- The queue of `p` has become `xs`, with one node more than before; its bit is set.
grown :
    (m : Links) (q : Priorityq) (s : Queues) (node p : ℕ) (xs : List ℕ) (r : Links × Dq)
    → IsPriorityq m q s
    → p < 256
    → IsFree s node
    → ((a : ℕ) → has a xs ≡ (a == node || has a (s p)))
    → Holds m xs r
    → IsPriorityq r.0
        (record {
          priority_bins = update q.priority_bins p r.1;
          priority_bitmap = bmp256_set q.priority_bitmap p;
        })
        (update s p xs)
grown m q s node p xs (g, d) ok hp free members (new, same) =
    replace_bin m g q s p d _ xs xs ok hp new same
      (λ i a hi ne h. ground (arith, members a, ok.apart i p a hi hp h, free.1 i hi)) (λ a h. h)
      (set-IsWords q.priority_bitmap p ok.words)
      (λ i hi. ground (arith, test-set q.priority_bitmap p i, some_in xs node (members node)))
  where
    some_in : (xs : List ℕ) (a : ℕ) → has a xs ≡ (a == a || has a (s p)) → is_nil xs ≡ false
    some_in [] a h = ground arith
    some_in (x ∷ xs) a h = refl

module _ (m : Links) (q : Priorityq) (s : Queues) (node p : ℕ) (ok : IsPriorityq m q s)
    (hp : p < 256) (free : IsFree s node) where
  -- `priorityq_pushfront` of a free node puts it first among its priority.
  pub priorityq_pushfront_lem :
      let (g, q') = priorityq_pushfront node p (m, q) in IsPriorityq g q' (update s p (node ∷ s p))
  unfolding priorityq_pushfront
  priorityq_pushfront_lem =
      grown m q s node p (node ∷ s p) _ ok hp free (λ a. refl)
        (dq_pushfront_lem m (q.priority_bins p) (s p) node (ok.bins p hp) (free.1 p hp) free.0)

  -- `priorityq_pushback` of a free node puts it last among its priority.
  pub priorityq_pushback_lem :
      let (g, q') = priorityq_pushback node p (m, q) in
      IsPriorityq g q' (update s p (s p ++ node ∷ []))
  unfolding priorityq_pushback
  priorityq_pushback_lem =
      grown m q s node p (s p ++ node ∷ []) _ ok hp free
        (λ a. ground (arith, has-append a (s p) (node ∷ [])))
        (dq_pushback_lem m (q.priority_bins p) (s p) node (ok.bins p hp) (free.1 p hp) free.0)

  -- `priorityq_push` of a node that stands in no queue puts it first or last among its priority, by its
  -- direction, and keeps the invariant: the bits still tell the queues that are not empty.
  pub priorityq_push_lem :
      (direction : Bool)
      → let (g, q') = priorityq_push node p direction (m, q) in
        IsPriorityq g q' (update s p (if direction then node ∷ s p else s p ++ node ∷ []))
  unfolding priorityq_push dq_push
  priorityq_push_lem true =
      grown m q s node p (node ∷ s p) _ ok hp free (λ a. refl)
        (dq_pushfront_lem m (q.priority_bins p) (s p) node (ok.bins p hp) (free.1 p hp) free.0)
  priorityq_push_lem false =
      grown m q s node p (s p ++ node ∷ []) _ ok hp free
        (λ a. ground (arith, has-append a (s p) (node ∷ [])))
        (dq_pushback_lem m (q.priority_bins p) (s p) node (ok.bins p hp) (free.1 p hp) free.0)

not_here :
    (s : Queues) (p : ℕ) (all : List ℕ)
    → s p ≡ all
    → (i : ℕ) → ((b : ℕ) → has b (s i) ≡ true → has b (s p) ≡ true → i ≡ p)
    → (a : ℕ) → i ≢ p
    → has a (s i) ≡ true
    → has a all ≡ false
not_here s p all e i apart a ne h = ground (arith, apart a, ap (has a) e)

-- The queue of `p`, in `s` the list `all`, has become `xs`, with fewer nodes; its bit is dropped if
-- none is left.
pub shrunk :
    (m : Links) (q : Priorityq) (s : Queues) (node p : ℕ) (all xs : List ℕ) (g : Links) (d : Dq)
    → IsPriorityq m q s
    → p < 256
    → s p ≡ all
    → is_nil all ≡ false
    → ((a : ℕ) → has a xs ≡ true → has a all ≡ true)
    → Left m all node xs (g, d)
    → IsPriorityq g (drop_if_empty p d (set_bin q p d)) (update s p xs)
unfolding priorityq_unset_priority
shrunk m q s node p all [] g d ok hp e full sub (new, same, cut) = rw (is_empty_lem g d [] new) (
    replace_bin m g q s p d _ [] all ok hp new same
      (λ i a hi ne h. not_here s p all e i (λ b. ok.apart i p b hi hp) a ne h) sub
      (unset-IsWords q.priority_bitmap p ok.words)
      (λ i hi. ground (arith, test-unset q.priority_bitmap p i ok.words hp)))
shrunk m q s node p all (x ∷ xs) g d ok hp e full sub (new, same, cut) =
    rw (is_empty_lem g d (x ∷ xs) new) (
      replace_bin m g q s p d _ (x ∷ xs) all ok hp new same
        (λ i a hi ne h. not_here s p all e i (λ b. ok.apart i p b hi hp) a ne h) sub ok.words
        (λ i hi. elim (Bool-cases (p == i)) [ inl h ↦ rw h (still i h) | inr h ↦ rw h ]))
  where
    still : (i : ℕ) → (p == i) ≡ true → bmp256_test q.priority_bitmap i ≡ true
    still i h = ground (arith, ok.bits p hp, ap is_nil e)

-- `priorityq_dequeue` of a member takes it out of its priority, leaves the others in order, unlinks it
-- and keeps the invariant: the bit is dropped exactly if no node is left.
pub priorityq_dequeue_lem :
    (m : Links) (q : Priorityq) (s : Queues) (node p : ℕ) (front back : List ℕ)
    → IsPriorityq m q s
    → p < 256
    → s p ≡ front ++ node ∷ back
    → let (g, q') = priorityq_dequeue node p (m, q) in
      IsPriorityq g q' (update s p (front ++ back)) × (g node ≡ link 0 0)
unfolding priorityq_dequeue
priorityq_dequeue_lem m q s node p front back ok hp e =
    let left = dq_dequeue_lem m (q.priority_bins p) front back node (rw e at (ok.bins p hp)) in
    (
      shrunk m q s node p (front ++ node ∷ back) (front ++ back) _ _ ok hp e (full front)
          (λ a h. ground (arith, has-append a front back, has-append a front (node ∷ back))) left,
      left.2,
    )
  where
    full : (xs : List ℕ) → is_nil (xs ++ node ∷ back) ≡ false
    full [] = refl
    full (x ∷ xs) = refl

-- The store stays as it was but at the node and the nodes of its priority.
pub push_frame :
    (m : Links) (q : Priorityq) (s : Queues) (node p : ℕ) (direction : Bool) (a : ℕ)
    → IsPriorityq m q s
    → p < 256
    → IsFree s node
    → a ≢ node
    → has a (s p) ≡ false
    → (priorityq_push node p direction (m, q)).0 a ≡ m a
unfolding priorityq_push dq_push
push_frame m q s node p true a ok hp free ne h =
    (dq_pushfront_lem m (q.priority_bins p) (s p) node (ok.bins p hp) (free.1 p hp) free.0).1 a
      (ground arith)
push_frame m q s node p false a ok hp free ne h =
    (dq_pushback_lem m (q.priority_bins p) (s p) node (ok.bins p hp) (free.1 p hp) free.0).1 a
      (ground (arith, has-append a (s p) (node ∷ [])))

pub dequeue_frame :
    (m : Links) (q : Priorityq) (s : Queues) (node p : ℕ) (front back : List ℕ) (a : ℕ)
    → IsPriorityq m q s
    → p < 256
    → s p ≡ front ++ node ∷ back
    → has a (s p) ≡ false
    → (priorityq_dequeue node p (m, q)).0 a ≡ m a
unfolding priorityq_dequeue
dequeue_frame m q s node p front back a ok hp e h =
    (dq_dequeue_lem m (q.priority_bins p) front back node (rw e at (ok.bins p hp))).1 a (rw (← e) h)
