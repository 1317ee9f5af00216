-- ===== src/Dq/Pop.antt =====
-- `dq_popfront`, `dq_is_queued`, `dq_is_empty` and `dq_clear`.
use mathlib.Core.Bool.{false≢true}
use mathlib.Core.Path.{subst}
use twan.Base.{
  ℕ, zero, suc, ◌≡◌, ◌≢◌, ◌⊎◌, inl, inr, refl, sym, ◌∙◌, true, false, List, [], ◌∷◌, arith, ◌==◌,
  fun_ext, ==_false, Bool-cases, ==_iff, length, ◌<◌,
}
use twan.Dq.{
  link, Links, Dq, set_next, set_prev, dq_dequeue, dq_peekfront, dq_popfront, dq_is_queued,
  dq_is_empty, clear_loop, dq_clear,
}
use twan.Dq.Remove.{Left, dq_dequeue_lem}
use twan.Dq.Chain.{has, is_nil, Distinct, first_or, Seg, IsDq, SameOutside, Seg-frame}

-- `dq_popfront` is `dq_dequeue` of the first node.
module _ (m : Links) (d : Dq) (x : ℕ) (front_is : d.front ≡ x) (real : x ≢ 0)
    (prev_is : (m x).prev ≡ 0) (next_ne : (m x).next ≢ x) where
  pop_store : (a : ℕ) → (dq_popfront (m, d)).1 a ≡ (dq_dequeue x (m, d)).0 a
  unfolding dq_popfront dq_dequeue
  pop_store a = ground arith

  pop_ends : (dq_popfront (m, d)).2 ≡ (dq_dequeue x (m, d)).1
  unfolding dq_popfront dq_dequeue
  pop_ends = ground arith

  pop_node : (dq_popfront (m, d)).0 ≡ x
  unfolding dq_popfront
  pop_node = ground arith

  pop_dequeue : dq_popfront (m, d) ≡ (x, (dq_dequeue x (m, d)).0, (dq_dequeue x (m, d)).1)
  pop_dequeue = λ i. (pop_node i, fun_ext pop_store i, pop_ends i)

next_ne : (m : Links) (x : ℕ) (xs : List ℕ) → has x xs ≡ false → x ≢ 0 → first_or 0 xs ≢ x
next_ne m x [] f ne e = absurd (ne (sym e))
next_ne m x (y ∷ ys) f ne e = ground arith

-- What `dq_popfront` returns: NULL and no change on an empty queue, else the first node, taken out.
abbrev pub Popped : Links → Dq → List ℕ → ℕ × Links × Dq → Type 0
Popped m d [] (node, g, d') = (node ≡ 0) × (g ≡ m) × (d' ≡ d)
Popped m d (x ∷ xs) (node, g, d') = (node ≡ x) × Left m (x ∷ xs) x xs (g, d')

popfront_empty : (m : Links) (d : Dq) → d.front ≡ 0 → dq_popfront (m, d) ≡ (0, m, d)
unfolding dq_popfront
popfront_empty m d e = ground arith

-- `dq_popfront` returns the first node and leaves the rest in order, or returns NULL and changes
-- nothing if the queue is empty.
pub dq_popfront_lem :
    (m : Links) (d : Dq) (xs : List ℕ) → IsDq m d xs → Popped m d xs (dq_popfront (m, d))
dq_popfront_lem m d [] ok = rw (popfront_empty m d ok.front_first) (refl, refl, refl)
dq_popfront_lem m d (x ∷ xs) ok =
    rw (pop_dequeue m d x ok.front_first real ok.chain.0 ne) (refl, dq_dequeue_lem m d [] xs x ok)
  where
    real : x ≢ 0
    real = ground (arith, ok.no_null)

    ne : (m x).next ≢ x
    ne e = next_ne m x xs ok.distinct.0 real (sym ok.chain.1 ∙ e)

pub popfront-peekfront : (m : Links) (d : Dq) → dq_peekfront d ≡ (dq_popfront (m, d)).0
unfolding dq_peekfront dq_popfront
popfront-peekfront m d = ground arith

-- `dq_is_empty` tells an empty queue.
pub is_empty_lem : (m : Links) (d : Dq) (xs : List ℕ) → IsDq m d xs → dq_is_empty d ≡ is_nil xs
unfolding dq_is_empty
is_empty_lem m d [] ok = ground (arith, ok.front_first)
is_empty_lem m d (x ∷ xs) ok = ground (arith, ok.front_first, ok.no_null)

-- A member behind another node has that one for its `prev`.
prev_of_member :
    (m : Links) (p : ℕ) (xs : List ℕ) (q a : ℕ)
    → Seg m p xs q
    → has 0 (p ∷ xs) ≡ false
    → has a xs ≡ true
    → (m a).prev ≢ 0
prev_of_member m p [] q a s z h = absurd (false≢true h)
prev_of_member m p (x ∷ xs) q a (b, c, s) z h = elim (Bool-cases (a == x)) [
  | inl e ↦ rw ((==_iff a x).0 e, b) (ground arith)
  | inr e ↦ prev_of_member m x xs q a s (ground arith) (ground arith)
]

-- `dq_is_queued` tells a member from a node that stands in no queue: such a node has no links.
pub is_queued_lem :
    (m : Links) (d : Dq) (xs : List ℕ) (a : ℕ)
    → IsDq m d xs
    → (has a xs ≡ true) ⊎ ((has a xs ≡ false) × (m a ≡ link 0 0) × (a ≢ 0))
    → dq_is_queued a (m, d) ≡ has a xs
unfolding dq_is_queued
is_queued_lem m d [] a ok (inl h) = absurd (false≢true h)
is_queued_lem m d (x ∷ xs) a ok (inl h) = elim (Bool-cases (a == x)) [
  | inl e ↦ ground (arith, ok.front_first)
  | inr e ↦
      rw (==_false (m a).prev 0 (prev_of_member m x xs 0 a ok.chain.2 ok.no_null (ground arith)), h)
]
is_queued_lem m d [] a ok (inr (h, e, ne)) = ground (arith, ok.front_first)
is_queued_lem m d (x ∷ xs) a ok (inr (h, e, ne)) = ground (arith, ok.front_first)

-- What `dq_clear` leaves of the nodes `xs`.
abbrev pub Cleared : Links → List ℕ → Links → Type 0
Cleared m xs g = SameOutside xs m g × ((a : ℕ) → has a xs ≡ true → g a ≡ link 0 0)

clear_round :
    (rounds x : ℕ) (m : Links)
    → x ≢ 0
    → clear_loop (suc rounds) x m ≡ clear_loop rounds (m x).next (set_next (set_prev m x 0) x 0)
unfolding clear_loop
clear_round rounds x m ne = rw (==_false x 0 ne, clear_loop)

Cleared-cons :
    (m g : Links) (x : ℕ) (xs : List ℕ)
    → has x xs ≡ false
    → Cleared (set_next (set_prev m x 0) x 0) xs g
    → Cleared m (x ∷ xs) g
Cleared-cons m g x xs f c = (
  λ a h. ground (arith, c.0 a),
  λ a h. elim (Bool-cases (a == x)) [
    | inl e ↦ ground (arith, c.0 a)
    | inr e ↦ c.1 a (ground arith)
  ],
)

clear-Seg :
    (rounds : ℕ) (m : Links) (p : ℕ) (xs : List ℕ)
    → Seg m p xs 0
    → Distinct xs
    → has 0 xs ≡ false
    → length xs < rounds
    → Cleared m xs (clear_loop rounds (first_or 0 xs) m)
unfolding clear_loop
clear-Seg zero m p xs s d z l = elim l [ ]
clear-Seg (suc rounds) m p [] s d z l = (λ a h. refl, λ a h. absurd (false≢true h))
clear-Seg (suc rounds) m p (x ∷ xs) (b, n, s) (f, d) z l =
    let m1 = set_next (set_prev m x 0) x 0 in
    let framed = Seg-frame m m1 xs x 0 (λ a h. ground arith) s in
    let rest = clear-Seg rounds m1 x xs framed d (ground arith) (omega arith) in
    rw (clear_round rounds x m (ground arith)) (
      subst (λ t. Cleared m (x ∷ xs) (clear_loop rounds t m1)) (sym n)
        (Cleared-cons m _ x xs f rest))

-- `dq_clear` unlinks every node, writes nowhere else, and leaves an empty queue; one round more
-- than the queue has nodes is enough.
pub dq_clear_lem :
    (rounds : ℕ) (m : Links) (d : Dq) (xs : List ℕ)
    → IsDq m d xs
    → length xs < rounds
    → let (g, d') = dq_clear rounds (m, d) in Cleared m xs g × IsDq g d' []
unfolding dq_clear
dq_clear_lem rounds m d xs ok l = (
  subst (λ t. Cleared m xs (clear_loop rounds t m)) (sym ok.front_first)
      (clear-Seg rounds m 0 xs ok.chain ok.distinct ok.no_null l),
  record { front_first = refl; rear_last = refl; chain = tt; distinct = tt; no_null = refl },
)
