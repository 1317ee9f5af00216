-- ===== src/Dq/Remove.antt =====
-- `dq_dequeue` takes its node out of the list; `dq_popfront` takes the first one.
use mathlib.Core.Bool.{false≢true}
use twan.Base.{
  ℕ, ◌≡◌, ◌≢◌, refl, sym, ◌∙◌, true, false, not, ◌&&◌, List, [], ◌∷◌, ◌++◌, arith, ◌==◌,
  if◌then◌else◌, fun_ext,
}
use twan.Dq.{link, Links, Dq, dq, dq_dequeue}
use twan.Dq.Chain.{
  has, Distinct, first_or, last_or, Seg, IsDq, SameOutside, has-append, last_or-append, Seg-split,
  Seg-join, Seg-front, Seg-back, Distinct-left, Distinct-right, Distinct-apart, Distinct-join,
  last_or_in, first_or_in, last-ne-zero,
}

-- The store that `dq_dequeue` leaves of a node between `p` and `q`, at each address.
closed : Links → (node p q : ℕ) → Links
closed m node p q a =
    if a == node
    then link 0 0
    else link (if not (p == 0) && a == p then q else (m a).next)
        (if not (q == 0) && a == q then p else (m a).prev)

module _ (m : Links) (d : Dq) (node p q : ℕ) (prev_is : (m node).prev ≡ p)
    (next_is : (m node).next ≡ q) (np : node ≢ p) (nq : node ≢ q) where
  dequeue_store : (a : ℕ) → (dq_dequeue node (m, d)).0 a ≡ closed m node p q a
  unfolding dq_dequeue closed
  dequeue_store a = ground arith

  dequeue_ends :
      (dq_dequeue node (m, d)).1 ≡ dq (if p == 0 then q else d.front) (if q == 0 then p else d.rear)
  unfolding dq_dequeue
  dequeue_ends = ground arith

module _ (m : Links) (d : Dq) (front back : List ℕ) (node : ℕ)
    (ok : IsDq m d (front ++ node ∷ back)) where
  -- the store after the removal
  g : Links
  g = closed m node (last_or 0 front) (first_or 0 back)

  parts :
      Seg m 0 front node
      × (((m node).prev ≡ last_or 0 front) × ((m node).next ≡ first_or 0 back) × Seg m node back 0)
  parts = Seg-split m front (node ∷ back) 0 0 ok.chain

  back_part : (has node back ≡ false) × Distinct back
  back_part = Distinct-right front (node ∷ back) ok.distinct

  apart : (a : ℕ) → has a front ≡ true → has a (node ∷ back) ≡ false
  apart a = Distinct-apart front (node ∷ back) a ok.distinct

  front_free : has node front ≡ false
  front_free = ground (arith, apart node)

  no_null : (has 0 front ≡ false) × (has 0 (node ∷ back) ≡ false)
  no_null = ground (arith, has-append 0 front (node ∷ back), ok.no_null)

  real : node ≢ 0
  real = ground (arith, no_null.1)

  node-ne-last : node ≢ last_or 0 front
  node-ne-last e = absurd (false≢true (sym front_free ∙ last_or_in front node e real))

  node-ne-first : node ≢ first_or 0 back
  node-ne-first e = absurd (false≢true (sym back_part.0 ∙ first_or_in back node e real))

  front_chain : Seg g 0 front (first_or 0 back)
  unfolding g closed
  front_chain =
      Seg-back m _ front 0 node (first_or 0 back) (Distinct-left front (node ∷ back) ok.distinct)
        (λ a h. ground (arith, front_free, no_null, apart a h, first_or_in back a))
        (λ a h. ground (arith, front_free, no_null)) parts.0

  back_chain : Seg g (last_or 0 front) back 0
  unfolding g closed
  back_chain =
      Seg-front m _ back node 0 (last_or 0 front) back_part.1
        (λ a h. ground (arith, back_part.0, no_null, apart a, last_or_in front a))
        (λ a h. ground (arith, back_part.0, no_null)) parts.1.2

  front_after :
      (if last_or 0 front == 0 then first_or 0 back else d.front) ≡ first_or 0 (front ++ back)
  front_after = ends front ok.front_first no_null.0
    where
      ends :
          (xs : List ℕ)
          → d.front ≡ first_or 0 (xs ++ node ∷ back)
          → has 0 xs ≡ false
          → (if last_or 0 xs == 0 then first_or 0 back else d.front) ≡ first_or 0 (xs ++ back)
      ends [] e z = refl
      ends (x ∷ xs) e z = rw (last-ne-zero x xs z) e

  rear_after :
      (if first_or 0 back == 0 then last_or 0 front else d.rear) ≡ last_or 0 (front ++ back)
  rear_after =
      rw last_or-append (ends back (ok.rear_last ∙ last_or-append 0 front (node ∷ back)) no_null.1)
    where
      ends :
          (ys : List ℕ)
          → d.rear ≡ last_or node ys
          → has 0 (node ∷ ys) ≡ false
          → (if first_or 0 ys == 0 then last_or 0 front else d.rear) ≡ last_or (last_or 0 front) ys
      ends [] e z = refl
      ends (y ∷ ys) e z = ground arith

  ends_after :
      (dq_dequeue node (m, d)).1 ≡ dq (first_or 0 (front ++ back)) (last_or 0 (front ++ back))
  ends_after = rw (
    dequeue_ends m d node _ _ parts.1.0 parts.1.1 node-ne-last node-ne-first,
    front_after,
    rear_after,
  )

  removed :
      dq_dequeue node (m, d) ≡ (g, dq (first_or 0 (front ++ back)) (last_or 0 (front ++ back)))
  unfolding g
  removed = λ i. (
    fun_ext (dequeue_store m d node _ _ parts.1.0 parts.1.1 node-ne-last node-ne-first) i,
    ends_after i,
  )

  same_outside : SameOutside (front ++ node ∷ back) m g
  unfolding g closed
  same_outside a h =
      ground (arith, has-append a front (node ∷ back), last_or_in front a, first_or_in back a)

  node_cleared : g node ≡ link 0 0
  unfolding g closed
  node_cleared = ground arith

-- How a member of a queue is linked.
pub record IsMember (m : Links) (front back : List ℕ) (node : ℕ) : Type 0 where
  pub prev_is : (m node).prev ≡ last_or 0 front
  pub next_is : (m node).next ≡ first_or 0 back
  pub not_prev : node ≢ last_or 0 front
  pub not_next : node ≢ first_or 0 back
  pub not_before : has node front ≡ false
  pub not_behind : has node back ≡ false

pub member-IsMember :
    (m : Links) (d : Dq) (front back : List ℕ) (node : ℕ)
    → IsDq m d (front ++ node ∷ back)
    → IsMember m front back node
member-IsMember m d front back node ok = record {
  prev_is = (parts m d front back node ok).1.0;
  next_is = (parts m d front back node ok).1.1;
  not_prev = node-ne-last m d front back node ok;
  not_next = node-ne-first m d front back node ok;
  not_before = front_free m d front back node ok;
  not_behind = (back_part m d front back node ok).0;
}

-- What is left of a queue in the store `m` once a node is out: the rest in order, the node unlinked,
-- and no write outside the queue as it was.
abbrev pub Left : Links → List ℕ → ℕ → List ℕ → Links × Dq → Type 0
Left m all node xs (g, d) = IsDq g d xs × SameOutside all m g × (g node ≡ link 0 0)

module _ (m : Links) (d : Dq) (front back : List ℕ) (node : ℕ) where
  -- `dq_dequeue` of a member of a queue leaves the other nodes in order and unlinks the member.
  pub dq_dequeue_lem :
      IsDq m d (front ++ node ∷ back)
      → Left m (front ++ node ∷ back) node (front ++ back) (dq_dequeue node (m, d))
  dq_dequeue_lem ok = rw (removed m d front back node ok) (
    record {
      front_first = refl;
      rear_last = refl;
      chain =
          Seg-join _ front back 0 0 (front_chain m d front back node ok)
            (back_chain m d front back node ok);
      distinct =
          Distinct-join front back (Distinct-left front (node ∷ back) ok.distinct)
            (back_part m d front back node ok).1
            (λ a h. ground (arith, apart m d front back node ok a h));
      no_null = ground (arith, has-append 0 front back, no_null m d front back node ok);
    },
    same_outside m d front back node ok,
    node_cleared m d front back node ok,
  )
