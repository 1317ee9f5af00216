-- ===== src/Dq/Insert.antt =====
-- `dq_insert` links its node between two neighbours; `dq_pushfront` and `dq_pushback` are its two
-- ends.
use mathlib.Core.Bool.{false≢true}
use mathlib.Core.List.{append-nil}
use mathlib.Core.Path.{subst}
use twan.Base.{
  ℕ, ◌≡◌, ◌≢◌, refl, sym, ◌∙◌, false, not, ◌&&◌, List, [], ◌∷◌, ◌++◌, arith, ◌==◌, if◌then◌else◌,
  fun_ext,
}
use twan.Dq.{link, Links, Dq, dq, dq_pushfront, dq_pushback, dq_insert}
use twan.Dq.Chain.{
  has, Distinct, first_or, last_or, Seg, IsDq, SameOutside, has-append, last_or-append, Seg-split,
  Seg-join, Seg-front, Seg-back, Distinct-left, Distinct-right, Distinct-apart, Distinct-join,
  last_or_in, first_or_in, last-ne-zero,
}

-- The store that `dq_insert` leaves, at each address.
spliced : Links → (node p q : ℕ) → Links
spliced m node p q a =
    if a == node
    then link q p
    else link (if not (p == 0) && a == p then node else (m a).next)
        (if not (q == 0) && a == q then node else (m a).prev)

insert_store :
    (m : Links) (d : Dq) (node p q a : ℕ)
    → node ≢ p
    → node ≢ q
    → (dq_insert node p q (m, d)).0 a ≡ spliced m node p q a
unfolding dq_insert spliced
insert_store m d node p q a np nq = ground arith

pushfront_store :
    (m : Links) (d : Dq) (node a : ℕ)
    → node ≢ d.front
    → (dq_pushfront node (m, d)).0 a ≡ (dq_insert node 0 d.front (m, d)).0 a
unfolding dq_pushfront dq_insert
pushfront_store m d node a ne = ground arith

pushfront_ends :
    (m : Links) (d : Dq) (node : ℕ)
    → (dq_pushfront node (m, d)).1 ≡ (dq_insert node 0 d.front (m, d)).1
unfolding dq_pushfront dq_insert
pushfront_ends m d node = ground arith

pushback_store :
    (m : Links) (d : Dq) (node a : ℕ)
    → node ≢ d.rear
    → (dq_pushback node (m, d)).0 a ≡ (dq_insert node d.rear 0 (m, d)).0 a
unfolding dq_pushback dq_insert
pushback_store m d node a ne = ground arith

pushback_ends :
    (m : Links) (d : Dq) (node : ℕ)
    → (dq_pushback node (m, d)).1 ≡ (dq_insert node d.rear 0 (m, d)).1
unfolding dq_pushback dq_insert
pushback_ends m d node = ground arith

insert_ends :
    (m : Links) (d : Dq) (node p q : ℕ)
    → (dq_insert node p q (m, d)).1
      ≡ dq (if p == 0 then node else d.front) (if q == 0 then node else d.rear)
unfolding dq_insert
insert_ends m d node p q = ground arith

module _ (m : Links) (d : Dq) (front back : List ℕ) (node : ℕ) (ok : IsDq m d (front ++ back))
    (fresh : has node (front ++ back) ≡ false) (real : node ≢ 0) where
  p : ℕ
  p = last_or 0 front

  q : ℕ
  q = first_or 0 back

  -- the store after the splice
  g : Links
  g = spliced m node (last_or 0 front) (first_or 0 back)

  front_free : has node front ≡ false
  front_free = ground (arith, has-append node front back)

  back_free : has node back ≡ false
  back_free = ground (arith, has-append node front back)

  no_null_front : has 0 front ≡ false
  no_null_front = ground (arith, has-append 0 front back, ok.no_null)

  no_null_back : has 0 back ≡ false
  no_null_back = ground (arith, has-append 0 front back, ok.no_null)

  node-ne-last : node ≢ last_or 0 front
  node-ne-last e = absurd (false≢true (sym front_free ∙ last_or_in front node e real))

  node-ne-first : node ≢ first_or 0 back
  node-ne-first e = absurd (false≢true (sym back_free ∙ first_or_in back node e real))

  parts : Seg m 0 front (first_or 0 back) × Seg m (last_or 0 front) back 0
  parts = Seg-split m front back 0 0 ok.chain

  front_chain : Seg g 0 front node
  unfolding g spliced
  front_chain =
      Seg-back m _ front 0 (first_or 0 back) node (Distinct-left front back ok.distinct)
        (λ a h. ground (
          arith,
          front_free,
          no_null_front,
          Distinct-apart front back a ok.distinct h,
          first_or_in back a,
        ))
        (λ a h. ground (arith, front_free, no_null_front)) parts.0

  back_chain : Seg g node back 0
  unfolding g spliced
  back_chain =
      Seg-front m _ back (last_or 0 front) 0 node (Distinct-right front back ok.distinct)
        (λ a h. ground (
          arith,
          back_free,
          no_null_back,
          Distinct-apart front back a ok.distinct,
          last_or_in front a,
        ))
        (λ a h. ground (arith, back_free, no_null_back)) parts.1

  chain_after : Seg g 0 (front ++ node ∷ back) 0
  unfolding g spliced
  chain_after =
      Seg-join _ front (node ∷ back) 0 0 front_chain (ground arith, ground arith, back_chain)

  Distinct-after : Distinct (front ++ node ∷ back)
  Distinct-after =
      Distinct-join front (node ∷ back) (Distinct-left front back ok.distinct)
        (back_free, Distinct-right front back ok.distinct)
        (λ a h. ground (arith, front_free, Distinct-apart front back a ok.distinct h))

  front_after : (if last_or 0 front == 0 then node else d.front) ≡ first_or 0 (front ++ node ∷ back)
  front_after = ends front ok.front_first no_null_front
    where
      ends :
          (xs : List ℕ)
          → d.front ≡ first_or 0 (xs ++ back)
          → has 0 xs ≡ false
          → (if last_or 0 xs == 0 then node else d.front) ≡ first_or 0 (xs ++ node ∷ back)
      ends [] e z = refl
      ends (x ∷ xs) e z = rw (last-ne-zero x xs z) e

  rear_after : (if first_or 0 back == 0 then node else d.rear) ≡ last_or 0 (front ++ node ∷ back)
  rear_after =
      rw last_or-append (ends back (ok.rear_last ∙ last_or-append 0 front back) no_null_back)
    where
      ends :
          (ys : List ℕ)
          → d.rear ≡ last_or (last_or 0 front) ys
          → has 0 ys ≡ false
          → (if first_or 0 ys == 0 then node else d.rear) ≡ last_or node ys
      ends [] e z = refl
      ends (y ∷ ys) e z = ground arith

  ends_after :
      (dq_insert node (last_or 0 front) (first_or 0 back) (m, d)).1
      ≡ dq (first_or 0 (front ++ node ∷ back)) (last_or 0 (front ++ node ∷ back))
  ends_after =
      rw (insert_ends m d node (last_or 0 front) (first_or 0 back), front_after, rear_after)

  inserted :
      dq_insert node (last_or 0 front) (first_or 0 back) (m, d)
      ≡ (g, dq (first_or 0 (front ++ node ∷ back)) (last_or 0 (front ++ node ∷ back)))
  unfolding g
  inserted = λ i. (
    fun_ext
        (λ a.
          insert_store m d node (last_or 0 front) (first_or 0 back) a node-ne-last node-ne-first)
        i,
    ends_after i,
  )

  same_outside : SameOutside (front ++ node ∷ back) m g
  unfolding g spliced
  same_outside a h =
      ground (arith, has-append a front (node ∷ back), last_or_in front a, first_or_in back a)

-- The queue `d` becomes `d'` in the store `g`, which differs from `m` at its own nodes alone.
abbrev pub Holds : Links → List ℕ → Links × Dq → Type 0
Holds m xs (g, d) = IsDq g d xs × SameOutside xs m g

module _ (m : Links) (d : Dq) (front back : List ℕ) (node : ℕ) where
  -- `dq_insert` of a new node, not NULL, between the two parts of a queue puts it there, keeps the other nodes
  -- in order, and writes at no address outside the queue.
  pub dq_insert_lem :
      IsDq m d (front ++ back)
      → has node (front ++ back) ≡ false
      → node ≢ 0
      → Holds m (front ++ node ∷ back) (dq_insert node (last_or 0 front) (first_or 0 back) (m, d))
  dq_insert_lem ok fresh real = rw (inserted m d front back node ok fresh real) (
    record {
      front_first = refl;
      rear_last = refl;
      chain = chain_after m d front back node ok fresh real;
      distinct = Distinct-after m d front back node ok fresh real;
      no_null =
          ground (arith, has-append 0 front (node ∷ back), has-append 0 front back, ok.no_null);
    },
    same_outside m d front back node ok fresh real,
  )

module _ (m : Links) (d : Dq) (node : ℕ) where
  pushfront_insert : node ≢ d.front → dq_pushfront node (m, d) ≡ dq_insert node 0 d.front (m, d)
  pushfront_insert ne = λ i. (fun_ext store i, ends i)
    where
      store : (a : ℕ) → (dq_pushfront node (m, d)).0 a ≡ (dq_insert node 0 d.front (m, d)).0 a
      store a = pushfront_store m d node a ne

      ends : (dq_pushfront node (m, d)).1 ≡ (dq_insert node 0 d.front (m, d)).1
      ends = pushfront_ends m d node

  pushback_insert : node ≢ d.rear → dq_pushback node (m, d) ≡ dq_insert node d.rear 0 (m, d)
  pushback_insert ne = λ i. (fun_ext store i, ends i)
    where
      store : (a : ℕ) → (dq_pushback node (m, d)).0 a ≡ (dq_insert node d.rear 0 (m, d)).0 a
      store a = pushback_store m d node a ne

      ends : (dq_pushback node (m, d)).1 ≡ (dq_insert node d.rear 0 (m, d)).1
      ends = pushback_ends m d node

module _ (m : Links) (d : Dq) (xs : List ℕ) (node : ℕ) (ok : IsDq m d xs)
    (fresh : has node xs ≡ false) (real : node ≢ 0) where
  -- `dq_pushfront` of a new node adds it before the others.
  pub dq_pushfront_lem : Holds m (node ∷ xs) (dq_pushfront node (m, d))
  dq_pushfront_lem = rw (pushfront_insert m d node ne) (
      subst (λ t. Holds m (node ∷ xs) (dq_insert node 0 t (m, d))) (sym ok.front_first)
        (dq_insert_lem m d [] xs node ok fresh real))
    where
      ne : node ≢ d.front
      ne e = absurd (false≢true (sym fresh ∙ first_or_in xs node (e ∙ ok.front_first) real))

  -- `dq_pushback` of a new node adds it behind the others.
  pub dq_pushback_lem : Holds m (xs ++ node ∷ []) (dq_pushback node (m, d))
  dq_pushback_lem = rw (pushback_insert m d node ne) (
      subst (λ t. Holds m (xs ++ node ∷ []) (dq_insert node t 0 (m, d))) (sym ok.rear_last)
        (dq_insert_lem m d xs [] node (rw append-nil ok) (rw append-nil fresh) real))
    where
      ne : node ≢ d.rear
      ne e = absurd (false≢true (sym fresh ∙ last_or_in xs node (e ∙ ok.rear_last) real))
