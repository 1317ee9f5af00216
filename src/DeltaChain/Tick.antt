-- ===== src/DeltaChain/Tick.antt =====
-- `delta_chain_advance` and `delta_chain_tick`: which nodes fire, and when the others are due then.
use mathlib.Core.Bool.{false≢true}
use twan.Base.{
  ℕ, zero, suc, ◌+◌, ◌-◌, ◌≤◌, ◌<◌, ◌≡◌, ◌≢◌, ◌⊎◌, inl, inr, refl, ap, ◌∙◌, true, false, List, [],
  ◌∷◌, ◌++◌, arith, ◌==◌, ==_false, ==_iff, Bool-cases, if◌then◌else◌, update, length,
}
use twan.Dq.{dq_peekfront, dq_popfront, dq_is_empty}
use twan.Dq.Chain.{has, has-append, IsDq, Distinct, Distinct-apart}
use twan.Dq.Pop.{is_empty_lem, dq_popfront_lem, popfront-peekfront}
use twan.DeltaChain.{DeltaChain, advance_loop, delta_chain_tick}
use twan.DeltaChain.Due.{
  total, due, due-cons, total-cons, total-nil, due-append, due-le-total, due-same,
}

-- The head of the list, if any, is not due yet.
abbrev HeadWaits : (ℕ → ℕ) → List ℕ → Type 0
HeadWaits delta [] = Unit
HeadWaits delta (x ∷ xs) = delta x ≢ 0

-- The loop took the nodes `fired`, whose deltas are all zero, from the front of `xs`.
record Advanced (delta : ℕ → ℕ) (xs : List ℕ) (out : List ℕ × DeltaChain) : Type 0 where
  rest : List ℕ
  parts : xs ≡ out.0 ++ rest
  queued : IsDq out.1.links out.1.queue rest
  kept : out.1.delta ≡ delta
  zeros : total delta out.0 ≡ 0
  waits : HeadWaits delta rest

advance_stop :
    (rounds : ℕ) (c : DeltaChain)
    → (dq_peekfront c.queue ≡ 0) ⊎ (c.delta (dq_peekfront c.queue) ≢ 0)
    → advance_loop (suc rounds) c ≡ ([], c)
unfolding advance_loop
advance_stop rounds c (inl e) = rw (e, advance_loop)
advance_stop rounds c (inr ne) = elim (Bool-cases (dq_peekfront c.queue == 0)) [
  | inl e ↦ rw (e, advance_loop)
  | inr e ↦ rw (e, advance_loop, ==_false (c.delta (dq_peekfront c.queue)) 0 ne)
]

-- the chain without its front node
abbrev popped : DeltaChain → DeltaChain
popped c = record c {
  links = (dq_popfront (c.links, c.queue)).1;
  queue = (dq_popfront (c.links, c.queue)).2;
}

advance_take :
    (rounds : ℕ) (c : DeltaChain)
    → dq_peekfront c.queue ≢ 0
    → c.delta (dq_peekfront c.queue) ≡ 0
    → advance_loop (suc rounds) c ≡ (
      dq_peekfront c.queue ∷ (advance_loop rounds (popped c)).0,
      (advance_loop rounds (popped c)).1,
    )
unfolding advance_loop
advance_take rounds c ne e = rw (==_false (dq_peekfront c.queue) 0 ne, advance_loop, e)

advance_loop_lem :
    (rounds : ℕ) (c : DeltaChain) (xs : List ℕ)
    → IsDq c.links c.queue xs
    → length xs < rounds
    → Advanced c.delta xs (advance_loop rounds c)
advance_loop_lem zero c xs ok l = elim l [ ]
advance_loop_lem (suc rounds) c [] ok l =
    let e : dq_peekfront c.queue ≡ 0 =
      popfront-peekfront c.links c.queue ∙ (dq_popfront_lem c.links c.queue [] ok).0 in
    rw (advance_stop rounds c (inl e)) (record {
      rest = [];
      parts = refl;
      queued = ok;
      kept = refl;
      zeros = total-nil c.delta;
      waits = tt;
    })
advance_loop_lem (suc rounds) c (x ∷ xs) ok l =
    let (e, left) = dq_popfront_lem c.links c.queue (x ∷ xs) ok in
    let front_is : dq_peekfront c.queue ≡ x = popfront-peekfront c.links c.queue ∙ e in
    let next = advance_loop_lem rounds (popped c) xs left.0 (omega arith) in
    elim (Bool-cases (c.delta x == 0)) [
      | inl z ↦
          rw
            (
              advance_take rounds c (rw front_is (ground (arith, ok.no_null)))
                  (rw front_is ((==_iff _ _).0 z)),
              front_is,
            )
            (record {
              rest = next.rest;
              parts = ap (λ t. x ∷ t) next.parts;
              queued = next.queued;
              kept = next.kept;
              zeros =
                  ground
                    (arith, next.zeros, total-cons c.delta x (advance_loop rounds (popped c)).0);
              waits = next.waits;
            })
      | inr z ↦ rw (advance_stop rounds c (inr (rw front_is (ground arith)))) (record {
        rest = x ∷ xs;
        parts = refl;
        queued = ok;
        kept = refl;
        zeros = total-nil c.delta;
        waits = ground arith;
      })
    ]

-- After `t` ticks on the chain with the nodes `xs`: the nodes that were due within `t` have fired, in
-- order; every other one is due `t` earlier, and later than now.
pub record Ticked (delta : ℕ → ℕ) (xs : List ℕ) (t : ℕ) (out : List ℕ × DeltaChain) : Type 0 where
  pub rest : List ℕ
  pub parts : xs ≡ out.0 ++ rest
  pub queued : IsDq out.1.links out.1.queue rest
  pub fired_due : (a : ℕ) → has a out.0 ≡ true → due delta xs a ≤ t
  pub rest_due :
      (a : ℕ)
      → has a rest ≡ true
      → (t < due delta xs a) × (due out.1.delta rest a + t ≡ due delta xs a)

-- What waits is due later than now.
waits_due :
    (delta : ℕ → ℕ) (rest : List ℕ) (a : ℕ)
    → HeadWaits delta rest
    → has a rest ≡ true
    → 0 < due delta rest a
waits_due delta [] a w h = absurd (false≢true h)
waits_due delta (y ∷ ys) a w h = ground (arith, due-cons delta y ys a)

Ticked-of :
    (delta delta' : ℕ → ℕ) (xs : List ℕ) (t : ℕ) (out : List ℕ × DeltaChain)
    → Distinct xs
    → ((a : ℕ) → has a xs ≡ true → due delta xs a ≡ t + due delta' xs a)
    → Advanced delta' xs out
    → Ticked delta xs t out
Ticked-of delta delta' xs t (fired, c') d shift adv = record {
  rest = rest;
  parts = parts;
  queued = adv.queued;
  fired_due = λ a h. ground (
    arith,
    shift a (in_fired a h),
    ap (λ l. due delta' l a) parts,
    due-append delta' fired rest a,
    due-le-total delta' fired a,
    adv.zeros,
  );
  rest_due = λ a h. ground (
    arith,
    shift a (in_rest a h),
    ap (λ l. due delta' l a) parts,
    due-append delta' fired rest a,
    not_fired a h,
    adv.zeros,
    waits_due delta' rest a adv.waits h,
    ap (λ (f : ℕ → ℕ). due f rest a) adv.kept,
  );
}
  where
    rest : List ℕ
    rest = adv.rest

    parts : xs ≡ fired ++ adv.rest
    parts = adv.parts

    in_fired : (a : ℕ) → has a fired ≡ true → has a xs ≡ true
    in_fired a h = rw parts (rw has-append (ground arith))

    in_rest : (a : ℕ) → has a adv.rest ≡ true → has a xs ≡ true
    in_rest a h = rw (parts, has-append) (ground arith)

    not_fired : (a : ℕ) → has a adv.rest ≡ true → has a fired ≡ false
    not_fired a h = ground (arith, Distinct-apart fired adv.rest a (rw parts at d))

-- The ticks that count: none if the front node is due now, else one.
abbrev pub counted : (ℕ → ℕ) → List ℕ → ℕ
counted delta [] = 0
counted delta (x ∷ xs) = if delta x == 0 then 0 else 1

tick_zero :
    (rounds : ℕ) (c : DeltaChain) (x : ℕ)
    → c.queue.front ≡ x
    → dq_is_empty c.queue ≡ false
    → c.delta x ≡ 0
    → delta_chain_tick rounds c ≡ advance_loop rounds c
unfolding delta_chain_tick
tick_zero rounds c x e full z = rw (full, e, z)

tick_down :
    (rounds : ℕ) (c : DeltaChain) (x : ℕ)
    → c.queue.front ≡ x
    → dq_is_empty c.queue ≡ false
    → c.delta x ≢ 0
    → delta_chain_tick rounds c ≡ (
        let c' = record c { delta = update c.delta x (c.delta x - 1) } in
        if c'.delta x == 0 then advance_loop rounds c' else ([], c'))
unfolding delta_chain_tick
tick_down rounds c x e full nz = rw (full, e, ==_false (c.delta x) 0 nz)

tick_empty :
    (rounds : ℕ) (c : DeltaChain) → dq_is_empty c.queue ≡ true → delta_chain_tick rounds c ≡ ([], c)
unfolding delta_chain_tick
tick_empty rounds c e = rw e

tick_cons :
    (rounds : ℕ) (c : DeltaChain) (x : ℕ) (xs : List ℕ)
    → IsDq c.links c.queue (x ∷ xs)
    → length (x ∷ xs) < rounds
    → Ticked c.delta (x ∷ xs) (counted c.delta (x ∷ xs)) (delta_chain_tick rounds c)
tick_cons rounds c x xs ok l = elim (Bool-cases (c.delta x == 0)) [
  | inl z ↦
      rw (tick_zero rounds c x ok.front_first full ((==_iff _ _).0 z), z)
        (Ticked-of c.delta c.delta (x ∷ xs) 0 _ ok.distinct (λ a h. omega arith)
          (advance_loop_lem rounds c (x ∷ xs) ok l))
  | inr z ↦
      rw (tick_down rounds c x ok.front_first full (ground arith), z)
        (Ticked-of c.delta lower (x ∷ xs) 1 _ ok.distinct (λ a h. shift a z)
          (elim (Bool-cases (lower x == 0)) [
            | inl e ↦ rw e (advance_loop_lem rounds (record c { delta = lower }) (x ∷ xs) ok l)
            | inr e ↦ rw e (record {
              rest = x ∷ xs;
              parts = refl;
              queued = ok;
              kept = refl;
              zeros = total-nil lower;
              waits = ground arith;
            })
          ]))
]
  where
    full : dq_is_empty c.queue ≡ false
    full = is_empty_lem c.links c.queue (x ∷ xs) ok

    lower : ℕ → ℕ
    lower = update c.delta x (c.delta x - 1)

    same : (a : ℕ) → due lower xs a ≡ due c.delta xs a
    same a = due-same c.delta lower xs a (λ y h. ground (arith, ok.distinct.0))

    shift : (a : ℕ) → (c.delta x == 0) ≡ false → due c.delta (x ∷ xs) a ≡ 1 + due lower (x ∷ xs) a
    shift a z = ground (arith, same a, due-cons c.delta x xs a, due-cons lower x xs a)

-- `delta_chain_tick`, on more rounds than the chain has nodes, fires the nodes that are due within the tick, in order, and every other node is
-- due one tick earlier; but if the front node is due now already, it fires only the nodes that
-- are due now, and the others are due when they were.
pub delta_chain_tick_lem :
    (rounds : ℕ) (c : DeltaChain) (xs : List ℕ)
    → IsDq c.links c.queue xs
    → length xs < rounds
    → Ticked c.delta xs (counted c.delta xs) (delta_chain_tick rounds c)
delta_chain_tick_lem rounds c [] ok l =
    rw (tick_empty rounds c (is_empty_lem c.links c.queue [] ok)) (record {
      rest = [];
      parts = refl;
      queued = ok;
      fired_due = λ a h. absurd (false≢true h);
      rest_due = λ a h. absurd (false≢true h);
    })
delta_chain_tick_lem rounds c (x ∷ xs) ok l = tick_cons rounds c x xs ok l
