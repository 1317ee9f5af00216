-- ===== src/DeltaChain/Insert.antt =====
-- `delta_chain_insert` puts its node where it is due.
use mathlib.Core.Bool.{false≢true}
use twan.Base.{
  ℕ, ◌+◌, ◌≤◌, ◌<◌, ◌≡◌, ◌≢◌, inl, inr, refl, sym, ap, ◌∙◌, true, false, List, [], ◌∷◌, ◌++◌, arith,
  Bool-cases, update, length,
}
use twan.Dq.{Links, set_next, set_prev, dq_pushfront, dq_insert}
use twan.Dq.Chain.{
  has, is_nil, has-append, first_or, last_or, IsDq, IsDq-frame, Distinct, Distinct-apart,
  Distinct-right,
}
use twan.Dq.Insert.{dq_insert_lem, dq_pushfront_lem}
use twan.Dq.Pop.{is_empty_lem}
use twan.DeltaChain.{DeltaChain, Scan, insert_loop, delta_chain_insert}
use twan.DeltaChain.Due.{total, due, due-cons, due-append, due-le-total, due-same, total-same}
use twan.DeltaChain.Parted.{scan, Stops, IsParted, loop-IsParted}

module _ (delta : ℕ → ℕ) (front : List ℕ) (node ticks : ℕ) where
  -- the deltas of the nodes before the place stay
  front_same :
      (back : List ℕ) (s : Scan)
      → Distinct (front ++ back)
      → has node (front ++ back) ≡ false
      → Stops delta back s
      → (x : ℕ) → has x front ≡ true
      → update s.deltas node s.remaining x ≡ delta x
  front_same [] s d f e x h = ground (arith, has-append node front [], ap (λ (t : ℕ → ℕ). t x) e)
  front_same (b ∷ bs) s d f (l, e) x h = ground (
    arith,
    has-append node front (b ∷ bs),
    Distinct-apart front (b ∷ bs) x d h,
    ap (λ (t : ℕ → ℕ). t x) e,
  )

  back_same :
      (b : ℕ) (bs : List ℕ) (s : Scan)
      → Distinct (front ++ b ∷ bs)
      → has node (front ++ b ∷ bs) ≡ false
      → Stops delta (b ∷ bs) s
      → (x : ℕ) → has x bs ≡ true
      → update s.deltas node s.remaining x ≡ delta x
  back_same b bs s d f (l, e) x h = ground (
    arith,
    has-append node front (b ∷ bs),
    Distinct-right front (b ∷ bs) d,
    ap (λ (t : ℕ → ℕ). t x) e,
  )

-- What an insertion makes of the chain with the nodes `xs`: the node stands behind all that are due
-- no later and before the others; it is due after its ticks, and every other node when it was.
pub record Inserted (delta : ℕ → ℕ) (xs : List ℕ) (node ticks : ℕ) (c' : DeltaChain) : Type 0 where
  pub front : List ℕ
  pub back : List ℕ
  pub parts : xs ≡ front ++ back
  pub queued : IsDq c'.links c'.queue (front ++ node ∷ back)
  pub due_node : due c'.delta (front ++ node ∷ back) node ≡ ticks
  pub due_others :
      (a : ℕ) → has a xs ≡ true → due c'.delta (front ++ node ∷ back) a ≡ due delta xs a
  pub before : (a : ℕ) → has a front ≡ true → due delta xs a ≤ ticks
  pub behind : (a : ℕ) → has a back ≡ true → ticks < due delta xs a

module _ (delta : ℕ → ℕ) (front back : List ℕ) (node ticks : ℕ) (s : Scan)
    (d : Distinct (front ++ back)) (f : has node (front ++ back) ≡ false)
    (left : ticks ≡ total delta front + s.remaining) (stops : Stops delta back s) where
  abbrev new_delta : ℕ → ℕ
  new_delta = update s.deltas node s.remaining

  total_front : total new_delta front ≡ total delta front
  total_front = total-same delta _ front (front_same delta front node ticks back s d f stops)

  due_front : (a : ℕ) → has a front ≡ true → due new_delta front a ≡ due delta front a
  due_front a h = due-same delta _ front a (front_same delta front node ticks back s d f stops)

  node_due : due new_delta (front ++ node ∷ back) node ≡ ticks
  node_due = ground (
    arith,
    due-append new_delta front (node ∷ back) node,
    due-cons new_delta node back node,
    has-append node front back,
    total_front,
    left,
  )

  others_due :
      (a : ℕ)
      → has a (front ++ back) ≡ true
      → due new_delta (front ++ node ∷ back) a ≡ due delta (front ++ back) a
  others_due a h = elim (Bool-cases (has a front)) [
    | inl in_front ↦ ground (
      arith,
      due-append new_delta front (node ∷ back) a,
      due-append delta front back a,
      due_front a in_front,
    )
    | inr out ↦ rest back d f stops refl (ground (arith, has-append a front back)) out
  ]
    where
      rest :
          (back' : List ℕ)
          → Distinct (front ++ back')
          → has node (front ++ back') ≡ false
          → Stops delta back' s
          → back' ≡ back
          → has a back' ≡ true
          → has a front ≡ false
          → due new_delta (front ++ node ∷ back) a ≡ due delta (front ++ back) a
      rest [] d' f' st e h' out = absurd (false≢true h')
      rest (b ∷ bs) d' f' (l, st) e h' out = rw (← e) (
          ground (
            arith,
            due-append new_delta front (node ∷ b ∷ bs) a,
            due-append delta front (b ∷ bs) a,
            due-cons new_delta node (b ∷ bs) a,
            due-cons new_delta b bs a,
            due-cons delta b bs a,
            due-same delta new_delta bs a (back_same delta front node ticks b bs s d' f' (l, st)),
            total_front,
            ap (λ (t : ℕ → ℕ). t b) st,
            has-append node front (b ∷ bs),
          ))

  front_before : (a : ℕ) → has a front ≡ true → due delta (front ++ back) a ≤ ticks
  front_before a h = ground (arith, due-append delta front back a, due-le-total delta front a, left)

  back_behind : (a : ℕ) → has a back ≡ true → ticks < due delta (front ++ back) a
  back_behind a h = rest back d stops refl h
    where
      rest :
          (back' : List ℕ)
          → Distinct (front ++ back')
          → Stops delta back' s
          → back' ≡ back
          → has a back' ≡ true
          → ticks < due delta (front ++ back) a
      rest [] d' st e h' = absurd (false≢true h')
      rest (b ∷ bs) d' (l, st) e h' = rw (← e) (
          ground (
            arith,
            due-append delta front (b ∷ bs) a,
            due-cons delta b bs a,
            Distinct-apart front (b ∷ bs) a d',
            left,
          ))

module _ (c : DeltaChain) (xs : List ℕ) (node ticks rounds : ℕ) (ok : IsDq c.links c.queue xs)
    (fresh : has node xs ≡ false) (real : node ≢ 0) (enough : length xs < rounds) where
  cleared : Links
  cleared = set_next (set_prev c.links node 0) node 0

  cleared-IsDq : IsDq (set_next (set_prev c.links node 0) node 0) c.queue xs
  cleared-IsDq = IsDq-frame c.links _ c.queue xs (λ a h. ground arith) ok

  run : Scan
  run =
      insert_loop rounds (set_next (set_prev c.links node 0) node 0)
        (scan (first_or 0 xs) 0 ticks c.delta)

  parted : IsParted c.delta 0 ticks xs run
  unfolding run
  parted = loop-IsParted rounds _ 0 ticks c.delta xs cleared-IsDq.chain ok.no_null enough

  insert_full :
      is_nil xs ≡ false
      → delta_chain_insert rounds node ticks c ≡ (
          let r =
            dq_insert node run.prev run.cur (set_next (set_prev c.links node 0) node 0, c.queue) in
          record { links = r.0; queue = r.1; delta = update run.deltas node run.remaining })
  unfolding delta_chain_insert run
  insert_full h = rw (is_empty_lem c.links c.queue xs ok, h, ← ok.front_first)

  insert_empty :
      is_nil xs ≡ true
      → delta_chain_insert rounds node ticks c ≡ (
          let r = dq_pushfront node (set_next (set_prev c.links node 0) node 0, c.queue) in
          record { links = r.0; queue = r.1; delta = update c.delta node ticks })
  unfolding delta_chain_insert
  insert_empty h = rw (is_empty_lem c.links c.queue xs ok, h)

  Inserted-full :
      (front back : List ℕ)
      → xs ≡ front ++ back
      → run.cur ≡ first_or 0 back
      → run.prev ≡ last_or 0 front
      → ticks ≡ total c.delta front + run.remaining
      → Stops c.delta back run
      → is_nil xs ≡ false
      → Inserted c.delta xs node ticks (delta_chain_insert rounds node ticks c)
  Inserted-full front back e cur_is prev_is left stops full =
      let d : Distinct (front ++ back) = rw e at ok.distinct in
      let f : has node (front ++ back) ≡ false = rw e at fresh in
      let q : IsDq (set_next (set_prev c.links node 0) node 0) c.queue (front ++ back) =
        rw e at cleared-IsDq in
      rw (insert_full full, cur_is, prev_is)
        (record {
          front = front;
          back = back;
          parts = e;
          queued = (dq_insert_lem _ c.queue front back node q f real).0;
          due_node = node_due c.delta front back node ticks run d f left stops;
          due_others = rw e (others_due c.delta front back node ticks run d f left stops);
          before = rw e (front_before c.delta front back node ticks run d f left stops);
          behind = rw e (back_behind c.delta front back node ticks run d f left stops);
        })

  Inserted-empty :
      (ys : List ℕ)
      → xs ≡ ys
      → is_nil ys ≡ true
      → Inserted c.delta xs node ticks (delta_chain_insert rounds node ticks c)
  Inserted-empty (y ∷ ys) e h = absurd (false≢true h)
  Inserted-empty [] e h = rw (insert_empty (ap is_nil e ∙ h)) (record {
    front = [];
    back = [];
    parts = e;
    queued = (dq_pushfront_lem _ c.queue [] node (rw e at cleared-IsDq) refl real).0;
    due_node = ground (arith, due-cons (update c.delta node ticks) node [] node);
    due_others = λ a h'. absurd (false≢true (ap (has a) (sym e) ∙ h'));
    before = λ a h'. absurd (false≢true h');
    behind = λ a h'. absurd (false≢true h');
  })

  -- `delta_chain_insert`, on more rounds than the chain has nodes, of a node that is not NULL and not in
  -- the chain puts it behind every node that is due no later than its ticks and before the others;
  -- it is due after its ticks, and every other node when it was.
  pub delta_chain_insert_lem :
      Inserted c.delta xs node ticks (delta_chain_insert rounds node ticks c)
  delta_chain_insert_lem = elim (Bool-cases (is_nil xs)) [
    | inl h ↦ Inserted-empty xs refl h
    | inr h ↦
        Inserted-full parted.front parted.back parted.parts parted.cur_is parted.prev_is parted.left
          parted.stops h
  ]
