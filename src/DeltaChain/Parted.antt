-- ===== src/DeltaChain/Parted.antt =====
-- The loop of `delta_chain_insert` parts the chain at the node's place.
use mathlib.Core.Path.{subst}
use twan.Base.{
  ℕ, zero, suc, ◌+◌, ◌-◌, ◌<◌, ◌≡◌, ◌≢◌, inl, inr, refl, sym, ap, true, false, List, [], ◌∷◌, ◌++◌,
  arith, ==_false, ltb, Bool-cases, update, length,
}
use twan.Dq.{Links}
use twan.Dq.Chain.{has, first_or, last_or, Seg}
use twan.DeltaChain.{Scan, insert_loop}
use twan.DeltaChain.Due.{total, total-cons, total-nil}

abbrev pub scan : (cur prev remaining : ℕ) → (ℕ → ℕ) → Scan
scan cur prev remaining deltas = record {
  cur = cur;
  prev = prev;
  remaining = remaining;
  deltas = deltas;
}

-- What the loop leaves at the rest `back` of the list.
abbrev pub Stops : (ℕ → ℕ) → List ℕ → Scan → Type 0
Stops delta [] s = s.deltas ≡ delta
Stops delta (b ∷ bs) s =
    (s.remaining < delta b) × (s.deltas ≡ update delta b (delta b - s.remaining))

-- The loop has parted the list `ys`, and `remaining` is what is left of `ticks` behind `front`.
pub record IsParted (delta : ℕ → ℕ) (prev ticks : ℕ) (ys : List ℕ) (s : Scan) : Type 0 where
  pub front : List ℕ
  pub back : List ℕ
  pub parts : ys ≡ front ++ back
  pub cur_is : s.cur ≡ first_or 0 back
  pub prev_is : s.prev ≡ last_or prev front
  pub left : ticks ≡ total delta front + s.remaining
  pub stops : Stops delta back s

loop_end :
    (rounds : ℕ) (m : Links) (prev r : ℕ) (delta : ℕ → ℕ)
    → insert_loop (suc rounds) m (scan 0 prev r delta) ≡ scan 0 prev r delta
unfolding insert_loop
loop_end rounds m prev r delta = refl

loop_stop :
    (rounds : ℕ) (m : Links) (x prev r : ℕ) (delta : ℕ → ℕ)
    → x ≢ 0
    → ltb r (delta x) ≡ true
    → insert_loop (suc rounds) m (scan x prev r delta)
      ≡ scan x prev r (update delta x (delta x - r))
unfolding insert_loop
loop_stop rounds m x prev r delta ne l = rw (==_false x 0 ne, insert_loop, l)

loop_next :
    (rounds : ℕ) (m : Links) (x prev r : ℕ) (delta : ℕ → ℕ)
    → x ≢ 0
    → ltb r (delta x) ≡ false
    → insert_loop (suc rounds) m (scan x prev r delta)
      ≡ insert_loop rounds m (scan (m x).next x (r - delta x) delta)
unfolding insert_loop
loop_next rounds m x prev r delta ne l = rw (==_false x 0 ne, insert_loop, l)

pub loop-IsParted :
    (rounds : ℕ) (m : Links) (prev r : ℕ) (delta : ℕ → ℕ) (ys : List ℕ)
    → Seg m prev ys 0
    → has 0 ys ≡ false
    → length ys < rounds
    → IsParted delta prev r ys (insert_loop rounds m (scan (first_or 0 ys) prev r delta))
loop-IsParted zero m prev r delta ys s z l = elim l [ ]
loop-IsParted (suc rounds) m prev r delta [] s z l = rw loop_end (record {
  front = [];
  back = [];
  parts = refl;
  cur_is = refl;
  prev_is = refl;
  left = omega (arith, total-nil delta);
  stops = refl;
})
loop-IsParted (suc rounds) m prev r delta (x ∷ ys) (b, n, s) z l =
    let rest = loop-IsParted rounds m x (r - delta x) delta ys s (ground arith) (omega arith) in
    elim (Bool-cases (ltb r (delta x))) [
      | inl e ↦ rw (loop_stop rounds m x prev r delta (ground arith) e) (record {
        front = [];
        back = x ∷ ys;
        parts = refl;
        cur_is = refl;
        prev_is = refl;
        left = omega (arith, total-nil delta);
        stops = (ground arith, refl);
      })
      | inr e ↦ rw (loop_next rounds m x prev r delta (ground arith) e) (
          subst
            (λ t.
              IsParted delta prev r (x ∷ ys) (insert_loop rounds m (scan t x (r - delta x) delta)))
            (sym n)
            (record {
              front = x ∷ rest.front;
              back = rest.back;
              parts = ap (λ t. x ∷ t) rest.parts;
              cur_is = rest.cur_is;
              prev_is = rest.prev_is;
              left = ground (arith, rest.left, total-cons delta x rest.front);
              stops = rest.stops;
            }))
    ]

-- The new deltas: the loop's, and what is left of the ticks at the node.
