-- ===== src/Dq/Chain.antt =====
-- What a list in the store stands for: its nodes in order. `first_or` and `last_or` are its ends.
use mathlib.Core.Bool.{false≢true}
use twan.Base.{
  ℕ, ◌≡◌, ◌≢◌, refl, sym, ap, ◌∙◌, inl, inr, Bool-cases, ==_iff, ==_false, Bool, true, false, ◌||◌,
  List, [], ◌∷◌, ◌++◌, arith, ◌==◌, if◌then◌else◌,
}
use twan.Dq.{Links, Dq}

abbrev pub has : ℕ → List ℕ → Bool
has a [] = false
has a (x ∷ xs) = (a == x) || has a xs

abbrev pub is_nil {ℓ} : {A : Type ℓ} → List A → Bool
is_nil [] = true
is_nil (x ∷ xs) = false

abbrev pub Distinct : List ℕ → Type 0
Distinct [] = Unit
Distinct (x ∷ xs) = (has x xs ≡ false) × Distinct xs

abbrev pub first_or : ℕ → List ℕ → ℕ
first_or d [] = d
first_or d (x ∷ xs) = x

abbrev pub last_or : ℕ → List ℕ → ℕ
last_or d [] = d
last_or d (x ∷ xs) = last_or x xs

-- The nodes `xs` are linked both ways, behind `p` and before `q`.
abbrev pub Seg : Links → ℕ → List ℕ → ℕ → Type 0
Seg m p [] q = Unit
Seg m p (x ∷ xs) q = ((m x).prev ≡ p) × ((m x).next ≡ first_or q xs) × Seg m x xs q

pub record IsDq (m : Links) (d : Dq) (xs : List ℕ) : Type 0 where
  pub front_first : d.front ≡ first_or 0 xs
  pub rear_last : d.rear ≡ last_or 0 xs
  pub chain : Seg m 0 xs 0
  pub distinct : Distinct xs
  pub no_null : has 0 xs ≡ false

-- The store is changed at the nodes of `xs` alone.
abbrev pub SameOutside : List ℕ → Links → Links → Type 0
SameOutside xs m g = (a : ℕ) → has a xs ≡ false → g a ≡ m a

pub has-append :
    (node : ℕ) (front back : List ℕ) → has node (front ++ back) ≡ (has node front || has node back)
has-append node [] back = refl
has-append node (x ∷ front) back = ground (arith, has-append node front back)

pub first_or-append : (d : ℕ) (xs ys : List ℕ) → first_or d (xs ++ ys) ≡ first_or (first_or d ys) xs
first_or-append d [] ys = refl
first_or-append d (x ∷ xs) ys = refl

pub last_or-append : (d : ℕ) (xs ys : List ℕ) → last_or d (xs ++ ys) ≡ last_or (last_or d xs) ys
last_or-append d [] ys = refl
last_or-append d (x ∷ xs) ys = last_or-append x xs ys

pub has_last : (x : ℕ) (xs : List ℕ) → has (last_or x xs) (x ∷ xs) ≡ true
has_last x [] = ground arith
has_last x (y ∷ xs) = ground (arith, has_last y xs)

ne_last : (x y : ℕ) (xs : List ℕ) → has x (y ∷ xs) ≡ false → (x == last_or y xs) ≡ false
ne_last x y xs fresh = elim (Bool-cases (x == last_or y xs)) [
  | inl e ↦ absurd (false≢true (sym fresh ∙ ap (λ t. has t (y ∷ xs)) (eq e) ∙ has_last y xs))
  | inr e ↦ e
]
  where
    eq : (x == last_or y xs) ≡ true → x ≡ last_or y xs
    eq e = (==_iff _ _).0 e

module _ (m : Links) where
  pub Seg-split :
      (xs ys : List ℕ) (p q : ℕ)
      → Seg m p (xs ++ ys) q
      → Seg m p xs (first_or q ys) × Seg m (last_or p xs) ys q
  Seg-split [] ys p q s = (tt, s)
  Seg-split (x ∷ xs) ys p q (a, b, s) =
      let (front, back) = Seg-split xs ys x q s in
      ((a, rw (first_or-append q xs ys) at b, front), back)

  pub Seg-join :
      (xs ys : List ℕ) (p q : ℕ)
      → Seg m p xs (first_or q ys)
      → Seg m (last_or p xs) ys q
      → Seg m p (xs ++ ys) q
  Seg-join [] ys p q s t = t
  Seg-join (x ∷ xs) ys p q (a, b, s) t = (a, rw first_or-append b, Seg-join xs ys x q s t)

  -- A segment survives a change that spares its nodes.
  pub Seg-frame :
      (g : Links) (xs : List ℕ) (p q : ℕ)
      → ((a : ℕ) → has a xs ≡ true → g a ≡ m a)
      → Seg m p xs q
      → Seg g p xs q
  Seg-frame g [] p q same s = tt
  Seg-frame g (x ∷ xs) p q same (a, b, s) =
      let e : g x ≡ m x = same x (ground arith) in
      (rw e a, rw e b, Seg-frame g xs x q (λ c h. same c (ground arith)) s)

  -- A segment behind another node.
  pub Seg-front :
      (g : Links) (xs : List ℕ) (p q p' : ℕ)
      → Distinct xs
      → ((a : ℕ) → has a xs ≡ true → (g a).next ≡ (m a).next)
      → ((a : ℕ) → has a xs ≡ true → (g a).prev ≡ (if a == first_or 0 xs then p' else (m a).prev))
      → Seg m p xs q
      → Seg g p' xs q
  Seg-front g [] p q p' d n pr s = tt
  Seg-front g (x ∷ xs) p q p' (fresh, d) n pr (a, b, s) =
      (ground (arith, pr x), ground (arith, n x), Seg-frame g xs x q (λ c h. same c h) s)
    where
      same : (c : ℕ) → has c xs ≡ true → g c ≡ m c
      same c h = ground (arith, pr c, n c)

  -- A segment before another node.
  pub Seg-back :
      (g : Links) (xs : List ℕ) (p q q' : ℕ)
      → Distinct xs
      → ((a : ℕ) → has a xs ≡ true → (g a).prev ≡ (m a).prev)
      → ((a : ℕ) → has a xs ≡ true → (g a).next ≡ (if a == last_or 0 xs then q' else (m a).next))
      → Seg m p xs q
      → Seg g p xs q'
  Seg-back g [] p q q' d pr n s = tt
  Seg-back g (x ∷ []) p q q' d pr n (a, b, s) = (ground (arith, pr x), ground (arith, n x), tt)
  Seg-back g (x ∷ y ∷ xs) p q q' (fresh, d) pr n (a, b, s) = (
    ground (arith, pr x),
    n x (ground arith) ∙ rw (ne_last x y xs fresh) b,
    Seg-back g (y ∷ xs) x q q' d (λ c h. pr c (ground arith)) (λ c h. n c (ground arith)) s,
  )

pub Distinct-left : (xs ys : List ℕ) → Distinct (xs ++ ys) → Distinct xs
Distinct-left [] ys d = tt
Distinct-left (x ∷ xs) ys (f, d) = (ground (arith, has-append x xs ys), Distinct-left xs ys d)

pub Distinct-right : (xs ys : List ℕ) → Distinct (xs ++ ys) → Distinct ys
Distinct-right [] ys d = d
Distinct-right (x ∷ xs) ys (f, d) = Distinct-right xs ys d

pub Distinct-apart :
    (xs ys : List ℕ) (a : ℕ) → Distinct (xs ++ ys) → has a xs ≡ true → has a ys ≡ false
Distinct-apart [] ys a d h = absurd (false≢true h)
Distinct-apart (x ∷ xs) ys a (f, d) h = elim (Bool-cases (a == x)) [
  | inl e ↦ rw ((==_iff a x).0 e) (ground (arith, has-append x xs ys))
  | inr e ↦ Distinct-apart xs ys a d (ground arith)
]

pub Distinct-join :
    (xs ys : List ℕ)
    → Distinct xs
    → Distinct ys
    → ((a : ℕ) → has a xs ≡ true → has a ys ≡ false)
    → Distinct (xs ++ ys)
Distinct-join [] ys d e apart = e
Distinct-join (x ∷ xs) ys (f, d) e apart = (
  ground (arith, has-append x xs ys, apart x),
  Distinct-join xs ys d e (λ a h. apart a (ground arith)),
)

pub last_or_in : (xs : List ℕ) (a : ℕ) → a ≡ last_or 0 xs → a ≢ 0 → has a xs ≡ true
last_or_in [] a e ne = absurd (ne e)
last_or_in (x ∷ xs) a e ne = ap (λ t. has t (x ∷ xs)) e ∙ has_last x xs

pub first_or_in : (xs : List ℕ) (a : ℕ) → a ≡ first_or 0 xs → a ≢ 0 → has a xs ≡ true
first_or_in [] a e ne = absurd (ne e)
first_or_in (x ∷ xs) a e ne = ground arith

pub last-ne-zero : (x : ℕ) (xs : List ℕ) → has 0 (x ∷ xs) ≡ false → (last_or x xs == 0) ≡ false
last-ne-zero x xs z =
    ==_false (last_or x xs) 0
      (λ n. absurd (false≢true (sym z ∙ ap (λ t. has t (x ∷ xs)) (sym n) ∙ has_last x xs)))

-- A queue survives a change of the store that spares its nodes.
pub IsDq-frame :
    (m g : Links) (d : Dq) (xs : List ℕ)
    → ((a : ℕ) → has a xs ≡ true → g a ≡ m a)
    → IsDq m d xs
    → IsDq g d xs
IsDq-frame m g d xs same ok = record {
  front_first = ok.front_first;
  rear_last = ok.rear_last;
  chain = Seg-frame m g xs 0 0 same ok.chain;
  distinct = ok.distinct;
  no_null = ok.no_null;
}
