-- ===== src/DeltaChain/Due.antt =====
-- When a node of the chain is due: its delta and those of the nodes before it.
use twan.Base.{ℕ, ◌+◌, ◌≤◌, ◌≡◌, refl, true, List, [], ◌∷◌, ◌++◌, arith, ◌==◌, if◌then◌else◌}
use twan.Dq.Chain.{has}

pub total : (ℕ → ℕ) → List ℕ → ℕ
total delta [] = 0
total delta (x ∷ xs) = delta x + total delta xs

pub due : (ℕ → ℕ) → List ℕ → ℕ → ℕ
due delta [] a = 0
due delta (x ∷ xs) a = delta x + (if a == x then 0 else due delta xs a)

pub due-cons :
    (delta : ℕ → ℕ) (x : ℕ) (xs : List ℕ) (a : ℕ)
    → due delta (x ∷ xs) a ≡ delta x + (if a == x then 0 else due delta xs a)
unfolding due
due-cons delta x xs a = refl

pub total-cons :
    (delta : ℕ → ℕ) (x : ℕ) (xs : List ℕ) → total delta (x ∷ xs) ≡ delta x + total delta xs
unfolding total
total-cons delta x xs = refl

pub total-nil : (delta : ℕ → ℕ) → total delta [] ≡ 0
unfolding total
total-nil delta = refl

-- A member of the first part is due as in it, another one after all of it.
pub due-append :
    (delta : ℕ → ℕ) (xs ys : List ℕ) (a : ℕ)
    → due delta (xs ++ ys) a
      ≡ (if has a xs then due delta xs a else total delta xs + due delta ys a)
unfolding total due
due-append delta [] ys a = omega arith
due-append delta (x ∷ xs) ys a = ground (arith, due-append delta xs ys a)

pub due-le-total : (delta : ℕ → ℕ) (xs : List ℕ) (a : ℕ) → due delta xs a ≤ total delta xs
unfolding total due
due-le-total delta [] a = omega arith
due-le-total delta (x ∷ xs) a = ground (arith, due-le-total delta xs a)

-- Only the deltas of the list count.
pub due-same :
    (delta delta' : ℕ → ℕ) (xs : List ℕ) (a : ℕ)
    → ((x : ℕ) → has x xs ≡ true → delta' x ≡ delta x)
    → due delta' xs a ≡ due delta xs a
unfolding due
due-same delta delta' [] a h = refl
due-same delta delta' (x ∷ xs) a h =
    let e : delta' x ≡ delta x = h x (ground arith) in
    ground (arith, due-same delta delta' xs a (λ y i. h y (ground arith)))

pub total-same :
    (delta delta' : ℕ → ℕ) (xs : List ℕ)
    → ((x : ℕ) → has x xs ≡ true → delta' x ≡ delta x)
    → total delta' xs ≡ total delta xs
unfolding total
total-same delta delta' [] h = refl
total-same delta delta' (x ∷ xs) h =
    let e : delta' x ≡ delta x = h x (ground arith) in
    omega (arith, total-same delta delta' xs (λ y i. h y (ground arith)))

pub total-append :
    (delta : ℕ → ℕ) (xs ys : List ℕ) → total delta (xs ++ ys) ≡ total delta xs + total delta ys
unfolding total
total-append delta [] ys = omega arith
total-append delta (x ∷ xs) ys = omega (arith, total-append delta xs ys)
