-- ===== src/Base/Family.antt =====
-- A store as a function from its addresses, and the write at one of them.
use Prim.Native.Nat.{ℕ, zero, suc, ◌+◌, ◌≤◌, ◌<◌}
use mathlib.Core.Path.{◌≡◌, refl, ap}
use mathlib.Core.Logic.{◌≢◌}
use native.Mathlib.Omega.{arith}
use native.Mathlib.Decide.{ℕ_discrete, dec_lt}
use twan.Base.Tests.{◌==◌, if◌then◌else◌}

abbrev pub update {ℓ} : {A : Type ℓ} → (ℕ → A) → ℕ → A → ℕ → A
update f i a j = if i == j then a else f j

module _ {ℓ} {A : Type ℓ} where
  pub update_self : (f : ℕ → A) (i : ℕ) (a : A) → update f i a i ≡ a
  update_self f i a = ground arith

  pub update_ne : (f : ℕ → A) (i j : ℕ) (a : A) → i ≢ j → update f i a j ≡ f j
  update_ne f i j a h = ground arith

module _ {ℓ} {A : Type ℓ} (weight : A → ℕ) where
  -- the sum of a weight over the first `n` members of a family
  unfoldable pub total : ℕ → (ℕ → A) → ℕ
  total zero f = 0
  total (suc n) f = weight (f n) + total n f

  module _ (f : ℕ → A) (i : ℕ) (a : A) where
    total_outside : (n : ℕ) → n ≤ i → total n (update f i a) ≡ total n f
    unfolding total
    total_outside zero l = refl
    total_outside (suc n) l = ground (arith, total_outside n (omega (arith, l)))

    pub total-update :
        (n : ℕ) → i < n → total n (update f i a) + weight (f i) ≡ total n f + weight a
    unfolding total
    total-update zero l = absurd (omega (arith, l))
    total-update (suc n) l = elim (ℕ_discrete i n) [
      | yes e ↦ ground (arith, total_outside n (omega (arith, e)), ap (λ (k : ℕ). weight (f k)) e)
      | no ne ↦ ground (arith, total-update n (omega (arith, l, ne)))
    ]

  pub total-le : ((a : A) → weight a ≤ 1) → (n : ℕ) (f : ℕ → A) → total n f ≤ n
  unfolding total
  total-le one zero f = omega arith
  total-le one (suc n) f = omega (arith, one (f n), total-le one n f)

  pub member-le-total : (n : ℕ) (f : ℕ → A) (i : ℕ) → i < n → weight (f i) ≤ total n f
  unfolding total
  member-le-total zero f i l = absurd (omega (arith, l))
  member-le-total (suc n) f i l = elim (ℕ_discrete i n) [
    | yes e ↦ ground (arith, ap (λ (k : ℕ). weight (f k)) e)
    | no ne ↦ omega (arith, member-le-total n f i (omega (arith, l, ne)))
  ]

  pub total-some : (n : ℕ) (f : ℕ → A) → 0 < total n f → (i : ℕ) × (i < n) × (0 < weight (f i))
  unfolding total
  total-some zero f l = absurd (omega (arith, l))
  total-some (suc n) f l = elim (dec_lt 0 (weight (f n))) [
    | yes here ↦ (n, omega arith, here)
    | no not_here ↦
        let (i, below, there) = total-some n f (omega (arith, l, not_here)) in
        (i, omega (arith, below), there)
  ]

pub total-same {ℓ} :
    {A : Type ℓ} (v w : A → ℕ) (n : ℕ) (f : ℕ → A)
    → ((i : ℕ) → i < n → v (f i) ≡ w (f i))
    → total v n f ≡ total w n f
unfolding total
total-same v w zero f same = refl
total-same v w (suc n) f same =
    omega (arith, same n (omega arith), total-same v w n f (λ i l. same i (omega (arith, l))))
