-- ===== src/Bitmap/Wide/Pairs.antt =====
-- `bmp512_ffs2`: what it returns is a pair of neighbours, and which pairs it does not see.
use twan.Base.{
  ℕ, zero, suc, ◌+◌, ◌≤◌, ◌<◌, ◌≡◌, inl, inr, refl, true, false, ◌||◌, Option, none, some, arith,
  ◌==◌, Bool-cases, ==_iff, ==_false,
}
use twan.Bitmap.Wide.{
  Bmp512, bmp512_unset, bmp512_ffs, ffs2_next, ffs2_round, ffs2_loop, bmp512_ffs2,
}
use twan.Bitmap.Wide.Laws.{
  member, IsWide, IsLeast, member-unset, unset-IsWide, bmp512_ffs_lem, ffs_unique, ffs_empty,
}

-- `r` and `r + 1` are members.
abbrev pub IsPair : Bmp512 → Option ℕ → Type 0
IsPair m none = Unit
IsPair m (some r) = (r + 1 < 512) × (member m r ≡ true) × (member m (r + 1) ≡ true)

-- fewer members, in a wide set
record IsPart (m n : Bmp512) : Type 0 where
  wide : IsWide m
  part : (c : ℕ) → member m c ≡ true → member n c ≡ true

IsPair-of_part : (m n : Bmp512) (o : Option ℕ) → IsPart m n → IsPair m o → IsPair n o
IsPair-of_part m n none p h = tt
IsPair-of_part m n (some r) p h = (h.0, p.part r h.1, p.part (r + 1) h.2)

IsPart-unset : (m : Bmp512) (b : ℕ) → IsWide m → b < 512 → IsPart (bmp512_unset m b) m
IsPart-unset m b w l = record {
  wide = unset-IsWide m b w;
  part = λ c h. ground (arith, member-unset m b c w l);
}

loop-IsPair : (rounds : ℕ) (m : Bmp512) → IsWide m → IsPair m (ffs2_loop rounds m)
unfolding ffs2_loop
loop-IsPair zero m w = tt
loop-IsPair (suc rounds) m w =
    first (λ n wn. loop-IsPair rounds n wn) (bmp512_ffs m) (bmp512_ffs_lem m w)
  where
    Rest : Type 0
    Rest = (n : Bmp512) → IsWide n → IsPair n (ffs2_loop rounds n)

    second :
        Rest
        → (bit : ℕ) → IsLeast m (some bit)
        → (o : Option ℕ) → IsLeast (bmp512_unset m bit) o
        → IsPair m (ffs2_next (ffs2_loop rounds) m bit o)
    second rest bit hb none h = tt
    second rest bit hb (some next) h =
        let p = IsPart-unset m bit w hb.0 in
        let q = IsPart-unset (bmp512_unset m bit) next p.wide h.0 in
        elim (Bool-cases (next == bit + 1)) [
          | inl e ↦
              let e' : bit + 1 ≡ next = omega (arith, (==_iff next (bit + 1)).0 e) in
              rw (e, ffs2_next) (omega (arith, h.0), hb.1, rw e' (p.part next h.1))
          | inr e ↦
              rw (e, ffs2_next) (IsPair-of_part _ m _ p (IsPair-of_part _ _ _ q (rest _ q.wide)))
        ]

    first : Rest → (o : Option ℕ) → IsLeast m o → IsPair m (ffs2_round (ffs2_loop rounds) m o)
    first rest none h = tt
    first rest (some bit) h =
        second rest bit h (bmp512_ffs (bmp512_unset m bit))
          (bmp512_ffs_lem (bmp512_unset m bit) (unset-IsWide m bit w))

-- Two numbers of rounds above the count of the numbers that may still be members agree.
loop_enough :
    (j k n : ℕ) (m : Bmp512)
    → IsWide m
    → ((c : ℕ) → c < n → member m c ≡ false)
    → 512 < n + j
    → 512 < n + k
    → ffs2_loop j m ≡ ffs2_loop k m
unfolding ffs2_loop
loop_enough zero zero n m w low hj hk = refl
loop_enough zero (suc k) n m w low hj hk = rw (ffs_empty m w λ c l. low c (omega arith))
loop_enough (suc j) zero n m w low hj hk = rw (ffs_empty m w λ c l. low c (omega arith))
loop_enough (suc j) (suc k) n m w low hj hk =
    first (λ m' w' low'. loop_enough j k (suc n) m' w' low' (omega arith) (omega arith))
      (bmp512_ffs m) (bmp512_ffs_lem m w)
  where
    Rest : Type 0
    Rest =
        (m' : Bmp512)
        → IsWide m'
        → ((c : ℕ) → c < suc n → member m' c ≡ false)
        → ffs2_loop j m' ≡ ffs2_loop k m'

    second :
        Rest
        → (bit : ℕ) → IsLeast m (some bit)
        → (o : Option ℕ) → IsLeast (bmp512_unset m bit) o
        → ffs2_next (ffs2_loop j) m bit o ≡ ffs2_next (ffs2_loop k) m bit o
    second rest bit hb none h = refl
    second rest bit hb (some next) h =
        let p = IsPart-unset m bit w hb.0 in
        let q = IsPart-unset (bmp512_unset m bit) next p.wide h.0 in
        let n-le : n ≤ bit = ground (arith, low bit) in
        let gone : (c : ℕ) → c < suc n → member (bmp512_unset (bmp512_unset m bit) next) c ≡ false =
          λ c l. ground (
            arith,
            member-unset m bit c w,
            member-unset (bmp512_unset m bit) next c p.wide,
            hb.2 c,
          ) in
        elim (Bool-cases (next == bit + 1)) [
          | inl e ↦ rw (e, ffs2_next)
          | inr e ↦ rw (e, ffs2_next) (rest _ q.wide gone)
        ]

    first :
        Rest
        → (o : Option ℕ) → IsLeast m o
        → ffs2_round (ffs2_loop j) m o ≡ ffs2_round (ffs2_loop k) m o
    first rest none h = refl
    first rest (some bit) h =
        second rest bit h (bmp512_ffs (bmp512_unset m bit))
          (bmp512_ffs_lem (bmp512_unset m bit) (unset-IsWide m bit w))

-- On a set of 64-bit words, a pair that `bmp512_ffs2` returns is a pair of neighbours in the set; and
-- any number of rounds above 512 gives the loop the same result.
pub ffs2-IsPair :
    (m : Bmp512) (rounds : ℕ)
    → IsWide m
    → 512 < rounds
    → IsPair m (bmp512_ffs2 m) × (ffs2_loop rounds m ≡ bmp512_ffs2 m)
unfolding bmp512_ffs2
ffs2-IsPair m rounds w l = (
  loop-IsPair 513 m w,
  loop_enough rounds 513 0 m w (λ c h. elim h [ ]) (omega arith) (omega arith),
)

-- The set has the members `a`, `b` and `b + 1` alone.
abbrev pub OnlyThree : Bmp512 → ℕ → ℕ → Type 0
OnlyThree m a b = (c : ℕ) → c < 512 → member m c ≡ (a == c || (b == c || b + 1 == c))

-- `bmp512_ffs2` finds no pair in a set of three members, a lone one and two neighbours above it: the round that skips the lone
-- member removes the first of the pair too.
pub ffs2_misses :
    (m : Bmp512) (a b : ℕ)
    → IsWide m
    → a + 1 < b
    → b + 1 < 512
    → OnlyThree m a b
    → bmp512_ffs2 m ≡ none
unfolding bmp512_ffs2 ffs2_loop
ffs2_misses m a b w ha hb only = rw (
  ffs_unique m a w (omega arith, ground (arith, only a), λ c l. ground (arith, only c)),
  ffs_unique m1 b w1 (
    omega arith,
    ground (arith, only b, member-unset m a b w),
    λ c l. ground (arith, only c, member-unset m a c w),
  ),
  ==_false b (a + 1) (omega arith),
  ffs2_next,
  ffs_unique m2 (b + 1) w2 (
    omega arith,
    ground (arith, only (b + 1), member-unset m a (b + 1) w, member-unset m1 b (b + 1) w1),
    λ c l. ground (arith, only c, member-unset m a c w, member-unset m1 b c w1),
  ),
  ffs_empty m3 w3 (λ c l.
      ground (
        arith,
        only c,
        member-unset m a c w,
        member-unset m1 b c w1,
        member-unset m2 (b + 1) c w2,
      )),
)
  where
    m1 : Bmp512
    m1 = bmp512_unset m a

    m2 : Bmp512
    m2 = bmp512_unset m1 b

    m3 : Bmp512
    m3 = bmp512_unset m2 (b + 1)

    w1 : IsWide m1
    w1 = unset-IsWide m a w

    w2 : IsWide m2
    w2 = unset-IsWide m1 b w1

    w3 : IsWide m3
    w3 = unset-IsWide m2 (b + 1) w2
