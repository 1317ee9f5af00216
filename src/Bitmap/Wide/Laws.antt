-- ===== src/Bitmap/Wide/Laws.antt =====
-- Membership in the wide set after each operation, and the scans.
use twan.Base.{
  ℕ, ◌+◌, ◌-◌, ◌<◌, ◌≡◌, inl, inr, refl, Bool, true, false, Option, none, some, arith, ◌==◌, leb,
  if◌then◌else◌, Bool-cases,
}
use twan.Bitmap.{bmp256_test}
use twan.Bitmap.Laws.{IsWords, test-set, test-unset, set-IsWords, unset-IsWords}
use twan.Bitmap.Scan.{HighestBelow, LowestFrom, bmp256_fls_lem, bmp256_ffs_lem}
use twan.Bitmap.Wide.{Bmp512, bmp512_set, bmp512_unset, bmp512_ffs, bmp512_fls, bmp512_ffs_unset}

-- The set that a bitmap stands for.
abbrev pub member : Bmp512 → ℕ → Bool
member m bit = if leb 256 bit then bmp256_test m.high256 (bit - 256) else bmp256_test m.low256 bit

pub record IsWide (m : Bmp512) : Type 0 where
  pub high_words : IsWords m.high256
  pub low_words : IsWords m.low256

-- `bmp512_set` adds its bit and changes no other.
pub member-set :
    (m : Bmp512) (b c : ℕ) → member (bmp512_set m b) c ≡ (if b == c then true else member m c)
unfolding bmp512_set
member-set m b c = ground (arith, test-set m.high256 (b - 256) (c - 256), test-set m.low256 b c)

-- `bmp512_unset` removes its bit and changes no other.
pub member-unset :
    (m : Bmp512) (b c : ℕ)
    → IsWide m
    → b < 512
    → member (bmp512_unset m b) c ≡ (if b == c then false else member m c)
unfolding bmp512_unset
member-unset m b c w hb = ground (
  arith,
  test-unset m.high256 (b - 256) (c - 256) w.high_words,
  test-unset m.low256 b c w.low_words,
)

pub set-IsWide : (m : Bmp512) (b : ℕ) → IsWide m → IsWide (bmp512_set m b)
unfolding bmp512_set
set-IsWide m b w = elim (Bool-cases (leb 256 b)) [
  | inl e ↦ rw e (record {
    high_words = set-IsWords m.high256 (b - 256) w.high_words;
    low_words = w.low_words;
  })
  | inr e ↦
      rw e (record { high_words = w.high_words; low_words = set-IsWords m.low256 b w.low_words })
]

pub unset-IsWide : (m : Bmp512) (b : ℕ) → IsWide m → IsWide (bmp512_unset m b)
unfolding bmp512_unset
unset-IsWide m b w = elim (Bool-cases (leb 256 b)) [
  | inl e ↦ rw e (record {
    high_words = unset-IsWords m.high256 (b - 256) w.high_words;
    low_words = w.low_words;
  })
  | inr e ↦
      rw e (record { high_words = w.high_words; low_words = unset-IsWords m.low256 b w.low_words })
]

-- What a scan from the bottom returns: the least member, or that there is none.
abbrev pub IsLeast : Bmp512 → Option ℕ → Type 0
IsLeast m none = (c : ℕ) → c < 512 → member m c ≡ false
IsLeast m (some r) = (r < 512) × (member m r ≡ true) × ((c : ℕ) → c < r → member m c ≡ false)

abbrev pub IsGreatest : Bmp512 → Option ℕ → Type 0
IsGreatest m none = (c : ℕ) → c < 512 → member m c ≡ false
IsGreatest m (some r) =
    (r < 512) × (member m r ≡ true) × ((c : ℕ) → r < c → c < 512 → member m c ≡ false)

module _ (m : Bmp512) where
  IsLeast-of :
      (low high : Option ℕ)
      → LowestFrom m.low256 0 low
      → LowestFrom m.high256 0 high
      → IsLeast m (elim low [
        | some bit ↦ some bit
        | none ↦ elim high [ none ↦ none | some bit ↦ some (bit + 256) ]
      ])
  IsLeast-of (some b) high l h =
      (omega arith, ground arith, λ c p. ground (arith, l.3 c (omega arith) p))
  IsLeast-of none none l h = λ c p. ground (arith, l c (omega arith), h (c - 256) (omega arith))
  IsLeast-of none (some b) l h =
      let e : b + 256 - 256 ≡ b = omega arith in
      (
        omega arith,
        ground arith,
        λ c p. ground (arith, l c (omega arith), h.3 (c - 256) (omega arith)),
      )

  IsGreatest-of :
      (low high : Option ℕ)
      → HighestBelow m.low256 256 low
      → HighestBelow m.high256 256 high
      → IsGreatest m (elim high [ some bit ↦ some (bit + 256) | none ↦ low ])
  IsGreatest-of low (some b) l h =
      let e : b + 256 - 256 ≡ b = omega arith in
      (omega arith, ground arith, λ c p q. ground (arith, h.2 (c - 256)))
  IsGreatest-of none none l h = λ c p. ground (arith, l c, h (c - 256))
  IsGreatest-of (some b) none l h =
      (omega arith, ground arith, λ c p q. ground (arith, l.2 c, h (c - 256)))

-- `bmp512_ffs` returns the least member, and `none` exactly if the set is empty.
pub bmp512_ffs_lem : (m : Bmp512) → IsWide m → IsLeast m (bmp512_ffs m)
unfolding bmp512_ffs
bmp512_ffs_lem m w =
    IsLeast-of m _ _ (bmp256_ffs_lem m.low256 w.low_words) (bmp256_ffs_lem m.high256 w.high_words)

-- `bmp512_fls` returns the greatest member, and `none` exactly if the set is empty.
pub bmp512_fls_lem : (m : Bmp512) → IsWide m → IsGreatest m (bmp512_fls m)
unfolding bmp512_fls
bmp512_fls_lem m w =
    IsGreatest-of m _ _ (bmp256_fls_lem m.low256 w.low_words)
      (bmp256_fls_lem m.high256 w.high_words)

-- `bmp512_ffs` depends on the set alone.
pub ffs_unique : (m : Bmp512) (r : ℕ) → IsWide m → IsLeast m (some r) → bmp512_ffs m ≡ some r
ffs_unique m r w least = go (bmp512_ffs m) (bmp512_ffs_lem m w)
  where
    go : (o : Option ℕ) → IsLeast m o → o ≡ some r
    go none h = ground (arith, h r)
    go (some s) h = ground (arith, h.2 r, least.2 s)

pub ffs_empty : (m : Bmp512) → IsWide m → IsLeast m none → bmp512_ffs m ≡ none
ffs_empty m w none_in = go (bmp512_ffs m) (bmp512_ffs_lem m w)
  where
    go : (o : Option ℕ) → IsLeast m o → o ≡ none
    go none h = refl
    go (some s) h = ground (arith, none_in s)

-- The least member is out of the set and returned; an empty set is as it was.
abbrev pub Taken : Bmp512 → Option ℕ × Bmp512 → Type 0
Taken m (none, m') = (m' ≡ m) × IsLeast m none
Taken m (some r, m') =
    IsWide m'
    × IsLeast m (some r)
    × ((c : ℕ) → member m' c ≡ (if r == c then false else member m c))

-- `bmp512_ffs_unset`, on words of 64 bits, returns the least member and removes it alone from the set; of
-- an empty set it returns none and changes nothing.
pub ffs_unset_takes : (m : Bmp512) → IsWide m → Taken m (bmp512_ffs_unset m)
unfolding bmp512_ffs_unset
ffs_unset_takes m w = go (bmp512_ffs m) (bmp512_ffs_lem m w)
  where
    go :
        (o : Option ℕ)
        → IsLeast m o
        → Taken m (elim o [ none ↦ (none, m) | some bit ↦ (some bit, bmp512_unset m bit) ])
    go none h = (refl, h)
    go (some r) h = (unset-IsWide m r w, h, λ c. member-unset m r c w h.0)
