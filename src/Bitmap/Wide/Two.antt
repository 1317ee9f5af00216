-- ===== src/Bitmap/Wide/Two.antt =====
-- `bmp512_ffs2_unset2`, which takes two neighbours, and `bmp512_set_all`.
use twan.Base.{
  ℕ, ◌+◌, ◌-◌, ◌<◌, ◌≡◌, refl, true, false, Option, none, some, ◌==◌, if◌then◌else◌, arith,
}
use twan.Bitmap.Laws.{test-set_all, set_all-IsWords}
use twan.Bitmap.Wide.{
  Bmp512, bmp512_unset, bmp512_unset2, bmp512_ffs2, bmp512_ffs2_unset2, bmp512_set_all,
}
use twan.Bitmap.Wide.Laws.{member, IsWide, member-unset, unset-IsWide}
use twan.Bitmap.Wide.Pairs.{IsPair, ffs2-IsPair}

-- The two lowest neighbours that the scan finds are out of the set and returned.
abbrev pub Taken2 : Bmp512 → Option ℕ × Bmp512 → Type 0
Taken2 m (none, m') = m' ≡ m
Taken2 m (some r, m') =
    IsWide m'
    × IsPair m (some r)
    × ((c : ℕ) → member m' c ≡ (if r == c then false else if r + 1 == c then false else member m c))

pub ffs2_unset2_takes : (m : Bmp512) → IsWide m → Taken2 m (bmp512_ffs2_unset2 m)
unfolding bmp512_ffs2_unset2 bmp512_unset2
ffs2_unset2_takes m w = go (bmp512_ffs2 m) (ffs2-IsPair m 513 w (omega arith)).0
  where
    go :
        (o : Option ℕ)
        → IsPair m o
        → Taken2 m (elim o [ none ↦ (none, m) | some bit ↦ (some bit, bmp512_unset2 m bit) ])
    go none h = refl
    go (some r) h =
        let once = unset-IsWide m r w in
        (
          unset-IsWide (bmp512_unset m r) (r + 1) once,
          h,
          λ c. ground (arith, member-unset m r c w, member-unset (bmp512_unset m r) (r + 1) c once),
        )

pub member-set_all : (m : Bmp512) (c : ℕ) → c < 512 → member (bmp512_set_all m) c ≡ true
unfolding bmp512_set_all
member-set_all m c l = ground (arith, test-set_all m.high256 (c - 256), test-set_all m.low256 c)

pub set_all-IsWide : (m : Bmp512) → IsWide (bmp512_set_all m)
unfolding bmp512_set_all
set_all-IsWide m = record {
  high_words = set_all-IsWords m.high256;
  low_words = set_all-IsWords m.low256;
}
