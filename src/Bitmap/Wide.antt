-- ===== src/Bitmap/Wide.antt =====
-- include/lib/dsa/bmp512.h: a set of the numbers below 512, as two sets of 256. An `int bit` is a
-- number below 512; a result of -1 is `none`.
pub mod Laws
pub mod Pairs
pub mod Two
use twan.Base.{
  ℕ, zero, suc, ◌+◌, ◌-◌, ◌≤◌, ◌<◌, Bool, true, false, Option, none, some, ◌==◌, leb, if◌then◌else◌,
}
use twan.Bitmap.{
  Bmp256, bmp256_and, bmp256_or, bmp256_set, bmp256_unset, bmp256_ffs, bmp256_fls, bmp256_set_all,
  bmp256_unset_all,
}

pub record Bmp512 : Type 0 where
  pub high256 : Bmp256
  pub low256 : Bmp256

pub bmp512_and : Bmp512 → Bmp512 → Bmp512
bmp512_and dest src = record {
  high256 = bmp256_and dest.high256 src.high256;
  low256 = bmp256_and dest.low256 src.low256;
}

pub bmp512_or : Bmp512 → Bmp512 → Bmp512
bmp512_or dest src = record {
  high256 = bmp256_or dest.high256 src.high256;
  low256 = bmp256_or dest.low256 src.low256;
}

pub bmp512_set : Bmp512 → ℕ → Bmp512
bmp512_set m bit =
    if leb 256 bit
    then record m { high256 = bmp256_set m.high256 (bit - 256) }
    else record m { low256 = bmp256_set m.low256 bit }

pub bmp512_unset : Bmp512 → ℕ → Bmp512
bmp512_unset m bit =
    if leb 256 bit
    then record m { high256 = bmp256_unset m.high256 (bit - 256) }
    else record m { low256 = bmp256_unset m.low256 bit }

pub bmp512_ffs : Bmp512 → Option ℕ
bmp512_ffs m = elim (bmp256_ffs m.low256) [
  | some bit ↦ some bit
  | none ↦ elim (bmp256_ffs m.high256) [ none ↦ none | some bit ↦ some (bit + 256) ]
]

pub bmp512_fls : Bmp512 → Option ℕ
bmp512_fls m = elim (bmp256_fls m.high256) [
  | some bit ↦ some (bit + 256)
  | none ↦ bmp256_fls m.low256
]

pub bmp512_set_all : Bmp512 → Bmp512
bmp512_set_all m = record { high256 = bmp256_set_all m.high256; low256 = bmp256_set_all m.low256 }

pub bmp512_unset_all : Bmp512 → Bmp512
bmp512_unset_all m = record {
  high256 = bmp256_unset_all m.high256;
  low256 = bmp256_unset_all m.low256;
}

pub bmp512_set2 : Bmp512 → ℕ → Bmp512
bmp512_set2 m first_bit = bmp512_set (bmp512_set m first_bit) (first_bit + 1)

pub bmp512_unset2 : Bmp512 → ℕ → Bmp512
bmp512_unset2 m first_bit = bmp512_unset (bmp512_unset m first_bit) (first_bit + 1)

-- One round of the loop of `bmp512_ffs2` over its copy of the set: what it does once the first scan
-- has found a bit and the second one the next, with the rounds that follow as an argument.
abbrev pub ffs2_next : (Bmp512 → Option ℕ) → Bmp512 → ℕ → Option ℕ → Option ℕ
ffs2_next rest m bit none = none
ffs2_next rest m bit (some next) = elim (next == bit + 1) [
  | true ↦ some bit
  | false ↦ rest (bmp512_unset (bmp512_unset m bit) next)
]

abbrev pub ffs2_round : (Bmp512 → Option ℕ) → Bmp512 → Option ℕ → Option ℕ
ffs2_round rest m none = none
ffs2_round rest m (some bit) = ffs2_next rest m bit (bmp512_ffs (bmp512_unset m bit))

-- Each round removes a member, so 513 rounds reach the end.
pub ffs2_loop : ℕ → Bmp512 → Option ℕ
ffs2_loop zero m = none
ffs2_loop (suc rounds) m = ffs2_round (ffs2_loop rounds) m (bmp512_ffs m)

pub bmp512_ffs2 : Bmp512 → Option ℕ
unfolding ffs2_loop
bmp512_ffs2 m = ffs2_loop 513 m

pub bmp512_ffs_unset : Bmp512 → Option ℕ × Bmp512
bmp512_ffs_unset m = elim (bmp512_ffs m) [
  | none ↦ (none, m)
  | some bit ↦ (some bit, bmp512_unset m bit)
]

pub bmp512_ffs2_unset2 : Bmp512 → Option ℕ × Bmp512
bmp512_ffs2_unset2 m = elim (bmp512_ffs2 m) [
  | none ↦ (none, m)
  | some bit ↦ (some bit, bmp512_unset2 m bit)
]
