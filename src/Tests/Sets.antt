-- ===== src/Tests/Sets.antt =====
-- The theorems on words and sets at one set each.
use twan.Base.{◌-◌, arith}
use twan.Bitmap.{Bmp256, bmp256_set}
use twan.Bitmap.Laws.{IsWords, test-unset_all, unset_all-IsWords, set-IsWords}
use twan.Bitmap.Wide.{Bmp512, bmp512_set}
use twan.Bitmap.Wide.Laws.{IsWide, set-IsWide, member-set}
use twan.Bitmap.Wide.Pairs.{OnlyThree}
use twan.Tests.{no_bits}

-- the set of 100
abbrev pub one_bit : Bmp256
one_bit = bmp256_set no_bits 100

pub one-IsWords : IsWords one_bit
one-IsWords = set-IsWords no_bits 100 (unset_all-IsWords _)

abbrev no_pages : Bmp512
no_pages = record { high256 = no_bits; low256 = no_bits }

no_pages-IsWide : IsWide no_pages
no_pages-IsWide = record { high_words = unset_all-IsWords _; low_words = unset_all-IsWords _ }

-- the set of 0, 2 and 3
abbrev three_pages : Bmp512
three_pages = bmp512_set (bmp512_set (bmp512_set no_pages 0) 2) 3

three_pages-IsWide : IsWide three_pages
three_pages-IsWide = set-IsWide _ 3 (set-IsWide _ 2 (set-IsWide _ 0 no_pages-IsWide))

three_pages-OnlyThree : OnlyThree three_pages 0 2
three_pages-OnlyThree c h = ground (
  arith,
  member-set (bmp512_set (bmp512_set no_pages 0) 2) 3 c,
  member-set (bmp512_set no_pages 0) 2 c,
  member-set no_pages 0 c,
  test-unset_all (record { bmp = λ i. 0 }) c,
  test-unset_all (record { bmp = λ i. 0 }) (c - 256),
)
