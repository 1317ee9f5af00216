-- ===== src/Bits.antt =====
-- Bits of machine words at variables: the value of bit `i`, and what `&`, `|`, `^`, shifts and the
-- constant masks of the sources do to it.
pub mod Step
pub mod Masks
pub mod Scan
