-- ===== src/Word.antt =====
-- The bitwise operators of C on patterns held as natural numbers. They are the native `bit_and`,
-- `bit_or` and `bit_xor`; the children give the laws that the components use. No file of the
-- repository is modelled here.
pub mod Digits
pub mod Mask
pub mod Split
pub mod Int32
