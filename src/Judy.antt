-- ===== src/Judy.antt =====
-- The Judy arrays that the sources call: Judy1, a set of 64-bit words, and JudyL, a map from words
-- to words. They come from a library outside this repository's own code, so they are interfaces:
-- operations with their documented behaviour. `Judy.Bits` and `Judy.Slots` meet the interfaces.
pub mod One
pub mod Many
pub mod Bits
pub mod Slots
