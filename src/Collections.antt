-- ===== src/Collections.antt =====
-- The ordered containers of the C++ library that the code uses, with the part of their documented
-- behaviour that it relies on: iteration in ascending order and one entry for each key.
pub mod Sets
pub mod Maps
pub mod All
pub mod Dict
pub mod Sorted
