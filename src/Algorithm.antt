-- ===== src/Algorithm.antt =====
-- src/algorithm: cubing by layers.
pub mod NdCuboidBuilder
pub mod BaseCuboidEncoder
