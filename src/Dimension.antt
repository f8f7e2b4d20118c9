-- ===== src/Dimension.antt =====
-- src/core-metadata/dimension: how the values of a dimension become bytes of a row key.
pub mod Integer
pub mod Date
