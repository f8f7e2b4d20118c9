-- ===== src/Metadata.antt =====
-- src/core-metadata/metadata: the data model behind a cube.
pub mod FunctionDesc
pub mod DataModel
pub mod DataType
pub mod Measures
