-- ===== src/Cube.antt =====
-- src/core-cube: the description of a cube, its cuboids and the schedulers.
pub mod RowKey
pub mod Cuboid
pub mod AggregationGroup
pub mod Desc
pub mod Scheduler
pub mod TreeScheduler
pub mod Kv
