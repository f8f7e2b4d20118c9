-- ===== src/Master.antt =====
-- src/husky-plugins/master: the assigners of the master, which answer a worker that asks for a block.
pub mod Hdfs
pub mod Listing
pub mod Orc
pub mod Parquet
