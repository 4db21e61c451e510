-- ===== src/Assignor.antt =====
-- faust/assignor: which client gets which partitions.
pub mod Sets
pub mod Copartition
pub mod Copartitioned
pub mod Client
pub mod Partition
