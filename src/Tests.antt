-- ===== src/Tests.antt =====
-- Tests of the models on concrete inputs, and instances of the theorems.
pub mod Util
pub mod Nfs
pub mod Xfs
pub mod CpuInfo
pub mod MountInfo
pub mod MemInfo
pub mod Counters
pub mod MountStats
pub mod Softnet
pub mod Sockets
pub mod Cgroups
