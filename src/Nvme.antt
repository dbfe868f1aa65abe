-- ===== src/Nvme.antt =====
-- NVMe formats: identify data, durability, commands and completion queues
-- (compiler/nvmefmt/nvme.go).
pub mod Identify
pub mod Durability
pub mod Command
pub mod Completion
