-- ===== src/Tests.antt =====
-- The theorems at concrete inputs.
pub mod Recovery
pub mod Storage
pub mod Projections
pub mod Nvme
pub mod Compiler
pub mod Assembler
pub mod Parsing
pub mod Constants
pub mod Memory
pub mod Loading
