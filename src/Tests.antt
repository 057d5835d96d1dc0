-- ===== src/Tests.antt =====
-- The properties at concrete inputs, component by component.
pub mod Machine
pub mod Cache
pub mod Bits
pub mod Descriptors
pub mod Memory
pub mod Families
pub mod Loading
pub mod Queues
pub mod Inodes
pub mod Arguments
pub mod Tables
pub mod Elements
pub mod Growing
pub mod Turning
pub mod Blocks
