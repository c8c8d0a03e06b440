-- ===== src/Vm.antt =====
-- The VMIOX interpreter, User/VMIOX.
pub mod Opcodes
pub mod State
pub mod Pins
pub mod Wait
pub mod Shift
pub mod Pile
pub mod Run
pub mod Returns
pub mod Invariant
pub mod Rounds
pub mod Control
pub mod Banks
pub mod Waiting
pub mod Missed
pub mod Scans
pub mod Sampling
mod Tests
