-- ===== src/Tests.antt =====
-- Runs of the theorems on concrete states.
mod Clock
mod Bus
mod Devices
mod Mips
mod Instructions
pub mod Machine
mod Disk
mod Gdb
