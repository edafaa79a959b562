-- ===== src/Mips.antt =====
-- The MIPS cpu: its tlb, its exceptions and its view of memory, sys161/mipseb/mips.c and
-- sys161/mipseb/mipscore.h.
pub mod State
pub mod Tlb
pub mod Exception
pub mod Memory
pub mod Fields
pub mod Registers
pub mod Alu
pub mod Pages
pub mod Branch
pub mod LoadStore
pub mod System
pub mod Execute
pub mod Cycle
pub mod Control
pub mod Isolation
