-- ===== src/Bus.antt =====
-- The LAMEbus and its controller, sys161/bus/lamebus.c.
pub mod State
pub mod Irq
pub mod Cpue
pub mod Registers
pub mod Slots
pub mod Init
