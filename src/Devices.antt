-- ===== src/Devices.antt =====
-- The devices on the bus, and what they use of the rest of the machine.
pub mod Port
pub mod Timer
pub mod Serial
pub mod Disk
