-- ===== src/Clock.antt =====
-- The virtual clock and the event queue of sys161/main/clock.c.
pub mod State
pub mod Schedule
pub mod Dispatch
pub mod Time
