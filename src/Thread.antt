-- ===== src/Thread.antt =====
-- Threads: z_pthread.c and z_pthread.h.
pub mod Create
pub mod Layout
pub mod State
pub mod Join
pub mod Exclusion
pub mod Late
pub mod Served
pub mod Return
pub mod Fork
pub mod Main
pub mod Cancel
pub mod Exit
pub mod Handlers
pub mod Slots
pub mod Wake
