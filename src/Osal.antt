-- ===== src/Osal.antt =====
-- The primitives of src/mm_halow_osal.c that morselib's tasks synchronise by.
pub mod Queue
pub mod Sync
pub mod Timers
pub mod Log
pub mod Objects
pub mod Calls
pub mod Tasks
mod Checks
