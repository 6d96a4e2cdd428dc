-- ===== src/Db.antt =====
-- The state, the sessions and the row security (src/meeting_mgr/db.py and the migrations).
pub mod State
pub mod Action
pub mod Session
pub mod Rows
pub mod Time
pub mod Frames
pub mod Inserts
pub mod Laws
