-- ===== src/Tests.antt =====
-- Concrete inputs for the theorems.
mod Samples
mod Purging
mod Capturing
mod Access
mod Selecting
mod Running
mod Editing
mod Starting
mod Watching
mod Granting
mod Uploading
