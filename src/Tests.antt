-- ===== src/Tests.antt =====
-- Tests, and the theorems at concrete inputs, by component.
mod Wire
mod Tables
mod Commands
mod Server
mod Routed
mod Trees
mod Threads
mod Rounds
mod Calls
