-- ===== src/Lobby.antt =====
-- The lobby of src/lobby.c: who watches a table, who sits at it, and the chips that go in and out.
pub mod Types
pub mod Session
pub mod Seats
pub mod Handlers
