-- ===== src/Poker.antt =====
-- src/poker.c and include/poker.h: the poker machine of one table.
pub mod Types
pub mod Players
pub mod Betting
pub mod Turn
pub mod Street
pub mod Showdown
pub mod Action
pub mod Round
pub mod Store
