-- ===== src/Card.antt =====
-- src/card.c and include/card.h: the cards, the checks on a hand of five, its score, the best hand
-- out of seven cards, and the drawing of random cards.
pub mod Types
pub mod Check
pub mod Score
pub mod Draw
pub mod Bands
pub mod Best
pub mod Kinds
