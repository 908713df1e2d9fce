-- ===== src/Tests.antt =====
-- Runs of the model on small inputs, and the theorems at concrete inputs.
mod Game
mod Cards
mod Table
mod Hands
mod Bank
mod Lobby
mod Loop
mod Frames
mod Keys
mod Handshake
mod Packets
