-- ===== src/Game.antt =====
-- The game layer of the Windows server: GameLiftManager.cpp, GameSession.cpp, PlayerSession.cpp and
-- PacketHandler.cpp of GameLiftGameServer/GameLiftGameServer, over the sessions that `Overlapped`
-- models and the circular buffer.
pub mod State
pub mod Manager
pub mod Player
pub mod Handlers
pub mod Receive
pub mod Locking
pub mod Agreement
pub mod Delivery
pub mod Stuck
mod Tests
