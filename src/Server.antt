-- ===== src/Server.antt =====
-- GameLiftLinuxServer: the server that runs on one thread. `State` holds its objects; `Roster` and
-- `Broadcast` are GameLiftManager.cpp, `Session` is ClientSession.cpp, `Handlers` is
-- PacketHandler.cpp, `Clients` is ClientManager.cpp and `Flush` is `ClientSession::SendFlush`.
pub mod State
pub mod Roster
pub mod Session
pub mod Broadcast
pub mod Handlers
pub mod Receive
pub mod Flush
pub mod Echo
pub mod Clients
pub mod Frame
pub mod Rounds
pub mod Stream
pub mod Lifecycle
pub mod Counts
pub mod Delivery
pub mod Valid
pub mod Stuck
mod Tests
