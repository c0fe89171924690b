-- ===== src/Dummy.antt =====
-- DummyClients/DummyClients: the players of the dummy clients. `Worker`, `Dispatcher` and `Jobs` are
-- about the jobs that they are cut into.
pub mod State
pub mod Session
pub mod Player
pub mod Events
pub mod Ensures
pub mod Counted
pub mod Script
pub mod Games
pub mod Manager
mod Tests
