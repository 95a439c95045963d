-- ===== src/Tests.antt =====
-- The theorems at concrete inputs, and the states that they are applied to.
pub mod Lobby
pub mod Logins
pub mod Commands
pub mod Loop
pub mod Packets
pub mod Relayed
pub mod Runs
pub mod Calls
pub mod Accounts
pub mod Bridged
