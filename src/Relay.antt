-- ===== src/Relay.antt =====
-- wlnr: the relay server, on which the players of a game reach its host.
pub mod State
pub mod Games
pub mod Messages
pub mod Run
