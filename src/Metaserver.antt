-- ===== src/Metaserver.antt =====
-- wlms: the metaserver. Its state is `World`; `Clients`, `Games`, `Banned` and `Names` are the
-- methods of Server and Game, the rest the handlers of client.go, composed in `Dispatch`.
pub mod World
pub mod Clients
pub mod Games
pub mod Status
pub mod Banned
pub mod Handler
pub mod Login
pub mod Auth
pub mod Chat
pub mod Lobby
pub mod Dispatch
pub mod Pinger
pub mod Start
pub mod Main
pub mod Run
