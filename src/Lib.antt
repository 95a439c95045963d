-- ===== src/Lib.antt =====
-- The Widelands metaserver: the lobby server (wlms) and the game relay (wlnr), both in Go.
--
-- The lobby server keeps the list of clients and of games. A client connects, logs in by name (with a
-- password if the name is registered), chats, opens games and joins them; administrators kick and ban.
-- Clients that lost their connection are replaced when they come back. Games of newer clients run on the
-- relay, which passes packets on between the host of a game and its players, and which the lobby server
-- tells of new games; games of build 19 are hosted by the client, and pinged.
--
-- Base: arithmetic tests, lists, options, integers and byte strings for all parts.
-- Packet: wlms/packet/packet.go. Decode has `New`, `Read` and the readers of one value, Decimal Go's
--   decimal printing and parsing, which they use.
-- Users: the in-memory database of wlms/userdb.go. Sql is the one that asks MySQL, Base64 the decoder that
--   it uses, Tables compares the two.
-- Metaserver: wlms/client.go, game.go, server.go.
--   World: the types, and the state of the whole server, with a heap of clients and one of games: a
--     pointer is a number.
--   Clients: SendPacket, the broadcasts, setState, the list of clients and the searches in it.
--   Games: the list of games, players, doPing and pingCycle, what the relay reports. Status: `Status`.
--   Banned: the list of banned addresses. Handler: the errors of handlers, restartPingLoop.
--   Login: findReplaceCandidates, checkCandidates, findUnconnectedName, loginDone.
--   Auth: Handle_LOGIN, Handle_CHECK_PWD, Handle_PWD_CHALLENGE, Handle_RELOGIN.
--   Chat: Handle_CHAT, Handle_CMD, Handle_MOTD, Handle_ANNOUNCEMENT.
--   Lobby: the other handlers. Dispatch: DealWithNewConnection and failedPong.
--   Pinger: RealGamePingerFactory. Start: CreateServerUsing. Main: wlms/main.go.
--   Run: mainLoop, the goroutine of the IRC bridge, CreateServerUsing, and one step of the server for
--     each thing that can happen.
-- Relay: wlnr. State has the types and client.go, Games the games and who is in them (Telling and Hanging
--   are about when their shutdown returns), Messages the loops that read from a newcomer, a player and the
--   host, Run the main loop and one step for each thing that can happen. Below Run, Laws and Turns say once
--   what a property must survive so that every turn of a goroutine keeps it; Frame, Counts, Fine and Closing
--   use this for the list of games, Calm, Leaving, Players and Joining for the players; Beside and Signal
--   are about the end on a signal.
-- Rpc: wlnr/relayinterface. ToRelay and ToMetaserver are the callers, RelayMethods and MetaserverMethods
--   what they call, Reach what the network is relied on for. Hosting tells the metaserver what the relay
--   does to its games.
-- IrcBridge: wlms/ircbridge.go, with strings.Fields in Fields. Buffers has the sends that drop what a
--   full channel does not take, Queues the channels after any events, Lobby the goroutine of the
--   metaserver that empties the channels.
-- Tests: the theorems at concrete inputs.
--
-- A handler is a function from the state to the state; handlers run one after the other, so the data
-- races of the goroutines are not in the model. `crashed` stands for a panic or log.Fatal: from there on
-- no state counts. In the relay, `hung` stands for a send that never returns, since the goroutine that
-- writes to the client has ended: the run stops there, although the other goroutines of the code go on.
-- What is sent to a connection is in the list of events, newest first. A timer is the
-- duration to which it was last reset, none for the nil pointer of an IRC user. The clock, the random
-- bytes, the answers of pings and what the relay and the IRC bridge do are inputs of the steps. SHA-1 is
-- a parameter. The interfaces UserDb and relayinterface.Client are records of functions.
--
-- Fuel: the search for a name makes 1000 rounds, as the code does. The loop that shuts a game of the
-- relay down is given one round more than there are players, and the one that shuts all games down one
-- round for each game, which their theorems show to be enough. The
-- decimal printer is given one more than the number, which is above the number of its digits.
--
-- Not modelled: the MySQL driver, the IRC library and net/rpc, which are parameters or inputs; sockets,
-- flags, JSON and signals (ConfigFrom, RunServer); logging; the fake connection of the tests. In the relay
-- a turn of a goroutine is one step, so a game that shuts down while another goroutine is in the middle of
-- a turn is not in the model.
pub mod Base
pub mod Packet
pub mod Metaserver
pub mod Users
pub mod Relay
pub mod Rpc
pub mod IrcBridge
pub mod Tests
