-- ===== src/Metaserver/Clients.antt =====
-- wlms/server.go and wlms/client.go: sending, the list of clients, and the changes of a client's
-- state that every handler is made of.
pub mod Broadcast
pub mod Frame
pub mod Names
pub mod Lookup
pub mod Replacing
pub mod Announce
use widelands_metaserver.Base.{
  ℕ, Bool, true, false, not, ◌&&◌, ◌||◌, Option, none, some, List, [], ◌∷◌, ◌++◌, ltb, ◌==◌,
  if◌then◌else◌, is_some, length, Bytes, str, bytes_eq,
}
use widelands_metaserver.Packet.{Field, text, new}
use widelands_metaserver.Metaserver.World.{
  State, check_pwd, connected, recently_disconnected, is_irc, is_handshake, is_connected,
  is_recently_disconnected, Client, sent, closed, announce, Server, put_client, crash,
}

-- Client.SendPacket. A failed write is only logged.
unfoldable pub send_packet : ℕ → List Field → Server → Server
send_packet p d s = elim (s.client_at p).conn [
  | none ↦ s
  | some _ ↦ elim (new d) [ none ↦ crash s | some _ ↦ record s { events = sent p d ∷ s.events } ]
]

unfoldable pub broadcast_loop : List ℕ → List Field → Server → Server
broadcast_loop [] d s = s
broadcast_loop (p ∷ ps) d s =
    broadcast_loop ps d (if is_connected (s.client_at p).state then send_packet p d s else s)

-- Server.BroadcastToConnectedClients
unfoldable pub broadcast_to_connected_clients : List Field → Server → Server
broadcast_to_connected_clients d s = broadcast_loop s.clients d s

abbrev pub clients_update : List Field
clients_update = text (str "CLIENTS_UPDATE") ∷ []

abbrev pub games_update : List Field
games_update = text (str "GAMES_UPDATE") ∷ []

-- The channel of NewIRCBridgerChannels holds 5 messages; a message that finds it full is dropped.
unfoldable pub broadcast_to_irc_from_user : Bytes → Bytes → Server → Server
broadcast_to_irc_from_user m n s =
    if ltb (length s.messages_to_irc) 5
    then record s { messages_to_irc = s.messages_to_irc ++ (record { message = m; nick = n } ∷ []) }
    else s

unfoldable pub broadcast_to_irc : Bytes → Server → Server
broadcast_to_irc m s = broadcast_to_irc_from_user m [] s

unfoldable pub need_broadcast : State → State → Bool
need_broadcast old connected = is_handshake old || is_recently_disconnected old
need_broadcast old _ = is_connected old

-- Client.setState, for the states of its switch.
unfoldable pub assign_state : ℕ → State → Server → Server
assign_state p st s =
    let c = s.client_at p in
    let s' = put_client p (record c { state = st }) s in
    if need_broadcast c.state st
      && (not (is_recently_disconnected st) && not (is_some c.replace_candidates))
    then broadcast_to_connected_clients clients_update s'
    else s'

-- Client.setState: CHECK_PWD is its default case, log.Fatal.
unfoldable pub set_state : ℕ → State → Server → Server
set_state p check_pwd s = crash s
set_state p st s = assign_state p st s

-- Client.Disconnect. On an IRC user, which has no connection, the call of Close panics.
unfoldable pub disconnect : ℕ → Server → Server
disconnect p s = elim (s.client_at p).conn [
  | none ↦ crash s
  | some _ ↦ set_state p recently_disconnected (record s { events = closed p ∷ s.events })
]

-- Server.AddClient
unfoldable pub add_client : ℕ → Server → Server
add_client p s =
    let clients' = s.clients ++ (p ∷ []) in
    if is_irc (s.client_at p).permissions
    then record s { clients = clients' }
    else record s { clients = clients'; tasks = announce p ∷ s.tasks }

-- Server.HasClientObject
unfoldable pub contains : ℕ → List ℕ → Bool
contains p [] = false
contains p (q ∷ qs) = (q == p) || contains p qs

unfoldable pub remove_first : ℕ → List ℕ → List ℕ
remove_first p [] = []
remove_first p (q ∷ qs) = if q == p then qs else q ∷ remove_first p qs

-- Server.RemoveClient. Its first loop only logs.
unfoldable pub remove_client : ℕ → Server → Server
remove_client p s =
    let clients' = remove_first p s.clients in
    if contains p s.clients && not (is_irc (s.client_at p).permissions)
    then record s { clients = clients'; tasks = announce p ∷ s.tasks }
    else record s { clients = clients' }

-- The first client in a list with a name, an IRC user or not.
unfoldable pub find_named : (ℕ → Client) → Bool → Bytes → List ℕ → Option ℕ
find_named at on_irc n [] = none
find_named at on_irc n (p ∷ ps) =
    if bytes_eq (at p).user_name n
      && (if on_irc then is_irc (at p).permissions else not (is_irc (at p).permissions))
    then some p
    else find_named at on_irc n ps

-- Server.HasClient
unfoldable pub has_client : Bytes → Server → Option ℕ
has_client n s = find_named s.client_at false n s.clients

-- Server.HasIRCClient
unfoldable pub has_irc_client : Bytes → Server → Option ℕ
has_irc_client n s = find_named s.client_at true n s.clients

-- The clients that Server.ForeachActiveClient visits, in its order.
unfoldable pub active_clients : (ℕ → Client) → List ℕ → List ℕ
active_clients at [] = []
active_clients at (p ∷ ps) =
    if is_connected (at p).state then p ∷ active_clients at ps else active_clients at ps

-- Server.NrActiveClients
unfoldable pub nr_active_clients : Server → ℕ
unfolding active_clients
nr_active_clients s = length (active_clients s.client_at s.clients)

-- Client.AnnounceNow, which Client.Announce calls after three seconds.
unfoldable pub announce_now : ℕ → Server → Server
announce_now p s =
    let c = s.client_at p in
    let listed = contains p s.clients in
    let left =
      put_client p (record c { was_announced = false })
        (broadcast_to_connected_clients clients_update
          (broadcast_to_irc_from_user (c.user_name ++ str " has left the lobby") c.user_name s)) in
    let joined =
      put_client p (record c { was_announced = true })
        (broadcast_to_connected_clients clients_update
          (broadcast_to_irc (c.user_name ++ str " has joined the lobby.") s)) in
    if c.was_announced && not listed
    then left
    else if not c.was_announced && listed
    then joined
    else s

-- Server.FindClientsToReplace: the loop, over its variables `best` and `res`.
unfoldable pub candidates_loop :
    (ℕ → Client) → Bytes → Bytes → List ℕ → Option ℕ → List ℕ → Option ℕ × List ℕ
candidates_loop at nonce n [] best res = (best, res)
candidates_loop at nonce n (p ∷ ps) best res =
    let c = at p in
    let same = not (is_some c.pending_login) && bytes_eq c.nonce nonce in
    let named = bytes_eq c.user_name n in
    candidates_loop at nonce n ps (if same && named then some p else best) (
      if same && not named
      then (if is_recently_disconnected c.state then p ∷ res else res ++ (p ∷ []))
      else res)

unfoldable pub push_best : Option ℕ → List ℕ → List ℕ
push_best none res = res
push_best (some p) res = p ∷ res

unfoldable pub find_clients_to_replace : Bytes → Bytes → Server → List ℕ
find_clients_to_replace nonce n s =
    let (best, res) = candidates_loop s.client_at nonce n s.clients none [] in push_best best res
