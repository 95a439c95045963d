-- ===== src/Relay/State.antt =====
-- The state of the relay: the types of wlnr/client.go, game.go and server.go, with the commands of
-- command.go and command_codes.go, and what client.go does with one connection.
use widelands_metaserver.Base.{
  not, ◌&&◌, ◌||◌, ℕ, ◌+◌, ◌-◌, ◌*◌, ◌%◌, Bool, true, false, Option, List, [], ◌∷◌, ◌++◌, ltb, leb,
  ◌==◌, if◌then◌else◌, length, take, drop, Bytes, str,
}

-- command_codes.go
abbrev pub relay_protocol_version : ℕ
relay_protocol_version = 1

abbrev pub hello : ℕ
hello = 1

abbrev pub welcome : ℕ
welcome = 2

abbrev pub disconnect_code : ℕ
disconnect_code = 3

abbrev pub ping : ℕ
ping = 4

abbrev pub pong : ℕ
pong = 5

abbrev pub round_trip_time_request : ℕ
round_trip_time_request = 6

abbrev pub round_trip_time_response : ℕ
round_trip_time_response = 7

abbrev pub connect_client : ℕ
connect_client = 11

abbrev pub disconnect_client_code : ℕ
disconnect_client_code = 12

abbrev pub to_clients : ℕ
to_clients = 13

abbrev pub from_client : ℕ
from_client = 14

abbrev pub to_host : ℕ
to_host = 21

abbrev pub from_host : ℕ
from_host = 22

-- AppendString: the bytes and a zero. (AppendUInt and AppendBytes append one byte and some.)
unfoldable pub append_string : Bytes → Bytes → Bytes
append_string cmd s = cmd ++ (s ++ (0 ∷ []))

pub record Client : Type 0 where
  pub is_open : Bool  -- conn is not nil
  pub id : ℕ  -- uint8
  pub reader : Bytes  -- what will be read until the end of the stream
  pub ping_timer : ℕ
  pub waiting_for_pong : Bool
  pub last_send_ping_seq : ℕ  -- uint8
  pub time_last_ping : ℕ
  pub time_last_pong : ℕ
  pub rtt_last_ping : ℕ

pub record Game : Type 0 where
  pub host : Option ℕ
  pub clients : List ℕ
  pub next_client_id : ℕ  -- uint8
  pub protocol_version : ℕ  -- uint8
  pub game_name : Bytes
  pub host_password : Bytes
  pub currently_shutting_down : Bool

-- What the relay does to the outside.
pub data Event : Type 0 where
  sent : ℕ → Bytes → Event  -- a command that goes to the client's goroutine that writes
  closed : ℕ → Event  -- its connection
  game_connected game_closed : Bytes → Event  -- a call of the metaserver

-- The goroutines of the relay, each a loop or the rest of a call.
pub data Task : Type 0 where
  new_connection : ℕ → Task  -- dealWithNewConnection
  ping_loop : ℕ → Task  -- pingLoop
  host_messages : ℕ → Task  -- handleHostMessages of a game
  client_messages : ℕ → ℕ → Task  -- handleClientMessages of a game, for a client

pub record Server : Type 0 where
  pub games : List ℕ
  pub client_at : ℕ → Client
  pub game_at : ℕ → Game
  pub next_game : ℕ  -- the next pointer that `&Game{}` gives
  pub next_client : ℕ
  pub tasks : List Task  -- newest first
  pub now : ℕ  -- in nanoseconds
  pub events : List Event  -- newest first
  pub timers : List Bytes  -- the names given to the AfterFunc of NewGame
  pub writer_ended : ℕ → Bool  -- the goroutine that writes to the client has ended
  pub hung : Bool  -- a goroutine waits in a send that nobody receives: no later state counts
  pub crashed : Bool  -- a nil pointer was followed: no later state counts
  pub has_shutdown : Bool  -- what serverHasShutdown has received

abbrev pub nanoseconds : ℕ
nanoseconds = 1000000000

unfoldable pub put_client : ℕ → Client → Server → Server
put_client c v s = record s { client_at = λ q. if q == c then v else s.client_at q }

unfoldable pub put_game : ℕ → Game → Server → Server
put_game g v s = record s { game_at = λ q. if q == g then v else s.game_at q }

unfoldable pub crash : Server → Server
crash s = record s { crashed = true }

-- The goroutine of `New` that writes has ended.
unfoldable pub end_writer : ℕ → Server → Server
end_writer c s = record s { writer_ended = λ q. if q == c then true else s.writer_ended q }

-- Client.SendCommand: the channel has no buffer. The goroutine that writes takes the command, and ends if
-- the connection is gone; once it has ended, the send never returns.
unfoldable pub send_command : ℕ → Bytes → Server → Server
send_command c cmd s =
    let up = (s.client_at c).is_open in
    record s {
      events = sent c cmd ∷ s.events;
      writer_ended = λ q. if q == c && not up then true else s.writer_ended q;
      hung = s.hung || (not up && s.writer_ended c);
    }

-- Client.Disconnect
unfoldable pub disconnect : ℕ → Bytes → Server → Server
disconnect c reason s =
    let s' = send_command c (append_string (disconnect_code ∷ []) reason) s in
    if (s.client_at c).is_open
    then record (put_client c (record (s'.client_at c) { is_open = false }) s') {
      events = closed c ∷ s'.events;
    }
    else s

-- One turn of Client.pingLoop: whether it goes on, and the state.
unfoldable pub ping_turn : ℕ → Server → Bool × Server
ping_turn c s =
    let v = s.client_at c in
    let seq = (v.last_send_ping_seq + 1) % 256 in
    let pinged = record v {
      waiting_for_pong = true;
      time_last_ping = s.now;
      last_send_ping_seq = seq;
      ping_timer = 90 * nanoseconds;
    } in
    if v.is_open
    then (if v.waiting_for_pong
        then (false, disconnect c (str "TIMEOUT") s)
        else (true, send_command c (ping ∷ seq ∷ []) (put_client c pinged s)))
    else (false, s)

-- Client.HandlePong
unfoldable pub handle_pong_seq : ℕ → ℕ → Server → Server
handle_pong_seq c seq s =
    let v = s.client_at c in
    let answered = record v { waiting_for_pong = false } in
    if seq == v.last_send_ping_seq
    then put_client c
        (record answered { time_last_pong = s.now; rtt_last_ping = s.now - v.time_last_ping }) s
    else put_client c answered s

-- What a read gives: a value and the rest of the stream, the end of the stream, or another error.
pub data Read {ℓ} (A : Type ℓ) : Type ℓ where
  got : A → Bytes → Read A
  eof : Read A
  broken : Read A

-- Client.ReadUint8
unfoldable pub read_uint8 : Bytes → Read ℕ
read_uint8 [] = eof
read_uint8 (b ∷ bs) = got b bs

-- Client.ReadString: up to a zero byte, which is dropped.
unfoldable pub read_string : Bytes → Read Bytes
read_string [] = eof
read_string (b ∷ bs) =
    let rest : Read Bytes = elim (read_string bs) [ got s r ↦ got (b ∷ s) r | _ ↦ eof ] in
    if b == 0 then got [] bs else rest

-- Client.ReadPacket: the packet with its two bytes of length.
unfoldable pub read_packet : Bytes → Read Bytes
read_packet [] = eof
read_packet (a ∷ []) = broken
read_packet (a ∷ b ∷ r) =
    let n = a * 256 + b in
    if ltb n 2
    then broken
    else if leb (n - 2) (length r)
    then got (a ∷ b ∷ take (n - 2) r) (drop (n - 2) r)
    else broken

-- The rest of the stream is kept in the client.
unfoldable pub consume : ℕ → Bytes → Server → Server
consume c r s = put_client c (record (s.client_at c) { reader = r }) s
