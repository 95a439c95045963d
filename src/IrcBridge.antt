-- ===== src/IrcBridge.antt =====
-- wlms/ircbridge.go: the callbacks that fill the channels between IRC and the metaserver.
pub mod Fields
pub mod Buffers
pub mod Queues
pub mod Lobby
use widelands_metaserver.Base.{
  ℕ, zero, suc, ◌+◌, Bool, true, false, Option, none, some, List, [], ◌∷◌, ◌++◌, ltb, if◌then◌else◌,
  length, Bytes, bytes_eq,
}
use widelands_metaserver.Metaserver.World.{Message}
use widelands_metaserver.IrcBridge.Fields.{fields}

-- IRCBridgerChannels: the buffers, oldest first.
pub record Channels : Type 0 where
  pub messages_from_irc : List Message
  pub messages_to_irc : List Message
  pub clients_joining_irc : List Bytes
  pub clients_leaving_irc : List Bytes

-- NewIRCBridgerChannels
unfoldable pub new_irc_bridger_channels : Channels
new_irc_bridger_channels = record {
  messages_from_irc = [];
  messages_to_irc = [];
  clients_joining_irc = [];
  clients_leaving_irc = [];
}

abbrev pub queue_size : ℕ
queue_size = 50

pub record IrcBridge : Type 0 where
  pub nick : Bytes
  pub channel : Bytes

-- The bridge at work: the channels, how often it has joined the IRC channel, how many goroutines pass
-- messages on to IRC, and what they have sent.
pub record State : Type 0 where
  pub channels : Channels
  pub joined : ℕ
  pub senders : ℕ
  pub sent : List Bytes  -- newest first

-- The events with a callback.
pub data IrcEvent : Type 0 where
  welcomed : IrcEvent  -- 001
  privmsg : Bytes → Bytes → IrcEvent  -- the nick and the message
  join part quit : Bytes → IrcEvent
  names : Bytes → IrcEvent  -- 353
  nick_change : Bytes → Bytes → IrcEvent

-- A select that sends on a channel, with a default.
unfoldable pub offer {ℓ} : {A : Type ℓ} → ℕ → A → List A → List A
offer size x q = if ltb (length q) size then q ++ (x ∷ []) else q

unfoldable pub offer_joining : Bytes → Channels → Channels
offer_joining n c = record c { clients_joining_irc = offer queue_size n c.clients_joining_irc }

unfoldable pub offer_leaving : Bytes → Channels → Channels
offer_leaving n c = record c { clients_leaving_irc = offer queue_size n c.clients_leaving_irc }

-- The loop over the nicknames of the IRC channel.
unfoldable pub offer_names : Bytes → List Bytes → Channels → Channels
offer_names own [] c = c
offer_names own (n ∷ ns) c = offer_names own ns (if bytes_eq n own then c else offer_joining n c)

-- The callbacks, without the one for 001.
unfoldable pub on_event : IrcBridge → IrcEvent → Channels → Channels
on_event b welcomed c = c
on_event b (privmsg nick m) c = record c {
  messages_from_irc = offer queue_size (record { message = m; nick = nick }) c.messages_from_irc;
}
on_event b (join nick) c = if bytes_eq nick b.nick then c else offer_joining nick c
on_event b (part nick) c = if bytes_eq nick b.nick then c else offer_leaving nick c
on_event b (quit nick) c = if bytes_eq nick b.nick then c else offer_leaving nick c
on_event b (names m) c = offer_names b.nick (fields m) c
on_event b (nick_change old new) c = offer_joining new (offer_leaving old c)

-- All callbacks. That for 001 joins the channel and starts another goroutine.
unfoldable pub callback : IrcBridge → IrcEvent → State → State
callback b welcomed s = record s { joined = suc s.joined; senders = suc s.senders }
callback b e s = record s { channels = on_event b e s.channels }

-- One of these goroutines takes a message, if there is a goroutine and a message.
unfoldable pub send_one : State → State
send_one s = elim s.senders [
  | zero ↦ s
  | suc _ ↦ elim s.channels.messages_to_irc [
    | [] ↦ s
    | m ∷ ms ↦ record s {
      channels = record s.channels { messages_to_irc = ms };
      sent = m.message ∷ s.sent;
    }
  ]
]
