-- ===== src/Tests/Bridged.antt =====
-- The IRC bridge and the lobby.
use widelands_metaserver.Base.{
  [], ◌∷◌, ◌++◌, none, some, refl, ◌≡◌, arith, List, str, take, bytes_eq,
}
use widelands_metaserver.Metaserver.Clients.{has_irc_client, find_named}
use widelands_metaserver.IrcBridge.{
  Channels, IrcBridge, IrcEvent, privmsg, part, names, nick_change, queue_size,
}
use widelands_metaserver.IrcBridge.Fields.{fields, fields_from, space_width}
use widelands_metaserver.IrcBridge.Queues.{
  on_events, joins_of, leaves_of, messages_of, all_of, on_events_result,
}
use widelands_metaserver.IrcBridge.Lobby.{
  join_ready, leave_ready, take_ready, order_of_channels_matters,
}
use widelands_metaserver.Tests.Lobby.{lobby, new_name}

abbrev bridge : IrcBridge
bridge = record { nick = str "bot"; channel = str "#w" }

abbrev came : List IrcEvent
came =
    names (str "ann  bot bob")
    ∷ privmsg (str "ann") (str "hi")
    ∷ part (str "bob")
    ∷ nick_change (str "bot") (str "tob")
    ∷ []

abbrev channels : Channels
channels = record {
  messages_from_irc = [];
  messages_to_irc = [];
  clients_joining_irc = new_name ∷ [];
  clients_leaving_irc = new_name ∷ [];
}

split : fields (str "ann  bot bob") ≡ str "ann" ∷ str "bot" ∷ str "bob" ∷ []
unfolding fields fields_from str space_width
split = refl

on_events_result_example :
    let c' = on_events bridge came channels in
    (c'.clients_joining_irc
      ≡ take queue_size (channels.clients_joining_irc ++ all_of (joins_of bridge.nick) came))
    × (c'.clients_leaving_irc
        ≡ take queue_size (channels.clients_leaving_irc ++ all_of (leaves_of bridge.nick) came))
    × (c'.messages_from_irc
        ≡ take queue_size (channels.messages_from_irc ++ all_of messages_of came))
on_events_result_example =
    on_events_result bridge came channels (omega arith) (omega arith) (omega arith)

order_of_channels_matters_example :
    (has_irc_client new_name (take_ready leave_ready (take_ready join_ready (channels, lobby))).1
      ≡ none)
    × (has_irc_client new_name (take_ready join_ready (take_ready leave_ready (channels, lobby))).1
        ≡ some 4)
unfolding has_irc_client find_named bytes_eq
order_of_channels_matters_example =
    order_of_channels_matters new_name [] [] channels lobby refl refl refl
      (omega arith, (omega arith, (omega arith, tt)))
