-- ===== src/IrcBridge/Queues.antt =====
-- wlms/ircbridge.go: what the callbacks leave in the channels.
use widelands_metaserver.Base.{
  ◌≤◌, List, [], ◌∷◌, ◌++◌, length, take, if◌then◌else◌, ◌≡◌, Bool-cases, inl, inr, Bytes, bytes_eq,
}
use widelands_metaserver.Metaserver.World.{Message}
use widelands_metaserver.IrcBridge.Fields.{fields}
use widelands_metaserver.IrcBridge.{
  Channels, IrcBridge, IrcEvent, welcomed, privmsg, join, part, quit, names, nick_change,
  queue_size, offer_joining, offer_leaving, offer_names, on_event,
}
use widelands_metaserver.IrcBridge.Buffers.{Follows, Follows-none, Follows-offer, Follows-trans}

-- The callbacks of several events.
abbrev pub on_events : IrcBridge → List IrcEvent → Channels → Channels
on_events b [] c = c
on_events b (e ∷ es) c = on_events b es (on_event b e c)

-- A nick, if it is not the own one.
abbrev pub foreign : Bytes → Bytes → List Bytes
foreign own n = if bytes_eq n own then [] else n ∷ []

abbrev pub all_foreign : Bytes → List Bytes → List Bytes
all_foreign own [] = []
all_foreign own (n ∷ ns) = foreign own n ++ all_foreign own ns

-- Who joins, who leaves, and what is said by an event.
abbrev pub joins_of : Bytes → IrcEvent → List Bytes
joins_of own (join n) = foreign own n
joins_of own (names m) = all_foreign own (fields m)
joins_of own (nick_change old new) = new ∷ []
joins_of own _ = []

abbrev pub leaves_of : Bytes → IrcEvent → List Bytes
leaves_of own (part n) = foreign own n
leaves_of own (quit n) = foreign own n
leaves_of own (nick_change old new) = old ∷ []
leaves_of own _ = []

abbrev pub messages_of : IrcEvent → List Message
messages_of (privmsg nick m) = record { message = m; nick = nick } ∷ []
messages_of _ = []

abbrev pub all_of {ℓ} : {A : Type ℓ} → (IrcEvent → List A) → List IrcEvent → List A
all_of f [] = []
all_of f (e ∷ es) = f e ++ all_of f es

-- The three channels that the bridge fills, after joins, departures and messages.
record Fills (js ls : List Bytes) (ms : List Message) (c c' : Channels) : Type 0 where
  joining :
      length c.clients_joining_irc ≤ queue_size
      → Follows queue_size c.clients_joining_irc js c'.clients_joining_irc
  leaving :
      length c.clients_leaving_irc ≤ queue_size
      → Follows queue_size c.clients_leaving_irc ls c'.clients_leaving_irc
  messages :
      length c.messages_from_irc ≤ queue_size
      → Follows queue_size c.messages_from_irc ms c'.messages_from_irc

Fills-none : (c : Channels) → Fills [] [] [] c c
Fills-none c = record {
  joining = Follows-none _ c.clients_joining_irc;
  leaving = Follows-none _ c.clients_leaving_irc;
  messages = Follows-none _ c.messages_from_irc;
}

Fills-joining : (n : Bytes) (c : Channels) → Fills (n ∷ []) [] [] c (offer_joining n c)
unfolding offer_joining
Fills-joining n c = record {
  joining = Follows-offer _ n c.clients_joining_irc;
  leaving = Follows-none _ c.clients_leaving_irc;
  messages = Follows-none _ c.messages_from_irc;
}

Fills-leaving : (n : Bytes) (c : Channels) → Fills [] (n ∷ []) [] c (offer_leaving n c)
unfolding offer_leaving
Fills-leaving n c = record {
  joining = Follows-none _ c.clients_joining_irc;
  leaving = Follows-offer _ n c.clients_leaving_irc;
  messages = Follows-none _ c.messages_from_irc;
}

Fills-trans :
    {js ls js' ls' : List Bytes} {ms ms' : List Message} (c c' c'' : Channels)
    → Fills js ls ms c c'
    → Fills js' ls' ms' c' c''
    → Fills (js ++ js') (ls ++ ls') (ms ++ ms') c c''
Fills-trans c c' c'' h k = record {
  joining = λ l. Follows-trans _ c.clients_joining_irc _ _ _ _ (h.joining l) k.joining;
  leaving = λ l. Follows-trans _ c.clients_leaving_irc _ _ _ _ (h.leaving l) k.leaving;
  messages = λ l. Follows-trans _ c.messages_from_irc _ _ _ _ (h.messages l) k.messages;
}

-- A nick is passed over if it is the own one.
joins_foreign :
    (own n : Bytes) (c : Channels)
    → Fills (foreign own n) [] [] c (if bytes_eq n own then c else offer_joining n c)
joins_foreign own n c = elim (Bool-cases (bytes_eq n own)) [
  | inl e ↦ rw e (Fills-none c)
  | inr e ↦ rw e (Fills-joining n c)
]

leaves_foreign :
    (own n : Bytes) (c : Channels)
    → Fills [] (foreign own n) [] c (if bytes_eq n own then c else offer_leaving n c)
leaves_foreign own n c = elim (Bool-cases (bytes_eq n own)) [
  | inl e ↦ rw e (Fills-none c)
  | inr e ↦ rw e (Fills-leaving n c)
]

names_fill :
    (own : Bytes) (ns : List Bytes) (c : Channels)
    → Fills (all_foreign own ns) [] [] c (offer_names own ns c)
unfolding offer_names
names_fill own [] c = Fills-none c
names_fill own (n ∷ ns) c = Fills-trans c _ _ (joins_foreign own n c) (names_fill own ns _)

event-Fills :
    (b : IrcBridge) (e : IrcEvent) (c : Channels)
    → Fills (joins_of b.nick e) (leaves_of b.nick e) (messages_of e) c (on_event b e c)
unfolding on_event
event-Fills b welcomed c = Fills-none c
event-Fills b (privmsg nick m) c = record {
  joining = Follows-none _ c.clients_joining_irc;
  leaving = Follows-none _ c.clients_leaving_irc;
  messages = Follows-offer _ _ c.messages_from_irc;
}
event-Fills b (join n) c = joins_foreign b.nick n c
event-Fills b (part n) c = leaves_foreign b.nick n c
event-Fills b (quit n) c = leaves_foreign b.nick n c
event-Fills b (names m) c = names_fill b.nick (fields m) c
event-Fills b (nick_change old new) c =
    Fills-trans c _ _ (Fills-leaving old c) (Fills-joining new (offer_leaving old c))

events_fill :
    (b : IrcBridge) (es : List IrcEvent) (c : Channels)
    → Fills
        (all_of (joins_of b.nick) es)
        (all_of (leaves_of b.nick) es)
        (all_of messages_of es)
        c
        (on_events b es c)
events_fill b [] c = Fills-none c
events_fill b (e ∷ es) c = Fills-trans c _ _ (event-Fills b e c) (events_fill b es _)

-- After any events, each of the three channels that the bridge fills holds what it held and then, in the
-- order of the events, the nicks that joined, the nicks that left, or the messages, up to its capacity of
-- 50, and the rest is dropped. The own nick is passed over when it joins, leaves or is in a list of names,
-- but not in a change of nicks, whose old name always leaves and whose new name always joins.
pub on_events_result :
    (b : IrcBridge) (es : List IrcEvent) (c : Channels)
    → length c.clients_joining_irc ≤ queue_size
    → length c.clients_leaving_irc ≤ queue_size
    → length c.messages_from_irc ≤ queue_size
    → let c' = on_events b es c in
      (c'.clients_joining_irc
        ≡ take queue_size (c.clients_joining_irc ++ all_of (joins_of b.nick) es))
      × (c'.clients_leaving_irc
          ≡ take queue_size (c.clients_leaving_irc ++ all_of (leaves_of b.nick) es))
      × (c'.messages_from_irc ≡ take queue_size (c.messages_from_irc ++ all_of messages_of es))
on_events_result b es c j l m =
    let k = events_fill b es c in
    ((k.joining j).filled, (k.leaving l).filled, (k.messages m).filled)
