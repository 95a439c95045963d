-- ===== src/IrcBridge/Lobby.antt =====
-- wlms/ircbridge.go and server.go: the goroutine of the metaserver that empties the channels of the bridge.
use widelands_metaserver.Base.{
  ℕ, ◌<◌, Bool, true, false, none, some, List, [], ◌∷◌, ◌++◌, ==_refl, Bytes, bytes_eq_refl, ◌≡◌,
  refl, ap, ◌∙◌, arith, All, not, ◌&&◌, if_cases,
}
use widelands_metaserver.Metaserver.World.{is_irc, Client, Server, put_client}
use widelands_metaserver.Metaserver.Clients.{
  broadcast_to_connected_clients, clients_update, add_client, contains, remove_first, remove_client,
  find_named, has_irc_client,
}
use widelands_metaserver.Metaserver.Clients.Frame.{broadcast-Keeps}
use widelands_metaserver.Metaserver.Clients.Names.{find_named-Keeps}
use widelands_metaserver.Metaserver.Dispatch.{new_irc_client, allocate}
use widelands_metaserver.Metaserver.Run.{irc_message, irc_join, irc_leave}
use widelands_metaserver.IrcBridge.{Channels}

-- Which channel the select of the goroutine takes from, when several are ready.
pub data Ready : Type 0 where
  message_ready join_ready leave_ready : Ready

unfoldable pub take_message : Channels → Server → Channels × Server
take_message c s = elim c.messages_from_irc [
  | [] ↦ (c, s)
  | m ∷ ms ↦ (record c { messages_from_irc = ms }, irc_message m.nick m.message s)
]

unfoldable pub take_joining : Channels → Server → Channels × Server
take_joining c s = elim c.clients_joining_irc [
  | [] ↦ (c, s)
  | n ∷ ns ↦ (record c { clients_joining_irc = ns }, irc_join n s)
]

unfoldable pub take_leaving : Channels → Server → Channels × Server
take_leaving c s = elim c.clients_leaving_irc [
  | [] ↦ (c, s)
  | n ∷ ns ↦ (record c { clients_leaving_irc = ns }, irc_leave n s)
]

-- One round of the goroutine.
unfoldable pub take_ready : Ready → Channels × Server → Channels × Server
take_ready message_ready (c, s) = take_message c s
take_ready join_ready (c, s) = take_joining c s
take_ready leave_ready (c, s) = take_leaving c s

-- The listed clients have been allocated.
abbrev pub Allocated : Server → Type 0
Allocated s = All (λ p. p < s.next_client) s.clients

not_listed : (p : ℕ) (ps : List ℕ) → All (λ q. q < p) ps → contains p ps ≡ false
unfolding contains
not_listed p [] h = refl
not_listed p (q ∷ qs) h =
    let rest = not_listed p qs h.1 in let below = h.0 in ground (arith, rest, below)

find_named-other :
    (p : ℕ) (c : Client) (s : Server) (b : Bool) (n : Bytes) (ps : List ℕ)
    → contains p ps ≡ false
    → find_named (put_client p c s).client_at b n ps ≡ find_named s.client_at b n ps
unfolding find_named contains put_client
find_named-other p c s b n [] h = refl
find_named-other p c s b n (q ∷ qs) h = ground (arith, find_named-other p c s b n qs)

remove_first-last :
    (p : ℕ) (ps : List ℕ) → contains p ps ≡ false → remove_first p (ps ++ (p ∷ [])) ≡ ps
unfolding contains remove_first
remove_first-last p [] h = rw (==_refl p) refl
remove_first-last p (q ∷ qs) h = ground (arith, remove_first-last p qs)

find_named-last :
    (at : ℕ → Client) (b : Bool) (n : Bytes) (ps : List ℕ) (p : ℕ)
    → find_named at b n ps ≡ none
    → find_named at b n (p ∷ []) ≡ some p
    → find_named at b n (ps ++ (p ∷ [])) ≡ some p
unfolding find_named
find_named-last at b n [] p h k = k
find_named-last at b n (q ∷ qs) p h k = ground (arith, find_named-last at b n qs p)

-- The state after a newcomer from IRC is listed, before the broadcast.
listed : Bytes → Server → Server
listed n s = add_client s.next_client (allocate (new_irc_client n) s)

listed_clients : (n : Bytes) (s : Server) → (listed n s).clients ≡ s.clients ++ (s.next_client ∷ [])
unfolding listed add_client allocate put_client new_irc_client
listed_clients n s = rw (==_refl s.next_client) refl

listed_at :
    (n : Bytes) (s : Server)
    → (listed n s).client_at ≡ (put_client s.next_client (new_irc_client n) s).client_at
unfolding listed add_client allocate put_client new_irc_client
listed_at n s = rw (==_refl s.next_client) refl

-- A search of the lobby after the broadcast of an update.
after_update :
    (n : Bytes) (s : Server)
    → has_irc_client n (broadcast_to_connected_clients clients_update s) ≡ has_irc_client n s
unfolding has_irc_client
after_update n s =
    let k = broadcast-Keeps clients_update s in
    rw k.clients (find_named-Keeps {s = s} k true n s.clients)

join_absent :
    (n : Bytes) (s : Server)
    → has_irc_client n s ≡ none
    → irc_join n s ≡ broadcast_to_connected_clients clients_update (listed n s)
unfolding irc_join listed
join_absent n s e = rw e refl

finds_itself :
    (p : ℕ) (n : Bytes) (s : Server)
    → find_named (put_client p (new_irc_client n) s).client_at true n (p ∷ []) ≡ some p
unfolding find_named put_client new_irc_client
finds_itself p n s = rw (==_refl p, bytes_eq_refl n) refl

joined :
    (n : Bytes) (s : Server)
    → has_irc_client n s ≡ none
    → Allocated s
    → has_irc_client n (irc_join n s) ≡ some s.next_client
unfolding has_irc_client
joined n s absent below =
    let p = s.next_client in
    let off = not_listed p s.clients below in
    let at = (put_client p (new_irc_client n) s).client_at in
    let itself : find_named at true n (p ∷ []) ≡ some p = finds_itself p n s in
    let found =
      find_named-last at true n s.clients p
        (find_named-other p (new_irc_client n) s true n s.clients off ∙ absent) itself in
    ap (has_irc_client n) (join_absent n s absent)
    ∙ after_update n (listed n s)
    ∙ rw (listed_clients n s, listed_at n s) found

remove_client_lists :
    (p : ℕ) (s : Server)
    → ((remove_client p s).clients ≡ remove_first p s.clients)
      × ((remove_client p s).client_at ≡ s.client_at)
unfolding remove_client
remove_client_lists p s =
    if_cases (λ (t : Server). (t.clients ≡ remove_first p s.clients) × (t.client_at ≡ s.client_at))
      (contains p s.clients && not (is_irc (s.client_at p).permissions)) (λ _. (refl, refl))
      (λ _. (refl, refl))

left_of :
    (n : Bytes) (p : ℕ) (s : Server)
    → has_irc_client n s ≡ some p
    → has_irc_client n (irc_leave n s) ≡ find_named s.client_at true n (remove_first p s.clients)
unfolding irc_leave
left_of n p s e =
    let (fewer, same) = remove_client_lists p s in
    rw (irc_leave, e)
      (after_update n (remove_client p s) ∙ unfold has_irc_client in rw (fewer, same) refl)

left :
    (n : Bytes) (s : Server)
    → has_irc_client n s ≡ none
    → Allocated s
    → has_irc_client n (irc_leave n (irc_join n s)) ≡ none
unfolding has_irc_client
left n s absent below =
    let p = s.next_client in
    let off = not_listed p s.clients below in
    let t = listed n s in
    let k = broadcast-Keeps clients_update t in
    let u = irc_join n s in
    let same : u ≡ broadcast_to_connected_clients clients_update t = join_absent n s absent in
    let shorter : remove_first p u.clients ≡ s.clients =
      ap (λ (v : Server). remove_first p v.clients) same
      ∙ ap (remove_first p) (k.clients ∙ listed_clients n s)
      ∙ remove_first-last p s.clients off in
    left_of n p u (joined n s absent below)
    ∙ ap (find_named u.client_at true n) shorter
    ∙ ap (λ (v : Server). find_named v.client_at true n s.clients) same
    ∙ find_named-Keeps {s = t} k true n s.clients
    ∙ ap (λ at. find_named at true n s.clients) (listed_at n s)
    ∙ find_named-other p (new_irc_client n) s true n s.clients off
    ∙ absent

takes_join :
    (n : Bytes) (ns : List Bytes) (c : Channels) (s : Server)
    → c.clients_joining_irc ≡ n ∷ ns
    → take_ready join_ready (c, s) ≡ (record c { clients_joining_irc = ns }, irc_join n s)
unfolding take_ready take_joining
takes_join n ns c s e = rw (take_joining, e) refl

takes_leave :
    (n : Bytes) (ns : List Bytes) (c : Channels) (s : Server)
    → c.clients_leaving_irc ≡ n ∷ ns
    → take_ready leave_ready (c, s) ≡ (record c { clients_leaving_irc = ns }, irc_leave n s)
unfolding take_ready take_leaving
takes_leave n ns c s e = rw (take_leaving, e) refl

leave_absent : (n : Bytes) (s : Server) → has_irc_client n s ≡ none → irc_leave n s ≡ s
unfolding irc_leave
leave_absent n s e = rw (irc_leave, e) refl

-- A user who joins the IRC channel and leaves it is in both channels of the bridge. If the goroutine of
-- the metaserver takes the nick from the channel of the joining first, the user is not listed afterwards,
-- as it should be; if it takes the one from the channel of the leaving first, which the select may do, the
-- user, who has left, is listed afterwards.
pub order_of_channels_matters :
    (n : Bytes) (ns ms : List Bytes) (c : Channels) (s : Server)
    → c.clients_joining_irc ≡ n ∷ ns
    → c.clients_leaving_irc ≡ n ∷ ms
    → has_irc_client n s ≡ none
    → Allocated s
    → (has_irc_client n (take_ready leave_ready (take_ready join_ready (c, s))).1 ≡ none)
      × (has_irc_client n (take_ready join_ready (take_ready leave_ready (c, s))).1
          ≡ some s.next_client)
order_of_channels_matters n ns ms c s joins leaves absent below = (
  ap (λ r. has_irc_client n (take_ready leave_ready r).1) (takes_join n ns c s joins)
      ∙ ap (λ r. has_irc_client n r.1) (takes_leave n ms _ (irc_join n s) leaves)
      ∙ left n s absent below,
  ap (λ r. has_irc_client n (take_ready join_ready r).1) (takes_leave n ms c s leaves)
      ∙ ap (λ r. has_irc_client n r.1) (takes_join n ns _ (irc_leave n s) joins)
      ∙ ap (λ t. has_irc_client n (irc_join n t)) (leave_absent n s absent)
      ∙ joined n s absent below,
)
