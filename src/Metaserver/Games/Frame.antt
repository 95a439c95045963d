-- ===== src/Metaserver/Games/Frame.antt =====
-- What most operations of wlms leave alone: the games.
use widelands_metaserver.Base.{
  ℕ, Bool, true, false, List, [], ◌∷◌, if◌then◌else◌, ◌≡◌, refl, ◌∙◌, Bool-cases, ltb, length,
  Bytes, not, ◌&&◌, Option-cases, inl, inr,
}
use widelands_metaserver.Packet.{Field, new}
use widelands_metaserver.Metaserver.World.{
  State, handshake, check_pwd, connected, recently_disconnected, is_connected, is_irc, Client,
  Server, put_client, crash,
}
use widelands_metaserver.Metaserver.Clients.{
  send_packet, broadcast_loop, broadcast_to_connected_clients, assign_state, set_state, disconnect,
  contains, remove_client, broadcast_to_irc, broadcast_to_irc_from_user,
}

pub record SameGames (s t : Server) : Type 0 where
  pub games : t.games ≡ s.games
  pub game_at : t.game_at ≡ s.game_at
  pub next_game : t.next_game ≡ s.next_game

-- A state has the same games as itself.
pub SameGames-refl : (s : Server) → SameGames s s
SameGames-refl s = record { games = refl; game_at = refl; next_game = refl }

pub SameGames-trans : {s t u : Server} → SameGames s t → SameGames t u → SameGames s u
SameGames-trans h k = record {
  games = k.games ∙ h.games;
  game_at = k.game_at ∙ h.game_at;
  next_game = k.next_game ∙ h.next_game;
}

pub SameGames-if :
    (b : Bool) {s t u : Server} → SameGames s t → SameGames s u → SameGames s (if b then t else u)
SameGames-if true h k = h
SameGames-if false h k = k

pub send_packet-SameGames : (p : ℕ) (d : List Field) (s : Server) → SameGames s (send_packet p d s)
unfolding send_packet crash
send_packet-SameGames p d s = elim (Option-cases (s.client_at p).conn) [
  | inl e ↦ rw (e, send_packet) (SameGames-refl s)
  | inr (a, e) ↦ elim (Option-cases (new d)) [
    | inl f ↦ rw (e, f, send_packet) (record { games = refl; game_at = refl; next_game = refl })
    | inr (b, f) ↦
        rw (e, f, send_packet) (record { games = refl; game_at = refl; next_game = refl })
  ]
]

broadcast_loop-SameGames :
    (ps : List ℕ) (d : List Field) (s : Server) → SameGames s (broadcast_loop ps d s)
unfolding broadcast_loop
broadcast_loop-SameGames [] d s = SameGames-refl s
broadcast_loop-SameGames (p ∷ ps) d s =
    SameGames-trans
      (SameGames-if (is_connected (s.client_at p).state) (send_packet-SameGames p d s)
        (SameGames-refl s))
      (broadcast_loop-SameGames ps d _)

pub broadcast-SameGames :
    (d : List Field) (s : Server) → SameGames s (broadcast_to_connected_clients d s)
unfolding broadcast_to_connected_clients
broadcast-SameGames d s = broadcast_loop-SameGames s.clients d s

pub put_client-SameGames : (p : ℕ) (c : Client) (s : Server) → SameGames s (put_client p c s)
unfolding put_client
put_client-SameGames p c s = record { games = refl; game_at = refl; next_game = refl }

assign_state-SameGames : (p : ℕ) (st : State) (s : Server) → SameGames s (assign_state p st s)
unfolding assign_state
assign_state-SameGames p st s =
    SameGames-if _ (SameGames-trans (put_client-SameGames p _ s) (broadcast-SameGames _ _))
      (put_client-SameGames p _ s)

pub set_state-SameGames : (p : ℕ) (st : State) (s : Server) → SameGames s (set_state p st s)
unfolding set_state crash
set_state-SameGames p check_pwd s = record { games = refl; game_at = refl; next_game = refl }
set_state-SameGames p handshake s = assign_state-SameGames p _ s
set_state-SameGames p connected s = assign_state-SameGames p _ s
set_state-SameGames p recently_disconnected s = assign_state-SameGames p _ s

pub disconnect-SameGames : (p : ℕ) (s : Server) → SameGames s (disconnect p s)
unfolding disconnect crash
disconnect-SameGames p s = elim (Option-cases (s.client_at p).conn) [
  | inl e ↦ rw (e, disconnect) (record { games = refl; game_at = refl; next_game = refl })
  | inr (a, e) ↦
      rw (e, disconnect)
        (SameGames-trans (record { games = refl; game_at = refl; next_game = refl })
          (set_state-SameGames p recently_disconnected _))
]

pub remove_client-SameGames : (p : ℕ) (s : Server) → SameGames s (remove_client p s)
unfolding remove_client
remove_client-SameGames p s =
    elim (Bool-cases (contains p s.clients && not (is_irc (s.client_at p).permissions))) [
      | inl e ↦ rw e (record { games = refl; game_at = refl; next_game = refl })
      | inr e ↦ rw e (record { games = refl; game_at = refl; next_game = refl })
    ]

pub broadcast_to_irc-SameGames : (m : Bytes) (s : Server) → SameGames s (broadcast_to_irc m s)
unfolding broadcast_to_irc broadcast_to_irc_from_user
broadcast_to_irc-SameGames m s = elim (Bool-cases (ltb (length s.messages_to_irc) 5)) [
  | inl e ↦ rw e (record { games = refl; game_at = refl; next_game = refl })
  | inr e ↦ rw e (SameGames-refl s)
]
