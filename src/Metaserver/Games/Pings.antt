-- ===== src/Metaserver/Games/Pings.antt =====
-- wlms/game.go: what the pings of a self-hosted game make of its state.
use widelands_metaserver.Base.{
  ℕ, Bool, true, false, not, ◌&&◌, none, some, ◌≡◌, refl, ap, ◌∙◌, sym, Bool-cases, inl, inr,
  ==_refl, is_some, bytes_eq, Bytes,
}
use widelands_metaserver.Packet.{encodable}
use widelands_metaserver.Metaserver.World.{
  GameState, initial_setup, not_connectable, connectable, running, Game, Server, put_game,
}
use widelands_metaserver.Metaserver.Clients.{
  broadcast_to_connected_clients, games_update, contains, has_client,
}
use widelands_metaserver.Metaserver.Clients.Broadcast.{broadcast_eq}
use widelands_metaserver.Metaserver.Games.{
  pointer_eq, game_state_eq, set_game_state, remove_game, remove_player, get_player,
  drop_unconnectable, ping_succeeded, ping_failed, do_ping,
}

broadcast_games : (s : Server) → (broadcast_to_connected_clients games_update s).game_at ≡ s.game_at
unfolding encodable
broadcast_games s = rw (broadcast_eq games_update s refl) refl

put_game_self : (g : ℕ) (v : Game) (s : Server) → (put_game g v s).game_at g ≡ v
unfolding put_game
put_game_self g v s = rw (==_refl g) refl

eq_of_game_state_eq : (a b : GameState) → game_state_eq a b ≡ true → a ≡ b
eq_of_game_state_eq initial_setup initial_setup h = refl
eq_of_game_state_eq not_connectable not_connectable h = refl
eq_of_game_state_eq connectable connectable h = refl
eq_of_game_state_eq running running h = refl
eq_of_game_state_eq _ _ h = cc

abbrev pub state_of : ℕ → Server → GameState
state_of g s = (s.game_at g).state

set_game_state_state :
    (g : ℕ) (st : GameState) (s : Server) → state_of g (set_game_state g st s) ≡ st
unfolding set_game_state
set_game_state_state g st s = elim (Bool-cases (game_state_eq st (s.game_at g).state)) [
  | inl e ↦ rw e (sym (eq_of_game_state_eq st (s.game_at g).state e))
  | inr e ↦ rw e (
      ap (λ f. (f g).state) (broadcast_games (put_game g (record (s.game_at g) { state = st }) s))
      ∙ ap (λ (v : Game). v.state) (put_game_self g _ s))
]

remove_game_games_at : (g : ℕ) (s : Server) → (remove_game g s).game_at ≡ s.game_at
unfolding remove_game
remove_game_games_at g s = elim (Bool-cases (contains g s.games)) [
  | inl e ↦ rw e (broadcast_games _)
  | inr e ↦ rw e refl
]

put_game_state : (g : ℕ) (v : Game) (s : Server) → state_of g (put_game g v s) ≡ v.state
put_game_state g v s = ap (λ (x : Game). x.state) (put_game_self g v s)

remove_player_state :
    (g : ℕ) (n : Bytes) (s : Server) → state_of g (remove_player g n s) ≡ state_of g s
unfolding remove_player
remove_player_state g n s =
    let touched = record (s.game_at g) { time_last_activity = s.now } in
    let t = put_game g touched s in
    elim (Bool-cases (bytes_eq n (s.game_at g).host)) [
      | inl e ↦ elim (Bool-cases (not (s.game_at g).uses_relay)) [
        | inl r ↦
            rw (e, r)
              (ap (λ f. (f g).state) (remove_game_games_at g t) ∙ put_game_state g touched s)
        | inr r ↦ rw (e, r) (put_game_state g touched s)
      ]
      | inr e ↦ elim (Bool-cases (is_some (get_player n (s.game_at g).players))) [
        | inl i ↦ rw (e, i) (put_game_state g _ t)
        | inr i ↦ rw (e, i) (put_game_state g touched s)
      ]
    ]

drop_unconnectable_state : (g : ℕ) (s : Server) → state_of g (drop_unconnectable g s) ≡ state_of g s
unfolding drop_unconnectable
drop_unconnectable_state g s =
    let hosted : Bool = elim (has_client (s.game_at g).host s) [
      | none ↦ false
      | some h ↦ pointer_eq (s.client_at h).game (some g)
    ] in
    elim (Bool-cases (not (s.game_at g).uses_relay && not hosted)) [
      | inl e ↦ rw e (remove_player_state g (s.game_at g).host s)
      | inr e ↦ rw e refl
    ]

-- What a ping makes of a state: a game that runs goes on running, any other is connectable exactly if
-- the ping was answered.
unfoldable pub after_ping : Bool → GameState → GameState
after_ping answer running = running
after_ping true _ = connectable
after_ping false _ = not_connectable

succeeded_state :
    (st : GameState) (g : ℕ) (s : Server)
    → state_of g s ≡ st
    → state_of g (ping_succeeded st g s) ≡ after_ping true st
unfolding ping_succeeded after_ping
succeeded_state initial_setup g s h = set_game_state_state g connectable s
succeeded_state not_connectable g s h = set_game_state_state g connectable s
succeeded_state connectable g s h = h
succeeded_state running g s h = h

failed_state :
    (st : GameState) (g : ℕ) (s : Server)
    → state_of g s ≡ st
    → state_of g (ping_failed st g s) ≡ after_ping false st
unfolding ping_failed after_ping
failed_state initial_setup g s h = set_game_state_state g not_connectable s
failed_state not_connectable g s h = h
failed_state connectable g s h = set_game_state_state g not_connectable s
failed_state running g s h = h

-- After a ping, a game that was running is still running, and any other game is connectable if the ping was
-- answered and not connectable if it was not, also when the game loses its host because that is gone.
pub do_ping_state :
    (g : ℕ) (answer : Bool) (s : Server)
    → state_of g (do_ping g answer s) ≡ after_ping answer (state_of g s)
unfolding do_ping
do_ping_state g true s = succeeded_state (state_of g s) g s refl
do_ping_state g false s = drop_unconnectable_state g _ ∙ failed_state (state_of g s) g s refl
