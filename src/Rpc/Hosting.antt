-- ===== src/Rpc/Hosting.antt =====
-- wlnr/server.go with relayinterface: what the relay does to its games, as the metaserver hears of it.
use widelands_metaserver.Base.{
  ℕ, none, some, List, [], ◌∷◌, ◌++◌, ==_refl, ◌≡◌, refl, sym, ap, ◌∙◌, Bool-cases, Option-cases,
  inl, inr, if◌then◌else◌, find_key, find_key-last, find_key-same, Bytes, str, bytes_eq,
}
use widelands_metaserver.Relay.State.{
  Event, sent, closed, game_connected, game_closed, Server, put_client, put_game, send_command,
  disconnect,
}
use widelands_metaserver.Relay.Games.{
  new_game, find_game, create_game, send_welcome, add_host, add_client,
}
use widelands_metaserver.Relay.Messages.{join_game}
use widelands_metaserver.Relay.Games.Shutdown.{disconnect_games}
use widelands_metaserver.Relay.Games.Names.{names, GamesFine, find_game_eq, other_games}
use widelands_metaserver.Metaserver.World
use widelands_metaserver.Metaserver.Games
use widelands_metaserver.Rpc.{GameData, Outcome, Transport}
use widelands_metaserver.Rpc.ToMetaserver
use widelands_metaserver.Rpc.MetaserverMethods.{host_connected, game_ended}
use widelands_metaserver.Rpc.Reach.{Runs}
use widelands_metaserver.Rpc.Told.{CanTell, metaserver_told}

-- What the metaserver makes of the events of the relay, the newest of which stands first.
unfoldable pub told_view : List Event → World.Server → World.Server
told_view [] s = s
told_view (game_connected n ∷ es) s = Games.game_connected n (told_view es s)
told_view (game_closed n ∷ es) s = Games.game_closed n (told_view es s)
told_view (sent c cmd ∷ es) s = told_view es s
told_view (closed c ∷ es) s = told_view es s

module _ {W : Type 0} (t : Transport W) where
  -- Server.GameConnected and the calls of GameClosed: each is a call of the metaserver.
  unfoldable pub tell : Event → ToMetaserver.ServerRpc W → ToMetaserver.ServerRpc W
  tell (game_connected n) c = ToMetaserver.game_connected t n c
  tell (game_closed n) c = ToMetaserver.game_closed t n c
  tell (sent d cmd) c = c
  tell (closed d) c = c

  unfoldable pub tell_all : List Event → ToMetaserver.ServerRpc W → ToMetaserver.ServerRpc W
  unfolding tell
  tell_all [] c = c
  tell_all (e ∷ es) c = tell e (tell_all es c)

-- A network on which dialling always works and connections stay up.
pub record Steady {W : Type 0} (t : Transport W) (metaserver_of : W → World.Server) : Type 0 where
  pub dials :
      (w : W)
      → (k : ℕ) × ((t.dial ToMetaserver.metaserver_port w).0 ≡ some k)
        × (metaserver_of (t.dial ToMetaserver.metaserver_port w).1 ≡ metaserver_of w)
  pub connects :
      (k : ℕ) (w : W)
      → Runs t metaserver_of k (str "ClientRPCMethods.GameConnected") host_connected w
  pub closes :
      (k : ℕ) (w : W) → Runs t metaserver_of k (str "ClientRPCMethods.GameClosed") game_ended w

module _ {W : Type 0} (t : Transport W) (metaserver_of : W → World.Server) where
  can_tell :
      (method : Bytes) (f : GameData → World.Server → Outcome × World.Server)
      (c : ToMetaserver.ServerRpc W)
      → Steady t metaserver_of
      → ((k : ℕ) (w : W) → Runs t metaserver_of k method f w)
      → CanTell t metaserver_of method f c
  can_tell method f c steady up = elim (Option-cases c.client) [
    | inr (k, e) ↦ inl (k, e, inl (up k c.world))
    | inl e ↦ let (k, found, same) = steady.dials c.world in inr (e, (k, found, same, up k _))
  ]

-- On a network on which dialling works and connections stay up, the metaserver is, after any events of the
-- relay, in the state that GameConnected and GameClosed give in the order of these events, each once and
-- nothing else.
pub all_events_told :
    {W : Type 0} (t : Transport W) (metaserver_of : W → World.Server) (es : List Event)
    (c : ToMetaserver.ServerRpc W)
    → Steady t metaserver_of
    → metaserver_of (tell_all t es c).world ≡ told_view es (metaserver_of c.world)
unfolding tell_all tell told_view
all_events_told t metaserver_of [] c steady = refl
all_events_told t metaserver_of (game_connected n ∷ es) c steady =
    let c' = tell_all t es c in
    (metaserver_told t metaserver_of n c'
      (can_tell t metaserver_of _ host_connected c' steady steady.connects)
      (can_tell t metaserver_of _ game_ended c' steady steady.closes)).0
    ∙ ap (Games.game_connected n) (all_events_told t metaserver_of es c steady)
all_events_told t metaserver_of (game_closed n ∷ es) c steady =
    let c' = tell_all t es c in
    (metaserver_told t metaserver_of n c'
      (can_tell t metaserver_of _ host_connected c' steady steady.connects)
      (can_tell t metaserver_of _ game_ended c' steady steady.closes)).1
    ∙ ap (Games.game_closed n) (all_events_told t metaserver_of es c steady)
all_events_told t metaserver_of (sent d cmd ∷ es) c steady =
    all_events_told t metaserver_of es c steady
all_events_told t metaserver_of (closed d ∷ es) c steady =
    all_events_told t metaserver_of es c steady

-- The state after a game was created.
created_found :
    (name password : Bytes) (s : Server)
    → GamesFine s
    → find_game s.game_at name s.games ≡ none
    → let t = (create_game name password s).1 in
      (find_game t.game_at name t.games ≡ some s.next_game)
      × ((t.game_at s.next_game).host ≡ none)
      × ((t.game_at s.next_game).host_password ≡ password)
      × ((t.game_at s.next_game).game_name ≡ name)
      × (t.events ≡ s.events)
unfolding create_game new_game put_game
created_found name password s w e =
    let k = s.next_game in
    let t = (new_game name password s).1 in
    let mine : names t k ≡ name = rw (names, ==_refl k) refl in
    let free : find_key (names t) name s.games ≡ none =
      find_key-same (names s) (names t) k name s.games w.fresh (other_games name password s)
      ∙ sym (find_game_eq s.game_at name s.games)
      ∙ e in
    let found : find_game t.game_at name (s.games ++ (k ∷ [])) ≡ some k =
      find_game_eq t.game_at name (s.games ++ (k ∷ []))
      ∙ find_key-last (names t) name s.games k free mine in
    rw e (found, rw (==_refl k) refl, rw (==_refl k) refl, rw (==_refl k) refl, refl)

-- The metaserver does not hear of a disconnection.
disconnect-told_view :
    (c : ℕ) (reason : Bytes) (t : Server) (s : World.Server)
    → told_view (disconnect c reason t).events s ≡ told_view t.events s
unfolding disconnect send_command put_client told_view
disconnect-told_view c reason t s = elim (Bool-cases (t.client_at c).is_open) [
  | inl e ↦ rw e refl
  | inr e ↦ rw e refl
]

-- What a first newcomer does to a game without a host.
first_newcomer :
    (g c version : ℕ) (password : Bytes) (t : Server) (s : World.Server)
    → (t.game_at g).host ≡ none
    → let u = add_client g c version password t in
      let admitted = bytes_eq password (t.game_at g).host_password in
      ((u.game_at g).host ≡ (if admitted then some c else none))
      × (told_view u.events s ≡ (
          if admitted
          then Games.game_connected (t.game_at g).game_name (told_view t.events s)
          else told_view t.events s))
unfolding add_client add_host send_welcome send_command put_game put_client told_view
first_newcomer g c version password t s e =
    elim (Bool-cases (bytes_eq password (t.game_at g).host_password)) [
      | inl f ↦ rw (add_client, e, f) (rw (==_refl g) refl, refl)
      | inr f ↦
          rw (add_client, e, f)
            (
              ap (λ h. (h g).host) (disconnect_games c (str "NO_HOST") t).game_at ∙ e,
              disconnect-told_view c (str "NO_HOST") t s,
            )
    ]

-- The first client that asks for a newly created game becomes its host if, and only if, it gives the
-- password with which the metaserver created the game; in this case alone the metaserver hears that the
-- game is connected, and apart from that nothing that it did not hear before.
pub created_game_needs_password :
    (name password given : Bytes) (version c : ℕ) (s : Server) (m : World.Server)
    → GamesFine s
    → find_game s.game_at name s.games ≡ none
    → let u = join_game c version name given (create_game name password s).1 in
      let admitted = bytes_eq given password in
      ((u.game_at s.next_game).host ≡ (if admitted then some c else none))
      × (told_view u.events m ≡ (
          if admitted
          then Games.game_connected name (told_view s.events m)
          else told_view s.events m))
unfolding join_game
created_game_needs_password name password given version c s m w e =
    let t = (create_game name password s).1 in
    let g = s.next_game in
    let (found, no_host, its_password, its_name, same_events) = created_found name password s w e in
    let r = first_newcomer g c version given t m no_host in
    rw (found, join_game)
      (
        r.0 ∙ ap (λ p. if bytes_eq given p then some c else none) its_password,
        r.1
            ∙ ap
                (λ p.
                  if bytes_eq given p
                  then Games.game_connected (t.game_at g).game_name (told_view t.events m)
                  else told_view t.events m)
                its_password
            ∙ ap
                (λ n.
                  if bytes_eq given password
                  then Games.game_connected n (told_view t.events m)
                  else told_view t.events m)
                its_name
            ∙ ap
                (λ es.
                  if bytes_eq given password
                  then Games.game_connected name (told_view es m)
                  else told_view es m)
                same_events,
      )
