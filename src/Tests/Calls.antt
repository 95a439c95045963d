-- ===== src/Tests/Calls.antt =====
-- RPC over a toy network, on which connection number 1 is up and all others are shut down.
use widelands_metaserver.Base.{
  find_key, List, ℕ, suc, ◌≤◌, none, some, [], ◌∷◌, ◌==◌, if◌then◌else◌, refl, ◌≡◌, arith, inr,
  Bytes, str, bytes_eq,
}
use widelands_metaserver.Relay.State
use widelands_metaserver.Relay.Games as RelayGames
use widelands_metaserver.Metaserver.World
use widelands_metaserver.Metaserver.Games as MetaserverGames
use widelands_metaserver.Rpc.{GameData, Outcome, err_shutdown, Transport}
use widelands_metaserver.Rpc.ToRelay
use widelands_metaserver.Rpc.ToMetaserver
use widelands_metaserver.Rpc.RelayMethods.{new_game, close_game}
use widelands_metaserver.Rpc.MetaserverMethods.{host_connected, game_ended}
use widelands_metaserver.Rpc.Served.{relay_served}
use widelands_metaserver.Rpc.Told.{metaserver_told}
use widelands_metaserver.Rpc.Hosting.{
  told_view, tell_all, all_events_told, created_game_needs_password,
}
use widelands_metaserver.Relay.State.{Event, sent, game_connected, game_closed}
use widelands_metaserver.Relay.Messages.{join_game}
use widelands_metaserver.Rpc.Bounds.{called_at_most_twice}
use widelands_metaserver.Tests.Relayed.{relay}
use widelands_metaserver.Tests.Lobby.{lobby}

-- The world is the other program: one method for a name, another for all else.
abbrev wire :
    {S : Type 0} → Bytes → (GameData → S → Outcome × S) → (GameData → S → Outcome × S) → Transport S
wire method f g = record {
  dial = λ port s. (some 1, s);
  call =
      λ k m d s. if k == 1 then (if bytes_eq m method then f d s else g d s) else (err_shutdown, s);
}

abbrev relay_wire : Transport State.Server
relay_wire = wire (str "ServerRPCMethods.NewGame") new_game close_game

abbrev metaserver_wire : Transport World.Server
metaserver_wire = wire (str "ClientRPCMethods.GameConnected") host_connected game_ended

-- The metaserver's connection to the relay was shut down.
abbrev stale : ToRelay.ClientRpc State.Server
stale = record { relay = 0; world = relay }

abbrev new_name : Bytes
new_name = b'n' ∷ []

relay_served_example :
    let created = ToRelay.create_game relay_wire new_name [] stale in
    let removed = ToRelay.remove_game relay_wire new_name stale in
    (created.0 ≡ (RelayGames.create_game new_name [] relay).0)
    × (created.1.world ≡ (RelayGames.create_game new_name [] relay).1)
    × (removed.0 ≡ (RelayGames.remove_game new_name relay).0)
    × (removed.1.world ≡ (RelayGames.remove_game new_name relay).1)
unfolding bytes_eq str
relay_served_example =
    relay_served relay_wire (λ s. s) new_name [] stale
      (inr ((λ d. (refl, refl)), (λ d. (1, refl, refl, λ e. (refl, refl)))))
      (inr ((λ d. (refl, refl)), (λ d. (1, refl, refl, λ e. (refl, refl)))))

-- The relay has not called the metaserver before.
abbrev unconnected : ToMetaserver.ServerRpc World.Server
unconnected = record { client = none; world = lobby }

metaserver_told_example :
    ((ToMetaserver.game_connected metaserver_wire new_name unconnected).world
      ≡ MetaserverGames.game_connected new_name lobby)
    × ((ToMetaserver.game_closed metaserver_wire new_name unconnected).world
        ≡ MetaserverGames.game_closed new_name lobby)
unfolding bytes_eq str
metaserver_told_example =
    metaserver_told metaserver_wire (λ s. s) new_name unconnected
      (inr (refl, (1, refl, refl, λ e. (refl, refl))))
      (inr (refl, (1, refl, refl, λ e. (refl, refl))))

-- A network on which every call fails, and which counts them.
abbrev dead_wire : Transport ℕ
dead_wire = record { dial = λ port n. (some 0, n); call = λ k m d n. (err_shutdown, suc n) }

called_at_most_twice_example :
    ((ToRelay.create_game dead_wire new_name [] (record { relay = 0; world = 5 })).1.world ≤ 7)
    × ((ToRelay.remove_game dead_wire new_name (record { relay = 0; world = 5 })).1.world ≤ 7)
    × ((ToMetaserver.game_connected dead_wire new_name (record { client = none; world = 5 })).world
        ≤ 7)
    × ((ToMetaserver.game_closed dead_wire new_name (record { client = none; world = 5 })).world
        ≤ 7)
called_at_most_twice_example =
    called_at_most_twice dead_wire (λ n. n) new_name [] (record { relay = 0; world = 5 })
      (record { client = none; world = 5 })
      (record { dial = λ port n. omega arith; call = λ k m d n. omega arith })

-- A network on which every connection is up.
abbrev live_wire : Transport World.Server
live_wire = record {
  dial = λ port s. (some 1, s);
  call = λ k m d s.
      if bytes_eq m (str "ClientRPCMethods.GameConnected")
      then host_connected d s
      else game_ended d s;
}

abbrev news : List Event
news = game_closed new_name ∷ sent 0 [] ∷ game_connected new_name ∷ []

all_events_told_example :
    (tell_all live_wire news unconnected).world ≡ told_view news unconnected.world
unfolding bytes_eq str
all_events_told_example =
    all_events_told live_wire (λ s. s) news unconnected
      (record {
        dials = λ w. (1, refl, refl);
        connects = λ k w d. (refl, refl);
        closes = λ k w d. (refl, refl);
      })

abbrev secret : Bytes
secret = b's' ∷ []

created_game_needs_password_example :
    let u = join_game 3 1 new_name secret (RelayGames.create_game new_name secret relay).1 in
    ((u.game_at relay.next_game).host ≡ (if bytes_eq secret secret then some 3 else none))
    × (told_view u.events lobby ≡ (
        if bytes_eq secret secret
        then MetaserverGames.game_connected new_name (told_view relay.events lobby)
        else told_view relay.events lobby))
unfolding find_key RelayGames.find_game bytes_eq
created_game_needs_password_example =
    created_game_needs_password new_name secret secret 1 3 relay lobby
      (record { distinct = (refl, tt); fresh = (omega arith, tt) }) refl
