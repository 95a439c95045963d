-- ===== src/Rpc/Told.antt =====
-- wlnr/relayinterface: the metaserver hears what the relay tells it over RPC.
use widelands_metaserver.Base.{
  ℕ, suc, false, none, some, ◌≡◌, refl, ap, ◌∙◌, sym, subst, ◌⊎◌, inl, inr, Bytes, str, ◌++◌, [],
}
use widelands_metaserver.Metaserver.World.{Server}
use widelands_metaserver.Metaserver.Games
use widelands_metaserver.Rpc.{GameData, Outcome, answered, err_shutdown, Transport}
use widelands_metaserver.Rpc.ToMetaserver.{
  ServerRpc, metaserver_port, connect, call_metaserver, call_client_method, game_connected,
  game_closed,
}
use widelands_metaserver.Rpc.MetaserverMethods.{host_connected, game_ended}
use widelands_metaserver.Rpc.Reach.{Runs, Dials, Reaches}

module _ {W S : Type 0} (t : Transport W) (other : W → S) where
  told_at_once :
      (n k : ℕ) (method : Bytes) (f : GameData → S → Outcome × S) (d : GameData) (c : ServerRpc W)
      → (f d (other c.world)).0 ≡ answered false
      → Runs t other k method f c.world
      → other (call_metaserver t (suc n) k method d c).world ≡ (f d (other c.world)).1
  unfolding call_metaserver
  told_at_once n k method f d c done up =
      let (said, after) = up d in rw (call_metaserver, said ∙ done) after

  connect_found :
      (k : ℕ) (c : ServerRpc W)
      → (t.dial metaserver_port c.world).0 ≡ some k
      → connect t c
        ≡ (some k, record { client = some k; world = (t.dial metaserver_port c.world).1 })
  unfolding connect
  connect_found k c e = rw (connect, e) refl

  call_metaserver-again :
      (n k q : ℕ) (method : Bytes) (d : GameData) (c c' : ServerRpc W)
      → (t.call k method d c.world).0 ≡ err_shutdown
      → connect t (record { client = c.client; world = (t.call k method d c.world).1 })
        ≡ (some q, c')
      → call_metaserver t (suc n) k method d c ≡ call_metaserver t n q method d c'
  unfolding call_metaserver
  call_metaserver-again n k q method d c c' failed found =
      rw (call_metaserver, failed, ap (λ r. r.0) found)
        (ap (λ r. call_metaserver t n q method d r.1) found)

  told :
      (k : ℕ) (method : Bytes) (f : GameData → S → Outcome × S) (d : GameData) (c : ServerRpc W)
      → ((s : S) → (f d s).0 ≡ answered false)
      → Reaches t other metaserver_port k method f c.world
      → other (call_metaserver t 2 k method d c).world ≡ (f d (other c.world)).1
  told k method f d c done (inl up) = told_at_once 1 k method f d c (done (other c.world)) up
  told k method f d c done (inr (shut, dials)) =
      let (failed, same) = shut d in
      let (q, found, still, up) = dials d in
      let w = (t.call k method d c.world).1 in
      let c' : ServerRpc W = record { client = some q; world = (t.dial metaserver_port w).1 } in
      let again = call_metaserver-again 1 k q method d c c' failed (connect_found q _ found) in
      subst (λ r. other r.world ≡ (f d (other c.world)).1) (sym again)
        (told_at_once 0 q method f d c' (done (other c'.world)) up
          ∙ ap (λ s. (f d s).1) (still ∙ same))

  -- Where the metaserver can be called: on the connection that is kept, or, where there is none yet, on a
  -- new one.
  abbrev pub CanTell : Bytes → (GameData → S → Outcome × S) → ServerRpc W → Type 0
  CanTell method f c =
      ((k : ℕ) × (c.client ≡ some k) × Reaches t other metaserver_port k method f c.world)
      ⊎ ((c.client ≡ none) × Dials t other metaserver_port method f c.world)

  told_by_action :
      (action name : Bytes) (f : GameData → S → Outcome × S) (c : ServerRpc W)
      → ((d : GameData) (s : S) → (f d s).0 ≡ answered false)
      → CanTell (str "ClientRPCMethods." ++ action) f c
      → other (call_client_method t action name c).world
        ≡ (f (record { name = name; password = [] }) (other c.world)).1
  unfolding call_client_method
  told_by_action action name f c done (inl (k, e, reach)) =
      rw (call_client_method, e) (told k _ f _ c (done _) reach)
  told_by_action action name f c done (inr (e, (k, found, still, up))) =
      let c' : ServerRpc W = record {
        client = some k;
        world = (t.dial metaserver_port c.world).1;
      } in
      let d : GameData = record { name = name; password = [] } in
      let method = str "ClientRPCMethods." ++ action in
      let dialled = connect_found k c found in
      rw (call_client_method, e, ap (λ r. r.0) dialled)
        (subst (λ r. other (call_metaserver t 2 k method d r.1).world ≡ (f d (other c.world)).1)
          (sym dialled)
          (told_at_once 1 k method f d c' (done d (other c'.world)) up ∙ ap (λ s. (f d s).1) still))

-- If the metaserver can be called, on the connection that the relay keeps, on a new one after that was
-- shut down, or on the first one, then GameConnected and GameClosed of the relay's ServerRPC do to the
-- metaserver, exactly once, what its own GameConnected and GameClosed do.
pub metaserver_told :
    {W : Type 0} (t : Transport W) (metaserver_of : W → Server) (name : Bytes) (c : ServerRpc W)
    → CanTell t metaserver_of (str "ClientRPCMethods.GameConnected") host_connected c
    → CanTell t metaserver_of (str "ClientRPCMethods.GameClosed") game_ended c
    → let s = metaserver_of c.world in
      (metaserver_of (game_connected t name c).world ≡ Games.game_connected name s)
      × (metaserver_of (game_closed t name c).world ≡ Games.game_closed name s)
unfolding game_connected game_closed host_connected game_ended str
metaserver_told t metaserver_of name c connects closes = (
  told_by_action t metaserver_of (str "GameConnected") name host_connected c (λ _ _. refl) connects,
  told_by_action t metaserver_of (str "GameClosed") name game_ended c (λ _ _. refl) closes,
)
