-- ===== src/Relay/Games/Hanging.antt =====
-- wlnr/game.go and client.go: when the sends in the shutdown of a game return.
use widelands_metaserver.Base.{
  ℕ, suc, true, false, ◌||◌, Option, none, some, [], ◌≡◌, refl, ap, ◌∙◌, arith, Option-cases, inl,
  inr, ==_refl, length, str,
}
use widelands_metaserver.Relay.State.{Game, Server, put_game}
use widelands_metaserver.Relay.Games.{
  contains, remove_first, remove_game_object, disconnect_in_shutdown, shutdown_loop,
  disconnect_host, shutdown,
}
use widelands_metaserver.Relay.Games.Shutdown.{put_game_self, shutdown_empties}
use widelands_metaserver.Relay.Games.Telling.{
  too_many, shutdown_blocks, disconnect_hung, loop_hung, loop_hostless,
}

-- The host goes, and the game is taken off the list: no send in this hangs.
host_quiet :
    (g : ℕ) (s : Server) (h : Option ℕ)
    → (s.game_at g).host ≡ h
    → (disconnect_host g h s).hung ≡ s.hung
unfolding disconnect_host disconnect_in_shutdown put_game
host_quiet g s none e = refl
host_quiet g s (some h) e = rw (e, ==_refl h) (disconnect_hung h (str "NORMAL") s)

object_quiet : (g : ℕ) (s : Server) → (remove_game_object g s).hung ≡ s.hung
unfolding remove_game_object
object_quiet g s = ground arith

abbrev marked : ℕ → Server → Server
marked g s = put_game g (record (s.game_at g) { currently_shutting_down = true }) s

-- Only the sends of the loop can hang.
loop_decides :
    (g : ℕ) (s : Server)
    → (s.game_at g).currently_shutting_down ≡ false
    → (shutdown g s).hung ≡ (shutdown_loop (suc (length (s.game_at g).clients)) g (marked g s)).hung
unfolding shutdown
loop_decides g s running =
    let t = shutdown_loop (suc (length (s.game_at g).clients)) g (marked g s) in
    rw running (
      object_quiet g (disconnect_host g (t.game_at g).host t)
      ∙ host_quiet g t (t.game_at g).host refl)

marked_hung : (g : ℕ) (s : Server) → (marked g s).hung ≡ s.hung
unfolding put_game
marked_hung g s = refl

marked_same :
    (g : ℕ) (s : Server)
    → (((marked g s).game_at g).host ≡ (s.game_at g).host)
      × (((marked g s).game_at g).clients ≡ (s.game_at g).clients)
marked_same g s =
    let self = put_game_self g (record (s.game_at g) { currently_shutting_down = true }) s in
    (ap (λ (v : Game). v.host) self, ap (λ (v : Game). v.clients) self)

hostless_hung :
    (g : ℕ) (s : Server)
    → (s.game_at g).host ≡ none
    → (shutdown_loop (suc (length (s.game_at g).clients)) g (marked g s)).hung
      ≡ (s.hung || shutdown_blocks g s)
unfolding shutdown_blocks
hostless_hung g s e =
    (loop_hostless _ g (marked g s) ((marked_same g s).0 ∙ e)).0
    ∙ marked_hung g s
    ∙ rw (e, shutdown_blocks) (ground arith)

hosted_hung :
    (g h : ℕ) (s : Server)
    → (s.game_at g).host ≡ some h
    → contains h (s.game_at g).clients ≡ false
    → (shutdown_loop (suc (length (s.game_at g).clients)) g (marked g s)).hung
      ≡ (s.hung || shutdown_blocks g s)
unfolding shutdown_blocks put_game
hosted_hung g h s e a =
    let (host, players) = marked_same g s in
    (loop_hung (suc (length (s.game_at g).clients)) g h (marked g s) (host ∙ e) (rw players a)
      (omega (arith, ap length players))).0
    ∙ ap (λ cs. s.hung || too_many (s.client_at h).is_open (s.writer_ended h) (length cs)) players
    ∙ rw (e, shutdown_blocks) refl

-- The shutdown of a game that is not shutting down already, the host of which is not among its players,
-- hangs exactly if the connection of the host is gone and more players are listed than the goroutine that
-- writes to the host takes commands: one, or none if it has ended already.
pub shutdown_hangs_iff :
    (g : ℕ) (s : Server)
    → (s.game_at g).currently_shutting_down ≡ false
    → ((h : ℕ) → (s.game_at g).host ≡ some h → contains h (s.game_at g).clients ≡ false)
    → s.hung ≡ false
    → (shutdown g s).hung ≡ shutdown_blocks g s
shutdown_hangs_iff g s running apart free =
    loop_decides g s running
    ∙ elim (Option-cases (s.game_at g).host) [
      | inl e ↦ hostless_hung g s e
      | inr (h, e) ↦ hosted_hung g h s e (apart h e)
    ]
    ∙ ap (λ b. b || shutdown_blocks g s) free

-- The shutdown of a game that is not shutting down already ends, if the host is not among the players, and is
-- connected or has no more players than its goroutine takes commands. Then no player and no host is in the
-- game, which is marked as shutting down and taken off the list of games; the rounds of the loop that the
-- model allows, one more than there are players, are enough.
pub shutdown_ends :
    (g : ℕ) (s : Server)
    → (s.game_at g).currently_shutting_down ≡ false
    → ((h : ℕ) → (s.game_at g).host ≡ some h → contains h (s.game_at g).clients ≡ false)
    → s.hung ≡ false
    → shutdown_blocks g s ≡ false
    → ((shutdown g s).hung ≡ false)
      × (((shutdown g s).game_at g).clients ≡ [])
      × (((shutdown g s).game_at g).host ≡ none)
      × (((shutdown g s).game_at g).currently_shutting_down ≡ true)
      × ((shutdown g s).games ≡ remove_first g s.games)
shutdown_ends g s running apart free takes =
    let left = shutdown_empties g s running in
    (shutdown_hangs_iff g s running apart free ∙ takes, left.0, left.1, left.2, left.3)
