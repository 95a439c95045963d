-- ===== src/Relay/Games/Telling.antt =====
-- wlnr/game.go and client.go: what the host is sent while the players of its game are disconnected.
use widelands_metaserver.Base.{
  ℕ, zero, suc, ◌≤◌, Bool, false, not, ◌&&◌, ◌||◌, none, some, List, ◌∷◌, ◌==◌, if◌then◌else◌, ◌≡◌,
  refl, ap, ◌∙◌, arith, List-cases, inl, inr, ==_refl, ltb, length, Bytes, str,
}
use widelands_metaserver.Relay.State.{Game, Server, put_client, put_game, send_command, disconnect}
use widelands_metaserver.Relay.Games.{
  contains, tell_host, drop_client, disconnect_in_shutdown, shutdown_loop,
}
use widelands_metaserver.Relay.Games.Shutdown.{without_first, round}

-- More commands than the goroutine that writes takes, once the connection is gone: one, or none.
unfoldable pub too_many : Bool → Bool → ℕ → Bool
too_many is_open writer_ended n = not is_open && ltb (if writer_ended then 0 else 1) n

-- The host is cut off, and is to be told of more players than its goroutine takes.
unfoldable pub shutdown_blocks : ℕ → Server → Bool
unfolding too_many
shutdown_blocks g s = elim (s.game_at g).host [
  | none ↦ false
  | some h ↦ too_many (s.client_at h).is_open (s.writer_ended h) (length (s.game_at g).clients)
]

pub disconnect_hung : (c : ℕ) (reason : Bytes) (s : Server) → (disconnect c reason s).hung ≡ s.hung
unfolding disconnect send_command put_client
disconnect_hung c reason s = ground arith

disconnect_writer :
    (c q : ℕ) (reason : Bytes) (s : Server)
    → (disconnect c reason s).writer_ended q ≡ s.writer_ended q
unfolding disconnect send_command put_client
disconnect_writer c q reason s = ground arith

pub disconnect_open :
    (c q : ℕ) (reason : Bytes) (s : Server)
    → (q == c) ≡ false
    → ((disconnect c reason s).client_at q).is_open ≡ (s.client_at q).is_open
unfolding disconnect send_command put_client
disconnect_open c q reason s ne = ground arith

-- One player goes, and the host is told.
record Told (h : ℕ) (s t : Server) : Type 0 where
  hung : t.hung ≡ (s.hung || (not (s.client_at h).is_open && s.writer_ended h))
  is_open : (t.client_at h).is_open ≡ (s.client_at h).is_open
  ended : t.writer_ended h ≡ (s.writer_ended h || not (s.client_at h).is_open)

sent_Told : (h c : ℕ) (cmd : Bytes) (s : Server) → Told h s (send_command h cmd s)
unfolding send_command
sent_Told h c cmd s = record { hung = refl; is_open = refl; ended = rw (==_refl h) (ground arith) }

drop_Told :
    (g h c : ℕ) (cs : List ℕ) (reason : Bytes) (s : Server)
    → (s.game_at g).host ≡ some h
    → (s.game_at g).clients ≡ c ∷ cs
    → (h == c) ≡ false
    → Told h s (disconnect_in_shutdown g c reason s)
unfolding disconnect_in_shutdown drop_client put_game tell_host contains
drop_Told g h c cs reason s e k ne =
    let t = tell_host (some h) (s.client_at c).id s in
    let told : Told h s t = sent_Told h c _ s in
    rw (e, ne, k, ==_refl c)
      (record {
        hung = disconnect_hung c reason t ∙ told.hung;
        is_open = disconnect_open c h reason t ne ∙ told.is_open;
        ended = disconnect_writer c h reason t ∙ told.ended;
      })

too_many_step :
    (was up ended : Bool) (n : ℕ)
    → ((was || (not up && ended)) || too_many up (ended || not up) n)
      ≡ (was || too_many up ended (suc n))
unfolding too_many
too_many_step was up ended n = ground arith

pub not_first : (h c : ℕ) (cs : List ℕ) → contains h (c ∷ cs) ≡ false → (h == c) ≡ false
unfolding contains
not_first h c cs a = ground arith

pub not_later : (h c : ℕ) (cs : List ℕ) → contains h (c ∷ cs) ≡ false → contains h cs ≡ false
unfolding contains
not_later h c cs a = ground arith

none_left : (was up ended : Bool) → was ≡ (was || too_many up ended 0)
unfolding too_many
none_left was up ended = ground arith

pub drop_quiet :
    (g c : ℕ) (cs : List ℕ) (reason : Bytes) (s : Server)
    → (s.game_at g).host ≡ none
    → (s.game_at g).clients ≡ c ∷ cs
    → (disconnect_in_shutdown g c reason s).hung ≡ s.hung
unfolding disconnect_in_shutdown drop_client put_game tell_host contains
drop_quiet g c cs reason s e k = rw (e, k, ==_refl c) (disconnect_hung c reason s)

pub loop_hung :
    (f g h : ℕ) (s : Server)
    → (s.game_at g).host ≡ some h
    → contains h (s.game_at g).clients ≡ false
    → length (s.game_at g).clients ≤ f
    → ((shutdown_loop f g s).hung ≡ (
        s.hung
        || too_many (s.client_at h).is_open (s.writer_ended h) (length (s.game_at g).clients)))
      × (((shutdown_loop f g s).game_at g).host ≡ some h)
unfolding shutdown_loop
loop_hung zero g h s e a le = elim (List-cases (s.game_at g).clients) [
  | inl k ↦ rw k (none_left s.hung (s.client_at h).is_open (s.writer_ended h), e)
  | inr (c, cs, k) ↦ absurd (omega (arith, ap length k))
]
loop_hung (suc f) g h s e a le = elim (List-cases (s.game_at g).clients) [
  | inl k ↦ rw (k, shutdown_loop) (none_left s.hung (s.client_at h).is_open (s.writer_ended h), e)
  | inr (c, cs, k) ↦
      let t = disconnect_in_shutdown g c (str "NORMAL") s in
      let apart : contains h (c ∷ cs) ≡ false = rw k at a in
      let ne = not_first h c cs apart in
      let told = drop_Told g h c cs (str "NORMAL") s e k ne in
      let here : (t.game_at g) ≡ record (s.game_at g) { clients = cs } =
        (round g c cs (str "NORMAL") s k).0 ∙ rw (without_first, e, ne) refl in
      let cs_left = ap (λ (v : Game). v.clients) here in
      let next =
        loop_hung f g h t (ap (λ (v : Game). v.host) here ∙ e) (rw cs_left (not_later h c cs apart))
          (omega (arith, ap length k, ap length cs_left)) in
      rw (k, shutdown_loop)
        (
          next.0
              ∙ rw (cs_left, told.hung, told.is_open, told.ended)
                  (too_many_step s.hung (s.client_at h).is_open (s.writer_ended h) (length cs)),
          next.1,
        )
]

-- Without a host nobody is told.
pub loop_hostless :
    (f g : ℕ) (s : Server)
    → (s.game_at g).host ≡ none
    → ((shutdown_loop f g s).hung ≡ s.hung) × (((shutdown_loop f g s).game_at g).host ≡ none)
unfolding shutdown_loop
loop_hostless zero g s e = (refl, e)
loop_hostless (suc f) g s e = elim (List-cases (s.game_at g).clients) [
  | inl k ↦ rw (k, shutdown_loop) (refl, e)
  | inr (c, cs, k) ↦
      let t = disconnect_in_shutdown g c (str "NORMAL") s in
      let quiet : t.hung ≡ s.hung = drop_quiet g c cs (str "NORMAL") s e k in
      let here : (t.game_at g).host ≡ none =
        ap (λ (v : Game). v.host) (round g c cs (str "NORMAL") s k).0
        ∙ rw (without_first, e) refl in
      let next = loop_hostless f g t here in rw (k, shutdown_loop) (next.0 ∙ quiet, next.1)
]
