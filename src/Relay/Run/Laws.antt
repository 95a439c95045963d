-- ===== src/Relay/Run/Laws.antt =====
-- wlnr: what a property of the relay must survive, in order that every turn of a goroutine keeps it.
use widelands_metaserver.Base.{
  ℕ, ◌==◌, ◌≡◌, refl, ◌⊎◌, Option-cases, some, inl, inr, if_cases, Bytes, str,
}
use widelands_metaserver.Relay.State.{
  Client, hello, relay_protocol_version, Server, put_client, crash, send_command, disconnect, Read,
  got, eof, broken, read_uint8, read_string, consume,
}
use widelands_metaserver.Relay.Games.{find_game, disconnect_client, add_client}
use widelands_metaserver.Relay.Messages.{
  protocol_violation, join_game, read_names, read_version, deal_with_new_connection,
}

-- `P` is the property, and `J` says of a newcomer what it needs to join a game.
pub record Laws (P : Server → Type 0) (J : ℕ → Server → Type 0) : Type 0 where
  pub send : (c : ℕ) (cmd : Bytes) (s : Server) → P s → P (send_command c cmd s)
  pub put_client :
      (c : ℕ) (v : Client) (s : Server) → v.id ≡ (s.client_at c).id → P s → P (put_client c v s)
  pub disconnect : (c : ℕ) (reason : Bytes) (s : Server) → P s → P (disconnect c reason s)
  pub disconnect_client :
      (g c : ℕ) (reason : Bytes) (s : Server) → P s → P (disconnect_client g c reason s)
  pub crash : (s : Server) → P s → P (crash s)
  pub add_client :
      (g c version : ℕ) (name password : Bytes) (s : Server)
      → find_game s.game_at name s.games ≡ some g
      → J c s
      → P s
      → P (add_client g c version password s)
  pub stays : (c : ℕ) (r : Bytes) (s : Server) → J c s → J c (consume c r s)

-- The outcome of a read: a value, or one of the two errors.
pub Read-cases {ℓ} :
    {A : Type ℓ} (r : Read A)
    → ((a : A) × (rest : Bytes) × (r ≡ got a rest)) ⊎ ((r ≡ eof) ⊎ (r ≡ broken))
Read-cases (got a rest) = inl (a, rest, refl)
Read-cases eof = inr (inl refl)
Read-cases broken = inr (inr refl)

module _ {P : Server → Type 0} (J : ℕ → Server → Type 0) (k : Laws P J) where
  pub consume_keeps : (c : ℕ) (r : Bytes) (s : Server) → P s → P (consume c r s)
  unfolding consume
  consume_keeps c r s w = k.put_client c (record (s.client_at c) { reader = r }) s refl w

  join_game_keeps :
      (c version : ℕ) (name password : Bytes) (s : Server)
      → J c s
      → P s
      → P (join_game c version name password s)
  unfolding join_game
  join_game_keeps c version name password s j w =
      elim (Option-cases (find_game s.game_at name s.games)) [
        | inl e ↦ rw (e, join_game) (k.disconnect c (str "GAME_UNKNOWN") s w)
        | inr (g, e) ↦ rw (e, join_game) (k.add_client g c version name password s e j w)
      ]

  read_names_keeps :
      (c version : ℕ) (r : Bytes) (s : Server) → J c s → P s → P (read_names c version r s)
  unfolding read_names
  read_names_keeps c version r s j w =
      let refused = k.disconnect c protocol_violation s w in
      elim (Read-cases (read_string r)) [
        | inr (inl e) ↦ rw (e, read_names) refused
        | inr (inr e) ↦ rw (e, read_names) refused
        | inl (name, r', e) ↦ elim (Read-cases (read_string r')) [
          | inr (inl f) ↦ rw (e, read_names, f) refused
          | inr (inr f) ↦ rw (e, read_names, f) refused
          | inl (password, r'', f) ↦
              rw (e, read_names, f)
                (join_game_keeps c version name password _ (k.stays c r'' s j)
                  (consume_keeps c r'' s w))
        ]
      ]

  read_version_keeps : (c : ℕ) (r : Bytes) (s : Server) → J c s → P s → P (read_version c r s)
  unfolding read_version
  read_version_keeps c r s j w =
      let refused = k.disconnect c protocol_violation s w in
      elim (Read-cases (read_uint8 r)) [
        | inr (inl e) ↦ rw (e, read_version) refused
        | inr (inr e) ↦ rw (e, read_version) refused
        | inl (version, r', e) ↦
            rw (e, read_version)
              (if_cases P (version == relay_protocol_version)
                (λ _. read_names_keeps c version r' s j w)
                (λ _. k.disconnect c (str "WRONG_VERSION") s w))
      ]

  pub new_connection_keeps : (c : ℕ) (s : Server) → J c s → P s → P (deal_with_new_connection c s)
  unfolding deal_with_new_connection
  new_connection_keeps c s j w =
      let refused = k.disconnect c protocol_violation s w in
      elim (Read-cases (read_uint8 (s.client_at c).reader)) [
        | inr (inl e) ↦ rw (e, deal_with_new_connection) refused
        | inr (inr e) ↦ rw (e, deal_with_new_connection) refused
        | inl (cmd, r, e) ↦
            rw (e, deal_with_new_connection)
              (if_cases P (cmd == hello) (λ _. read_version_keeps c r s j w) (λ _. refused))
      ]
