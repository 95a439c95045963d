-- ===== src/Metaserver/Lobby/Lists.antt =====
-- wlms/client.go: the shape of the answers to CLIENTS and GAMES.
use widelands_metaserver.Base.{
  ℕ, ◌+◌, ◌*◌, Bool, true, false, not, ◌&&◌, ◌||◌, List, [], ◌∷◌, ◌++◌, if◌then◌else◌, length,
  length-append, ◌≡◌, refl, ap, ◌∙◌, arith, pos, negsuc, ℤ, lt_ℤ, eq_ℤ,
}
use widelands_metaserver.Packet.{Field, text, int, bool, null, encodable}
use widelands_metaserver.Metaserver.World.{Client, Server, Game}
use widelands_metaserver.Metaserver.Clients.{active_clients}
use widelands_metaserver.Metaserver.Handler.{build20}
use widelands_metaserver.Metaserver.Lobby.{
  client_row, client_rows, clients_answer, shown_clients, game_status, game_rows, games_answer,
}

-- The number of fields that Handle_CLIENTS counts with.
abbrev pub n_fields : ℤ → ℕ
n_fields v = if lt_ℤ v build20 then 5 else 4

length-client_row :
    (s : Server) (p q : ℕ) → length (client_row s p q) ≡ n_fields (s.client_at p).protocol_version
unfolding client_row
length-client_row s p q = ground arith

length-client_rows :
    (s : Server) (p : ℕ) (qs : List ℕ)
    → length (client_rows s p qs) ≡ length qs * n_fields (s.client_at p).protocol_version
unfolding client_rows
length-client_rows s p [] = omega arith
length-client_rows s p (q ∷ qs) = grind (
  arith,
  length-append (client_row s p q) (client_rows s p qs),
  length-client_row s p q,
  length-client_rows s p qs,
)

encodable-append : (fs gs : List Field) → encodable (fs ++ gs) ≡ (encodable fs && encodable gs)
unfolding encodable
encodable-append [] gs = refl
encodable-append (int i ∷ fs) gs = encodable-append fs gs
encodable-append (text i ∷ fs) gs = encodable-append fs gs
encodable-append (bool i ∷ fs) gs = encodable-append fs gs
encodable-append (null ∷ fs) gs = refl

-- Versions below five, but not below four: the last slot of a client is never written.
abbrev pub unwritten : ℤ → Bool
unwritten v = lt_ℤ v build20 && not (lt_ℤ v (pos 4))

abbrev pub is_nil : List ℕ → Bool
is_nil [] = true
is_nil (x ∷ xs) = false

encodable-client_rows :
    (s : Server) (p : ℕ) (qs : List ℕ)
    → encodable (client_rows s p qs)
      ≡ (not (unwritten (s.client_at p).protocol_version) || is_nil qs)
unfolding client_rows client_row encodable
encodable-client_rows s p [] = ground arith
encodable-client_rows s p (q ∷ qs) = ground (arith, encodable-client_rows s p qs)

unwritten_eq : (v : ℤ) → unwritten v ≡ eq_ℤ v (pos 4)
unwritten_eq (pos n) = ground arith
unwritten_eq (negsuc n) = refl

-- The answer to CLIENTS has two fields, and four for each client shown, five for protocol versions below
-- five. It can be encoded, unless the version is four and a client is shown: then `New` ends the process.
pub clients_answer_shape :
    (s : Server) (p : ℕ)
    → let v = (s.client_at p).protocol_version in
      let shown = shown_clients s.client_at p (active_clients s.client_at s.clients) in
      (length (clients_answer s p) ≡ 2 + length shown * n_fields v)
      × (encodable (clients_answer s p) ≡ (not (eq_ℤ v (pos 4)) || is_nil shown))
unfolding clients_answer encodable
clients_answer_shape s p =
    let shown = shown_clients s.client_at p (active_clients s.client_at s.clients) in
    (
      omega (arith, length-client_rows s p shown),
      encodable-client_rows s p shown
          ∙ ap (λ b. not b || is_nil shown) (unwritten_eq (s.client_at p).protocol_version),
    )

encodable-game_status :
    (c : Client) (g : Game) (fs : List Field) → encodable (game_status c g ∷ fs) ≡ encodable fs
unfolding game_status encodable
encodable-game_status c g fs = ground arith

game_rows_shape :
    (c : Client) (at : ℕ → Game) (gs : List ℕ)
    → (length (game_rows c at gs) ≡ length gs * 3) × (encodable (game_rows c at gs) ≡ true)
unfolding game_rows encodable
game_rows_shape c at [] = (omega arith, refl)
game_rows_shape c at (g ∷ gs) =
    let (l, e) = game_rows_shape c at gs in
    (omega (arith, l), encodable-game_status c (at g) (game_rows c at gs) ∙ e)

-- The answer to GAMES has two fields, and three for each game, and can always be encoded.
pub games_answer_shape :
    (s : Server) (p : ℕ)
    → (length (games_answer s p) ≡ 2 + length s.games * 3) × (encodable (games_answer s p) ≡ true)
unfolding games_answer encodable
games_answer_shape s p =
    let (l, e) = game_rows_shape (s.client_at p) s.game_at s.games in (omega (arith, l), e)
