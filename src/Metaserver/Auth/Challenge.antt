-- ===== src/Metaserver/Auth/Challenge.antt =====
-- wlms/client.go and userdb.go: what a client must send to be let in.
use widelands_metaserver.Base.{
  ℕ, true, false, none, some, [], ◌∷◌, ◌++◌, Bytes, bytes_eq, bytes_eq_refl, ◌≡◌, refl, ap, ◌∙◌,
  arith, str, ==_refl,
}
use widelands_metaserver.Packet.{Packet, text, read_string, encodable}
use widelands_metaserver.Metaserver.World.{
  Permissions, handshake, connected, is_handshake, Conn, Client, sent, Server, put_client,
}
use widelands_metaserver.Metaserver.Clients.{contains, has_client, find_clients_to_replace}
use widelands_metaserver.Metaserver.Clients.Broadcast.{send_packet_eq}
use widelands_metaserver.Metaserver.Handler.{Reply, modify_client}
use widelands_metaserver.Metaserver.Login.{name_of, login_done}
use widelands_metaserver.Metaserver.Login.Done.{login_done_result}
use widelands_metaserver.Metaserver.Login.Free.{
  no_candidates, find_replace_candidates_free, find_clients_unlisted,
}
use widelands_metaserver.Metaserver.Login.Newcomer.{modify_client_self, has_client_unlisted}
use widelands_metaserver.Metaserver.Auth.{send_challenge, handle_pwd_challenge, password_fine}
use widelands_metaserver.Users.{
  Users, User, find_user, put_user, hex, password_hash, add_user, in_memory_db,
}

abbrev pub response_packet : Bytes → Packet
response_packet response = record { raw_data = response ∷ [] }

find_user-put_user : (n : Bytes) (u : User) (us : Users) → find_user n (put_user n u us) ≡ some u
unfolding find_user put_user
find_user-put_user n u [] = rw (bytes_eq_refl n)
find_user-put_user n u ((m, v) ∷ us) = ground (arith, find_user-put_user n u us, bytes_eq_refl n)

-- The state after a challenge that could be made.
send_challenge-some :
    (p : ℕ) (a : Conn) (challenge response : Bytes) (s : Server)
    → s.user_db.challenge_response_pair_from_username s.random (name_of p s)
      ≡ some (challenge, response)
    → (s.client_at p).conn ≡ some a
    → let d = text (str "PWD_CHALLENGE") ∷ text challenge ∷ [] in
      let t = put_client p (record (s.client_at p) { expected_response = response }) s in
      send_challenge p s ≡ record t { events = sent p d ∷ s.events }
unfolding send_challenge modify_client put_client encodable
send_challenge-some p a challenge response s h c =
    rw (h, send_challenge)
      (send_packet_eq p (text (str "PWD_CHALLENGE") ∷ text challenge ∷ []) _ refl
        ∙ ground (arith, ==_refl p))

module _ (sha1 : Bytes → Bytes) where
  -- What a client answers that knows the password and was sent the challenge.
  abbrev pub answer_of : Bytes → Bytes → Bytes
  answer_of challenge password = hex (sha1 (challenge ++ password_hash sha1 password))

  db_pair :
      (n password nonce : Bytes) (perms : Permissions) (us : Users)
      → (in_memory_db sha1
            (add_user sha1 n password perms us)).challenge_response_pair_from_username
          (some nonce)
          n
        ≡ some (hex nonce, answer_of (hex nonce) password)
  unfolding in_memory_db add_user
  db_pair n password nonce perms us = ground (
    arith,
    find_user-put_user n (record { password = password_hash sha1 password; permissions = perms })
        us,
  )

  -- Over the database in memory, the challenge for an account is the random bytes in hexadecimal, it is
  -- sent to the client, and the response that is expected is that of who knows the password with which
  -- the account was made.
  pub challenge_answered :
      (p : ℕ) (a : Conn) (n password nonce : Bytes) (perms : Permissions) (us : Users) (s : Server)
      → s.user_db ≡ in_memory_db sha1 (add_user sha1 n password perms us)
      → s.random ≡ some nonce
      → (s.client_at p).conn ≡ some a
      → name_of p s ≡ n
      → let t = send_challenge p s in
        ((t.client_at p).expected_response ≡ answer_of (hex nonce) password)
        × (t.events ≡ sent p (text (str "PWD_CHALLENGE") ∷ text (hex nonce) ∷ []) ∷ s.events)
        × (t.clients ≡ s.clients)
        × ((t.client_at p).state ≡ (s.client_at p).state)
  challenge_answered p a n password nonce perms us s db r c e =
      let pair : s.user_db.challenge_response_pair_from_username s.random (name_of p s)
          ≡ some (hex nonce, answer_of (hex nonce) password) =
        rw (db, r, e) (db_pair n password nonce perms us) in
      rw (send_challenge-some p a (hex nonce) (answer_of (hex nonce) password) s pair c)
        (unfold put_client in rw (==_refl p) (refl, refl, refl, refl))

-- The empty response, where it is the one expected.
accept_empty :
    (p : ℕ) (s : Server)
    → (s.client_at p).state ≡ handshake
    → (s.client_at p).expected_response ≡ []
    → handle_pwd_challenge p (response_packet []) s ≡ (none, password_fine handshake p s)
unfolding handle_pwd_challenge read_string bytes_eq
accept_empty p s hs er = rw (er, hs)

-- What a right response makes of a client in HANDSHAKE.
abbrev authenticated : Server → Bytes → Client → Client
authenticated s n c = record c {
  permissions = s.user_db.permissions n;
  nonce = s.user_db.downgraded_user_nonce n n;
}

fine_free :
    (p : ℕ) (s : Server)
    → let n = name_of p s in
      has_client n s ≡ none
      → contains p s.clients ≡ false
      → find_clients_to_replace (s.user_db.downgraded_user_nonce n n) n s ≡ []
      → password_fine handshake p s
        ≡ login_done p (modify_client p no_candidates (modify_client p (authenticated s n) s))
unfolding password_fine
fine_free p s free un found =
    let n = name_of p s in
    let f = authenticated s n in
    let s' = modify_client p f s in
    find_replace_candidates_free p s' (unfold modify_client put_client in un)
      (ap (λ c. find_clients_to_replace c.nonce c.user_name s') (modify_client_self p f s)
        ∙ find_clients_unlisted p f _ n s un
        ∙ found)
      (ap (λ c. has_client c.user_name s') (modify_client_self p f s)
        ∙ has_client_unlisted p f n s un
        ∙ free)

-- The hole in the check: a client in HANDSHAKE that was never sent a challenge has the empty string for its
-- expected response. If it has set its name (with a LOGIN that waits for another client), an empty
-- response logs it in under that name with all the permissions of the account, when nobody else uses the
-- name or the nonce; no password is asked for.
pub empty_response_logs_in :
    (p : ℕ) (s : Server)
    → (s.client_at p).state ≡ handshake
    → (s.client_at p).expected_response ≡ []
    → has_client (name_of p s) s ≡ none
    → contains p s.clients ≡ false
    → find_clients_to_replace
        (s.user_db.downgraded_user_nonce (name_of p s) (name_of p s))
        (name_of p s)
        s
      ≡ []
    → let t = (handle_pwd_challenge p (response_packet []) s).1 in
      ((t.client_at p).state ≡ connected)
      × (contains p t.clients ≡ true)
      × (name_of p t ≡ name_of p s)
      × ((t.client_at p).permissions ≡ s.user_db.permissions (name_of p s))
empty_response_logs_in p s hs er free un found =
    let n = name_of p s in
    let f = authenticated s n in
    let s' = modify_client p f s in
    let last = modify_client p no_candidates s' in
    let here : last.client_at p ≡ no_candidates (f (s.client_at p)) =
      modify_client_self p no_candidates s' ∙ ap no_candidates (modify_client_self p f s) in
    let ended =
      login_done_result p last (ap (λ c. is_handshake c.state) here ∙ ap is_handshake hs) in
    let made : (handle_pwd_challenge p (response_packet []) s).1 ≡ login_done p last =
      ap (λ (r : Reply). r.1) (accept_empty p s hs er) ∙ fine_free p s free un found in
    rw made (
      ended.0,
      ended.1,
      ended.2 ∙ ap (λ c. c.user_name) here,
      ended.3 ∙ ap (λ c. c.permissions) here,
    )
