-- ===== src/Tests/Logins.antt =====
-- The logins of wlms, for a client that is not listed yet.
use widelands_metaserver.Base.{
  ◌&&◌, not, is_some, ℕ, true, none, [], ◌∷◌, ◌==◌, if◌then◌else◌, ◌≡◌, refl, arith, ◌<◌, str,
  bytes_eq, subst,
}
use widelands_metaserver.Packet.{Packet, text, itoa, decimal}
use widelands_metaserver.Metaserver.World.{
  recently_disconnected, connected, registered, sent, Server,
}
use widelands_metaserver.Metaserver.Clients.{
  contains, find_named, has_client, has_irc_client, find_clients_to_replace, candidates_loop,
  push_best, disconnect,
}
use widelands_metaserver.Metaserver.Clients.Names.{NamesUnique}
use widelands_metaserver.Metaserver.Clients.Replacing.{find_clients_to_replace_iff}
use widelands_metaserver.Metaserver.Clients.Lookup.{has_client-ne-irc}
use widelands_metaserver.Metaserver.Login.{
  name_of, login_done, find_unconnected_name, find_replace_candidates, take_free_name, numbered,
}
use widelands_metaserver.Metaserver.Login.Newcomer.{Newcomer}
use widelands_metaserver.Metaserver.Login.Done.{login_done_result}
use widelands_metaserver.Metaserver.Login.Search.{
  taken, named, find_unconnected_name-first, find_unconnected_name-none,
}
use widelands_metaserver.Metaserver.Login.Timers.{login_meets_no_timer}
use widelands_metaserver.Metaserver.Auth.{
  handle_login, handle_pwd_challenge, handle_relogin, handle_check_pwd, send_challenge,
}
use widelands_metaserver.Metaserver.Auth.Names.{auth-NamesUnique}
use widelands_metaserver.Metaserver.Auth.Challenge.{
  response_packet, answer_of, challenge_answered, empty_response_logs_in,
}
use widelands_metaserver.Metaserver.Run.{create_server}
use widelands_metaserver.Users.{
  Users, find_user, add_user, in_memory_db, user_permissions, downgraded_user_nonce, hex,
}
use widelands_metaserver.Tests.Lobby.{
  toy_sha1, toy_db, address, client_of, lobby, new_name, irc_user,
}

-- LOGIN as a registered player of build 20.
abbrev login_packet : Packet
login_packet = record {
  raw_data = (b'5' ∷ []) ∷ new_name ∷ (b'b' ∷ []) ∷ (b'1' ∷ []) ∷ (b'x' ∷ []) ∷ [];
}

lobby-Newcomer : Newcomer 3 lobby
unfolding create_server in_memory_db user_permissions find_user find_named contains bytes_eq
lobby-Newcomer = record {
  unique = (refl, (refl, (refl, tt)));
  unlisted = refl;
  player = refl;
  irc_online = λ q h. ground arith;
  no_irc_accounts = λ n. ground arith;
}

auth-NamesUnique_example :
    NamesUnique (handle_login 3 login_packet lobby).1
    × NamesUnique (handle_pwd_challenge 3 login_packet lobby).1
    × NamesUnique (handle_relogin 3 login_packet lobby).1
    × NamesUnique (handle_check_pwd 3 login_packet lobby).1
auth-NamesUnique_example = auth-NamesUnique 3 login_packet lobby lobby-Newcomer

abbrev one_account : Users
one_account = add_user toy_sha1 new_name (b'y' ∷ []) registered []

abbrev one_account_lobby : Server
one_account_lobby = record lobby { user_db = in_memory_db toy_sha1 one_account }

challenge_answered_example :
    let t = send_challenge 3 one_account_lobby in
    ((t.client_at 3).expected_response ≡ answer_of toy_sha1 (hex (1 ∷ [])) (b'y' ∷ []))
    × (t.events
        ≡ sent 3 (text (str "PWD_CHALLENGE") ∷ text (hex (1 ∷ [])) ∷ []) ∷ one_account_lobby.events)
    × (t.clients ≡ one_account_lobby.clients)
    × ((t.client_at 3).state ≡ (one_account_lobby.client_at 3).state)
challenge_answered_example =
    challenge_answered toy_sha1 3 address new_name (b'y' ∷ []) (1 ∷ []) registered []
      one_account_lobby refl refl refl refl

empty_response_logs_in_example :
    let t = (handle_pwd_challenge 3 (response_packet []) lobby).1 in
    ((t.client_at 3).state ≡ connected)
    × (contains 3 t.clients ≡ true)
    × (name_of 3 t ≡ name_of 3 lobby)
    × ((t.client_at 3).permissions ≡ lobby.user_db.permissions (name_of 3 lobby))
unfolding create_server in_memory_db find_named has_client contains bytes_eq downgraded_user_nonce
    find_user hex find_clients_to_replace candidates_loop push_best
empty_response_logs_in_example = empty_response_logs_in 3 lobby refl refl refl refl refl

-- The first name with a number is an account's.
abbrev busy_lobby : Server
busy_lobby = record lobby {
  user_db = record toy_db { contains_name = λ n. bytes_eq n (b'n' ∷ b'1' ∷ []) };
}

second_is_first_free : (m : ℕ) → 0 < m → m < 2 → taken busy_lobby (name_of 3 busy_lobby) m ≡ true
unfolding numbered itoa decimal bytes_eq create_server
second_is_first_free m l u =
    let one : 1 ≡ m = omega arith in
    subst (λ x. taken busy_lobby (name_of 3 busy_lobby) x ≡ true) one refl

find_unconnected_name-first_example :
    find_unconnected_name 3 busy_lobby
    ≡ take_free_name 3 new_name (named 3 (numbered new_name 2) busy_lobby)
unfolding numbered itoa decimal bytes_eq create_server has_client find_named contains
find_unconnected_name-first_example =
    find_unconnected_name-first 3 2 busy_lobby refl (omega arith) (omega arith) second_is_first_free
      refl

-- Every name is an account's.
abbrev full_lobby : Server
full_lobby = record lobby { user_db = record toy_db { contains_name = λ _. true } }

find_unconnected_name-none_example :
    find_unconnected_name 3 full_lobby ≡ disconnect 3 (named 3 (numbered new_name 1000) full_lobby)
unfolding create_server contains
find_unconnected_name-none_example = find_unconnected_name-none 3 full_lobby refl (λ m l u. refl)

-- Client 3 sends the nonce that IRC users have.
abbrev nonce_lobby : Server
nonce_lobby = record lobby {
  client_at = λ q. if q == 3 then record (client_of 3) { nonce = irc_user.nonce } else client_of q;
}

login_meets_no_timer_example : (find_replace_candidates 3 true nonce_lobby).crashed ≡ true
unfolding create_server find_clients_to_replace candidates_loop push_best bytes_eq
login_meets_no_timer_example =
    login_meets_no_timer 3 2 [] true nonce_lobby refl refl refl refl refl refl

login_done_result_example :
    let t = login_done 3 lobby in
    ((t.client_at 3).state ≡ connected)
    × (contains 3 t.clients ≡ true)
    × (name_of 3 t ≡ name_of 3 lobby)
    × ((t.client_at 3).permissions ≡ (lobby.client_at 3).permissions)
unfolding create_server
login_done_result_example = login_done_result 3 lobby refl

has_client-ne-irc_example : has_client (b'z' ∷ []) lobby ≡ none
unfolding create_server has_client has_irc_client find_named bytes_eq
has_client-ne-irc_example = has_client-ne-irc (b'z' ∷ []) lobby refl

find_clients_to_replace_iff_example :
    let nonce = (lobby.client_at 1).nonce in
    contains 1 (find_clients_to_replace nonce new_name lobby) ≡ (
      contains 1 lobby.clients
      && (not (is_some (lobby.client_at 1).pending_login)
          && bytes_eq (lobby.client_at 1).nonce nonce))
unfolding create_server bytes_eq
find_clients_to_replace_iff_example =
    find_clients_to_replace_iff (lobby.client_at 1).nonce new_name 1 lobby refl

player_found : contains 1 (find_clients_to_replace (lobby.client_at 1).nonce new_name lobby) ≡ true
unfolding create_server bytes_eq contains find_clients_to_replace candidates_loop push_best
player_found = refl

-- The player was cut off by an error, and sends the name of the administrator.
abbrev cut_off : Server
cut_off = record lobby {
  client_at =
      λ q. if q == 1 then record (client_of 1) { state = recently_disconnected } else client_of q;
}
