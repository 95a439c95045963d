-- ===== src/Users.antt =====
-- wlms/userdb.go: InMemoryUserDb. The hash SHA-1 is a parameter; so is what crypto/rand gives.
pub mod Base64
pub mod Sql
pub mod Tables
use widelands_metaserver.Base.{
  ℕ, ◌+◌, ◌-◌, ◌/◌, ◌%◌, Bool, false, Option, none, some, List, [], ◌∷◌, ◌++◌, ltb, if◌then◌else◌,
  is_some, Bytes, str, bytes_eq,
}
use widelands_metaserver.Metaserver.World.{Permissions, unregistered, UserDb}

-- hex.EncodeToString
unfoldable pub hex_digit : ℕ → ℕ
hex_digit d = if ltb d 10 then b'0' + d else b'a' + (d - 10)

unfoldable pub hex : Bytes → Bytes
unfolding hex_digit
hex [] = []
hex (b ∷ bs) = hex_digit (b / 16) ∷ hex_digit (b % 16) ∷ hex bs

pub record User : Type 0 where
  pub password : Bytes  -- the hash, in hexadecimal
  pub permissions : Permissions

abbrev pub Users : Type 0
Users = List (Bytes × User)

unfoldable pub find_user : Bytes → Users → Option User
find_user n [] = none
find_user n ((m, u) ∷ us) = if bytes_eq m n then some u else find_user n us

-- A write to the map of users.
unfoldable pub put_user : Bytes → User → Users → Users
put_user n u [] = (n, u) ∷ []
put_user n u ((m, v) ∷ us) = if bytes_eq m n then (m, u) ∷ us else (m, v) ∷ put_user n u us

module _ (sha1 : Bytes → Bytes) where
  unfoldable pub password_hash : Bytes → Bytes
  password_hash password = hex (sha1 password)

  -- AddUser
  unfoldable pub add_user : Bytes → Bytes → Permissions → Users → Users
  unfolding password_hash
  add_user n password perms us =
      put_user n (record { password = password_hash password; permissions = perms }) us

  -- ContainsName
  unfoldable pub contains_name : Users → Bytes → Bool
  contains_name us n = is_some (find_user n us)

  -- PasswordCorrect
  unfoldable pub password_correct : Users → Bytes → Bytes → Bool
  unfolding password_hash
  password_correct us n password = elim (find_user n us) [
    | none ↦ false
    | some u ↦ bytes_eq u.password (password_hash password)
  ]

  -- GenerateChallengeResponsePairFromSecret
  unfoldable pub challenge_response_pair_from_secret : Option Bytes → Bytes → Option (Bytes × Bytes)
  challenge_response_pair_from_secret none secret = none
  challenge_response_pair_from_secret (some nonce) secret =
      some (hex nonce, hex (sha1 (hex nonce ++ secret)))

  -- GenerateChallengeResponsePairFromUsername
  unfoldable pub challenge_response_pair_from_username :
      Users → Option Bytes → Bytes → Option (Bytes × Bytes)
  challenge_response_pair_from_username us random n = elim (find_user n us) [
    | none ↦ none
    | some u ↦ challenge_response_pair_from_secret random u.password
  ]

  -- GenerateDowngradedUserNonce
  unfoldable pub downgraded_user_nonce : Users → Bytes → Bytes → Bytes
  downgraded_user_nonce us registered_name assigned_name = elim (find_user registered_name us) [
    | none ↦ str "unregistered"
    | some u ↦ hex (sha1 (assigned_name ++ u.password))
  ]

  -- Permissions
  unfoldable pub user_permissions : Users → Bytes → Permissions
  user_permissions us n = elim (find_user n us) [ none ↦ unregistered | some u ↦ u.permissions ]

  -- The database as the server uses it.
  unfoldable pub in_memory_db : Users → UserDb
  unfolding contains_name password_correct challenge_response_pair_from_username
      challenge_response_pair_from_secret downgraded_user_nonce user_permissions
  in_memory_db us = record {
    contains_name = contains_name us;
    password_correct = password_correct us;
    challenge_response_pair_from_username = challenge_response_pair_from_username us;
    challenge_response_pair_from_secret = challenge_response_pair_from_secret;
    downgraded_user_nonce = downgraded_user_nonce us;
    permissions = user_permissions us;
  }
