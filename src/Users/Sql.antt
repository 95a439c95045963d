-- ===== src/Users/Sql.antt =====
-- wlms/userdb.go: SqlDatabase. What MySQL gives to the queries is a parameter.
use widelands_metaserver.Base.{
  Bool, true, false, Option, none, some, ◌++◌, ◌==◌, if◌then◌else◌, ℤ, pos, negsuc, Bytes, str,
  bytes_eq,
}
use widelands_metaserver.Metaserver.World.{Permissions, unregistered, registered, superuser, UserDb}
use widelands_metaserver.Users.{hex, challenge_response_pair_from_secret}
use widelands_metaserver.Users.Base64.{decode_string}

-- What QueryRow and Scan give: a value, sql.ErrNoRows, or another error.
pub data Row (A : Type 0) : Type 0 where
  row : A → Row A
  no_rows : Row A
  failed : Row A

-- The queries of the program, each by its argument.
pub record Database : Type 0 where
  pub id : Bytes → Row ℤ  -- select id from auth_user where username=?
  pub password : ℤ → Row Bytes  -- select password from wlggz_ggzauth where user_id=?
  pub permissions : ℤ → Row ℤ  -- select permissions from wlggz_ggzauth where user_id=?

-- ContainsName: an error other than that there is no row counts as a name.
unfoldable pub sql_contains_name : Database → Bytes → Bool
sql_contains_name db n = elim (db.id n) [ no_rows ↦ false | _ ↦ true ]

-- retrievePasswordHash: none for nil.
unfoldable pub retrieve_password_hash : Database → Bytes → Option Bytes
retrieve_password_hash db n = elim (db.id n) [
  | row i ↦ elim (db.password i) [ row golden ↦ decode_string golden | _ ↦ none ]
  | _ ↦ none
]

-- The values that Permissions knows.
unfoldable pub permissions_from : ℤ → Permissions
permissions_from (pos n) =
    if n == 127 then superuser else if n == 7 then registered else unregistered
permissions_from (negsuc n) = unregistered

-- Permissions
unfoldable pub sql_permissions : Database → Bytes → Permissions
sql_permissions db n = elim (db.id n) [
  | row i ↦ elim (db.permissions i) [ row p ↦ permissions_from p | _ ↦ unregistered ]
  | _ ↦ unregistered
]

module _ (sha1 : Bytes → Bytes) where
  -- PasswordCorrect
  unfoldable pub sql_password_correct : Database → Bytes → Bytes → Bool
  sql_password_correct db n password = elim (retrieve_password_hash db n) [
    | none ↦ false
    | some golden_hash ↦ bytes_eq golden_hash (sha1 password)
  ]

  -- GenerateChallengeResponsePairFromUsername
  unfoldable pub sql_challenge_response_pair :
      Database → Option Bytes → Bytes → Option (Bytes × Bytes)
  sql_challenge_response_pair db random n = elim (retrieve_password_hash db n) [
    | none ↦ none
    | some golden_hash ↦ challenge_response_pair_from_secret sha1 random (hex golden_hash)
  ]

  -- GenerateDowngradedUserNonce
  unfoldable pub sql_downgraded_user_nonce : Database → Bytes → Bytes → Bytes
  sql_downgraded_user_nonce db registered_name assigned_name =
      elim (retrieve_password_hash db registered_name) [
        | none ↦ str "unregistered"
        | some golden_hash ↦ hex (sha1 (assigned_name ++ hex golden_hash))
      ]

  -- The database as the server uses it.
  unfoldable pub sql_db : Database → UserDb
  sql_db db = record {
    contains_name = sql_contains_name db;
    password_correct = sql_password_correct db;
    challenge_response_pair_from_username = sql_challenge_response_pair db;
    challenge_response_pair_from_secret = challenge_response_pair_from_secret sha1;
    downgraded_user_nonce = sql_downgraded_user_nonce db;
    permissions = sql_permissions db;
  }
