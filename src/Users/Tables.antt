-- ===== src/Users/Tables.antt =====
-- wlms/userdb.go: the two databases answer alike.

use widelands_metaserver.Base.{
  ℕ, ◌/◌, ◌%◌, ◌<◌, Option, none, some, [], ◌∷◌, ◌≡◌, refl, sym, ◌==◌, inl, inr, ◌⊎◌, arith, ℤ,
  Bytes, bytes_eq, subst,
}
use widelands_metaserver.Users.{
  hex_digit, hex, User, Users, find_user, contains_name, password_hash, password_correct,
  challenge_response_pair_from_username, challenge_response_pair_from_secret, downgraded_user_nonce,
  user_permissions, in_memory_db,
}
use widelands_metaserver.Users.Base64.{decode_string, AreBytes, Gives, decode_string-AreBytes}
use widelands_metaserver.Users.Sql.{
  row, no_rows, Database, sql_contains_name, retrieve_password_hash, permissions_from,
  sql_permissions, sql_password_correct, sql_challenge_response_pair, sql_downgraded_user_nonce,
  sql_db,
}

-- The tables hold a user: an id, the hash in Base64, the permissions.
pub record Stores (db : Database) (n : Bytes) (u : User) : Type 0 where
  pub id : ℤ
  pub golden : Bytes
  pub hash : Bytes
  pub level : ℤ
  pub has_id : db.id n ≡ row id
  pub has_password : db.password id ≡ row golden
  pub decodes : decode_string golden ≡ some hash
  pub same_hash : u.password ≡ hex hash
  pub has_level : db.permissions id ≡ row level
  pub same_level : permissions_from level ≡ u.permissions

-- The tables hold the users of a map, and no others.
abbrev pub StoresAll : Database → Users → Type 0
StoresAll db us =
    (n : Bytes)
    → ((find_user n us ≡ none) × (db.id n ≡ no_rows))
      ⊎ ((u : User) × (find_user n us ≡ some u) × Stores db n u)

digit_eq : (a b : ℕ) → a < 16 → b < 16 → (hex_digit a == hex_digit b) ≡ (a == b)
unfolding hex_digit
digit_eq a b la lb = ground arith

bytes_eq-hex : (a b : Bytes) → AreBytes a → AreBytes b → bytes_eq (hex a) (hex b) ≡ bytes_eq a b
unfolding hex bytes_eq
bytes_eq-hex [] [] ha hb = refl
bytes_eq-hex [] (y ∷ ys) ha hb = refl
bytes_eq-hex (x ∷ xs) [] ha hb = refl
bytes_eq-hex (x ∷ xs) (y ∷ ys) ha hb =
    let high = digit_eq (x / 16) (y / 16) (omega (arith, ha.0)) (omega (arith, hb.0)) in
    let low = digit_eq (x % 16) (y % 16) (omega arith) (omega arith) in
    let rest = bytes_eq-hex xs ys ha.1 hb.1 in rw (high, low, rest) (ground (arith))

hash_found :
    (db : Database) (n : Bytes) (u : User) (k : Stores db n u)
    → retrieve_password_hash db n ≡ some k.hash
unfolding retrieve_password_hash
hash_found db n u k = rw (retrieve_password_hash, k.has_id, k.has_password) k.decodes

hash_absent : (db : Database) (n : Bytes) → db.id n ≡ no_rows → retrieve_password_hash db n ≡ none
unfolding retrieve_password_hash
hash_absent db n e = rw (retrieve_password_hash, e) refl

hash_bytes : (db : Database) (n : Bytes) (u : User) (k : Stores db n u) → AreBytes k.hash
hash_bytes db n u k = subst (Gives AreBytes) k.decodes (decode_string-AreBytes k.golden)

module _ (sha1 : Bytes → Bytes) (db : Database) (us : Users) (all : StoresAll db us) where
  same_names : (n : Bytes) → sql_contains_name db n ≡ contains_name sha1 us n
  unfolding sql_contains_name contains_name
  same_names n = elim (all n) [
    | inl (e, f) ↦ rw (sql_contains_name, f, e) refl
    | inr (u, e, k) ↦ rw (sql_contains_name, k.has_id, e) refl
  ]

  same_passwords :
      ((x : Bytes) → AreBytes (sha1 x))
      → (n password : Bytes)
      → sql_password_correct sha1 db n password ≡ password_correct sha1 us n password
  unfolding sql_password_correct password_correct password_hash
  same_passwords bytes n password = elim (all n) [
    | inl (e, f) ↦ rw (sql_password_correct, password_correct, e, hash_absent db n f) refl
    | inr (u, e, k) ↦
        rw (sql_password_correct, password_correct, e, hash_found db n u k, k.same_hash)
          (sym (bytes_eq-hex k.hash (sha1 password) (hash_bytes db n u k) (bytes password)))
  ]

  same_challenges :
      (random : Option Bytes) (n : Bytes)
      → sql_challenge_response_pair sha1 db random n
        ≡ challenge_response_pair_from_username sha1 us random n
  unfolding sql_challenge_response_pair challenge_response_pair_from_username
  same_challenges random n = elim (all n) [
    | inl (e, f) ↦
        rw
          (
            sql_challenge_response_pair,
            challenge_response_pair_from_username,
            e,
            hash_absent db n f,
          )
          refl
    | inr (u, e, k) ↦
        rw
          (
            sql_challenge_response_pair,
            challenge_response_pair_from_username,
            e,
            hash_found db n u k,
            k.same_hash,
          )
          refl
  ]

  same_nonces :
      (registered_name assigned_name : Bytes)
      → sql_downgraded_user_nonce sha1 db registered_name assigned_name
        ≡ downgraded_user_nonce sha1 us registered_name assigned_name
  unfolding sql_downgraded_user_nonce downgraded_user_nonce
  same_nonces n assigned_name = elim (all n) [
    | inl (e, f) ↦ rw (sql_downgraded_user_nonce, downgraded_user_nonce, e, hash_absent db n f) refl
    | inr (u, e, k) ↦
        rw (sql_downgraded_user_nonce, downgraded_user_nonce, e, hash_found db n u k, k.same_hash)
          refl
  ]

  same_permissions : (n : Bytes) → sql_permissions db n ≡ user_permissions sha1 us n
  unfolding sql_permissions user_permissions
  same_permissions n = elim (all n) [
    | inl (e, f) ↦ rw (sql_permissions, user_permissions, e, f) refl
    | inr (u, e, k) ↦ rw (sql_permissions, user_permissions, e, k.has_id, k.has_level) k.same_level
  ]

-- If the tables of the SQL database hold exactly the users of a map, each with the hash that the map has in
-- hexadecimal stored in Base64 and with a number for the permissions, no query fails, and the hash function
-- gives bytes, then SqlDatabase answers every question of the server as InMemoryUserDb does.
pub sql_db_like_in_memory_db :
    (sha1 : Bytes → Bytes) (db : Database) (us : Users)
    → StoresAll db us
    → ((x : Bytes) → AreBytes (sha1 x))
    → sql_db sha1 db ≡ in_memory_db sha1 us
unfolding sql_db in_memory_db
sql_db_like_in_memory_db sha1 db us all bytes = λ i. record {
  contains_name = λ n. same_names sha1 db us all n i;
  password_correct = λ n password. same_passwords sha1 db us all bytes n password i;
  challenge_response_pair_from_username = λ random n. same_challenges sha1 db us all random n i;
  challenge_response_pair_from_secret = challenge_response_pair_from_secret sha1;
  downgraded_user_nonce = λ n assigned. same_nonces sha1 db us all n assigned i;
  permissions = λ n. same_permissions sha1 db us all n i;
}
