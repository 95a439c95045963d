-- ===== src/Tests/Accounts.antt =====
-- One account, in the tables of MySQL and in a map.
use widelands_metaserver.Base.{
  false, if◌then◌else◌, [], ◌∷◌, true, pos, ◌%◌, some, none, refl, ◌≡◌, arith, Bool-cases, inl, inr,
  if◌then◌else◌, Bytes, str, bytes_eq, length,
}
use widelands_metaserver.Metaserver.World.{superuser}
use widelands_metaserver.Metaserver.Main.{Outside}
use widelands_metaserver.Users.{hex, User, find_user, in_memory_db}
use widelands_metaserver.Users.Base64.{
  decode_string, decode_groups, skip_breaks, whole_group, padded_group, one_or_two, sextet,
}
use widelands_metaserver.Users.Sql.{Database, row, no_rows, permissions_from, sql_db}
use widelands_metaserver.Users.Tables.{Stores, StoresAll, sql_db_like_in_memory_db}

-- In place of SHA-1.
abbrev checksum : Bytes → Bytes
checksum bs = (length bs % 256) ∷ []

abbrev owner : Bytes
owner = b'o' ∷ []

abbrev account : User
account = record { password = hex (7 ∷ []); permissions = superuser }

abbrev database : Database
database = record {
  id = λ n. if bytes_eq owner n then row (pos 1) else no_rows;
  password = λ i. row (str "Bw==");
  permissions = λ i. row (pos 127);
}

decoded : (decode_string (str "TWFu") ≡ some (str "Man")) × (decode_string (str "TWE") ≡ none)
unfolding decode_string decode_groups skip_breaks str whole_group padded_group one_or_two sextet
decoded = (refl, refl)

stored : (n : Bytes) → bytes_eq owner n ≡ true → Stores database n account
unfolding decode_string permissions_from decode_groups skip_breaks str whole_group sextet
    padded_group one_or_two
stored n e = record {
  id = pos 1;
  golden = str "Bw==";
  hash = 7 ∷ [];
  level = pos 127;
  has_id = rw e refl;
  has_password = refl;
  decodes = refl;
  same_hash = refl;
  has_level = refl;
  same_level = refl;
}

all_stored : StoresAll database ((owner, account) ∷ [])
unfolding find_user
all_stored n = elim (Bool-cases (bytes_eq owner n)) [
  | inl e ↦ inr (account, rw e refl, stored n e)
  | inr e ↦ inl (rw e refl, rw e refl)
]

sql_db_like_in_memory_db_example :
    sql_db checksum database ≡ in_memory_db checksum ((owner, account) ∷ [])
sql_db_like_in_memory_db_example =
    sql_db_like_in_memory_db checksum database ((owner, account) ∷ []) all_stored
      (λ x. (omega arith, tt))

-- Nothing outside can be reached.
abbrev offline : Outside
offline = record { mysql = λ _. none; irc = λ _. false }
