-- ===== src/Metaserver/Main.antt =====
-- wlms/main.go: what the program is started with. The JSON and the flags have been read.
use widelands_metaserver.Base.{
  Bool, true, false, ◌||◌, ◌&&◌, ◌≡◌, refl, Option, none, some, [], if◌then◌else◌, Bytes, str,
  bytes_eq, bytes_eq_refl, Bool-cases, inl, inr, ◌∷◌,
}
use widelands_metaserver.Metaserver.World.{registered, unregistered, UserDb}
use widelands_metaserver.IrcBridge.{IrcBridge}
use widelands_metaserver.Users.{
  User, add_user, put_user, find_user, contains_name, password_hash, password_correct,
  user_permissions, in_memory_db,
}
use widelands_metaserver.Users.Sql.{Database, sql_db}

pub record Config : Type 0 where
  pub database : Bytes
  pub user : Bytes
  pub password : Bytes
  pub table : Bytes
  pub backend : Bytes
  pub irc_server : Bytes
  pub nickname : Bytes
  pub realname : Bytes
  pub channel : Bytes
  pub hostname : Bytes
  pub use_tls : Bool

-- The arguments of RunServer, and the bridge that was connected.
pub record Start : Type 0 where
  pub db : UserDb
  pub bridge : Option IrcBridge
  pub hostname : Bytes

-- The start of IRCBridge.Connect: without a nick or a name, or where the server cannot be reached, it ends
-- the program. The second argument is whether the server can be reached.
unfoldable pub connects : Config → Bool → Bool
connects cfg reachable =
    if bytes_eq cfg.nickname [] || bytes_eq cfg.realname [] then false else reachable

-- What the program finds outside: the database of MySQL, none where it cannot be opened, and whether the
-- IRC server of the configuration can be reached.
pub record Outside : Type 0 where
  pub mysql : Config → Option Database
  pub irc : Config → Bool

module _ (sha1 : Bytes → Bytes) where
  -- NewInMemoryDb, with the test user if it is asked for.
  unfoldable pub memory : Bool → UserDb
  memory testuser =
      in_memory_db sha1
        (if testuser then add_user sha1 (str "testuser") (str "test") registered [] else [])

  -- The database of a configuration.
  unfoldable pub database_of : Outside → Config → Bool → Option UserDb
  database_of outside cfg testuser =
      if bytes_eq cfg.backend (str "mysql")
      then (elim (outside.mysql cfg) [ none ↦ none | some db ↦ some (sql_db sha1 db) ])
      else some (memory testuser)

  unfoldable pub start_with : Outside → Config → Bool → Option Start
  start_with outside cfg testuser = elim (database_of outside cfg testuser) [
    | none ↦ none
    | some db ↦
        if connects cfg (outside.irc cfg)
        then some (record {
          db = db;
          bridge = some (record { nick = cfg.nickname; channel = cfg.channel });
          hostname = if bytes_eq cfg.hostname [] then str "localhost" else cfg.hostname;
        })
        else none
  ]

  -- main, with the path of the configuration, and what is read there, none for an error. A result none is a
  -- log.Fatal, which ends the program.
  unfoldable pub main : Outside → Bytes → Option Config → Bool → Option Start
  main outside [] config testuser =
      some (record { db = memory testuser; bridge = none; hostname = str "localhost" })
  main outside (_ ∷ _) none testuser = none
  main outside (_ ∷ _) (some cfg) testuser = start_with outside cfg testuser

-- The test user is found.
test_user_found : (u : User) → find_user (str "testuser") ((str "testuser", u) ∷ []) ≡ some u
unfolding find_user
test_user_found u = rw (bytes_eq_refl (str "testuser")) refl

-- Without a configuration the program starts with the database in memory, in which the test user, with the
-- password "test" and the rights of a registered user, is the only user if it is asked for, and which has
-- no user otherwise.
pub main-test_user :
    (sha1 : Bytes → Bytes) (outside : Outside) (config : Option Config) (testuser : Bool)
    (n : Bytes)
    → let users = memory sha1 testuser in
      (main sha1 outside [] config testuser
        ≡ some (record { db = users; bridge = none; hostname = str "localhost" }))
      × (users.contains_name n ≡ (testuser && bytes_eq (str "testuser") n))
      × (users.password_correct (str "testuser") (str "test") ≡ testuser)
      × (users.permissions (str "testuser") ≡ (if testuser then registered else unregistered))
unfolding main memory in_memory_db add_user put_user contains_name find_user password_correct
    password_hash user_permissions
main-test_user sha1 outside config true n =
    let u : User = record {
      password = password_hash sha1 (str "test");
      permissions = registered;
    } in
    let found = test_user_found u in
    (
      refl,
      elim (Bool-cases (bytes_eq (str "testuser") n)) [
        | inl e ↦ rw (contains_name, e) refl
        | inr e ↦ rw (contains_name, e) refl
      ],
      rw (password_correct, found) (bytes_eq_refl (password_hash sha1 (str "test"))),
      rw (user_permissions, found) refl,
    )
main-test_user sha1 outside config false n = (refl, refl, refl, refl)
