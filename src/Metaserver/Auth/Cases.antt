-- ===== src/Metaserver/Auth/Cases.antt =====
-- wlms/client.go: what the handlers that let a client in have in common.
use widelands_metaserver.Base.{if_cases, ℕ, some, Bytes, refl, Option-cases, inl, inr, ℤ, lt_ℤ}
use widelands_metaserver.Packet.{Packet, Parsed, ok, err, read_string}
use widelands_metaserver.Metaserver.World.{Server, crash}
use widelands_metaserver.Metaserver.Clients.Names.{NamesUnique}
use widelands_metaserver.Metaserver.Banned.{is_banned_client}
use widelands_metaserver.Metaserver.Handler.{CmdError, Reply, with_string}
use widelands_metaserver.Metaserver.Login.Newcomer.{Newcomer, Newcomer-of_fields}
use widelands_metaserver.Metaserver.Auth.{refuse_banned}

abbrev pub After : Reply → Type 0
After r = NamesUnique r.1

-- A string of the packet that is read, or not.
pub string_cases :
    (P : Reply → Type 0) (e : Bytes → CmdError) (pkg : Packet) (s : Server)
    (k : Bytes → Packet → Reply)
    → ((m : Bytes) → P (some (e m), s))
    → ((v : Bytes) (pkg' : Packet) → P (k v pkg'))
    → P (with_string e pkg s k)
string_cases P e pkg s k bad good = go (read_string pkg)
  where
    go :
        (r : Parsed (Bytes × Packet))
        → P (elim r [ err m ↦ (some (e m), s) | ok (v, pkg') ↦ k v pkg' ])
    go (err m) = bad m
    go (ok (v, pkg')) = good v pkg'

-- An integer of the packet that is read, or not; and a Boolean.
pub parsed_cases {ℓ} :
    {A : Type ℓ} (P : Reply → Type 0) (r : Parsed (A × Packet)) (f : Bytes → Reply)
    (k : A → Packet → Reply)
    → ((m : Bytes) → P (f m))
    → ((v : A) (pkg : Packet) → P (k v pkg))
    → P (elim r [ err m ↦ f m | ok (v, pkg) ↦ k v pkg ])
parsed_cases P (err m) f k bad good = bad m
parsed_cases P (ok (v, pkg)) f k bad good = good v pkg

pub refuse_banned-NamesUnique : (v : ℤ) (s : Server) → NamesUnique s → After (refuse_banned v s)
unfolding refuse_banned
refuse_banned-NamesUnique v s u = if_cases After (lt_ℤ v _) (λ _. u) (λ _. u)

pub is_banned_client-Newcomer :
    (p q : ℕ) (s : Server) → Newcomer p s → Newcomer p (is_banned_client q s).1
unfolding is_banned_client crash
is_banned_client-Newcomer p q s w = elim (Option-cases (s.client_at q).conn) [
  | inl e ↦ rw (e, is_banned_client) (Newcomer-of_fields refl refl refl w)
  | inr (a, e) ↦ rw (e, is_banned_client) (Newcomer-of_fields refl refl refl w)
]
