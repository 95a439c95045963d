-- ===== src/Metaserver/Login/Newcomer.antt =====
-- wlms/client.go: a client that logs in beside clients whose names are unique, and its listing.
use widelands_metaserver.Base.{
  true_ne_false, ℕ, Bool, true, false, none, List, [], ◌∷◌, ◌==◌, ==_refl, if◌then◌else◌, length,
  Bytes, ◌≡◌, refl, ap, ◌∙◌, arith, Bool-cases, inl, inr,
}
use widelands_metaserver.Packet.{Field}
use widelands_metaserver.Metaserver.World.{
  connected, is_irc, is_handshake, is_recently_disconnected, Client, Server, put_client,
}
use widelands_metaserver.Metaserver.Clients.{
  send_packet, set_state, add_client, has_client, contains, find_named,
}
use widelands_metaserver.Metaserver.Clients.Frame.{
  Keeps, Keeps-refl, Keeps-trans, Keeps-if, put_client-Keeps, send_packet-Keeps, set_state-Keeps,
  disconnect-Keeps,
}
use widelands_metaserver.Metaserver.Clients.Names.{
  on_irc, Unique, NamesUnique, Unique-push, find_named-Keeps, NamesUnique-Keeps,
}
use widelands_metaserver.Metaserver.Handler.{modify_client, system_chat}
use widelands_metaserver.Metaserver.Login.{name_of, refuse_logged_in, send_all, welcome, login_done}

-- A client that is not listed yet, beside clients whose names are unique.
pub record Newcomer (p : ℕ) (s : Server) : Type 0 where
  pub unique : NamesUnique s
  pub unlisted : contains p s.clients ≡ false
  pub player : is_irc (s.client_at p).permissions ≡ false
  pub irc_online :
      (q : ℕ)
      → is_irc (s.client_at q).permissions ≡ true
      → is_recently_disconnected (s.client_at q).state ≡ false
  pub no_irc_accounts : (n : Bytes) → is_irc (s.user_db.permissions n) ≡ false

-- It depends on these fields of the server alone.
pub Newcomer-of_fields :
    {p : ℕ} {s t : Server}
    → t.clients ≡ s.clients
    → t.client_at ≡ s.client_at
    → t.user_db ≡ s.user_db
    → Newcomer p s
    → Newcomer p t
Newcomer-of_fields l a d w = record {
  unique = rw (l, a) w.unique;
  unlisted = rw l w.unlisted;
  player = rw a w.player;
  irc_online = rw a w.irc_online;
  no_irc_accounts = rw d w.no_irc_accounts;
}

-- Who is not in a list does not matter to it.
pub find_named_unlisted :
    (p : ℕ) (c : Client) (b : Bool) (n : Bytes) (s : Server) (ps : List ℕ)
    → contains p ps ≡ false
    → find_named (put_client p c s).client_at b n ps ≡ find_named s.client_at b n ps
unfolding find_named contains put_client
find_named_unlisted p c b n s [] h = refl
find_named_unlisted p c b n s (q ∷ qs) h = ground (arith, find_named_unlisted p c b n s qs)

pub unlisted_cons :
    (p q : ℕ) (qs : List ℕ)
    → contains p (q ∷ qs) ≡ false
    → ((q == p) ≡ false) × (contains p qs ≡ false)
unfolding contains
unlisted_cons p q qs h = ground arith

pub put_client_ne :
    (p : ℕ) (c : Client) (s : Server) (q : ℕ)
    → (q == p) ≡ false
    → (put_client p c s).client_at q ≡ s.client_at q
unfolding put_client
put_client_ne p c s q h = rw h

Unique-unlisted :
    (p : ℕ) (c : Client) (s : Server) (ps : List ℕ)
    → contains p ps ≡ false
    → Unique s.client_at ps
    → Unique (put_client p c s).client_at ps
unfolding contains
Unique-unlisted p c s [] h u = tt
Unique-unlisted p c s (q ∷ qs) h u =
    let (ne, rest) = unlisted_cons p q qs h in
    (
      rw (put_client_ne p c s q ne, find_named_unlisted p c _ _ s qs rest) u.0,
      Unique-unlisted p c s qs rest u.1,
    )

put_player :
    (p : ℕ) (c : Client) (s : Server)
    → is_irc c.permissions ≡ false
    → is_irc ((put_client p c s).client_at p).permissions ≡ false
unfolding put_client
put_player p c s h = rw (==_refl p) h

put_irc_online :
    (p : ℕ) (c : Client) (s : Server) (q : ℕ)
    → is_irc c.permissions ≡ false
    → (is_irc (s.client_at q).permissions ≡ true
        → is_recently_disconnected (s.client_at q).state ≡ false)
    → is_irc ((put_client p c s).client_at q).permissions ≡ true
    → is_recently_disconnected ((put_client p c s).client_at q).state ≡ false
unfolding put_client
put_irc_online p c s q h old i = elim (Bool-cases (q == p)) [
  | inl e ↦ absurd (true_ne_false (rw e at i) h)
  | inr e ↦ rw e (old (rw e at i))
]

-- A write to the newcomer.
pub modify-Newcomer :
    (p : ℕ) (f : Client → Client) (s : Server)
    → is_irc (f (s.client_at p)).permissions ≡ false
    → Newcomer p s
    → Newcomer p (modify_client p f s)
unfolding modify_client
modify-Newcomer p f s h w = record {
  unique = Unique-unlisted p _ s s.clients w.unlisted w.unique;
  unlisted = unfold put_client in w.unlisted;
  player = put_player p _ s h;
  irc_online = λ q i. put_irc_online p _ s q h (w.irc_online q) i;
  no_irc_accounts = unfold put_client in w.no_irc_accounts;
}

pub has_client_unlisted :
    (p : ℕ) (f : Client → Client) (n : Bytes) (s : Server)
    → contains p s.clients ≡ false
    → has_client n (modify_client p f s) ≡ has_client n s
unfolding has_client modify_client
has_client_unlisted p f n s h = find_named_unlisted p _ false n s s.clients h

pub add_client-NamesUnique :
    (p : ℕ) (s : Server)
    → NamesUnique s
    → find_named s.client_at (on_irc (s.client_at p)) (name_of p s) s.clients ≡ none
    → NamesUnique (add_client p s)
unfolding add_client
add_client-NamesUnique p s u free = elim (Bool-cases (is_irc (s.client_at p).permissions)) [
  | inl e ↦ rw e (Unique-push s.client_at s.clients p u free)
  | inr e ↦ rw e (Unique-push s.client_at s.clients p u free)
]

pub send_all-Keeps : (p : ℕ) (ds : List (List Field)) (s : Server) → Keeps s (send_all p ds s)
unfolding send_all
send_all-Keeps p [] s = Keeps-refl s
send_all-Keeps p (d ∷ ds) s = Keeps-trans (send_packet-Keeps p d s) (send_all-Keeps p ds _)

pub refuse-Keeps : (p : ℕ) (s : Server) → Keeps s (refuse_logged_in p s)
unfolding refuse_logged_in
refuse-Keeps p s = Keeps-trans (send_packet-Keeps p _ s) (disconnect-Keeps p _)

-- What follows the listing in a login.
abbrev pub after_listing : ℕ → Server → Server
after_listing p s =
    let s₁ = set_state p connected s in
    modify_client p (λ c'. record c' { replace_candidates = none })
      (if length s₁.motd == 0 then s₁ else send_packet p (system_chat s₁.motd) s₁)

pub after_listing-Keeps : (p : ℕ) (s : Server) → Keeps s (after_listing p s)
unfolding modify_client
after_listing-Keeps p s = Keeps-trans (set_state-Keeps p connected s) (
    Keeps-trans
      (Keeps-if (length (set_state p connected s).motd == 0) (Keeps-refl _)
        (send_packet-Keeps p _ _))
      (put_client-Keeps p _ _ refl refl))

-- The last step of a login lists the newcomer: its name must be nobody else's.
pub login_done-NamesUnique :
    (p : ℕ) (s : Server)
    → Newcomer p s
    → has_client (name_of p s) s ≡ none
    → NamesUnique (login_done p s)
unfolding login_done has_client
login_done-NamesUnique p s w free = elim (Bool-cases (is_handshake (s.client_at p).state)) [
  | inr off ↦ rw off (NamesUnique-Keeps (refuse-Keeps p s) w.unique)
  | inl on ↦
      let k = send_all-Keeps p (welcome (s.client_at p) s.now) s in
      rw on (
        NamesUnique-Keeps (after_listing-Keeps p _) (
          add_client-NamesUnique p _ (NamesUnique-Keeps k w.unique) (
            rw (k.rights p, k.names p, k.clients, w.player)
              (find_named-Keeps k false (name_of p s) s.clients ∙ free))))
]

pub modify_client_self :
    (p : ℕ) (f : Client → Client) (s : Server)
    → (modify_client p f s).client_at p ≡ f (s.client_at p)
unfolding modify_client put_client
modify_client_self p f s = rw (==_refl p)

pub name_of-modify_client :
    (p : ℕ) (f : Client → Client) (s : Server)
    → name_of p (modify_client p f s) ≡ (f (s.client_at p)).user_name
name_of-modify_client p f s = ap (λ c. c.user_name) (modify_client_self p f s)

-- A name that was free is free for the newcomer who takes it.
pub modify_free :
    (p : ℕ) (f : Client → Client) (s : Server)
    → Newcomer p s
    → has_client (f (s.client_at p)).user_name s ≡ none
    → has_client (name_of p (modify_client p f s)) (modify_client p f s) ≡ none
modify_free p f s w free =
    ap (λ n. has_client n (modify_client p f s)) (name_of-modify_client p f s)
    ∙ has_client_unlisted p f _ s w.unlisted
    ∙ free
