-- ===== src/Metaserver/Auth/Relogin.antt =====
-- wlms/client.go: RELOGIN keeps the names of the listed clients unique.
use widelands_metaserver.Base.{
  if_cases, ℕ, true, false, not, ◌&&◌, ◌||◌, [], ◌∷◌, Bytes, bytes_eq, ◌≡◌, refl, ◌∙◌, Option-cases,
  inl, inr, ℤ, le_ℤ, eq_ℤ, str,
}
use widelands_metaserver.Packet.{Packet, read_int, read_bool, text}
use widelands_metaserver.Metaserver.World.{
  handshake, connected, is_irc, is_handshake, is_recently_disconnected, Client, Server,
}
use widelands_metaserver.Metaserver.Clients.{remove_client, has_client, contains}
use widelands_metaserver.Metaserver.Clients.Frame.{send_packet-Keeps, set_state-Keeps}
use widelands_metaserver.Metaserver.Clients.Names.{NamesUnique, NamesUnique-Keeps, find_named-Keeps}
use widelands_metaserver.Metaserver.Clients.Lookup.{find_named-some}
use widelands_metaserver.Metaserver.Banned.{is_banned_client}
use widelands_metaserver.Metaserver.Handler.{critical_cmd_packet_error, modify_client, build20}
use widelands_metaserver.Metaserver.Login.{name_of}
use widelands_metaserver.Metaserver.Login.Newcomer.{
  Newcomer, modify-Newcomer, add_client-NamesUnique,
}
use widelands_metaserver.Metaserver.Login.Names.{name_freed, remove_client-Newcomer}
use widelands_metaserver.Metaserver.Login.Waiting.{wait_for_client-Keeps}
use widelands_metaserver.Metaserver.Auth.{
  successful_relogin, relogin_found, relogin_read, handle_relogin,
}
use widelands_metaserver.Metaserver.Auth.Cases.{
  After, string_cases, refuse_banned-NamesUnique, is_banned_client-Newcomer, parsed_cases,
}

successful_relogin-NamesUnique :
    (p old : ℕ) (f : Client → Client) (s : Server)
    → Newcomer p s
    → contains old s.clients ≡ true
    → is_irc (s.client_at old).permissions ≡ false
    → is_irc (f (s.client_at p)).permissions ≡ false
    → (f (s.client_at p)).user_name ≡ name_of old s
    → NamesUnique (successful_relogin p old (modify_client p f s))
unfolding successful_relogin has_client
successful_relogin-NamesUnique p old f s w inside player mine e =
    let t = remove_client old (modify_client p f s) in
    let w' : Newcomer p t = remove_client-Newcomer p old _ (modify-Newcomer p f s mine w) in
    let k = send_packet-Keeps p (text (str "RELOGIN") ∷ []) t in
    NamesUnique-Keeps (set_state-Keeps p connected _) (
      add_client-NamesUnique p _ (NamesUnique-Keeps k w'.unique) (
        rw (k.rights p, k.names p, k.clients, w'.player)
          (find_named-Keeps k false (name_of p t) t.clients
            ∙ name_freed p old f s w inside player e)))

relogin_found-NamesUnique :
    (p old : ℕ) (v : ℤ) (build n : Bytes) (s : Server)
    → Newcomer p s
    → contains old s.clients ≡ true
    → is_irc (s.client_at old).permissions ≡ false
    → After (relogin_found p old v build n s)
unfolding relogin_found
relogin_found-NamesUnique p old v build n s w inside player =
    let o = s.client_at old in
    let f = λ (c : Client). record c {
      time_last_message = s.now;
      protocol_version = o.protocol_version;
      permissions = o.permissions;
      user_name = o.user_name;
      build_id = o.build_id;
      game = o.game;
      nonce = o.nonce;
    } in
    let s' = modify_client p f s in
    let w' : Newcomer p s' = modify-Newcomer p f s player w in
    let g = λ (c : Client). record c { state = handshake } in
    if_cases After
      (not (eq_ℤ v o.protocol_version && (bytes_eq build o.build_id && bytes_eq n o.nonce)))
      (λ _. w.unique)
      λ _.
        if_cases After (is_recently_disconnected (s'.client_at old).state)
          (λ _. successful_relogin-NamesUnique p old f s w inside player player refl)
          (λ _.
            NamesUnique-Keeps (wait_for_client-Keeps p old _ (modify_client p g s'))
              (modify-Newcomer p g s' w'.player w').unique)

relogin_read-NamesUnique :
    (p : ℕ) (v : ℤ) (name build n : Bytes) (s : Server)
    → Newcomer p s
    → After (relogin_read p v name build n s)
unfolding relogin_read
relogin_read-NamesUnique p v name build n s w =
    let t = (is_banned_client p s).1 in
    let w' : Newcomer p t = is_banned_client-Newcomer p p s w in
    if_cases After (is_banned_client p s).0
      (λ _. refuse_banned-NamesUnique (t.client_at p).protocol_version t w'.unique)
      (λ _. elim (Option-cases (has_client name t)) [
        | inl e ↦ rw e w'.unique
        | inr (old, e) ↦
            let (inside, _, player) =
              find_named-some t.client_at false name t.clients old (unfold has_client in e) in
            rw e (relogin_found-NamesUnique p old v build n t w' inside player)
      ])

pub handle_relogin-NamesUnique :
    (p : ℕ) (pkg : Packet) (s : Server) → Newcomer p s → NamesUnique (handle_relogin p pkg s).1
unfolding handle_relogin
handle_relogin-NamesUnique p pkg s w =
    if_cases After (not (is_handshake (s.client_at p).state)) (λ _. w.unique)
      λ _.
        parsed_cases After (read_int pkg) _ _ (λ m. w.unique)
          λ v pkg₁.
            string_cases After critical_cmd_packet_error pkg₁ s _ (λ m. w.unique)
              λ name pkg₂.
                string_cases After critical_cmd_packet_error pkg₂ s _ (λ m. w.unique)
                  λ build pkg₃.
                    parsed_cases After (read_bool pkg₃) _ _ (λ m. w.unique)
                      λ r pkg₄.
                        if_cases After (r || le_ℤ build20 v)
                          (λ _.
                            string_cases After critical_cmd_packet_error pkg₄ s _ (λ m. w.unique)
                              λ n _. relogin_read-NamesUnique p v name build n s w)
                          (λ _. relogin_read-NamesUnique p v name build [] s w)
