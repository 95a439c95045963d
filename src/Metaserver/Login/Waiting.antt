-- ===== src/Metaserver/Login/Waiting.antt =====
-- wlms/client.go: what a login leaves alone that waits for another client.
use widelands_metaserver.Base.{ℕ, true, some, [], ◌∷◌, is_some, ◌≡◌, refl, str}
use widelands_metaserver.Packet.{text}
use widelands_metaserver.Metaserver.World.{is_connected, Client, Server, crash}
use widelands_metaserver.Metaserver.Clients.Frame.{
  Keeps, Keeps-refl, Keeps-trans, Keeps-if, Keeps-of_fields, put_client-Keeps, send_packet-Keeps,
}
use widelands_metaserver.Metaserver.Handler.{modify_client, restart_ping_loop}
use widelands_metaserver.Metaserver.Login.{name_of, wait_for_client}

pub modify-Keeps :
    (p : ℕ) (f : Client → Client) (s : Server)
    → (f (s.client_at p)).user_name ≡ name_of p s
    → (f (s.client_at p)).permissions ≡ (s.client_at p).permissions
    → Keeps s (modify_client p f s)
unfolding modify_client
modify-Keeps p f s n r = put_client-Keeps p (f (s.client_at p)) s n r

pub restart_ping_loop-Keeps : (p time : ℕ) (s : Server) → Keeps s (restart_ping_loop p time s)
unfolding restart_ping_loop crash
restart_ping_loop-Keeps p time s =
    let k =
      Keeps-if (is_connected (s.client_at p).state)
        (Keeps-trans (send_packet-Keeps p (text (str "PING") ∷ []) s)
          (modify-Keeps p (λ c. record c { waiting_for_pong = true }) _ refl refl))
        (Keeps-refl s) in
    Keeps-if (is_some (s.client_at p).start_to_ping_timer)
      (Keeps-trans k
        (modify-Keeps p (λ c. record c { start_to_ping_timer = some time }) _ refl refl))
      (Keeps-trans k (Keeps-of_fields refl refl refl refl refl refl))

pub wait_for_client-Keeps : (p old time : ℕ) (s : Server) → Keeps s (wait_for_client p old time s)
unfolding wait_for_client
wait_for_client-Keeps p old time s =
    Keeps-trans (restart_ping_loop-Keeps old time s)
      (modify-Keeps old (λ o. record o { pending_login = some p }) _ refl refl)
