-- ===== src/Metaserver/Start.antt =====
-- wlms/server.go: CreateServerUsing, the addresses of the relay and the connection to it.
use widelands_metaserver.Base.{
  ◌||◌, Option, none, some, List, [], ◌∷◌, ◌++◌, if◌then◌else◌, bytes_eq, ◌≡◌, refl,
}
use widelands_metaserver.Metaserver.World.{Conn, Client, Game, AddressPair, UserDb, Relay, Server}
use widelands_metaserver.Metaserver.Run.{create_server}

-- The loop over the addresses of the host: of each kind, the last one stays.
unfoldable pub select_addresses : List Conn → AddressPair → AddressPair
select_addresses [] a = a
select_addresses (c ∷ cs) a =
    select_addresses cs (if c.is_ipv4 then record a { ipv4 = c.ip } else record a { ipv6 = c.ip })

-- What LookupIP gives, none for an error. A result none is a log.Fatal.
unfoldable pub relay_addresses : Option (List Conn) → Option AddressPair
relay_addresses none = none
relay_addresses (some ips) =
    let a = select_addresses ips (record { ipv4 = []; ipv6 = [] }) in
    if bytes_eq a.ipv4 [] || bytes_eq a.ipv6 [] then none else some a

-- CreateServerUsing.
unfoldable pub create_server_using :
    UserDb → Relay → Option (List Conn) → Client → Game → Option Server
create_server_using db relay ips blank_client blank_game = elim (relay_addresses ips) [
  | none ↦ none
  | some a ↦ some (create_server db relay a blank_client blank_game)
]

select_addresses-append :
    (cs ds : List Conn) (a : AddressPair)
    → select_addresses (cs ++ ds) a ≡ select_addresses ds (select_addresses cs a)
unfolding select_addresses
select_addresses-append [] ds a = refl
select_addresses-append (c ∷ cs) ds a = select_addresses-append cs ds _
