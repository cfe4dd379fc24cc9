-- ===== src/ServerPool/Conns/Udp/Copies.antt =====
-- handler.go: a client broadcasts the request for a UDP connection, and its data until it knows the
-- uplink, over all of its channels. What the copies come to.
use xtunnel.Base.{ℕ, ◌≡◌, Bool, true, Option, none, some, List, [], ◌∷◌, if◌then◌else◌, Bytes}
use xtunnel.Base.Dict.{get, text_eq}
use xtunnel.ServerPool.Conns.{is_open, Conn, Server}
use xtunnel.ServerPool.Conns.Handlers.{inbound_client}
use xtunnel.ServerPool.Conns.Udp.{
  new_udp_conn, handle_udp_connect, Datagram, Resolver, handle_udp_data,
}

-- The copies of a request in the order of their arrival: the channel of each, and whether
-- net.ListenUDP succeeds for it.
unfoldable pub hear_connect : Bytes → Bytes → Bytes → List (ℕ × Bool) → Server → Server
hear_connect client id meta [] s = s
hear_connect client id meta ((ch, listens) ∷ copies) s =
    hear_connect client id meta copies (handle_udp_connect listens client ch id meta s)

-- The channel of the first copy for which it succeeds.
abbrev pub first_listening : List (ℕ × Bool) → Option ℕ
first_listening [] = none
first_listening ((ch, listens) ∷ copies) = if listens then some ch else first_listening copies

abbrev pub when_some : Option Datagram → List Datagram → List Datagram
when_some none sent = sent
when_some (some d) sent = d ∷ sent

-- The datagrams that leave for the copies of a frame in the order of their arrival.
unfoldable pub hear_data : Resolver → Bytes → Bytes → List ℕ → Server → List Datagram
hear_data resolve id payload [] s = []
hear_data resolve id payload (ch ∷ channels) s =
    when_some (handle_udp_data resolve ch id [] payload s) (hear_data resolve id payload channels s)

-- The first copy makes the connection.
abbrev first : Bytes → ℕ → Bytes → ℕ → Bytes → Server → Conn
first client ch id strategy target s =
    new_udp_conn (inbound_client client ch s) ch id target strategy

abbrev pub only_if : Bool → Datagram → List Datagram
only_if b d = if b then d ∷ [] else []

-- The connection that a request makes: where it is, and what it is like.
abbrev pub IsMade : Bytes → Bytes → ℕ → ℕ → ℕ → Server → Type 0
IsMade id target strategy ch a t =
    (get id t.conns ≡ some a)
    × ((t.heap a).uplink ≡ ch)
    × ((t.heap a).target ≡ target)
    × ((t.heap a).strategy ≡ strategy)
    × (is_open (t.heap a).udp ≡ true)
