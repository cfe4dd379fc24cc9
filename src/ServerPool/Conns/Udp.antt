-- ===== src/ServerPool/Conns/Udp.antt =====
-- handler.go: what the server does on each message of a client about a UDP connection, and what the
-- goroutine that reads its socket does. net is an argument.
pub mod Copies
use xtunnel.Base.{
  ℕ, ◌<◌, Bool, true, false, not, ◌&&◌, ◌||◌, Option, none, some, List, [], ◌∷◌, ◌==◌, ltb,
  if◌then◌else◌, length, Bytes,
}
use xtunnel.Base.Dict.{get, put, text_eq}
use xtunnel.Protocol.Message.{msg_conn_status, msg_udp_data}
use xtunnel.ServerPool.Conns.{
  absent, opened, is_absent, is_open, Conn, Server, send_downlink, unregister_conn,
}
use xtunnel.ServerPool.Conns.Handlers.{status_err, inbound_client, publish, announce_uplink}

-- The state that handleUDPConnect publishes: its socket is open from the start.
abbrev pub new_udp_conn : Bytes → ℕ → Bytes → Bytes → ℕ → Conn
new_udp_conn client ch id target strategy = record {
  conn_id = id;
  target = target;
  uplink = ch;
  downlink = 0;
  strategy = strategy;
  client = client;
  connected = true;
  closed = false;
  socket = absent;
  udp = opened;
  pending = [];
  written = [];
}

-- handleUDPConnect up to its first look at the registry: the state to publish once it has a socket,
-- or nothing.
unfoldable pub begin_udp_connect : Bytes → ℕ → Bytes → Bytes → Server → Option Conn × Server
begin_udp_connect client ch id [] s = (none, (send_downlink id msg_conn_status status_err [] s).1)
begin_udp_connect client ch id (strategy ∷ target) s = elim (get id s.conns) [
  | some a ↦ (none, s)
  | none ↦ (some (new_udp_conn (inbound_client client ch s) ch id target strategy), s)
]

-- Where net.ListenUDP fails.
unfoldable pub listen_failed : Conn → Server → Server
listen_failed c s = (send_downlink c.conn_id msg_conn_status status_err [] s).1

-- The second look at the registry, and the message that follows: another goroutine may have
-- published a state for the same id.
unfoldable pub publish_udp : Conn → Server → Server
publish_udp c s = elim (get c.conn_id s.conns) [
  | some a ↦ s
  | none ↦ announce_uplink c.conn_id c.uplink (publish c s)
]

abbrev pub end_udp_connect : Bool → Option Conn × Server → Server
end_udp_connect listens (none, s) = s
end_udp_connect listens (some c, s) = if listens then publish_udp c s else listen_failed c s

-- Without another goroutine in between.
unfoldable pub handle_udp_connect : Bool → Bytes → ℕ → Bytes → Bytes → Server → Server
handle_udp_connect listens client ch id meta s =
    end_udp_connect listens (begin_udp_connect client ch id meta s)

-- A datagram that WriteToUDP is called with: the address, and the payload.
abbrev pub Datagram : Type 0
Datagram = Bytes × Bytes

-- ResolveWithStrategy and net.ResolveUDPAddr, which fails on some addresses.
abbrev pub Resolver : Type 0
Resolver = Bytes → ℕ → Option Bytes

abbrev pub udp_target : Conn → Bytes → Bytes
udp_target c meta = if length meta == 0 then c.target else meta

-- The datagram that leaves: a socket that is closed refuses it. The state stays as it is.
unfoldable pub handle_udp_data : Resolver → ℕ → Bytes → Bytes → Bytes → Server → Option Datagram
handle_udp_data resolve ch id meta payload s = elim (get id s.conns) [
  | none ↦ none
  | some a ↦
      let c = s.heap a in
      if is_absent c.udp || (ltb 0 c.uplink && not (ch == c.uplink))
      then none
      else elim (resolve (udp_target c meta) c.strategy) [
        | none ↦ none
        | some address ↦ if is_open c.udp then some (address, payload) else none
      ]
]

unfoldable pub handle_udp_close : Bytes → Server → Server
handle_udp_close id s = unregister_conn id s

-- The test at the head of forwardUDPToClient's loop.
abbrev pub keeps_reading : Conn → Bool
keeps_reading c = c.connected && not (is_absent c.udp)

-- A datagram that the socket has read.
unfoldable pub forward_udp : ℕ → Bytes → Bytes → Server → Server
forward_udp a reply_addr payload s =
    if length payload == 0
    then s
    else (send_downlink (s.heap a).conn_id msg_udp_data reply_addr payload s).1

-- Its deferred call.
unfoldable pub forward_udp_end : ℕ → Server → Server
forward_udp_end a s = unregister_conn (s.heap a).conn_id s
