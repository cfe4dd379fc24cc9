-- ===== src/ServerPool/Conns.antt =====
-- handler.go and server_pool.go: the connections that the server carries, their states by address,
-- and sending to a client. A goroutine's step is one critical section.
pub mod Handlers
pub mod Steps
pub mod Begins
pub mod Moves
pub mod Safety
pub mod Ends
pub mod Data
pub mod Udp
pub mod Cleanup
mod Tests
use xtunnel.Base.{
  ℕ, zero, suc, ◌+◌, ◌-◌, ◌*◌, Bool, true, false, not, ◌&&◌, ◌||◌, Option, none, some, List, [],
  ◌∷◌, ◌++◌, ◌==◌, ltb, leb, if◌then◌else◌, length, take, keep, map, Bytes, bytes_eq,
}
use xtunnel.Base.Dict.{get, put, delete, text_eq}
use xtunnel.Protocol.Message.{MessageType, encode_message}
use xtunnel.HotPairTable.{HotPairTable}

-- `targetConn` and `targetUDP`: nil, open, or closed by unregisterConn.
pub data Socket : Type 0 where
  absent opened shut : Socket

abbrev pub is_absent : Socket → Bool
is_absent absent = true
is_absent _ = false

abbrev pub is_open : Socket → Bool
is_open opened = true
is_open _ = false

abbrev pub shut_socket : Socket → Socket
shut_socket absent = absent
shut_socket opened = shut
shut_socket shut = shut

-- ServerConnState. `written` is what the target's TCP socket has taken so far.
pub record Conn : Type 0 where
  pub conn_id : Bytes
  pub target : Bytes
  pub uplink : ℕ
  pub downlink : ℕ
  pub strategy : ℕ
  pub client : Bytes
  pub connected : Bool
  pub closed : Bool
  pub socket : Socket
  pub udp : Socket
  pub pending : List Bytes
  pub written : List Bytes

-- ServerWSConn, as far as routing reads it.
pub record Channel : Type 0 where
  pub client : Bytes
  pub ch : ℕ
  pub closed : Bool

-- A call of asyncWrite.
pub record Frame : Type 0 where
  pub client : Bytes
  pub ch : ℕ
  pub bytes : Bytes

-- `dialing` are the connections whose connectTarget has begun and not dialled yet.
pub record Server : Type 0 where
  pub heap : ℕ → Conn
  pub next : ℕ
  pub conns : List (Bytes × ℕ)
  pub channels : Bytes → ℕ → Option Channel
  pub sockets : List Channel
  pub hot_pairs : HotPairTable
  pub dialing : List ℕ
  pub sent : List Frame

abbrev pub at_address : ℕ → Conn → (ℕ → Conn) → ℕ → Conn
at_address a c h b = if b == a then c else h b

abbrev pub set_conn : ℕ → Conn → Server → Server
set_conn a c s = record s { heap = at_address a c s.heap }

-- `p.clientChConns[clientID][chID]` is there and not closed.
unfoldable pub channel_alive : Bytes → ℕ → Server → Bool
channel_alive client ch s = elim (s.channels client ch) [ none ↦ false | some w ↦ not w.closed ]

-- `false` is an error.
unfoldable pub send_to_channel : Bytes → ℕ → Bytes → Server → Bool × Server
send_to_channel client ch bytes s =
    if channel_alive client ch s
    then (
      true,
      record s { sent = s.sent ++ (record { client = client; ch = ch; bytes = bytes } ∷ []) },
    )
    else (false, s)

-- An empty client means all clients.
abbrev pub is_addressed : Bytes → Channel → Bool
is_addressed client w = not w.closed && (length client == 0 || bytes_eq w.client client)

unfoldable pub broadcast_write_to_client : Bytes → Bytes → Server → Bool × Server
broadcast_write_to_client client bytes s =
    let active = keep (is_addressed client) s.sockets in
    if length active == 0 then (false, s) else (
      true,
      record s {
        sent =
            s.sent
            ++ map (λ (w : Channel). record { client = w.client; ch = w.ch; bytes = bytes }) active;
      },
    )

unfoldable pub send_downlink : Bytes → MessageType → Bytes → Bytes → Server → Bool × Server
send_downlink id kind meta payload s = elim (get id s.conns) [
  | none ↦ (false, s)
  | some a ↦
      let c = s.heap a in
      let bytes = encode_message kind id meta payload in
      if ltb 0 c.downlink
      then send_to_channel c.client c.downlink bytes s
      else broadcast_write_to_client c.client bytes s
]

-- The part of unregisterConn that holds the connection's lock. The sockets are closed where the
-- connection was connected, and a connection that is closed already is left as it is.
abbrev pub shut_conn : Conn → Conn
shut_conn c = if c.closed then c else record c {
  closed = true;
  connected = false;
  socket = if c.connected then shut_socket c.socket else c.socket;
  udp = if c.connected then shut_socket c.udp else c.udp;
}

unfoldable pub unregister_conn : Bytes → Server → Server
unregister_conn id s = elim (get id s.conns) [
  | none ↦ s
  | some a ↦ set_conn a (shut_conn (s.heap a)) (record s { conns = delete id s.conns })
]
