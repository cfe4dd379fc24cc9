-- ===== src/ClientPool/Registry.antt =====
-- pool.go: the connections of the client, by their IDs. An operation on one connection maps the entry
-- that p.conns has for it, or none, to the entry behind it and to what it does outside the map.
pub mod Selection
pub mod Downlink
pub mod Cleanup
pub mod Release
use xtunnel.Base.{
  is_empty, ℕ, zero, suc, ◌+◌, ◌%◌, ◌^◌, ◌≤◌, ◌<◌, Bool, true, false, not, ◌&&◌, ◌||◌, Option, none,
  some, List, [], ◌∷◌, ◌++◌, ltb, leb, ◌==◌, if◌then◌else◌, length, any, Bytes, bytes_eq, codes,
}
use xtunnel.Base.Dict.{text_eq, get, put, delete}
use xtunnel.Protocol.Message.{encode_message, msg_tcp_connect, msg_udp_connect}

-- protocol.PrebindTarget
abbrev pub prebind_target : Bytes
prebind_target = codes "x-tunnel.prebind"

-- A pair that PairWarmer has handed out: its address, and the fields that are read of it.
pub record PairRef : Type 0 where
  pub address : ℕ
  pub uplink_ch_id : ℕ
  pub downlink_ch_id : ℕ

-- The socket and the sink are known by whether they are set. `connected` is none where the channel of
-- that name is nil, and tells otherwise whether it holds a signal. Channel IDs start at 1.
pub record ConnState : Type 0 where
  pub target : Bytes
  pub has_tcp_conn : Bool
  pub has_udp_sink : Bool
  pub connected : Option Bool
  pub req_type : Bytes
  pub uplink : ℕ
  pub downlink : ℕ
  pub last_ch : ℕ
  pub start : ℕ
  pub client_addr : Bytes
  pub is_closed : Bool
  pub pair : Option PairRef

abbrev pub new_state : ConnState
new_state = record {
  target = [];
  has_tcp_conn = false;
  has_udp_sink = false;
  connected = none;
  req_type = [];
  uplink = 0;
  downlink = 0;
  last_ch = 0;
  start = 0;
  client_addr = [];
  is_closed = false;
  pair = none;
}

-- What an operation does outside the map.
pub data Effect : Type 0 where
  wrote : ℕ → Bytes → Effect
  broadcast : Bytes → Effect
  closed_tcp_conn : Effect
  closed_udp_sink : Effect
  released : PairRef → Effect
  invalidated : ℕ → Effect
  delivered : ℕ → Bytes → Effect
  delivered_udp : ℕ → Bytes → Bytes → Effect
  prebound : ℕ → ℕ → Effect
  pressed : ℕ → Effect
  reset : ℕ → Effect
  reversed : Effect

abbrev pub Outcome : Type 0
Outcome = Option ConnState × List Effect

abbrev pub or_new : Option ConnState → ConnState
or_new none = new_state
or_new (some st) = st

abbrev pub is_prebind : Bytes → Bool
is_prebind target = bytes_eq target prebind_target

abbrev pub or_else : Option Bytes → Bytes → Bytes
or_else none text = text
or_else (some addr) text = addr

abbrev register_tcp : Bytes → Bool → Option Bytes → ℕ → Bytes → Option ConnState → ConnState
register_tcp target has_tcp_conn addr now req_type o =
    let st = or_new o in
    record st {
      has_tcp_conn = has_tcp_conn;
      target = target;
      connected = some false;
      start = now;
      req_type = if is_empty req_type then st.req_type else req_type;
      client_addr = or_else addr st.client_addr;
      uplink = 0;
      downlink = 0;
      last_ch = 0;
      is_closed = false;
    }

abbrev pub close_tcp : ConnState → List Effect
close_tcp st = if st.has_tcp_conn then closed_tcp_conn ∷ [] else []

abbrev pub close_udp : ConnState → List Effect
close_udp st = if st.has_udp_sink then closed_udp_sink ∷ [] else []

abbrev pub release : Option PairRef → List Effect
release none = []
release (some pair) = released pair ∷ []

unfoldable pub unregister : Option ConnState → Outcome
unregister none = (none, [])
unregister (some st) =
    if st.is_closed
    then (some st, [])
    else if is_prebind st.target
    then (none, [])
    else (none, close_tcp st ++ (close_udp st ++ release st.pair))

-- The request for a target: the IP strategy's byte and the target.
abbrev pub connect_meta : ℕ → Bytes → Bytes
connect_meta ip_strategy target = (ip_strategy % 256) ∷ target

-- The end of a broadcast that `sent` channels took.
abbrev pub broadcast_request : Bytes → ℕ → ConnState → Outcome
broadcast_request msg sent st =
    let gone = unregister (some st) in
    if sent == 0 then (gone.0, broadcast msg ∷ gone.1) else (some st, broadcast msg ∷ [])

-- The unicast over the pair's uplink, and the broadcast behind it where it fails.
abbrev pub request_over : Bytes → Bool → ℕ → ConnState → Option PairRef → Outcome
request_over msg direct_ok sent st none = broadcast_request msg sent st
request_over msg direct_ok sent st (some pair) =
    let b = broadcast_request msg sent (record st { pair = none; uplink = 0 }) in
    let up = pair.uplink_ch_id in
    if direct_ok
    then (some (record st { pair = some pair; uplink = up }), wrote up msg ∷ [])
    else (b.0, wrote up msg ∷ released pair ∷ invalidated up ∷ b.1)

-- `direct_ok` and `sent` are the results of asyncWriteDirect and broadcastWrite.
unfoldable pub register_and_broadcast_tcp_with_pair :
    ℕ
    → Bytes
    → Bytes
    → Bytes
    → Bool
    → Option Bytes
    → ℕ
    → Bytes
    → Option PairRef
    → Bool
    → ℕ
    → Option ConnState
    → Outcome
register_and_broadcast_tcp_with_pair ip_strategy conn_id target first has_tcp_conn addr now req_type
      pair direct_ok sent o =
    request_over (encode_message msg_tcp_connect conn_id (connect_meta ip_strategy target) first)
      direct_ok sent (register_tcp target has_tcp_conn addr now req_type o) pair

abbrev pub or_made : Option Bool → Option Bool
or_made none = some false
or_made (some signalled) = some signalled

abbrev pub socks5_udp : Bytes
socks5_udp = codes "SOCKS5 UDP"

unfoldable pub register_udp : Option ConnState → Outcome
register_udp o =
    let st = or_new o in
    (
      some (record st {
        has_udp_sink = true;
        connected = or_made st.connected;
        req_type = if is_empty st.req_type then socks5_udp else st.req_type;
      }),
      [],
    )

unfoldable pub start_udp_race : ℕ → Bytes → Bytes → ℕ → ℕ → Option ConnState → Outcome
start_udp_race ip_strategy conn_id target now sent o =
    let st = or_new o in
    broadcast_request (encode_message msg_udp_connect conn_id (connect_meta ip_strategy target) [])
      sent
      (record st {
        target = target;
        start = now;
        req_type = socks5_udp;
        uplink = 0;
        downlink = 0;
        last_ch = 0;
      })

unfoldable pub note_uplink : ℕ → Option ConnState → Option ConnState
note_uplink ch_id none = none
note_uplink ch_id (some st) =
    some (record st { uplink = if st.uplink == 0 then ch_id else st.uplink })

unfoldable pub note_last_channel : ℕ → Option ConnState → Option ConnState
note_last_channel ch_id none = none
note_last_channel ch_id (some st) = some (record st { last_ch = ch_id })

unfoldable pub get_uplink_channel : Option ConnState → Option ℕ
get_uplink_channel none = none
get_uplink_channel (some st) = if st.uplink == 0 then none else some st.uplink

unfoldable pub get_downlink : Option ConnState → Option ℕ
get_downlink none = none
get_downlink (some st) = if ltb 0 st.downlink then some st.downlink else none

abbrev pub signalled : Option Bool → Option Bool
signalled none = none
signalled (some b) = some true

unfoldable pub signal_connected : Option ConnState → Option ConnState
signal_connected none = none
signal_connected (some st) = some (record st { connected = signalled st.connected })
