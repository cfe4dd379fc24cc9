-- ===== src/ServerPool/Conns/Handlers.antt =====
-- handler.go: what the server does on each message of a client about a TCP connection, and what the
-- goroutines of a connection do.
use xtunnel.Base.{
  ℕ, suc, ◌+◌, ◌*◌, Bool, true, false, not, ◌&&◌, ◌||◌, Option, none, some, List, [], ◌∷◌, ◌++◌,
  ◌==◌, ltb, leb, if◌then◌else◌, length, take, keep, Bytes, bytes_eq,
}
use xtunnel.Base.Dict.{get, put, delete, text_eq}
use xtunnel.Protocol.Wire.{put_u32, u32}
use xtunnel.Protocol.Message.{msg_conn_status, msg_select_uplink, msg_tcp_close, msg_tcp_data}
use xtunnel.Protocol.ConnId.{split_hot_pair_conn_id}
use xtunnel.HotPairTable.{HotPairEntry, lookup}
use xtunnel.ServerPool.Conns.{
  absent, opened, is_absent, is_open, Conn, Channel, Server, at_address, set_conn, channel_alive,
  send_downlink, unregister_conn,
}

abbrev pub status_ok : Bytes
status_ok = 0 ∷ []

abbrev pub status_err : Bytes
status_err = 1 ∷ []

-- 1 MB.
abbrev pub pending_data_max_size : ℕ
pending_data_max_size = 1024 * 1024

-- The client that the inbound channel belongs to, "" where the channel is gone.
abbrev pub inbound_client : Bytes → ℕ → Server → Bytes
inbound_client client ch s = elim (s.channels client ch) [ none ↦ [] | some w ↦ w.client ]

-- `p.conns[connID] = st` for a new state.
abbrev pub publish : Conn → Server → Server
publish c s = record s {
  heap = at_address s.next c s.heap;
  next = suc s.next;
  conns = put c.conn_id s.next s.conns;
}

abbrev pub new_conn : Bytes → ℕ → Bytes → Bytes → ℕ → Bool → Server → Conn
new_conn client ch id target strategy connected s = record {
  conn_id = id;
  target = target;
  uplink = ch;
  downlink = 0;
  strategy = strategy;
  client = inbound_client client ch s;
  connected = connected;
  closed = false;
  socket = absent;
  udp = absent;
  pending = [];
  written = [];
}

-- MsgSelectUplink carries the channel that came first.
abbrev pub announce_uplink : Bytes → ℕ → Server → Server
announce_uplink id ch s = (send_downlink id msg_select_uplink (put_u32 ch) [] s).1

-- The connection at `a` gets the downlink of a warmed pair whose uplink is the inbound channel.
unfoldable pub promote_by : Option HotPairEntry → Bytes → ℕ → Bytes → ℕ → Server → Server
promote_by none client ch id a s = announce_uplink id ch s
promote_by (some e) client ch id a s =
    if e.cha == ch && channel_alive client e.chb s
    then set_conn a (record (s.heap a) { downlink = e.chb }) s
    else announce_uplink id ch s

unfoldable pub promote : ℕ → Bytes → ℕ → Bytes → ℕ → Server → Server
promote now client ch id a s = elim (split_hot_pair_conn_id id) [
  | none ↦ announce_uplink id ch s
  | some (key, suffix) ↦
      let found = lookup now client key s.hot_pairs in
      promote_by found.0 client ch id a (record s { hot_pairs = found.1 })
]

abbrev pub begin_dial : ℕ → Server → Server
begin_dial a s = record s { dialing = a ∷ s.dialing }

unfoldable pub handle_tcp_connect : ℕ → Bytes → ℕ → Bytes → Bytes → Server → Server
handle_tcp_connect now client ch id [] s = (send_downlink id msg_conn_status status_err [] s).1
handle_tcp_connect now client ch id (strategy ∷ target) s = elim (get id s.conns) [
  | some a ↦ s
  | none ↦
      begin_dial s.next (
        promote now client ch id s.next (publish (new_conn client ch id target strategy false s) s))
]

abbrev pub end_dial : ℕ → Server → Server
end_dial a s = record s { dialing = keep (λ b. not (b == a)) s.dialing }

-- connectTarget where the dial failed.
unfoldable pub dial_failed : ℕ → Server → Server
dial_failed a s =
    let id = (s.heap a).conn_id in
    let told = (send_downlink id msg_conn_status status_err [] s).1 in
    let closing = (send_downlink id msg_tcp_close [] [] told).1 in
    record closing { conns = delete id closing.conns }

-- connectTarget where the dial succeeded, up to the end of its lock: the buffered data to write, or
-- nothing where the connection was closed meanwhile.
unfoldable pub attach_target : ℕ → Server → Option (List Bytes) × Server
attach_target a s =
    let c = s.heap a in
    if c.closed then (none, s) else (
      some c.pending,
      set_conn a (record c { socket = opened; connected = true; pending = [] }) s,
    )

-- `targetConn.Write(data)`: a closed socket refuses, an open one may.
unfoldable pub write_target : Bool → ℕ → Bytes → Server → Bool × Server
write_target accepted a bytes s =
    let c = s.heap a in
    if is_open c.socket && accepted
    then (true, set_conn a (record c { written = c.written ++ (bytes ∷ []) }) s)
    else (false, s)

-- `targetConn.Write(data)`, and unregisterConn where it fails.
unfoldable pub deliver : Bool → ℕ → Bytes → Bytes → Server → Server
deliver accepted a id bytes s =
    let r = write_target accepted a bytes s in if r.0 then r.1 else unregister_conn id r.1

abbrev pub total : List Bytes → ℕ
total [] = 0
total (d ∷ ds) = length d + total ds

unfoldable pub buffer : ℕ → Bytes → Bytes → Server → Server
buffer a id payload s =
    let c = s.heap a in
    if ltb pending_data_max_size (total c.pending + length payload)
    then unregister_conn id s
    else set_conn a (record c { pending = c.pending ++ (payload ∷ []) }) s

unfoldable pub handle_tcp_data : Bool → ℕ → Bytes → Bytes → Server → Server
handle_tcp_data accepted ch id payload s = elim (get id s.conns) [
  | none ↦ s
  | some a ↦
      let c = s.heap a in
      if ltb 0 c.uplink && not (ch == c.uplink)
      then s
      else if is_absent c.socket
      then buffer a id payload s
      else deliver accepted a id payload s
]

-- `meta` names the channel in 4 bytes; an old client leaves it out and means its own channel.
abbrev pub chosen_downlink : ℕ → Bytes → ℕ
chosen_downlink ch meta = if leb 4 (length meta) then u32 (take 4 meta) else ch

-- The two tests under the connection's read lock.
abbrev pub may_choose : ℕ → Conn → Channel → Bool
may_choose ch c w =
    (c.uplink == 0 || ch == c.uplink)
    && ((length c.client == 0 || length w.client == 0) || bytes_eq w.client c.client)

-- Written once.
abbrev pub choose_downlink : ℕ → Conn → Conn
choose_downlink d c = if c.downlink == 0 then record c { downlink = d } else c

unfoldable pub handle_select_downlink : Bytes → ℕ → Bytes → Bytes → Server → Server
handle_select_downlink client ch id meta s =
    let d = chosen_downlink ch meta in
    elim (get id s.conns) [
      | none ↦ s
      | some a ↦ elim (s.channels client d) [
        | none ↦ s
        | some w ↦
            if not w.closed && may_choose ch (s.heap a) w
            then set_conn a (choose_downlink d (s.heap a)) s
            else s
      ]
    ]

unfoldable pub handle_tcp_close : Bytes → Server → Server
handle_tcp_close id s = unregister_conn id s

-- A timer closes the connection later, by unregisterConn.
unfoldable pub handle_prebind_request : Bytes → ℕ → Bytes → Bytes → Server → Server
handle_prebind_request client ch id [] s = s
handle_prebind_request client ch id (strategy ∷ meta) s = elim (get id s.conns) [
  | some a ↦ s
  | none ↦ announce_uplink id ch (publish (new_conn client ch id [] strategy true s) s)
]

unfoldable pub forward_data : ℕ → Bytes → Server → Server
forward_data a payload s = (send_downlink (s.heap a).conn_id msg_tcp_data [] payload s).1

-- The deferred calls of forwardTargetToClient, the last one first.
unfoldable pub forward_end : ℕ → Server → Server
forward_end a s =
    let id = (s.heap a).conn_id in (send_downlink id msg_tcp_close [] [] (unregister_conn id s)).1

-- connectTarget after its lock, before it writes the buffered data.
unfoldable pub report_target : ℕ → Server → Server
report_target a s = (send_downlink (s.heap a).conn_id msg_conn_status status_ok [] s).1
