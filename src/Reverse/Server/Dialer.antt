-- ===== src/Reverse/Server/Dialer.antt =====
-- reverse_server.go: DialStream in its three stages, and the pump from the application. Which
-- channels are alive and which writes the queues take are parameters.
use xtunnel.Base.{
  ℕ, suc, Bool, true, false, ◌&&◌, Option, none, some, List, [], ◌∷◌, if◌then◌else◌, Bytes,
}
use xtunnel.Base.Dict.{put, text_eq, only}
use xtunnel.Protocol.Message.{Message, msg_tcp_connect, msg_tcp_data}
use xtunnel.Protocol.ConnId.{hot_pair_conn_id}
use xtunnel.HotPairTable.{HotPairEntry, HotPairTable, newest, invalidate_channel}
use xtunnel.Reverse.{Send, is_positive, to_int32, message}
use xtunnel.Reverse.Server.{
  Reason, timed_out, cancelled, ServerReverseConn, Server, write, update, new_server_reverse_conn,
  settle, remove_reverse_conn, reverse_notify_close,
}

-- The answers of the channels: alive for the client, takes a unicast frame, takes a broadcast.
pub record Channels : Type 0 where
  pub alive : ℕ → Bool
  pub takes : ℕ → Bool
  pub takes_broadcast : Bool

-- The warmed pair that the dial uses: the newest, if both its channels are alive.
unfoldable pub dial_entry : Channels → ℕ → Bytes → HotPairTable → Option HotPairEntry × HotPairTable
dial_entry channels now client t =
    let found = newest now client t in
    (only (λ e. channels.alive e.cha && channels.alive e.chb) found.0, found.1)

-- meta[0] is IPStrategyDefault.
abbrev pub connect_frame : Bytes → Bytes → Message
connect_frame id target = message msg_tcp_connect id (0 ∷ target) []

abbrev pub preset : HotPairEntry → ServerReverseConn → ServerReverseConn
preset e rc = record rc { send_ch = to_int32 e.chb; recv_ch = to_int32 e.cha; pair_preset = true }

-- A dial that was started: the connection, or none where nothing could be sent.
pub record Dial : Type 0 where
  pub conn : Option ℕ
  pub id : Bytes
  pub sends : List Send
  pub server : Server
  pub table : HotPairTable

abbrev pub register : Bytes → ServerReverseConn → Server → Server
register id rc s = record {
  store = write s.next rc s.store;
  conns = put id s.next s.conns;
  next = suc s.next;
}

unfoldable pub dial_broadcast :
    Channels → ℕ → Bytes → Bytes → List Send → Server → HotPairTable → Dial
dial_broadcast channels a id target before s t =
    let sent : Send = record { to = none; frame = connect_frame id target } in
    if channels.takes_broadcast
    then record { conn = some a; id = id; sends = sent ∷ before; server = s; table = t }
    else record {
      conn = none;
      id = id;
      sends = before;
      server = remove_reverse_conn id s;
      table = t;
    }

-- The first stage, where the client has a channel; `unique` is the new UUID. The sends stand last
-- first.
unfoldable pub dial_start :
    Channels → Option HotPairEntry → Bytes → Bytes → Bytes → Server → HotPairTable → Dial
dial_start channels none client unique target s t =
    dial_broadcast channels s.next unique target []
      (register unique (new_server_reverse_conn client target) s) t
dial_start channels (some e) client unique target s t =
    let id = hot_pair_conn_id e.key unique in
    let begun = register id (preset e (new_server_reverse_conn client target)) s in
    let sent : Send = record { to = some e.chb; frame = connect_frame id target } in
    if channels.takes e.chb
    then record { conn = some s.next; id = id; sends = sent ∷ []; server = begun; table = t }
    else dial_broadcast channels s.next id target (sent ∷ []) begun (invalidate_channel e.chb t)

-- What ends the wait.
pub data Wait : Type 0 where
  result timer : Wait
  context : Bytes → Wait

abbrev pub give_up : Reason → ℕ → Bytes → Server → Option Reason × List Send × Server
give_up why a id s =
    let settled = update a (settle false why (s.store a)) s in
    (some why, reverse_notify_close a id settled ∷ [], remove_reverse_conn id settled)

-- The last stage: no error is the application's end of the pipe.
unfoldable pub dial_end : Wait → ℕ → Bytes → Server → Option Reason × List Send × Server
dial_end result a id s =
    if (s.store a).ok
    then (none, [], s)
    else (some (s.store a).err_msg, [], remove_reverse_conn id s)
dial_end timer a id s = give_up timed_out a id s
dial_end (context why) a id s = give_up (cancelled why) a id s

-- One round of reverseUpstreamPump: what was read, or an error.
unfoldable pub reverse_upstream_pump :
    Channels → Option Bytes → ℕ → Bytes → Server → List Send × Server
reverse_upstream_pump channels none a id s =
    (reverse_notify_close a id s ∷ [], remove_reverse_conn id s)
reverse_upstream_pump channels (some chunk) a id s =
    let frame = message msg_tcp_data id [] chunk in
    let all : Send = record { to = none; frame = frame } in
    let ch = (s.store a).send_ch in
    let one : Send = record { to = some ch; frame = frame } in
    if is_positive ch
    then (if channels.takes ch then (one ∷ [], s) else (one ∷ all ∷ [], s))
    else (all ∷ [], s)
