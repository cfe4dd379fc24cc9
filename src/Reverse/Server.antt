-- ===== src/Reverse/Server.antt =====
-- reverse_server.go: the server's end of a reverse connection. It is shared by pointer between the
-- table, the dialer and the pump, so it lives in a store. Whether a write is taken is a parameter.
pub mod Dialer
pub mod Outcome
pub mod Ends
use xtunnel.Base.{
  ℕ, suc, ◌+◌, Bool, true, false, not, ◌&&◌, ◌||◌, Option, none, some, List, [], ◌∷◌, ◌==◌, ltb,
  if◌then◌else◌, length, get_or, drop, Bytes, bytes_eq,
}
use xtunnel.Base.Dict.{get, put, delete, text_eq}
use xtunnel.Protocol.Message.{
  MessageType, Message, msg_tcp_connect, msg_tcp_data, msg_tcp_close, msg_conn_status,
  msg_select_uplink, msg_select_downlink,
}
use xtunnel.Protocol.ConnId.{hot_pair_conn_id}
use xtunnel.HotPairTable.{HotPairEntry, HotPairTable, newest, invalidate_channel}
use xtunnel.Reverse.{Send, is_positive, is_channel, to_int32, message, named_channel, channel_meta}

-- Why a dial failed.
pub data Reason : Type 0 where
  unset connection_closed timed_out : Reason
  cancelled told : Bytes → Reason

-- `piped` is whether the pipe to the application is open.
pub record ServerReverseConn : Type 0 where
  pub target : Bytes
  pub owner : Bytes
  pub send_ch : ℕ
  pub recv_ch : ℕ
  pub settled : Bool
  pub ok : Bool
  pub err_msg : Reason
  pub pair_preset : Bool
  pub repaired : Bool
  pub piped : Bool

abbrev pub Store : Type 0
Store = ℕ → ServerReverseConn

pub record Server : Type 0 where
  pub store : Store
  pub conns : List (Bytes × ℕ)
  pub next : ℕ

abbrev pub write : ℕ → ServerReverseConn → Store → Store
write a rc s b = if b == a then rc else s b

abbrev pub update : ℕ → ServerReverseConn → Server → Server
update a rc s = record s { store = write a rc s.store }

abbrev pub new_server_reverse_conn : Bytes → Bytes → ServerReverseConn
new_server_reverse_conn client target = record {
  target = target;
  owner = client;
  send_ch = 0;
  recv_ch = 0;
  settled = false;
  ok = false;
  err_msg = unset;
  pair_preset = false;
  repaired = false;
  piped = true;
}

unfoldable pub settle : Bool → Reason → ServerReverseConn → ServerReverseConn
settle ok msg rc = if rc.settled then rc else record rc { settled = true; ok = ok; err_msg = msg }

unfoldable pub remove_reverse_conn : Bytes → Server → Server
remove_reverse_conn id s = elim (get id s.conns) [
  | none ↦ s
  | some a ↦ record s {
    store = write a (record (settle false connection_closed (s.store a)) { piped = false }) s.store;
    conns = delete id s.conns;
  }
]

-- To the channel that the connection sends on, if it is known, else to all.
abbrev pub send_from : ServerReverseConn → Message → Send
send_from rc m = record { to = if is_positive rc.send_ch then some rc.send_ch else none; frame = m }

abbrev pub reverse_notify_close : ℕ → Bytes → Server → Send
reverse_notify_close a id s = send_from (s.store a) (message msg_tcp_close id [] [])

abbrev pub close_conn : ℕ → Bytes → Server → List Send × Server
close_conn a id s = (reverse_notify_close a id s ∷ [], remove_reverse_conn id s)

-- What a client's frame makes the application receive, with the frames sent.
pub record Effect : Type 0 where
  pub written : List Bytes
  pub sends : List Send
  pub server : Server

abbrev pub quiet : Server → Effect
quiet s = record { written = []; sends = []; server = s }

-- Both channels as the client chose them, and the frame that tells it the server's.
abbrev pub adopt : ℕ → ℕ → Bytes → ℕ → Bool → Server → Effect
adopt a ch id client_recv repaired s = record {
  written = [];
  sends =
      record { to = some client_recv; frame = message msg_select_downlink id (channel_meta ch) [] }
      ∷ [];
  server =
      update a
        (record (s.store a) {
          send_ch = client_recv;
          recv_ch = to_int32 ch;
          repaired = repaired || (s.store a).repaired;
        })
        s;
}

unfoldable pub on_select_uplink : ℕ → ℕ → Bytes → Bytes → Server → Effect
on_select_uplink a ch id meta s =
    let rc = s.store a in
    if ltb (length meta) 4
    then quiet s
    else if rc.send_ch == 0
    then adopt a ch id (named_channel meta) false s
    else if rc.pair_preset && not rc.repaired
    then adopt a ch id (named_channel meta) true s
    else quiet s

unfoldable pub on_conn_status : ℕ → Bytes → Server → Server
on_conn_status a meta s =
    if length meta == 0
    then s
    else if get_or meta 0 0 == 0
    then update a (settle true unset (s.store a)) s
    else update a (settle false (told (drop 1 meta)) (s.store a)) s

unfoldable pub on_tcp_data : Bool → ℕ → ℕ → Bytes → Bytes → Server → Effect
on_tcp_data accepts a ch id payload s =
    let failed = close_conn a id s in
    if not (is_channel (s.store a).recv_ch ch)
    then quiet s
    else if (s.store a).piped && accepts
    then record { written = payload ∷ []; sends = []; server = s }
    else record { written = []; sends = failed.0; server = failed.1 }

-- handleReverseMessage; `accepts` is whether the pipe takes a write.
unfoldable pub handle_reverse_message : Bool → ℕ → Message → Server → Effect
handle_reverse_message accepts ch m s = elim (get m.conn_id s.conns) [
  | none ↦ quiet s
  | some a ↦
      let closed = close_conn a m.conn_id s in
      if m.kind == msg_select_uplink
      then on_select_uplink a ch m.conn_id m.meta s
      else if m.kind == msg_conn_status
      then quiet (on_conn_status a m.meta s)
      else if m.kind == msg_tcp_data
      then on_tcp_data accepts a ch m.conn_id m.payload s
      else if m.kind == msg_tcp_close
      then record { written = []; sends = closed.0; server = closed.1 }
      else quiet s
]

-- The front of handleMessage: the effect where the id is a reverse connection's, else none.
unfoldable pub intercept : Bool → Bytes → ℕ → Message → Server → Option Effect
intercept accepts client ch m s = elim (get m.conn_id s.conns) [
  | none ↦ none
  | some a ↦
      if not (bytes_eq (s.store a).owner client)
      then some (quiet s)
      else some (handle_reverse_message accepts ch m s)
]

-- The reverse connections of cleanupChannel, collected and then removed.
abbrev pub on_channel : Bytes → ℕ → ServerReverseConn → Bool
on_channel client ch rc =
    bytes_eq rc.owner client && (rc.send_ch == to_int32 ch || rc.recv_ch == to_int32 ch)

unfoldable pub ids_on : Bytes → ℕ → Store → List (Bytes × ℕ) → List Bytes
ids_on client ch store [] = []
ids_on client ch store ((id, a) ∷ conns) =
    let rest = ids_on client ch store conns in
    if on_channel client ch (store a) then id ∷ rest else rest

unfoldable pub remove_all : List Bytes → Server → Server
remove_all [] s = s
remove_all (id ∷ ids) s = remove_all ids (remove_reverse_conn id s)

unfoldable pub cleanup_channel : Bytes → ℕ → Server → Server
cleanup_channel client ch s = remove_all (ids_on client ch s.store s.conns) s
