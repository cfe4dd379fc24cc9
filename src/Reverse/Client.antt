-- ===== src/Reverse/Client.antt =====
-- reverse.go: the client's reverse connections. They are shared by pointer between the table and the
-- goroutine that dials, so they live in a store. What the resolver answers is a parameter.
pub mod Leak
pub mod Cleanup
use xtunnel.Base.{
  ℕ, suc, ◌+◌, Bool, true, false, not, ◌&&◌, ◌||◌, Option, none, some, List, [], ◌∷◌, ◌==◌, ltb,
  if◌then◌else◌, length, get_or, drop, keep, Bytes,
}
use xtunnel.Base.Dict.{get, put, delete, text_eq}
use xtunnel.Protocol.Message.{
  MessageType, Message, msg_tcp_connect, msg_tcp_data, msg_tcp_close, msg_conn_status,
  msg_select_uplink, msg_select_downlink,
}
use xtunnel.Protocol.ConnId.{split_hot_pair_conn_id}
use xtunnel.PairWarmer.Store.{Pair, Warmer}
use xtunnel.PairWarmer.Notices.{lookup_ready}
use xtunnel.Reverse.{Send, is_positive, is_channel, to_int32, message, named_channel, channel_meta}

-- net.Conn of the dialled target.
pub data Socket : Type 0 where
  absent opened shut : Socket

abbrev pub shut_down : Socket → Socket
shut_down opened = shut
shut_down s = s

-- `once` is whether closeOnce has run.
pub record ReverseConn : Type 0 where
  pub target : Bytes
  pub resolved : Bytes
  pub recv_ch : ℕ
  pub send_ch : ℕ
  pub conn : Socket
  pub once : Bool

abbrev pub Store : Type 0
Store = ℕ → ReverseConn

-- `reverseConns`; `next` is the first address that is free.
pub record Client : Type 0 where
  pub store : Store
  pub conns : List (Bytes × ℕ)
  pub next : ℕ

abbrev pub write : ℕ → ReverseConn → Store → Store
write a rc s b = if b == a then rc else s b

abbrev pub update : ℕ → ReverseConn → Client → Client
update a rc c = record c { store = write a rc c.store }

abbrev pub has_reverse_conn : Bytes → Client → Bool
has_reverse_conn id c = elim (get id c.conns) [ none ↦ false | some a ↦ true ]

abbrev pub new_conn : Bytes → Bytes → ℕ → ReverseConn
new_conn target resolved recv_ch = record {
  target = target;
  resolved = resolved;
  recv_ch = recv_ch;
  send_ch = 0;
  conn = absent;
  once = false;
}

-- The new connection, or none where the id is taken.
unfoldable pub add_reverse_conn : Bytes → Bytes → Bytes → ℕ → Client → Option ℕ × Client
add_reverse_conn id target resolved recv_ch c = elim (get id c.conns) [
  | some a ↦ (none, c)
  | none ↦ (
    some c.next,
    record {
      store = write c.next (new_conn target resolved recv_ch) c.store;
      conns = put id c.next c.conns;
      next = suc c.next;
    },
  )
]

unfoldable pub remove_reverse_conn : Bytes → Client → Client
remove_reverse_conn id c = record c { conns = delete id c.conns }

-- `closeOnce.Do`
abbrev pub close_once : ReverseConn → ReverseConn
close_once rc = if rc.once then rc else record rc { conn = shut_down rc.conn; once = true }

abbrev pub uses_channel : ℕ → ReverseConn → Bool
uses_channel ch rc = rc.recv_ch == ch || is_channel rc.send_ch ch

unfoldable pub close_on : ℕ → List (Bytes × ℕ) → Store → Store
close_on ch [] s = s
close_on ch ((id, a) ∷ conns) s =
    close_on ch conns (if uses_channel ch (s a) then write a (close_once (s a)) s else s)

unfoldable pub reverse_cleanup_channel : ℕ → Client → Client
reverse_cleanup_channel ch c = record c {
  store = close_on ch c.conns c.store;
  conns = keep (λ kv. not (uses_channel ch (c.store kv.1))) c.conns;
}

-- The pair that an id names, if its downlink is the channel that the frame came on.
unfoldable pub warmed_pair : ℕ → Bytes → Option Warmer → Option Pair
warmed_pair ch id none = none
warmed_pair ch id (some w) = elim (split_hot_pair_conn_id id) [
  | none ↦ none
  | some (key, suffix) ↦ elim (lookup_ready key w) [
    | none ↦ none
    | some a ↦ if ch == (w.heap a).downlink then some (w.heap a) else none
  ]
]

-- The classic way: the frame's channel is told to the server on every channel.
unfoldable pub connect_classic : ℕ → Bytes → Bytes → Bytes → Client → Option ℕ × List Send × Client
connect_classic ch id target resolved c =
    let added = add_reverse_conn id target resolved ch c in
    elim added.0 [
      | none ↦ (none, [], added.1)
      | some a ↦ (
        some a,
        record { to = none; frame = message msg_select_uplink id (channel_meta ch) [] } ∷ [],
        added.1,
      )
    ]

unfoldable pub connect_warmed :
    Pair → ℕ → Bytes → Bytes → Bytes → Client → Option ℕ × List Send × Client
connect_warmed p ch id target resolved c =
    let added = add_reverse_conn id target resolved ch c in
    elim added.0 [
      | none ↦ connect_classic ch id target resolved c
      | some a ↦
          (some a, [], update a (record (added.1.store a) { send_ch = to_int32 p.uplink }) added.1)
    ]

-- handleReverseTCPConnect: the connection to dial, if any, and the frames sent.
unfoldable pub handle_reverse_tcp_connect :
    (Bytes → Bytes)
    → Bool
    → Option Warmer
    → ℕ
    → Bytes
    → Bytes
    → Client
    → Option ℕ × List Send × Client
handle_reverse_tcp_connect resolve enabled warmer ch id meta c =
    let target = drop 1 meta in
    let resolved = resolve target in
    if not enabled || length meta == 0 then (none, [], c) else elim (warmed_pair ch id warmer) [
      | some p ↦ connect_warmed p ch id target resolved c
      | none ↦ connect_classic ch id target resolved c
    ]

abbrev pub send_from : ReverseConn → Message → Send
send_from rc m = record { to = if is_positive rc.send_ch then some rc.send_ch else none; frame = m }

unfoldable pub send_reverse_close : ℕ → Bytes → Client → List Send × Client
send_reverse_close a id c = (
  send_from (c.store a) (message msg_tcp_close id [] []) ∷ [],
  remove_reverse_conn id (update a (close_once (c.store a)) c),
)

abbrev pub status_frame : Bytes → ℕ → Send
status_frame id status = record { to = none; frame = message msg_conn_status id (status ∷ []) [] }

-- dialReverseTarget up to the result of the dial: StatusERR is 1, StatusOK is 0.
unfoldable pub dialled : Bool → ℕ → Bytes → Client → List Send × Client
dialled ok a id c =
    if ok
    then (status_frame id 0 ∷ [], update a (record (c.store a) { conn = opened }) c)
    else (status_frame id 1 ∷ [], remove_reverse_conn id c)

-- One round of its loop: what was read, or an error.
unfoldable pub pumped : Option Bytes → ℕ → Bytes → Client → List Send × Client
pumped (some chunk) a id c = (send_from (c.store a) (message msg_tcp_data id [] chunk) ∷ [], c)
pumped none a id c = send_reverse_close a id c

-- What a frame of the server makes the target's socket receive, with the frames sent.
pub record Effect : Type 0 where
  pub written : List Bytes
  pub sends : List Send
  pub client : Client

abbrev pub quiet : Client → Effect
quiet c = record { written = []; sends = []; client = c }

unfoldable pub on_select_downlink : ℕ → ℕ → Bytes → Client → Client
on_select_downlink a ch meta c =
    if not ((c.store a).recv_ch == ch) || ltb (length meta) 4
    then c
    else if (c.store a).send_ch == 0
    then update a (record (c.store a) { send_ch = named_channel meta }) c
    else c

unfoldable pub closing : ℕ → Bytes → Client → Effect
closing a id c =
    let r = send_reverse_close a id c in record { written = []; sends = r.0; client = r.1 }

-- A socket that is shut refuses what is written.
unfoldable pub write_socket : Bool → Socket → ℕ → Bytes → Bytes → Client → Effect
write_socket accepts absent a id payload c = quiet c
write_socket accepts shut a id payload c = closing a id c
write_socket accepts opened a id payload c =
    let failed = closing a id c in
    if accepts then record { written = payload ∷ []; sends = []; client = c } else failed

unfoldable pub on_tcp_data : Bool → ℕ → ℕ → Bytes → Bytes → Client → Effect
on_tcp_data accepts a ch id payload c =
    if not ((c.store a).recv_ch == ch)
    then quiet c
    else write_socket accepts (c.store a).conn a id payload c

-- handleReverseServerMsg; `accepts` is whether the target's socket takes a write.
unfoldable pub handle_reverse_server_msg : Bool → ℕ → Message → Client → Effect
handle_reverse_server_msg accepts ch m c = elim (get m.conn_id c.conns) [
  | none ↦ quiet c
  | some a ↦
      if m.kind == msg_select_downlink
      then quiet (on_select_downlink a ch m.meta c)
      else if m.kind == msg_tcp_data
      then on_tcp_data accepts a ch m.conn_id m.payload c
      else if m.kind == msg_tcp_close
      then closing a m.conn_id c
      else quiet c
]
