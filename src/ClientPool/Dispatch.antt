-- ===== src/ClientPool/Dispatch.antt =====
-- pool.go: handleChannel, what a frame of the server does to the connection that it names. The frames
-- of reverse mode go on to reverse.go. The read deadlines, the pongs, the byte counts, the log and
-- the diagnosis of prebind races are left out.
pub mod Delivery
pub mod OneChannel
use xtunnel.Base.{
  ℕ, zero, suc, ◌+◌, ◌%◌, ◌≤◌, ◌<◌, Bool, true, false, not, ◌&&◌, ◌||◌, Option, none, some, List,
  [], ◌∷◌, ◌++◌, ltb, leb, ◌==◌, if◌then◌else◌, length, take, any, get_or, has_prefix, Bytes, codes,
}
use xtunnel.Protocol.Wire.{u32, put_u32}
use xtunnel.Protocol.Message.{
  Message, encode_message, msg_tcp_connect, msg_tcp_data, msg_tcp_close, msg_udp_data,
  msg_udp_close, msg_conn_status, msg_select_uplink, msg_select_downlink, msg_backpressure,
  msg_channel_reset, msg_reverse_listen_result,
}
use xtunnel.ClientPool.Registry.{
  ConnState, Effect, wrote, delivered, delivered_udp, prebound, pressed, reset, reversed,
  invalidated, closed_tcp_conn, closed_udp_sink, Outcome, note_uplink, note_last_channel,
  get_downlink, signal_connected, unregister,
}
use xtunnel.ClientPool.Registry.Selection.{Selection, select_downlink}

-- protocol.StatusOK
abbrev pub status_ok : ℕ
status_ok = 0

-- A connection ID that is a bare key of a pair.
abbrev pub is_prebind_id : Bytes → Bool
is_prebind_id conn_id = has_prefix conn_id (codes "prebind-") && not (any (λ c. c == 46) conn_id)

abbrev pub with_effects : List Effect → Outcome → Outcome
with_effects effects (o, more) = (o, effects ++ more)

abbrev pub takes_tcp : Option ConnState → Bool
takes_tcp none = false
takes_tcp (some st) = st.has_tcp_conn

abbrev pub takes_udp : Option ConnState → Bool
takes_udp none = false
takes_udp (some st) = st.has_udp_sink

abbrev pub server_uplink : ℕ → Bytes → ℕ
server_uplink ch_id meta = if leb 4 (length meta) then u32 (take 4 meta) else ch_id

abbrev pub selected_by : Bytes → ℕ → Selection × Option ConnState → Outcome
selected_by conn_id up (s, o) =
    if s.selected
    then (
      o,
      wrote up (encode_message msg_select_downlink conn_id (put_u32 s.chosen) [])
          ∷ (if is_prebind_id conn_id then prebound up s.chosen ∷ [] else []),
    )
    else (o, [])

unfoldable pub on_select_uplink : ℕ → Bytes → Bytes → Option ConnState → Outcome
on_select_uplink ch_id conn_id meta o =
    let up = server_uplink ch_id meta in
    selected_by conn_id up (select_downlink ch_id (note_uplink up o))

unfoldable pub on_conn_status : Bytes → Option ConnState → Outcome
on_conn_status meta o =
    if ltb (length meta) 1
    then (o, [])
    else if get_or meta 0 0 == status_ok
    then (signal_connected o, [])
    else unregister o

-- The results of selectDownlink where getDownlink has already found the downlink.
abbrev known_downlink : ℕ → Selection
known_downlink ch_id = record {
  selected = false;
  chosen = ch_id;
  start = 0;
  target = [];
  up = none;
  typ = [];
}

abbrev pub downlink_of : ℕ → Option ConnState → Option ℕ → Selection × Option ConnState
downlink_of ch_id o (some chosen) = (known_downlink chosen, o)
downlink_of ch_id o none = select_downlink ch_id o

abbrev pub refuse_tcp : ℕ → Bytes → Option ConnState → Outcome
refuse_tcp ch_id conn_id o =
    with_effects (wrote ch_id (encode_message msg_tcp_close conn_id [] []) ∷ []) (unregister o)

-- `write_ok` is the result of the write to the socket.
abbrev pub deliver_tcp : Bool → ℕ → Bytes → Bytes → Selection × Option ConnState → Outcome
deliver_tcp write_ok ch_id conn_id payload (s, o) =
    if not (s.chosen == ch_id)
    then (o, [])
    else if not (takes_tcp o)
    then refuse_tcp ch_id conn_id o
    else if write_ok
    then (o, delivered ch_id payload ∷ [])
    else with_effects
        (wrote ch_id (encode_message msg_tcp_close conn_id [] []) ∷ closed_tcp_conn ∷ [])
        (unregister o)

unfoldable pub on_tcp_data : Bool → ℕ → Bytes → Bytes → Option ConnState → Outcome
on_tcp_data write_ok ch_id conn_id payload o =
    deliver_tcp write_ok ch_id conn_id payload (downlink_of ch_id o (get_downlink o))

unfoldable pub on_tcp_close : ℕ → Option ConnState → Outcome
on_tcp_close ch_id o =
    let noted = note_uplink ch_id o in
    with_effects (if takes_tcp noted then closed_tcp_conn ∷ [] else []) (unregister noted)

abbrev pub deliver_udp : ℕ → Bytes → Bytes → Bytes → Selection × Option ConnState → Outcome
deliver_udp ch_id conn_id meta payload (s, o) = if not (s.chosen == ch_id) then (o, []) else (
  o,
  (if s.selected
        then wrote ch_id (encode_message msg_select_downlink conn_id (put_u32 ch_id) []) ∷ []
        else [])
      ++ (if takes_udp o then delivered_udp ch_id meta payload ∷ [] else []),
)

unfoldable pub on_udp_data : ℕ → Bytes → Bytes → Bytes → Option ConnState → Outcome
on_udp_data ch_id conn_id meta payload o =
    deliver_udp ch_id conn_id meta payload (downlink_of ch_id o (get_downlink o))

unfoldable pub on_udp_close : ℕ → Option ConnState → Outcome
on_udp_close ch_id o =
    let noted = note_uplink ch_id o in
    if takes_udp noted then (noted, closed_udp_sink ∷ []) else unregister noted

unfoldable pub on_channel_reset : Bytes → Option ConnState → Outcome
on_channel_reset meta o =
    if leb 4 (length meta)
    then (o, reset (u32 (take 4 meta)) ∷ invalidated (u32 (take 4 meta)) ∷ [])
    else (o, [])

unfoldable pub on_backpressure : Bytes → Option ConnState → Outcome
on_backpressure meta o =
    if leb 1 (length meta) then (o, pressed (get_or meta 0 0) ∷ []) else (o, [])

-- A frame that has come in on a channel, decoded, with what it meets: whether its connection is one
-- of reverse mode, and whether the socket takes a write.
pub record Frame : Type 0 where
  pub ch_id : ℕ
  pub message : Message
  pub has_reverse_conn : Bool
  pub write_ok : Bool

unfoldable pub dispatch : Frame → Option ConnState → Outcome
dispatch f o =
    let m = f.message in
    if m.kind == msg_tcp_connect || m.kind == msg_reverse_listen_result
    then (o, reversed ∷ [])
    else if m.kind == msg_select_uplink
    then on_select_uplink f.ch_id m.conn_id m.meta o
    else if m.kind == msg_conn_status
    then on_conn_status m.meta o
    else if m.kind == msg_tcp_data
    then on_tcp_data f.write_ok f.ch_id m.conn_id m.payload o
    else if m.kind == msg_tcp_close
    then on_tcp_close f.ch_id o
    else if m.kind == msg_udp_data
    then on_udp_data f.ch_id m.conn_id m.meta m.payload o
    else if m.kind == msg_udp_close
    then on_udp_close f.ch_id o
    else if m.kind == msg_backpressure
    then on_backpressure m.meta o
    else if m.kind == msg_channel_reset
    then on_channel_reset m.meta o
    else (o, [])

unfoldable pub handle_frame : Frame → Option ConnState → Outcome
handle_frame f o =
    let noted = note_last_channel f.ch_id o in
    if f.has_reverse_conn then (noted, reversed ∷ []) else dispatch f noted

-- The frames of one connection, from all channels, in the order in which they are handled.
unfoldable pub handle_frames : List Frame → Option ConnState → Outcome
handle_frames [] o = (o, [])
handle_frames (f ∷ frames) o =
    let first = handle_frame f o in
    let rest = handle_frames frames first.0 in (rest.0, first.1 ++ rest.1)
