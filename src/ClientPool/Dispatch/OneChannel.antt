-- ===== src/ClientPool/Dispatch/OneChannel.antt =====
-- pool.go: the frames of one connection, handled one after the other.
use xtunnel.Base.{
  ℕ, ◌<◌, ◌≡◌, refl, Bool, true, false, ◌||◌, Option, List, [], ◌∷◌, leb, ◌==◌, if◌then◌else◌,
  length, take, get_or, All, All-append, Bytes, arith, ◌⊎◌, inl, inr,
}
use xtunnel.Protocol.Wire.{u32}
use xtunnel.Protocol.Message.{
  msg_tcp_connect, msg_tcp_data, msg_tcp_close, msg_udp_data, msg_udp_close, msg_conn_status,
  msg_select_uplink, msg_backpressure, msg_channel_reset, msg_reverse_listen_result,
}
use xtunnel.ClientPool.Registry.{
  ConnState, Effect, wrote, broadcast, closed_tcp_conn, closed_udp_sink, released, invalidated,
  delivered, delivered_udp, prebound, pressed, reset, reversed, Outcome, note_uplink,
  note_last_channel, get_downlink,
}
use xtunnel.ClientPool.Registry.Selection.{select_downlink}
use xtunnel.ClientPool.Dispatch.{
  Frame, handle_frame, handle_frames, dispatch, selected_by, on_select_uplink, on_conn_status,
  deliver_tcp, deliver_udp, downlink_of, on_tcp_data, on_tcp_close, on_udp_data, on_udp_close,
  on_channel_reset, on_backpressure, server_uplink,
}
use xtunnel.ClientPool.Dispatch.Delivery.{
  IsVia, HasDownlink, Fits, Goes, stays, chosen-Goes, if-Fits, deliver_tcp-Fits, deliver_udp-Fits,
  selected_by-Fits, on_conn_status-Fits, on_tcp_close-Fits, on_udp_close-Fits,
  note_uplink-HasDownlink, note_last_channel-HasDownlink, select_downlink-Chose, downlink_of-Chose,
}

if-Goes :
    (d : ℕ) (test : Bool) (r s : Outcome) → Goes d r → Goes d s → Goes d (if test then r else s)
if-Goes d true r s hr hs = hr
if-Goes d false r s hr hs = hs

on_select_uplink-Goes :
    (d ch_id : ℕ) (conn_id meta : Bytes) (o : Option ConnState)
    → 0 < ch_id
    → HasDownlink d o
    → Goes d (on_select_uplink ch_id conn_id meta o)
unfolding on_select_uplink
on_select_uplink-Goes d ch_id conn_id meta o valid h =
    let up = server_uplink ch_id meta in
    let s = select_downlink ch_id (note_uplink up o) in
    chosen-Goes d s (selected_by conn_id up)
      (select_downlink-Chose d ch_id (note_uplink up o) valid (note_uplink-HasDownlink d up o h))
      (λ y has told. selected_by-Fits conn_id up y s.0 s.1 has)

on_tcp_data-Goes :
    (d : ℕ) (write_ok : Bool) (ch_id : ℕ) (conn_id payload : Bytes) (o : Option ConnState)
    → 0 < ch_id
    → HasDownlink d o
    → Goes d (on_tcp_data write_ok ch_id conn_id payload o)
unfolding on_tcp_data
on_tcp_data-Goes d write_ok ch_id conn_id payload o valid h =
    let s = downlink_of ch_id o (get_downlink o) in
    chosen-Goes d s (deliver_tcp write_ok ch_id conn_id payload)
      (downlink_of-Chose d ch_id o valid h)
      (λ y has told. deliver_tcp-Fits write_ok ch_id conn_id payload y s.0 s.1 valid has told)

on_udp_data-Goes :
    (d ch_id : ℕ) (conn_id meta payload : Bytes) (o : Option ConnState)
    → 0 < ch_id
    → HasDownlink d o
    → Goes d (on_udp_data ch_id conn_id meta payload o)
unfolding on_udp_data
on_udp_data-Goes d ch_id conn_id meta payload o valid h =
    let s = downlink_of ch_id o (get_downlink o) in
    chosen-Goes d s (deliver_udp ch_id conn_id meta payload) (downlink_of-Chose d ch_id o valid h)
      (λ y has told. deliver_udp-Fits ch_id conn_id meta payload y s.0 s.1 valid has told)

on_channel_reset-Fits :
    (d : ℕ) (meta : Bytes) (o : Option ConnState)
    → HasDownlink d o
    → Fits d (on_channel_reset meta o)
unfolding on_channel_reset
on_channel_reset-Fits d meta o h =
    if-Fits d (leb 4 (length meta))
      (o, reset (u32 (take 4 meta)) ∷ invalidated (u32 (take 4 meta)) ∷ []) (o, [])
      (h, (tt, (tt, tt))) (h, tt)

on_backpressure-Fits :
    (d : ℕ) (meta : Bytes) (o : Option ConnState)
    → HasDownlink d o
    → Fits d (on_backpressure meta o)
unfolding on_backpressure
on_backpressure-Fits d meta o h =
    if-Fits d (leb 1 (length meta)) (o, pressed (get_or meta 0 0) ∷ []) (o, []) (h, (tt, tt))
      (h, tt)

dispatch-Goes :
    (d : ℕ) (f : Frame) (o : Option ConnState)
    → 0 < f.ch_id
    → HasDownlink d o
    → Goes d (dispatch f o)
unfolding dispatch
dispatch-Goes d f o valid h =
    let m = f.message in
    if-Goes d (m.kind == msg_tcp_connect || m.kind == msg_reverse_listen_result) _ _
      (stays d (o, reversed ∷ []) (h, (tt, tt)))
      (if-Goes d (m.kind == msg_select_uplink) _ _
        (on_select_uplink-Goes d f.ch_id m.conn_id m.meta o valid h)
        (if-Goes d (m.kind == msg_conn_status) _ _
          (stays d (on_conn_status m.meta o) (on_conn_status-Fits d m.meta o h))
          (if-Goes d (m.kind == msg_tcp_data) _ _
            (on_tcp_data-Goes d f.write_ok f.ch_id m.conn_id m.payload o valid h)
            (if-Goes d (m.kind == msg_tcp_close) _ _
              (stays d (on_tcp_close f.ch_id o) (on_tcp_close-Fits d f.ch_id o h))
              (if-Goes d (m.kind == msg_udp_data) _ _
                (on_udp_data-Goes d f.ch_id m.conn_id m.meta m.payload o valid h)
                (if-Goes d (m.kind == msg_udp_close) _ _
                  (stays d (on_udp_close f.ch_id o) (on_udp_close-Fits d f.ch_id o h))
                  (if-Goes d (m.kind == msg_backpressure) _ _
                    (stays d (on_backpressure m.meta o) (on_backpressure-Fits d m.meta o h))
                    (if-Goes d (m.kind == msg_channel_reset) _ _
                      (stays d (on_channel_reset m.meta o) (on_channel_reset-Fits d m.meta o h))
                      (stays d (o, []) (h, tt))))))))))

handle_frame-Goes :
    (d : ℕ) (f : Frame) (o : Option ConnState)
    → 0 < f.ch_id
    → HasDownlink d o
    → Goes d (handle_frame f o)
unfolding handle_frame
handle_frame-Goes d f o valid h =
    let noted = note_last_channel f.ch_id o in
    let has = note_last_channel-HasDownlink d f.ch_id o h in
    if-Goes d f.has_reverse_conn (noted, reversed ∷ []) (dispatch f noted)
      (stays d (noted, reversed ∷ []) (has, (tt, tt))) (dispatch-Goes d f noted valid has)

-- Data that reached the connection over channel 0 did so over any: there is none.
IsVia-zero : (d : ℕ) (effects : List Effect) → All (IsVia 0) effects → All (IsVia d) effects
IsVia-zero d [] h = tt
IsVia-zero d (e ∷ effects) h = (one e h.0, IsVia-zero d effects h.1)
  where
    one : (e : Effect) → IsVia 0 e → IsVia d e
    one (wrote c b) h = tt
    one (broadcast b) h = tt
    one closed_tcp_conn h = tt
    one closed_udp_sink h = tt
    one (released p) h = tt
    one (invalidated c) h = tt
    one (delivered c b) h = absurd (omega arith)
    one (delivered_udp c a b) h = absurd (omega arith)
    one (prebound a b) h = tt
    one (pressed l) h = tt
    one (reset c) h = tt
    one reversed h = tt

-- All the data that reach a connection, TCP or UDP, reach it over one and the same channel, whatever
-- frames come in on whatever channels and in whatever order; over the connection's downlink, if it
-- has one to begin with. The connection is not registered again meanwhile, and channel IDs are positive.
pub handle_frames-one_channel :
    (frames : List Frame) (o : Option ConnState) (d : ℕ)
    → All (λ f. 0 < f.ch_id) frames
    → HasDownlink d o
    → (y : ℕ) × ((d ≡ 0) ⊎ (y ≡ d)) × All (IsVia y) (handle_frames frames o).1
unfolding handle_frames
handle_frames-one_channel [] o d valid h = (d, inr refl, tt)
handle_frames-one_channel (f ∷ frames) o d valid h =
    let (y, kept, fits) = handle_frame-Goes d f o valid.0 h in
    let first = handle_frame f o in
    let (z, kept', rest) = handle_frames-one_channel frames first.0 y valid.1 fits.0 in
    (
      z,
      ground arith,
      All-append (IsVia z) first.1 (handle_frames frames first.0).1 (carry y z kept' first.1 fits.1)
          rest,
    )
  where
    carry :
        (y z : ℕ)
        → (y ≡ 0) ⊎ (z ≡ y)
        → (effects : List Effect) → All (IsVia y) effects
        → All (IsVia z) effects
    carry y z (inl none_yet) effects h = IsVia-zero z effects (rw none_yet at h)
    carry y z (inr same) effects h = rw same h
