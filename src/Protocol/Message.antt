-- ===== src/Protocol/Message.antt =====
-- protocol/protocol.go: the frame that every channel carries, EncodeMessage and DecodeMessage.
-- A frame is 8 header bytes (type, id length, meta length, payload length), then the three parts.
pub mod RoundTrip
pub mod Canonical
use xtunnel.Base.{
  ℕ, ◌+◌, ◌-◌, ◌%◌, ◌^◌, [], ◌∷◌, ◌++◌, ◌||◌, ltb, if◌then◌else◌, length, take, drop, get_or, Bytes,
}
use xtunnel.Protocol.Wire.{slice, put_u16, put_u32, u16, u32}

-- MessageType is a uint8: any byte may arrive.
abbrev pub MessageType : Type 0
MessageType = ℕ

abbrev pub msg_tcp_connect : MessageType
msg_tcp_connect = 1

abbrev pub msg_tcp_data : MessageType
msg_tcp_data = 2

abbrev pub msg_tcp_close : MessageType
msg_tcp_close = 3

abbrev pub msg_udp_connect : MessageType
msg_udp_connect = 4

abbrev pub msg_udp_data : MessageType
msg_udp_data = 5

abbrev pub msg_udp_close : MessageType
msg_udp_close = 6

abbrev pub msg_conn_status : MessageType
msg_conn_status = 7

abbrev pub msg_select_uplink : MessageType
msg_select_uplink = 8

abbrev pub msg_select_downlink : MessageType
msg_select_downlink = 9

abbrev pub msg_backpressure : MessageType
msg_backpressure = 10

abbrev pub msg_prebind_request : MessageType
msg_prebind_request = 16

abbrev pub msg_channel_reset : MessageType
msg_channel_reset = 17

abbrev pub msg_reverse_listen : MessageType
msg_reverse_listen = 32

abbrev pub msg_reverse_listen_result : MessageType
msg_reverse_listen_result = 33

abbrev pub msg_hot_pair_notify : MessageType
msg_hot_pair_notify = 34

abbrev pub msg_hot_pair_begin : MessageType
msg_hot_pair_begin = 35

pub record Message : Type 0 where
  pub kind : MessageType
  pub conn_id : Bytes
  pub meta : Bytes
  pub payload : Bytes

pub data DecodeError : Type 0 where
  frame_too_short invalid_length : DecodeError

pub data Decoded : Type 0 where
  ok : Message → Decoded
  err : DecodeError → Decoded

abbrev pub header_len : ℕ
header_len = 8

-- `int` is 64 bits wide.
abbrev pub max_int : ℕ
max_int = 2 ^ 63 - 1

-- `connID[:n]` when it is longer, at n = 255.
unfoldable pub clip : ℕ → Bytes → Bytes
clip n id = if ltb n (length id) then take n id else id

unfoldable pub clip_id : Bytes → Bytes
clip_id = clip 255

unfoldable pub encode_message : MessageType → Bytes → Bytes → Bytes → Bytes
encode_message t conn_id meta payload =
    let id = clip_id conn_id in
    (t ∷ (length id % 256) ∷ [])
    ++ (put_u16 (length meta) ++ (put_u32 (length payload) ++ (id ++ (meta ++ payload))))

-- The three parts behind a header whose lengths fit the frame.
abbrev pub parts : Bytes → ℕ → ℕ → ℕ → Message
parts b id_len meta_len payload_len = record {
  kind = get_or b 0 0;
  conn_id = slice b header_len (header_len + id_len);
  meta = slice b (header_len + id_len) (header_len + id_len + meta_len);
  payload = slice b (header_len + id_len + meta_len) (header_len + id_len + meta_len + payload_len);
}

unfoldable pub decode_message : Bytes → Decoded
decode_message b =
    let id_len = get_or b 1 0 in
    let meta_len = u16 (slice b 2 4) in
    let payload_len = u32 (slice b 4 8) in
    let total = header_len + id_len + meta_len + payload_len in
    if ltb (length b) header_len
    then err frame_too_short
    else if ltb (length b) total || ltb max_int total
    then err invalid_length
    else ok (parts b id_len meta_len payload_len)
