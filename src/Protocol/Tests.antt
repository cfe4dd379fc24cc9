-- ===== src/Protocol/Tests.antt =====
-- The protocol's functions on concrete frames, payloads and ids.
use xtunnel.Base.{
  ℕ, ◌≡◌, ◌≢◌, ◌<◌, ◌≤◌, ◌↔◌, refl, Bool, true, false, Option, none, some, List, [], ◌∷◌, ◌++◌,
  arith, length, drop, Bytes, AreBytes, All, codes, has_prefix, if◌then◌else◌, ltb, ◌+◌,
}
use xtunnel.Protocol.IpStrategy.{Addr}
use xtunnel.Protocol.Message.{Message, ok, encode_message, decode_message, msg_tcp_data, clip_id}
use xtunnel.Protocol.Message.RoundTrip.{decode_message-encode_message}
use xtunnel.Protocol.Message.Canonical.{
  encode, Fits, decode_message_sound, decode_message_truncated,
}
use xtunnel.Protocol.HotPair.{
  HotPairInfo, encode_record, encode_hot_pair_notify, decode_hot_pair_notify,
}
use xtunnel.Protocol.HotPair.RoundTrip.{decode_hot_pair_notify-encode_self}
use xtunnel.Protocol.ConnId.{
  NoSep, hot_pair_key_prefix, hot_pair_conn_id, split_hot_pair_conn_id, short_id,
  split-hot_pair_conn_id, split_hot_pair_conn_id_sound, short_id-IsFront,
}

abbrev data_frame : Message
data_frame = record {
  kind = msg_tcp_data;
  conn_id = codes "c1";
  meta = 7 ∷ [];
  payload = 1 ∷ 2 ∷ 3 ∷ [];
}

decode_message-encode_message_example :
    decode_message (encode_message msg_tcp_data (codes "c1") (7 ∷ []) (1 ∷ 2 ∷ 3 ∷ []) ++ (9 ∷ []))
    ≡ ok (record {
      kind = msg_tcp_data;
      conn_id = clip_id (codes "c1");
      meta = 7 ∷ [];
      payload = 1 ∷ 2 ∷ 3 ∷ [];
    })
decode_message-encode_message_example =
    decode_message-encode_message msg_tcp_data (codes "c1") (7 ∷ []) (1 ∷ 2 ∷ 3 ∷ []) (9 ∷ [])
      (omega arith) (omega arith)

abbrev data_bytes : Bytes
data_bytes = 2 ∷ 2 ∷ 0 ∷ 1 ∷ 0 ∷ 0 ∷ 0 ∷ 3 ∷ 99 ∷ 49 ∷ 7 ∷ 1 ∷ 2 ∷ 3 ∷ 9 ∷ []

data_bytes-AreBytes : AreBytes data_bytes
data_bytes-AreBytes = ground arith

data_bytes_read : decode_message data_bytes ≡ ok data_frame
unfolding decode_message xtunnel.Protocol.Wire.u16 xtunnel.Protocol.Wire.u32
data_bytes_read = refl

-- The frame of `data_frame` without its last byte.
abbrev cut_bytes : Bytes
cut_bytes = 2 ∷ 2 ∷ 0 ∷ 1 ∷ 0 ∷ 0 ∷ 0 ∷ 3 ∷ 99 ∷ 49 ∷ 7 ∷ 1 ∷ 2 ∷ []

cut_bytes-AreBytes : AreBytes cut_bytes
cut_bytes-AreBytes = ground arith

cut_bytes_lem :
    encode_message msg_tcp_data (codes "c1") (7 ∷ []) (1 ∷ 2 ∷ 3 ∷ []) ≡ cut_bytes ++ (3 ∷ [])
unfolding encode_message clip_id xtunnel.Protocol.Wire.put_u16 xtunnel.Protocol.Message.clip
    xtunnel.Protocol.Wire.put_u32
cut_bytes_lem = refl

decode_message_truncated_example : decode_message cut_bytes ≢ ok data_frame
decode_message_truncated_example =
    decode_message_truncated msg_tcp_data (codes "c1") (7 ∷ []) (1 ∷ 2 ∷ 3 ∷ []) cut_bytes 3 []
      data_frame (omega arith) (omega arith) cut_bytes-AreBytes cut_bytes_lem

decode_message_sound_example :
    (rest : Bytes) × (data_bytes ≡ encode data_frame ++ rest) × Fits data_frame
decode_message_sound_example =
    decode_message_sound data_bytes data_frame data_bytes-AreBytes data_bytes_read

-- The frame above, less its last byte.
abbrev data_front : Bytes
data_front = 2 ∷ 2 ∷ 0 ∷ 1 ∷ 0 ∷ 0 ∷ 0 ∷ 3 ∷ 99 ∷ 49 ∷ 7 ∷ 1 ∷ 2 ∷ []

data_front_cut :
    encode_message msg_tcp_data (codes "c1") (7 ∷ []) (1 ∷ 2 ∷ 3 ∷ []) ≡ data_front ++ (3 ∷ [])
unfolding encode_message clip_id xtunnel.Protocol.Wire.put_u16 xtunnel.Protocol.Message.clip
    xtunnel.Protocol.Wire.put_u32
data_front_cut = refl

data_front-AreBytes : AreBytes data_front
data_front-AreBytes = ground arith

abbrev pair_a : HotPairInfo
pair_a = record { key = codes "ab"; cha = 1; chb = 2 }

abbrev pair_b : HotPairInfo
pair_b = record { key = codes "c"; cha = 3; chb = 4 }

decode_hot_pair_notify-encode_self_example :
    decode_hot_pair_notify (encode_hot_pair_notify (pair_a ∷ pair_b ∷ []) ++ (1 ∷ []))
    ≡ (pair_a ∷ pair_b ∷ []) ++ decode_hot_pair_notify (1 ∷ [])
decode_hot_pair_notify-encode_self_example =
    decode_hot_pair_notify-encode_self (pair_a ∷ pair_b ∷ []) (1 ∷ []) (omega arith)

pair_b_cut : encode_record pair_b ≡ (1 ∷ 99 ∷ 0 ∷ 0 ∷ []) ++ (0 ∷ (3 ∷ 0 ∷ 0 ∷ 0 ∷ 4 ∷ []))
unfolding encode_record xtunnel.Protocol.Wire.put_u32
pair_b_cut = refl

abbrev notify_bytes : Bytes
notify_bytes = 1 ∷ 99 ∷ 0 ∷ 0 ∷ 0 ∷ 3 ∷ 0 ∷ 0 ∷ 0 ∷ 4 ∷ 5 ∷ []

notify_bytes-AreBytes : AreBytes notify_bytes
notify_bytes-AreBytes = ground arith

abbrev pair_key : Bytes
pair_key = codes "prebind-1"

pair_key-NoSep : NoSep pair_key
pair_key-NoSep = ground arith

pair_key_prefixed : has_prefix pair_key hot_pair_key_prefix ≡ true
unfolding has_prefix
pair_key_prefixed = refl

dialed_split : split_hot_pair_conn_id (codes "prebind-1.x9") ≡ some (pair_key, codes "x9")
unfolding split_hot_pair_conn_id xtunnel.Base.index_byte xtunnel.Protocol.ConnId.split_at has_prefix
dialed_split = refl

abbrev addr_v6 : Addr
addr_v6 = record { is_v4 = false; text = codes "::1" }

abbrev addr_v4 : Addr
addr_v4 = record { is_v4 = true; text = codes "10.0.0.1" }

abbrev web : Bytes
web = codes "80"

abbrev answers : Bytes → Option (List Addr)
answers host = some (addr_v4 ∷ [])

abbrev fails : Bytes → Option (List Addr)
fails host = none
