-- ===== src/Protocol/HotPair.antt =====
-- protocol/protocol.go: the payload of MsgHotPairNotify, EncodeHotPairNotify and
-- DecodeHotPairNotify. A channel number is a natural number: the code's are positive.
pub mod RoundTrip
use xtunnel.Base.{
  ℕ, zero, suc, ◌+◌, ◌%◌, Bool, List, [], ◌∷◌, ◌++◌, ◌||◌, ◌==◌, ltb, if◌then◌else◌, length, drop,
  get_or, Bytes,
}
use xtunnel.Protocol.Wire.{slice, put_u32, u32}

pub record HotPairInfo : Type 0 where
  pub key : Bytes
  pub cha : ℕ
  pub chb : ℕ

-- keyLen(1) + chA(4) + chB(4)
abbrev pub hot_pair_record_fixed_len : ℕ
hot_pair_record_fixed_len = 9

unfoldable pub encode_record : HotPairInfo → Bytes
encode_record e = (length e.key % 256 ∷ []) ++ (e.key ++ (put_u32 e.cha ++ put_u32 e.chb))

-- A key that its one length byte cannot tell is left out.
unfoldable pub encode_hot_pair_notify : List HotPairInfo → Bytes
encode_hot_pair_notify [] = []
encode_hot_pair_notify (e ∷ es) =
    if length e.key == 0 || ltb 255 (length e.key)
    then encode_hot_pair_notify es
    else encode_record e ++ encode_hot_pair_notify es

-- The record at the front of what the loop has not read.
abbrev pub read_record : Bytes → HotPairInfo
read_record b =
    let n = get_or b 0 0 in
    record {
      key = slice b 1 (1 + n);
      cha = u32 (slice b (1 + n) (5 + n));
      chb = u32 (slice b (5 + n) (9 + n));
    }

-- `off+hotPairRecordFixedLen > len(payload)`, and the two tests on the key's length.
abbrev pub is_torn : Bytes → ℕ → Bool
is_torn b n =
    ltb (length b) hot_pair_record_fixed_len
    || (n == 0 || ltb (length b) (hot_pair_record_fixed_len + n))

-- The loop over `payload[off:]`; each round takes ten bytes at least.
unfoldable pub decode_records : ℕ → Bytes → List HotPairInfo
decode_records zero b = []
decode_records (suc fuel) b =
    let n = get_or b 0 0 in
    let rest = decode_records fuel (drop (hot_pair_record_fixed_len + n) b) in
    if is_torn b n then [] else read_record b ∷ rest

unfoldable pub decode_hot_pair_notify : Bytes → List HotPairInfo
decode_hot_pair_notify payload = decode_records (length payload) payload
