-- ===== src/Protocol/Message/RoundTrip.antt =====
-- protocol/protocol.go: EncodeMessage and DecodeMessage are inverse to one another.
use xtunnel.Base.{
  ℕ, ◌+◌, ◌^◌, ◌<◌, ◌≤◌, ◌≡◌, refl, ap, ◌∙◌, [], ◌∷◌, ◌++◌, arith, length, get_or, Bytes,
  length-append, length-take, ge→ltb,
}
use mathlib.Core.List.{append_assoc}
use xtunnel.Protocol.Wire.{
  slice, slice-append, slice-second, slice-third, put_u16, put_u32, u16, u32, u16-put_u16,
  u32-put_u32,
}
use xtunnel.Protocol.Message.{
  MessageType, ok, clip, clip_id, parts, max_int, encode_message, decode_message,
}

pub length-clip-le : (n : ℕ) (id : Bytes) → length (clip n id) ≤ n
unfolding clip
length-clip-le n id = ground (arith, length-take n id)

pub clip_short : (n : ℕ) (id : Bytes) → length id ≤ n → clip n id ≡ id
unfolding clip
clip_short n id h = ground arith

-- A header whose lengths fit the frame is accepted.
decode_fits :
    (b : Bytes) (i m p : ℕ)
    → get_or b 1 0 ≡ i
    → u16 (slice b 2 4) ≡ m
    → u32 (slice b 4 8) ≡ p
    → 8 + i + m + p ≤ length b
    → 8 + i + m + p ≤ max_int
    → decode_message b ≡ ok (parts b i m p)
unfolding decode_message
decode_fits b i m p hi hm hp fits small =
    rw (hi, hm, hp, ge→ltb (length b) 8 (omega arith), ge→ltb _ _ fits, ge→ltb _ _ small)

abbrev pub header : (t a m1 m0 p3 p2 p1 p0 : ℕ) → Bytes
header t a m1 m0 p3 p2 p1 p0 = t ∷ a ∷ m1 ∷ m0 ∷ p3 ∷ p2 ∷ p1 ∷ p0 ∷ []

module _ (t a m1 m0 p3 p2 p1 p0 : ℕ) (id meta payload rest : Bytes) where
  abbrev pub frame : Bytes
  frame = header t a m1 m0 p3 p2 p1 p0 ++ (id ++ (meta ++ (payload ++ rest)))

  pub frame-parts :
      parts frame (length id) (length meta) (length payload)
      ≡ record { kind = t; conn_id = id; meta = meta; payload = payload }
  frame-parts = λ i. record {
    kind = t;
    conn_id =
        slice-append (header t a m1 m0 p3 p2 p1 p0) id (meta ++ (payload ++ rest)) 8 (8 + length id)
          refl (omega arith) i;
    meta =
        slice-second (header t a m1 m0 p3 p2 p1 p0) id meta (payload ++ rest) (8 + length id)
          (8 + length id + length meta) (omega arith) (omega arith) i;
    payload =
        slice-third (header t a m1 m0 p3 p2 p1 p0) id meta payload rest
          (8 + length id + length meta) (8 + length id + length meta + length payload) (omega arith)
          (omega arith) i;
  }

  length-frame : length frame ≡ 8 + length id + length meta + length payload + length rest
  length-frame = omega (
    arith,
    length-append id (meta ++ (payload ++ rest)),
    length-append meta (payload ++ rest),
    length-append payload rest,
  )

  -- A frame whose header tells the lengths of its parts is read back, whatever follows it.
  framed :
      a ≡ length id
      → u16 (m1 ∷ m0 ∷ []) ≡ length meta
      → u32 (p3 ∷ p2 ∷ p1 ∷ p0 ∷ []) ≡ length payload
      → 8 + length id + length meta + length payload ≤ max_int
      → decode_message frame
        ≡ ok (record { kind = t; conn_id = id; meta = meta; payload = payload })
  framed ha hm hp small =
      decode_fits frame (length id) (length meta) (length payload) ha hm hp
        (omega (arith, length-frame)) small
      ∙ ap ok frame-parts

-- A frame within the widths of its length fields is read back as it was written, its id cut to
-- 255 bytes, whatever bytes follow the frame.
pub decode_message-encode_message :
    (t : MessageType) (id meta payload rest : Bytes)
    → length meta < 2 ^ 16
    → length payload < 2 ^ 32
    → decode_message (encode_message t id meta payload ++ rest)
      ≡ ok (record { kind = t; conn_id = clip_id id; meta = meta; payload = payload })
unfolding encode_message put_u16 put_u32 clip_id
decode_message-encode_message t id meta payload rest hm hp =
    rw (append_assoc (clip 255 id) (meta ++ payload) rest, append_assoc meta payload rest)
      (framed t _ _ _ _ _ _ _ (clip 255 id) meta payload rest (omega (arith, length-clip-le 255 id))
        (u16-put_u16 (length meta) ∙ omega arith) (u32-put_u32 (length payload) ∙ omega arith)
        (omega (arith, length-clip-le 255 id)))
