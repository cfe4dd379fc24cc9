-- ===== src/Protocol/Message/Canonical.antt =====
-- protocol/protocol.go: which byte strings DecodeMessage accepts.
use xtunnel.Base.{
  ℕ, ◌+◌, ◌^◌, ◌<◌, ◌≤◌, ◌≡◌, sym, ap, ◌∙◌, [], ◌∷◌, ◌++◌, arith, length, take, drop, get_or, Bytes,
  AreBytes, length-append, length-take, length-drop, take-append-drop, ◌≢◌,
}
use mathlib.Core.List.{append_assoc, append-nil}
use xtunnel.Protocol.Wire.{slice, u16, u32, put_u16-u16, put_u32-u32, u16_lt, u32_lt}
use xtunnel.Protocol.Message.{
  Message, MessageType, ok, clip, clip_id, parts, encode_message, decode_message,
}
use xtunnel.Protocol.Message.RoundTrip.{
  frame-parts, clip_short, length-clip-le, decode_message-encode_message, header,
}

abbrev pub encode : Message → Bytes
encode m = encode_message m.kind m.conn_id m.meta m.payload

-- The parts are within the widths of the header's fields.
pub record Fits (m : Message) : Type 0 where
  pub id_fits : length m.conn_id ≤ 255
  pub meta_fits : length m.meta < 2 ^ 16
  pub payload_fits : length m.payload < 2 ^ 32

-- What an accepted frame says of its lengths.
decode_ok :
    (b : Bytes) (m : Message)
    → decode_message b ≡ ok m
    → let i = get_or b 1 0 in
      let k = u16 (slice b 2 4) in
      let p = u32 (slice b 4 8) in (8 + i + k + p ≤ length b) × (m ≡ parts b i k p)
unfolding decode_message
decode_ok b m e = ground arith

-- A body cut at three lengths that fit it.
cut :
    (i k p : ℕ) (body : Bytes)
    → body
      ≡ take i body
        ++ (take k (drop i body)
            ++ (take p (drop k (drop i body)) ++ drop p (drop k (drop i body))))
cut i k p body = rw (
  take-append-drop p (drop k (drop i body)),
  take-append-drop k (drop i body),
  take-append-drop i body,
)

module _ (t a m1 m0 p3 p2 p1 p0 : ℕ) where
  abbrev head : Bytes
  head = header t a m1 m0 p3 p2 p1 p0

  abbrev meta_len : ℕ
  meta_len = u16 (m1 ∷ m0 ∷ [])

  abbrev payload_len : ℕ
  payload_len = u32 (p3 ∷ p2 ∷ p1 ∷ p0 ∷ [])

  -- Encoding the parts writes the header again.
  reencoded :
      (id meta payload rest : Bytes)
      → AreBytes head
      → a ≡ length id
      → meta_len ≡ length meta
      → payload_len ≡ length payload
      → head ++ (id ++ (meta ++ (payload ++ rest))) ≡ encode_message t id meta payload ++ rest
  unfolding encode_message clip_id
  reencoded id meta payload rest (_, (ba, (b1, (b0, (c3, (c2, (c1, (c0, _)))))))) ha hm hp =
      rw
        (
          ← hm,
          ← hp,
          put_u16-u16 m1 m0 b1 b0,
          put_u32-u32 p3 p2 p1 p0 c3 c2 c1 c0,
          clip_short 255 id (omega arith),
          append_assoc id (meta ++ payload) rest,
          append_assoc meta payload rest,
        )
        (ap (λ (x : ℕ). t ∷ x ∷ m1 ∷ m0 ∷ p3 ∷ p2 ∷ p1 ∷ p0 ∷ (id ++ (meta ++ (payload ++ rest))))
          (omega arith))

  assembled_parts :
      (m : Message) (id meta payload rest : Bytes)
      → a ≡ length id
      → meta_len ≡ length meta
      → payload_len ≡ length payload
      → m ≡ parts (head ++ (id ++ (meta ++ (payload ++ rest)))) a meta_len payload_len
      → m ≡ record { kind = t; conn_id = id; meta = meta; payload = payload }
  assembled_parts m id meta payload rest ha hm hp e =
      let whole = head ++ (id ++ (meta ++ (payload ++ rest))) in
      e
      ∙ (λ i. parts whole (ha i) (hm i) (hp i))
      ∙ frame-parts t a m1 m0 p3 p2 p1 p0 id meta payload rest

  Fits-parts :
      (id meta payload : Bytes)
      → AreBytes head
      → a ≡ length id
      → meta_len ≡ length meta
      → payload_len ≡ length payload
      → Fits (record { kind = t; conn_id = id; meta = meta; payload = payload })
  Fits-parts id meta payload (_, (ba, (b1, (b0, (c3, (c2, (c1, (c0, _)))))))) ha hm hp = record {
    id_fits = omega arith;
    meta_fits = omega (arith, u16_lt m1 m0 b1 b0);
    payload_fits = omega (arith, u32_lt p3 p2 p1 p0 c3 c2 c1 c0);
  }

  assembled :
      (m : Message) (id meta payload rest : Bytes)
      → AreBytes head
      → a ≡ length id
      → meta_len ≡ length meta
      → payload_len ≡ length payload
      → m ≡ parts (head ++ (id ++ (meta ++ (payload ++ rest)))) a meta_len payload_len
      → head ++ (id ++ (meta ++ (payload ++ rest))) ≡ encode m ++ rest
  assembled m id meta payload rest h ha hm hp e =
      rw (assembled_parts m id meta payload rest ha hm hp e)
        (reencoded id meta payload rest h ha hm hp)

  decode_canonical :
      (body : Bytes) (m : Message)
      → AreBytes head
      → decode_message (head ++ body) ≡ ok m
      → (rest : Bytes) × (head ++ body ≡ encode m ++ rest) × Fits m
  decode_canonical body m h e =
      let id = take a body in
      let meta = take meta_len (drop a body) in
      let payload = take payload_len (drop meta_len (drop a body)) in
      let rest = drop payload_len (drop meta_len (drop a body)) in
      let fits = decode_ok (head ++ body) m e in
      let whole = cut a meta_len payload_len body in
      let id_len : a ≡ length id = omega (arith, length-take a body) in
      let meta_eq : meta_len ≡ length meta =
        omega (arith, length-take meta_len (drop a body), length-drop a body) in
      let payload_eq : payload_len ≡ length payload = omega (
        arith,
        length-take payload_len (drop meta_len (drop a body)),
        length-drop meta_len (drop a body),
        length-drop a body,
      ) in
      let read = fits.1 ∙ ap (λ b. parts (head ++ b) a meta_len payload_len) whole in
      (
        rest,
        ap (◌++◌ head) whole ∙ assembled m id meta payload rest h id_len meta_eq payload_eq read,
        rw (assembled_parts m id meta payload rest id_len meta_eq payload_eq read)
            (Fits-parts id meta payload h id_len meta_eq payload_eq),
      )

-- Every frame that is accepted is the encoding of what was read, with further bytes behind it, and
-- what was read is within the widths of the header's fields.
pub decode_message_sound :
    (b : Bytes) (m : Message)
    → AreBytes b
    → decode_message b ≡ ok m
    → (rest : Bytes) × (b ≡ encode m ++ rest) × Fits m
decode_message_sound (t ∷ a ∷ m1 ∷ m0 ∷ p3 ∷ p2 ∷ p1 ∷ p0 ∷ body) m
      (bt, (ba, (b1, (b0, (c3, (c2, (c1, (c0, _)))))))) e =
    decode_canonical t a m1 m0 p3 p2 p1 p0 body m (bt, (ba, (b1, (b0, (c3, (c2, (c1, (c0, tt))))))))
      e
decode_message_sound b m h e = unfold decode_message in cc e

encode_clipped :
    (t : MessageType) (id meta payload : Bytes)
    → encode_message t (clip_id id) meta payload ≡ encode_message t id meta payload
unfolding encode_message clip_id
encode_clipped t id meta payload = rw (clip_short 255 (clip 255 id) (length-clip-le 255 id))

ok-injective : (m n : Message) → ok m ≡ ok n → m ≡ n
ok-injective m n e = cc

-- Two encodings that begin one byte string are one.
encode_prefix :
    (m n : Message) (xs ys : Bytes)
    → Fits m
    → Fits n
    → encode m ++ xs ≡ encode n ++ ys
    → encode m ≡ encode n
unfolding clip_id
encode_prefix m n xs ys fm fn e =
    let cm = clip_short 255 m.conn_id fm.id_fits in
    let cn = clip_short 255 n.conn_id fn.id_fits in
    let rm =
      decode_message-encode_message m.kind m.conn_id m.meta m.payload xs fm.meta_fits
        fm.payload_fits in
    let rn =
      decode_message-encode_message n.kind n.conn_id n.meta n.payload ys fn.meta_fits
        fn.payload_fits in
    let same = ok-injective _ _ (sym rm ∙ ap decode_message e ∙ rn) in
    ap encode (rw (cm, cn) at same)

-- A frame within the widths of its length fields that stops short of its end is never taken for a whole one.
pub decode_message_truncated :
    (t : MessageType) (id meta payload front : Bytes) (x : ℕ) (back : Bytes) (m : Message)
    → length meta < 2 ^ 16
    → length payload < 2 ^ 32
    → AreBytes front
    → encode_message t id meta payload ≡ front ++ (x ∷ back)
    → decode_message front ≢ ok m
unfolding clip_id
decode_message_truncated t id meta payload front x back m hm hp hb whole e =
    let (rest, cut_at, fits) = decode_message_sound front m hb e in
    let n : Message = record { kind = t; conn_id = clip 255 id; meta = meta; payload = payload } in
    let fn : Fits n = record {
      id_fits = length-clip-le 255 id;
      meta_fits = hm;
      payload_fits = hp;
    } in
    let clipped = encode_clipped t id meta payload in
    let glue : encode n ++ [] ≡ encode m ++ (rest ++ (x ∷ back)) =
      append-nil (encode n)
      ∙ clipped
      ∙ whole
      ∙ ap (λ f. f ++ (x ∷ back)) cut_at
      ∙ append_assoc (encode m) rest (x ∷ back) in
    omega (
      arith,
      ap length (encode_prefix n m [] (rest ++ (x ∷ back)) fn fits glue),
      ap length clipped,
      ap length whole,
      ap length cut_at,
      length-append front (x ∷ back),
      length-append (encode m) rest,
    )

-- A meta part too long for its 16-bit length is written whole under a length that has wrapped:
-- whatever the frame is read as, it is not the meta part that was sent.
pub encode_message_meta_wraps :
    (t : MessageType) (id meta payload : Bytes) (m : Message)
    → AreBytes (encode_message t id meta payload)
    → 2 ^ 16 ≤ length meta
    → decode_message (encode_message t id meta payload) ≡ ok m
    → m.meta ≢ meta
encode_message_meta_wraps t id meta payload m hb long e same =
    let (rest, cut_at, fits) = decode_message_sound _ m hb e in
    omega (arith, ap length same, fits.meta_fits)
