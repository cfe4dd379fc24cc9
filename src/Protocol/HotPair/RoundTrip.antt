-- ===== src/Protocol/HotPair/RoundTrip.antt =====
-- protocol/protocol.go: what DecodeHotPairNotify reads of what EncodeHotPairNotify wrote.
use xtunnel.Base.{
  ℕ, zero, suc, ◌+◌, ◌-◌, ◌%◌, ◌^◌, ◌≤◌, ◌<◌, ◌≡◌, refl, sym, ap, ◌∙◌, List, [], ◌∷◌, ◌++◌, ◌||◌,
  false, arith, ◌==◌, ltb, if◌then◌else◌, length, drop, get_or, Bytes, All, AreBytes, Bool-cases,
  IsByte, All-take, All-drop, All-get_or, length-append, length-take, length-drop, drop-append, inl,
  inr,
}
use mathlib.Core.List.{append_assoc, append-nil}
use xtunnel.Protocol.Wire.{
  slice, slice-append, slice-second, slice-third, put_u32, u32, u32-put_u32,
}
use xtunnel.Protocol.HotPair.{
  HotPairInfo, encode_record, encode_hot_pair_notify, read_record, is_torn, decode_records,
  decode_hot_pair_notify,
}

-- Fuel beyond the length of the input changes nothing.
decode_records_enough :
    (f g : ℕ) (b : Bytes) → length b ≤ f → length b ≤ g → decode_records f b ≡ decode_records g b
unfolding decode_records
decode_records_enough zero zero b hf hg = refl
decode_records_enough zero (suc g) b hf hg = ground arith
decode_records_enough (suc f) zero b hf hg = ground arith
decode_records_enough (suc f) (suc g) b hf hg =
    let n = get_or b 0 0 in
    elim (Bool-cases (is_torn b n)) [
      | inl torn ↦ rw torn
      | inr whole ↦ rw whole (
          ap (◌∷◌ (read_record b)) (
            decode_records_enough f g (drop (9 + n) b) (grind (arith, length-drop))
              (grind (arith, length-drop))))
    ]

-- The loop, without its fuel: it stops at a torn record and otherwise takes one and goes on.
pub decode_hot_pair_notify_loop :
    (b : Bytes)
    → decode_hot_pair_notify b ≡ (
        if is_torn b (get_or b 0 0)
        then []
        else read_record b ∷ decode_hot_pair_notify (drop (9 + get_or b 0 0) b))
unfolding decode_hot_pair_notify decode_records
decode_hot_pair_notify_loop b =
    let n = get_or b 0 0 in
    let next = drop (9 + n) b in
    decode_records_enough (length b) (suc (length b)) b (omega arith) (omega arith)
    ∙ elim (Bool-cases (is_torn b n)) [
      | inl torn ↦ rw torn
      | inr whole ↦ rw whole (
          ap (◌∷◌ (read_record b)) (
            decode_records_enough (length b) (length next) next
              (omega (arith, length-drop (9 + n) b)) (omega arith)))
    ]

-- The record as it arrives: each channel number in 32 bits.
abbrev pub wire_info : HotPairInfo → HotPairInfo
wire_info e = record e { cha = e.cha % 2 ^ 32; chb = e.chb % 2 ^ 32 }

abbrev pub HasKey : HotPairInfo → Type 0
HasKey e = (0 < length e.key) × (length e.key ≤ 255)

length-put_u32 : (n : ℕ) → length (put_u32 n) ≡ 4
unfolding put_u32
length-put_u32 n = refl

length-encode_record : (e : HotPairInfo) → length (encode_record e) ≡ 9 + length e.key
unfolding encode_record
length-encode_record e = omega (
  arith,
  length-append e.key (put_u32 e.cha ++ put_u32 e.chb),
  length-append (put_u32 e.cha) (put_u32 e.chb),
  length-put_u32 e.cha,
  length-put_u32 e.chb,
)

module _ (e : HotPairInfo) (tail : Bytes) (h : HasKey e) where
  -- The record's four parts, end to end.
  abbrev laid : Bytes
  laid = (length e.key ∷ []) ++ (e.key ++ (put_u32 e.cha ++ (put_u32 e.chb ++ tail)))

  record_laid : encode_record e ++ tail ≡ laid
  unfolding encode_record
  record_laid =
      rw
        (
          append_assoc e.key (put_u32 e.cha ++ put_u32 e.chb) tail,
          append_assoc (put_u32 e.cha) (put_u32 e.chb) tail,
        )
        (ap (λ (n : ℕ). n ∷ (e.key ++ (put_u32 e.cha ++ (put_u32 e.chb ++ tail))))
          (omega (arith, h)))

  length_record : length (encode_record e ++ tail) ≡ 9 + length e.key + length tail
  length_record = omega (arith, length-append (encode_record e) tail, length-encode_record e)

  record_not_torn : is_torn (encode_record e ++ tail) (length e.key) ≡ false
  record_not_torn = rw length_record (ground arith)

  record_read : read_record laid ≡ wire_info e
  record_read = λ i. record {
    key =
        slice-append (length e.key ∷ []) e.key (put_u32 e.cha ++ (put_u32 e.chb ++ tail)) 1
          (1 + length e.key) refl refl i;
    cha =
        (ap u32 (
              slice-second (length e.key ∷ []) e.key (put_u32 e.cha) (put_u32 e.chb ++ tail)
                (1 + length e.key) (5 + length e.key) refl (omega (arith, length-put_u32 e.cha)))
            ∙ u32-put_u32 e.cha)
          i;
    chb =
        (ap u32 (
              slice-third (length e.key ∷ []) e.key (put_u32 e.cha) (put_u32 e.chb) tail
                (5 + length e.key) (9 + length e.key) (omega (arith, length-put_u32 e.cha))
                (omega (arith, length-put_u32 e.cha, length-put_u32 e.chb)))
            ∙ u32-put_u32 e.chb)
          i;
  }

  record_dropped : drop (9 + length e.key) (encode_record e ++ tail) ≡ tail
  record_dropped = rw (← length-encode_record e) (drop-append (encode_record e) tail)

  -- One round of the decoder over one encoded record.
  decode_record :
      decode_hot_pair_notify (encode_record e ++ tail) ≡ wire_info e ∷ decode_hot_pair_notify tail
  decode_record =
      decode_hot_pair_notify_loop (encode_record e ++ tail)
      ∙ rw (head_len, record_not_torn, record_dropped, record_laid)
          (ap (λ r. r ∷ decode_hot_pair_notify tail) record_read)
    where
      head_len : get_or (encode_record e ++ tail) 0 0 ≡ length e.key
      head_len = rw record_laid

-- The records that are sent: those whose key fits its length byte.
unfoldable pub sent : List HotPairInfo → List HotPairInfo
sent [] = []
sent (e ∷ es) =
    if length e.key == 0 || ltb 255 (length e.key) then sent es else wire_info e ∷ sent es

-- Decoding what was encoded gives the records whose key has 1 to 255 bytes, in order and with their
-- channels modulo 2^32, and behind them what the further bytes decode to.
pub decode_hot_pair_notify-encode :
    (es : List HotPairInfo) (tail : Bytes)
    → decode_hot_pair_notify (encode_hot_pair_notify es ++ tail)
      ≡ sent es ++ decode_hot_pair_notify tail
unfolding encode_hot_pair_notify sent
decode_hot_pair_notify-encode [] tail = refl
decode_hot_pair_notify-encode (e ∷ es) tail =
    elim (Bool-cases (length e.key == 0 || ltb 255 (length e.key))) [
      | inl skipped ↦ rw skipped (decode_hot_pair_notify-encode es tail)
      | inr kept ↦
          rw (kept, append_assoc (encode_record e) (encode_hot_pair_notify es) tail)
            (decode_record e (encode_hot_pair_notify es ++ tail) (ground arith)
              ∙ ap (◌∷◌ (wire_info e)) (decode_hot_pair_notify-encode es tail))
    ]

-- A record that stops short is torn.
decode_torn :
    (e : HotPairInfo) (front : Bytes) (x : ℕ) (back : Bytes)
    → HasKey e
    → encode_record e ≡ front ++ (x ∷ back)
    → decode_hot_pair_notify front ≡ []
unfolding encode_record
decode_torn e [] x back h whole = decode_hot_pair_notify_loop []
decode_torn e (y ∷ front) x back h whole =
    let first : y ≡ length e.key = sym (ap (λ b. get_or b 0 0) whole) ∙ omega (arith, h) in
    decode_hot_pair_notify_loop (y ∷ front)
    ∙ rw first (
        ground
          (arith, ap length whole, length-encode_record e, length-append (y ∷ front) (x ∷ back)))

-- A payload that was cut inside a record yields the records before the cut, and nothing of the rest.
pub decode_hot_pair_notify_cut :
    (es : List HotPairInfo) (e : HotPairInfo) (front : Bytes) (x : ℕ) (back : Bytes)
    → HasKey e
    → encode_record e ≡ front ++ (x ∷ back)
    → decode_hot_pair_notify (encode_hot_pair_notify es ++ front) ≡ sent es
decode_hot_pair_notify_cut es e front x back h whole =
    decode_hot_pair_notify-encode es front
    ∙ rw (decode_torn e front x back h whole) (append-nil (sent es))

-- What a server may rely on in a record from the wire.
abbrev pub IsWire : HotPairInfo → Type 0
IsWire e = HasKey e × (e.cha < 2 ^ 32) × (e.chb < 2 ^ 32)

u32_byte_lt : (b : Bytes) → AreBytes b → u32 b < 2 ^ 32
unfolding u32
u32_byte_lt b h = omega (
  arith,
  All-get_or IsByte b 0 0 h (omega arith),
  All-get_or IsByte b 1 0 h (omega arith),
  All-get_or IsByte b 2 0 h (omega arith),
  All-get_or IsByte b 3 0 h (omega arith),
)

slice-AreBytes : (b : Bytes) (i j : ℕ) → AreBytes b → AreBytes (slice b i j)
slice-AreBytes b i j h = All-take IsByte (j - i) (drop i b) (All-drop IsByte i b h)

read_record-IsWire :
    (b : Bytes) → AreBytes b → is_torn b (get_or b 0 0) ≡ false → IsWire (read_record b)
read_record-IsWire b h whole =
    let n = get_or b 0 0 in
    (
      ground (
        arith,
        length-take (1 + n - 1) (drop 1 b),
        length-drop 1 b,
        All-get_or IsByte b 0 0 h (omega arith),
      ),
      u32_byte_lt _ (slice-AreBytes b (1 + n) (5 + n) h),
      u32_byte_lt _ (slice-AreBytes b (5 + n) (9 + n) h),
    )

decode_records-IsWire : (f : ℕ) (b : Bytes) → AreBytes b → All IsWire (decode_records f b)
unfolding decode_records
decode_records-IsWire zero b h = tt
decode_records-IsWire (suc f) b h = elim (Bool-cases (is_torn b (get_or b 0 0))) [
  | inl torn ↦ rw torn tt
  | inr whole ↦ rw whole (
    read_record-IsWire b h whole,
    decode_records-IsWire f _ (All-drop IsByte (9 + get_or b 0 0) b h),
  )
]

-- Every record that is read has a key of 1 to 255 bytes and channel numbers of 32 bits.
pub decode_hot_pair_notify-IsWire : (b : Bytes) → AreBytes b → All IsWire (decode_hot_pair_notify b)
unfolding decode_hot_pair_notify
decode_hot_pair_notify-IsWire b h = decode_records-IsWire (length b) b h

wire_info_self : (e : HotPairInfo) → IsWire e → wire_info e ≡ e
wire_info_self e (keyed, up, down) = ground arith

sent_self : (es : List HotPairInfo) → All IsWire es → sent es ≡ es
unfolding sent
sent_self [] h = refl
sent_self (e ∷ es) (first, rest) =
    let fits : (length e.key == 0 || ltb 255 (length e.key)) ≡ false = ground (arith, first.0) in
    rw (fits, wire_info_self e first) (ap (◌∷◌ e) (sent_self es rest))

-- Records whose keys have 1 to 255 bytes and whose channels are below 2^32 are read back as they were
-- encoded, all of them and in order, whatever bytes follow them.
pub decode_hot_pair_notify-encode_self :
    (es : List HotPairInfo) (tail : Bytes)
    → All IsWire es
    → decode_hot_pair_notify (encode_hot_pair_notify es ++ tail) ≡ es ++ decode_hot_pair_notify tail
decode_hot_pair_notify-encode_self es tail h =
    decode_hot_pair_notify-encode es tail
    ∙ ap (λ rs. rs ++ decode_hot_pair_notify tail) (sent_self es h)
