-- ===== src/ClientPool/Writer/Events.antt =====
-- pool.go: what a job that writeWorker writes tells the server, and what joining makes of it.
use mathlib.Core.List.{append_assoc, append-nil, map-append}
use xtunnel.Base.{
  ℕ, zero, suc, ◌+◌, ◌^◌, ◌≤◌, ◌<◌, ◌≡◌, refl, sym, ap, ◌∙◌, not, ◌||◌, true, some, List, [], ◌∷◌,
  ◌++◌, ◌==◌, ltb, if◌then◌else◌, length, length-append, map, Bytes, bytes_eq, bytes_eq→eq,
  Bool-cases, Option-cases, inl, inr, ◌⊎◌, arith,
}
use xtunnel.Protocol.Message.{
  Message, Decoded, ok, err, clip_id, msg_tcp_data, encode_message, decode_message,
}
use xtunnel.Protocol.Message.RoundTrip.{clip_short, decode_message-encode_message}
use xtunnel.Protocol.Message.Canonical.{Fits}
use xtunnel.ClientPool.Writer.{WriteJob, binary_message, fits_frame, joins, agg_loop, merged_job}

-- What a written job tells the server: a byte of a connection, a meta part that comes with data, or
-- another message, whole.
pub data Event : Type 0 where
  byte : Bytes → ℕ → Event
  head : Bytes → Bytes → Event
  other : WriteJob → Event

abbrev pub data_events : Message → List Event
data_events m =
    (if length m.meta == 0 then [] else head m.conn_id m.meta ∷ [])
    ++ map (byte m.conn_id) m.payload

abbrev pub decoded_events : WriteJob → Decoded → List Event
decoded_events j (err e) = other j ∷ []
decoded_events j (ok m) = if m.kind == msg_tcp_data then data_events m else other j ∷ []

unfoldable pub job_events : WriteJob → List Event
job_events j =
    if j.msg_type == binary_message then decoded_events j (decode_message j.bytes) else other j ∷ []

unfoldable pub events : List WriteJob → List Event
events [] = []
events (j ∷ jobs) = job_events j ++ events jobs

fits_frame_sound :
    (max_agg : ℕ) (id : Bytes) (total : ℕ) (d : Decoded) (j : WriteJob) (part : Bytes)
    → fits_frame max_agg id total d ≡ some part
    → (decoded_events j d ≡ map (byte id) part) × (total + length part ≤ max_agg)
fits_frame_sound max_agg id total (err e) j part h = absurd (cc h)
fits_frame_sound max_agg id total (ok m) j part h =
    elim (Bool-cases (
      not (m.kind == msg_tcp_data)
      || (not (bytes_eq m.conn_id id)
          || (not (length m.meta == 0) || ltb max_agg (total + length m.payload))))) [
            | inl apart ↦ absurd (cc (rw apart at h))
            | inr together ↦
                let paid : m.payload ≡ part = ground arith in
                let same : m.conn_id ≡ id = bytes_eq→eq m.conn_id id (ground arith) in
                let tcp : (m.kind == msg_tcp_data) ≡ true = ground arith in
                let bare : (length m.meta == 0) ≡ true = ground arith in
                (simp (tcp, bare, paid, same) refl, ground arith)
          ]

joins_sound :
    (max_agg : ℕ) (id : Bytes) (total : ℕ) (j : WriteJob) (part : Bytes)
    → joins max_agg id total j ≡ some part
    → (job_events j ≡ map (byte id) part) × (total + length part ≤ max_agg)
unfolding joins job_events
joins_sound max_agg id total j part h = elim (Bool-cases (j.msg_type == binary_message)) [
  | inl binary ↦
      rw binary (fits_frame_sound max_agg id total (decode_message j.bytes) j part (rw binary at h))
  | inr control ↦ absurd (ground arith)
]

-- The parts that were taken off the jobs, and the jobs that stay.
abbrev pub Takes : ℕ → Bytes → ℕ → List WriteJob → Bytes × List WriteJob → Type 0
Takes max_agg id total jobs r =
    (events jobs ≡ map (byte id) r.0 ++ events r.1)
    × ((length r.0 ≡ 0) ⊎ (total + length r.0 ≤ max_agg))

Takes-part :
    (max_agg : ℕ) (id : Bytes) (total : ℕ) (j : WriteJob) (jobs : List WriteJob) (part : Bytes)
    (r : Bytes × List WriteJob)
    → joins max_agg id total j ≡ some part
    → Takes max_agg id (total + length part) jobs r
    → Takes max_agg id total (j ∷ jobs) (part ++ r.0, r.1)
unfolding events
Takes-part max_agg id total j jobs part r fits taken =
    let here = joins_sound max_agg id total j part fits in
    (
      ap (λ es. es ++ events jobs) here.0
          ∙ ap (λ es. map (byte id) part ++ es) taken.0
          ∙ sym (append_assoc (map (byte id) part) (map (byte id) r.0) (events r.1))
          ∙ ap (λ es. es ++ events r.1) (sym (map-append (byte id) part r.0)),
      elim taken.1 [
        | inl nothing ↦ inr (omega (arith, here.1, nothing, length-append part r.0))
        | inr bound ↦ inr (omega (arith, bound, length-append part r.0))
      ],
    )

pub agg_loop-Takes :
    (n max_agg : ℕ) (id : Bytes) (total : ℕ) (jobs : List WriteJob)
    → Takes max_agg id total jobs (agg_loop n max_agg id total jobs)
unfolding agg_loop
agg_loop-Takes zero max_agg id total jobs = (refl, inl refl)
agg_loop-Takes (suc n) max_agg id total [] = (refl, inl refl)
agg_loop-Takes (suc n) max_agg id total (j ∷ jobs) =
    elim (Option-cases (joins max_agg id total j)) [
      | inl apart ↦ rw (apart, agg_loop) (refl, inl refl)
      | inr (part, fits) ↦
          rw (fits, agg_loop)
            (Takes-part max_agg id total j jobs part
              (agg_loop n max_agg id (total + length part) jobs) fits
              (agg_loop-Takes n max_agg id (total + length part) jobs))
    ]

merged_decodes :
    (m : Message) (more : Bytes)
    → Fits m
    → length m.payload + length more < 2 ^ 32
    → decode_message (encode_message msg_tcp_data m.conn_id m.meta (m.payload ++ more))
      ≡ ok (record {
        kind = msg_tcp_data;
        conn_id = m.conn_id;
        meta = m.meta;
        payload = m.payload ++ more;
      })
merged_decodes m more fits short =
    let frame : Bytes = encode_message msg_tcp_data m.conn_id m.meta (m.payload ++ more) in
    ap decode_message (sym (append-nil frame))
    ∙ decode_message-encode_message msg_tcp_data m.conn_id m.meta (m.payload ++ more) []
        fits.meta_fits (omega (arith, short, length-append m.payload more))
    ∙ ap
        (λ id. ok (record {
          kind = msg_tcp_data;
          conn_id = id;
          meta = m.meta;
          payload = m.payload ++ more;
        }))
        (unfold clip_id in clip_short 255 m.conn_id fits.id_fits)

data_events-append :
    (m : Message) (more : Bytes)
    → data_events (record m { payload = m.payload ++ more })
      ≡ data_events m ++ map (byte m.conn_id) more
data_events-append m more =
    let front : List Event = if length m.meta == 0 then [] else head m.conn_id m.meta ∷ [] in
    ap (λ es. front ++ es) (map-append (byte m.conn_id) m.payload more)
    ∙ sym (append_assoc front (map (byte m.conn_id) m.payload) (map (byte m.conn_id) more))

pub merged_events :
    (m : Message) (more : Bytes)
    → Fits m
    → length m.payload + length more < 2 ^ 32
    → job_events (merged_job m more) ≡ data_events m ++ map (byte m.conn_id) more
unfolding job_events
merged_events m more fits short =
    ap (decoded_events (merged_job m more)) (merged_decodes m more fits short)
    ∙ data_events-append m more
