-- ===== src/ClientPool/Writer/Stream.antt =====
-- pool.go: what the server gets from writeWorker is what was queued, joined or not.
use mathlib.Core.List.{append_assoc}
use xtunnel.Base.{
  ℕ, zero, suc, ◌+◌, ◌^◌, ◌≤◌, ◌<◌, ◌≡◌, refl, sym, ap, ◌∙◌, subst, true, List, [], ◌∷◌, ◌++◌, ◌==◌,
  length, length-append, get_or, drop, map, Bytes, AreBytes, All, Bool-cases, Option-cases, inl,
  inr, arith,
}
use xtunnel.Protocol.Message.{Message, Decoded, ok, err, msg_tcp_data, decode_message}
use xtunnel.Protocol.Message.Canonical.{Fits, decode_message_sound}
use xtunnel.ClientPool.Writer.{
  WriteJob, binary_message, joins, agg_loop, merged_job, write_decoded, write_next, write_all,
  write_worker,
}
use xtunnel.ClientPool.Writer.Events.{
  byte, data_events, job_events, events, Takes, agg_loop-Takes, merged_events,
}

-- One round writes a frame and leaves jobs that together tell what the jobs before told.
abbrev Tells : WriteJob → List WriteJob → WriteJob × List WriteJob → Type 0
Tells j jobs r = job_events r.0 ++ events r.1 ≡ job_events j ++ events jobs

write_data-Tells :
    (n max_agg : ℕ) (m : Message) (jobs : List WriteJob)
    → Fits m
    → max_agg < 2 ^ 32
    → let r = agg_loop n max_agg m.conn_id (length m.payload) jobs in
      job_events (merged_job m r.0) ++ events r.1 ≡ data_events m ++ events jobs
write_data-Tells n max_agg m jobs fits small =
    let r : Bytes × List WriteJob = agg_loop n max_agg m.conn_id (length m.payload) jobs in
    let taken : Takes max_agg m.conn_id (length m.payload) jobs r =
      agg_loop-Takes n max_agg m.conn_id (length m.payload) jobs in
    let short : length m.payload + length r.0 < 2 ^ 32 = elim taken.1 [
      | inl nothing ↦ omega (arith, nothing, fits.payload_fits)
      | inr bound ↦ omega (arith, bound, small)
    ] in
    ap (λ es. es ++ events r.1) (merged_events m r.0 fits short)
    ∙ append_assoc (data_events m) (map (byte m.conn_id) r.0) (events r.1)
    ∙ ap (λ es. data_events m ++ es) (sym taken.0)

write_decoded-Tells :
    (n max_agg : ℕ) (j : WriteJob) (jobs : List WriteJob) (d : Decoded)
    → (j.msg_type == binary_message) ≡ true
    → decode_message j.bytes ≡ d
    → AreBytes j.bytes
    → max_agg < 2 ^ 32
    → Tells j jobs (write_decoded n max_agg j jobs d)
unfolding write_decoded
write_decoded-Tells n max_agg j jobs (err e) binary read bytes small = refl
write_decoded-Tells n max_agg j jobs (ok m) binary read bytes small =
    elim (Bool-cases (m.kind == msg_tcp_data)) [
      | inr other_kind ↦ rw (write_decoded, other_kind) refl
      | inl tcp ↦
          let fits : Fits m = (decode_message_sound j.bytes m bytes read).2 in
          let told : job_events j ≡ data_events m =
            unfold job_events in rw (job_events, binary, read, tcp) refl in
          rw (write_decoded, tcp)
            (write_data-Tells n max_agg m jobs fits small ∙ ap (λ es. es ++ events jobs) (sym told))
    ]

write_next-Tells :
    (n max_agg : ℕ) (j : WriteJob) (jobs : List WriteJob)
    → AreBytes j.bytes
    → max_agg < 2 ^ 32
    → Tells j jobs (write_next n max_agg j jobs)
unfolding write_next
write_next-Tells n max_agg j jobs bytes small = elim (Bool-cases (j.msg_type == binary_message)) [
  | inl binary ↦
      rw (write_next, binary)
        (write_decoded-Tells n max_agg j jobs (decode_message j.bytes) binary refl bytes small)
  | inr control ↦ rw (write_next, control) refl
]

-- The jobs that stay are the last ones of those that were there.
abbrev Behind : List WriteJob → List WriteJob → Type 0
Behind jobs rest = (front : List WriteJob) × (jobs ≡ front ++ rest)

agg_loop-Behind :
    (n max_agg : ℕ) (id : Bytes) (total : ℕ) (jobs : List WriteJob)
    → Behind jobs (agg_loop n max_agg id total jobs).1
unfolding agg_loop
agg_loop-Behind zero max_agg id total jobs = ([], refl)
agg_loop-Behind (suc n) max_agg id total [] = ([], refl)
agg_loop-Behind (suc n) max_agg id total (j ∷ jobs) =
    elim (Option-cases (joins max_agg id total j)) [
      | inl apart ↦ rw (apart, agg_loop) ([], refl)
      | inr (part, fits) ↦
          let later = agg_loop-Behind n max_agg id (total + length part) jobs in
          rw (fits, agg_loop) (j ∷ later.0, ap (◌∷◌ j) later.1)
    ]

write_decoded-Behind :
    (n max_agg : ℕ) (j : WriteJob) (jobs : List WriteJob) (d : Decoded)
    → Behind jobs (write_decoded n max_agg j jobs d).1
unfolding write_decoded
write_decoded-Behind n max_agg j jobs (err e) = ([], refl)
write_decoded-Behind n max_agg j jobs (ok m) = elim (Bool-cases (m.kind == msg_tcp_data)) [
  | inl tcp ↦ rw (write_decoded, tcp) (agg_loop-Behind n max_agg m.conn_id (length m.payload) jobs)
  | inr other_kind ↦ rw (write_decoded, other_kind) ([], refl)
]

write_next-Behind :
    (n max_agg : ℕ) (j : WriteJob) (jobs : List WriteJob)
    → Behind jobs (write_next n max_agg j jobs).1
unfolding write_next
write_next-Behind n max_agg j jobs = elim (Bool-cases (j.msg_type == binary_message)) [
  | inl binary ↦
      rw (write_next, binary) (write_decoded-Behind n max_agg j jobs (decode_message j.bytes))
  | inr control ↦ rw (write_next, control) ([], refl)
]

abbrev pub CarryBytes : List WriteJob → Type 0
CarryBytes = All (λ (j : WriteJob). AreBytes j.bytes)

CarryBytes-Behind : (front rest : List WriteJob) → CarryBytes (front ++ rest) → CarryBytes rest
CarryBytes-Behind [] rest all = all
CarryBytes-Behind (j ∷ front) rest all = CarryBytes-Behind front rest all.1

write_all-events :
    (fuel : ℕ) (arrived : List ℕ) (max_agg : ℕ) (jobs : List WriteJob)
    → length jobs ≤ fuel
    → CarryBytes jobs
    → max_agg < 2 ^ 32
    → (events (write_all fuel arrived max_agg jobs) ≡ events jobs)
      × (length (write_all fuel arrived max_agg jobs) ≤ length jobs)
unfolding write_all events
write_all-events zero arrived max_agg [] enough bytes small = (refl, omega arith)
write_all-events zero arrived max_agg (j ∷ jobs) enough bytes small = absurd (omega arith)
write_all-events (suc fuel) arrived max_agg [] enough bytes small = (refl, omega arith)
write_all-events (suc fuel) arrived max_agg (j ∷ jobs) enough bytes small =
    let n : ℕ = get_or arrived 0 0 in
    let r : WriteJob × List WriteJob = write_next n max_agg j jobs in
    let behind : Behind jobs r.1 = write_next-Behind n max_agg j jobs in
    let fewer : length r.1 ≤ length jobs =
      omega (arith, ap length behind.1, length-append behind.0 r.1) in
    let rest =
      write_all-events fuel (drop 1 arrived) max_agg r.1 (omega (arith, fewer, enough))
        (CarryBytes-Behind behind.0 r.1 (subst CarryBytes behind.1 bytes.1)) small in
    (
      ap (λ es. job_events r.0 ++ es) rest.0 ∙ write_next-Tells n max_agg j jobs bytes.0 small,
      omega (arith, rest.1, fewer),
    )

-- Where every job carries bytes and a frame joins less than 4 GB, what is written tells the server
-- exactly what was queued, in the queue's order: the data of each connection byte by byte, with
-- their meta parts, and every other message; joining only saves frames. Whatever was in the queue at
-- the moments when the loop looked, no job is left over.
pub write_worker-events :
    (arrived : List ℕ) (max_agg : ℕ) (jobs : List WriteJob)
    → CarryBytes jobs
    → max_agg < 2 ^ 32
    → (events (write_worker arrived max_agg jobs) ≡ events jobs)
      × (length (write_worker arrived max_agg jobs) ≤ length jobs)
unfolding write_worker
write_worker-events arrived max_agg jobs bytes small =
    write_all-events (length jobs) arrived max_agg jobs (omega arith) bytes small
