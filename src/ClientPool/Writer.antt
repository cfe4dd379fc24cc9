-- ===== src/ClientPool/Writer.antt =====
-- pool.go: writeWorker, which takes jobs off a channel's queue and joins the data of one connection
-- into one frame. Writes to the socket succeed here; a failed one ends the worker.
pub mod Events
pub mod Stream
use xtunnel.Base.{
  ℕ, zero, suc, ◌+◌, not, ◌||◌, Option, none, some, List, [], ◌∷◌, ◌++◌, ◌==◌, ltb, if◌then◌else◌,
  length, get_or, drop, Bytes, bytes_eq,
}
use xtunnel.Protocol.Message.{
  Message, Decoded, ok, err, msg_tcp_data, encode_message, decode_message,
}

-- websocket.BinaryMessage
abbrev pub binary_message : ℕ
binary_message = 2

pub record WriteJob : Type 0 where
  pub msg_type : ℕ
  pub bytes : Bytes

-- The payload that the job adds to a frame of `conn_id` with `total` bytes so far.
abbrev pub fits_frame : ℕ → Bytes → ℕ → Decoded → Option Bytes
fits_frame max_agg conn_id total (err e) = none
fits_frame max_agg conn_id total (ok m) =
    if not (m.kind == msg_tcp_data)
      || (not (bytes_eq m.conn_id conn_id)
          || (not (length m.meta == 0) || ltb max_agg (total + length m.payload)))
    then none
    else some m.payload

unfoldable pub joins : ℕ → Bytes → ℕ → WriteJob → Option Bytes
joins max_agg conn_id total j =
    if j.msg_type == binary_message
    then fits_frame max_agg conn_id total (decode_message j.bytes)
    else none

-- AggLoop: the parts that are joined, one after the other, and the jobs that stay. Of the jobs
-- behind, `n` are in the queue when the loop looks.
unfoldable pub agg_loop : ℕ → ℕ → Bytes → ℕ → List WriteJob → Bytes × List WriteJob
agg_loop zero max_agg conn_id total jobs = ([], jobs)
agg_loop (suc n) max_agg conn_id total [] = ([], [])
agg_loop (suc n) max_agg conn_id total (j ∷ jobs) = elim (joins max_agg conn_id total j) [
  | none ↦ ([], j ∷ jobs)
  | some part ↦ let r = agg_loop n max_agg conn_id (total + length part) jobs in (part ++ r.0, r.1)
]

abbrev pub merged_job : Message → Bytes → WriteJob
merged_job m more = record {
  msg_type = binary_message;
  bytes = encode_message msg_tcp_data m.conn_id m.meta (m.payload ++ more);
}

-- What is written for a job whose data decode as given, and the jobs that stay.
unfoldable pub write_decoded : ℕ → ℕ → WriteJob → List WriteJob → Decoded → WriteJob × List WriteJob
write_decoded n max_agg j jobs (err e) = (j, jobs)
write_decoded n max_agg j jobs (ok m) =
    let r = agg_loop n max_agg m.conn_id (length m.payload) jobs in
    if m.kind == msg_tcp_data then (merged_job m r.0, r.1) else (j, jobs)

unfoldable pub write_next : ℕ → ℕ → WriteJob → List WriteJob → WriteJob × List WriteJob
write_next n max_agg j jobs =
    if j.msg_type == binary_message
    then write_decoded n max_agg j jobs (decode_message j.bytes)
    else (j, jobs)

-- The worker over the jobs that it is given: `arrived` tells for each round how many more of them
-- are in the queue by then. Each round takes one job at least.
unfoldable pub write_all : ℕ → List ℕ → ℕ → List WriteJob → List WriteJob
write_all zero arrived max_agg jobs = []
write_all (suc fuel) arrived max_agg [] = []
write_all (suc fuel) arrived max_agg (j ∷ jobs) =
    let r = write_next (get_or arrived 0 0) max_agg j jobs in
    r.0 ∷ write_all fuel (drop 1 arrived) max_agg r.1

unfoldable pub write_worker : List ℕ → ℕ → List WriteJob → List WriteJob
write_worker arrived max_agg jobs = write_all (length jobs) arrived max_agg jobs
