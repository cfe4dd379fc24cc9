-- ===== src/ClientPool/Writes/Settled.antt =====
-- pool.go: what a call of asyncWriteDirect or broadcastWrite leaves behind.
use xtunnel.Base.{
  ℕ, zero, suc, ◌+◌, ◌*◌, ◌≤◌, ◌≡◌, refl, true, false, not, ◌&&◌, Option, none, some, List, [], ◌∷◌,
  ltb, length, length-append, Bytes, arith, Bool-cases, inl, inr, ◌⊎◌,
}
use xtunnel.ClientPool.Writer.{WriteJob}
use xtunnel.ClientPool.Pressure.{get_backpressure_delay}
use xtunnel.ClientPool.Budget.{reserve_queue_bytes, write_queue_size}
use xtunnel.ClientPool.Writes.{
  Writes, WriteError, Wait, sent, timed_out, cancelled, Meets, ch_index, queue_at, send_to, on_full,
  enqueue, write_to, is_waiting, write_on, async_write_direct, succeeded, write_each,
  broadcast_write, live_channels,
}

-- The jobs in all queues.
unfoldable pub queued_jobs : List (Option (List WriteJob)) → ℕ
queued_jobs [] = 0
queued_jobs (none ∷ queues) = queued_jobs queues
queued_jobs (some jobs ∷ queues) = length jobs + queued_jobs queues

-- A call that succeeds adds one job and its bytes; one that fails adds none.
abbrev pub Settles : ℕ → Writes → Option WriteError × Writes → Type 0
Settles size w r =
    (r.1.queue_bytes ≡ w.queue_bytes + succeeded r.0 * size)
    × (queued_jobs r.1.queues ≡ queued_jobs w.queues + succeeded r.0)

queued_jobs-send_to :
    (idx : ℕ) (job : WriteJob) (jobs : List WriteJob) (queues : List (Option (List WriteJob)))
    → queue_at idx queues ≡ some jobs
    → queued_jobs (send_to idx job queues) ≡ queued_jobs queues + 1
unfolding queue_at send_to queued_jobs
queued_jobs-send_to idx job jobs [] h = cc
queued_jobs-send_to zero job jobs (none ∷ queues) h = cc
queued_jobs-send_to zero job jobs (some js ∷ queues) h = omega (arith, length-append js (job ∷ []))
queued_jobs-send_to (suc idx) job jobs (none ∷ queues) h = queued_jobs-send_to idx job jobs queues h
queued_jobs-send_to (suc idx) job jobs (some js ∷ queues) h =
    omega (arith, queued_jobs-send_to idx job jobs queues h)

reserved_bytes :
    (limit size current : ℕ)
    → (reserve_queue_bytes limit size current).0 ≡ true
    → (reserve_queue_bytes limit size current).1 ≡ current + size
unfolding reserve_queue_bytes
reserved_bytes limit size current ok = ground arith

enqueue-Settles :
    (idx : ℕ) (job : WriteJob) (wait : Wait) (o : Option (List WriteJob)) (w : Writes)
    (reserved : ℕ)
    → queue_at idx w.queues ≡ o
    → reserved ≡ w.queue_bytes + length job.bytes
    → Settles
        (length job.bytes)
        w
        (enqueue (length job.bytes) idx job wait o (record w { queue_bytes = reserved }))
enqueue-Settles idx job wait none w reserved at bytes = (omega arith, omega arith)
enqueue-Settles idx job wait (some jobs) w reserved at bytes =
    elim (Bool-cases (ltb (length jobs) write_queue_size)) [
      | inl room ↦ rw room (omega arith, queued_jobs-send_to idx job jobs w.queues at)
      | inr full ↦ rw full (waited wait)
    ]
  where
    waited :
        (wait : Wait)
        → Settles
            (length job.bytes)
            w
            (on_full (length job.bytes) idx job wait (record w { queue_bytes = reserved }))
    waited sent = (omega arith, queued_jobs-send_to idx job jobs w.queues at)
    waited timed_out = (omega arith, omega arith)
    waited cancelled = (omega arith, omega arith)

write_on-Settles :
    (o : Option ℕ) (meets : Meets) (job : WriteJob) (w : Writes)
    → Settles (length job.bytes) w (write_on o meets job w)
write_on-Settles none meets job w = (omega arith, omega arith)
write_on-Settles (some idx) meets job w =
    elim (Bool-cases (is_waiting (get_backpressure_delay meets.level) && not meets.resumes)) [
      | inl gone ↦ rw gone (omega arith, omega arith)
      | inr goes ↦ rw goes (
          written
            (Bool-cases (reserve_queue_bytes w.queue_limit (length job.bytes) w.queue_bytes).0))
    ]
  where
    written :
        ((reserve_queue_bytes w.queue_limit (length job.bytes) w.queue_bytes).0 ≡ true)
          ⊎ ((reserve_queue_bytes w.queue_limit (length job.bytes) w.queue_bytes).0 ≡ false)
        → Settles (length job.bytes) w (write_to idx job meets.wait w)
    written (inl fits) = rw fits (
        enqueue-Settles idx job meets.wait (queue_at idx w.queues) w
          (reserve_queue_bytes w.queue_limit (length job.bytes) w.queue_bytes).1 refl
          (reserved_bytes w.queue_limit (length job.bytes) w.queue_bytes fits))
    written (inr over) = rw over (omega arith, omega arith)

-- asyncWriteDirect adds one job and its bytes when it succeeds, and neither a job nor a byte when it
-- fails, whatever the error and the moment of it.
pub async_write_direct-Settles :
    (meets : Meets) (ch_id msg_type : ℕ) (data_ : Bytes) (w : Writes)
    → Settles (length data_) w (async_write_direct meets ch_id msg_type data_ w)
unfolding async_write_direct
async_write_direct-Settles meets ch_id msg_type data_ w =
    write_on-Settles (ch_index ch_id w.queues) meets (record { msg_type = msg_type; bytes = data_ })
      w

write_each-counts :
    (meets : ℕ → Meets) (ch_ids : List ℕ) (msg_type : ℕ) (data_ : Bytes) (w : Writes)
    → let r = write_each meets ch_ids msg_type data_ w in
      (r.1.queue_bytes ≡ w.queue_bytes + r.0 * length data_)
      × (queued_jobs r.1.queues ≡ queued_jobs w.queues + r.0)
      × (r.0 ≤ length ch_ids)
unfolding write_each
write_each-counts meets [] msg_type data_ w = (omega arith, omega arith, omega arith)
write_each-counts meets (ch_id ∷ ch_ids) msg_type data_ w =
    let first = async_write_direct (meets ch_id) ch_id msg_type data_ w in
    let settled = async_write_direct-Settles (meets ch_id) ch_id msg_type data_ w in
    let rest = write_each-counts meets ch_ids msg_type data_ first.1 in
    (
      omega (arith, settled.0, rest.0),
      omega (arith, settled.1, rest.1),
      ground (arith, succeeded_le first.0, rest.2),
    )
  where
    succeeded_le : (o : Option WriteError) → succeeded o ≤ 1
    succeeded_le none = omega arith
    succeeded_le (some e) = omega arith

-- The number that broadcastWrite returns is the number of jobs that it has queued, each with its bytes,
-- and it is not above the number of channels that have a connection.
pub broadcast_write-counts :
    (meets : ℕ → Meets) (msg_type : ℕ) (data_ : Bytes) (w : Writes)
    → let r = broadcast_write meets msg_type data_ w in
      (r.1.queue_bytes ≡ w.queue_bytes + r.0 * length data_)
      × (queued_jobs r.1.queues ≡ queued_jobs w.queues + r.0)
      × (r.0 ≤ length (live_channels 0 w.ws_conns))
unfolding broadcast_write
broadcast_write-counts meets msg_type data_ w =
    write_each-counts meets (live_channels 0 w.ws_conns) msg_type data_ w
