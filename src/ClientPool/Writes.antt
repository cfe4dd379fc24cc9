-- ===== src/ClientPool/Writes.antt =====
-- pool.go: asyncWriteDirect and broadcastWrite, with their results, for one caller at a time; the
-- interleaving of callers is in ClientPool/Budget.
pub mod Settled
use xtunnel.Base.{
  ℕ, zero, suc, ◌+◌, ◌-◌, ◌≤◌, ◌<◌, Bool, true, false, not, ◌&&◌, Option, none, some, List, [], ◌∷◌,
  ◌++◌, ltb, leb, ◌==◌, if◌then◌else◌, length, Bytes,
}
use xtunnel.ServerPool.Backpressure.{Level}
use xtunnel.ClientPool.Writer.{WriteJob}
use xtunnel.ClientPool.Pressure.{get_backpressure_delay}
use xtunnel.ClientPool.Budget.{reserve_queue_bytes, release_queue_bytes, write_queue_size}

-- The slots of writeQueues, none for nil, and for each channel whether wsConns has its connection.
pub record Writes : Type 0 where
  pub queue_bytes : ℕ
  pub queue_limit : ℕ
  pub queues : List (Option (List WriteJob))
  pub ws_conns : List Bool

pub data WriteError : Type 0 where
  invalid_channel over_limit unavailable congested closing : WriteError

-- How the select on a full queue ends.
pub data Wait : Type 0 where
  sent timed_out cancelled : Wait

-- What a call meets: the level, whether the wait for a paused server ends with the client still
-- running, and how the wait for room ends.
pub record Meets : Type 0 where
  pub level : Level
  pub resumes : Bool
  pub wait : Wait

unfoldable pub ch_index : ℕ → List (Option (List WriteJob)) → Option ℕ
ch_index zero queues = none
ch_index (suc idx) queues = if leb (length queues) idx then none else some idx

unfoldable pub queue_at : ℕ → List (Option (List WriteJob)) → Option (List WriteJob)
queue_at idx [] = none
queue_at zero (q ∷ queues) = q
queue_at (suc idx) (q ∷ queues) = queue_at idx queues

unfoldable pub send_to :
    ℕ → WriteJob → List (Option (List WriteJob)) → List (Option (List WriteJob))
send_to idx job [] = []
send_to zero job (none ∷ queues) = none ∷ queues
send_to zero job (some jobs ∷ queues) = some (jobs ++ (job ∷ [])) ∷ queues
send_to (suc idx) job (q ∷ queues) = q ∷ send_to idx job queues

abbrev pub given_up : ℕ → WriteError → Writes → Option WriteError × Writes
given_up size e w = (some e, record w { queue_bytes = release_queue_bytes size w.queue_bytes })

abbrev pub on_full : ℕ → ℕ → WriteJob → Wait → Writes → Option WriteError × Writes
on_full size idx job sent w = (none, record w { queues = send_to idx job w.queues })
on_full size idx job timed_out w = given_up size congested w
on_full size idx job cancelled w = given_up size closing w

abbrev pub enqueue :
    ℕ → ℕ → WriteJob → Wait → Option (List WriteJob) → Writes → Option WriteError × Writes
enqueue size idx job wait none w = given_up size unavailable w
enqueue size idx job wait (some jobs) w =
    if ltb (length jobs) write_queue_size
    then (none, record w { queues = send_to idx job w.queues })
    else on_full size idx job wait w

abbrev pub write_to : ℕ → WriteJob → Wait → Writes → Option WriteError × Writes
write_to idx job wait w =
    let size = length job.bytes in
    let r = reserve_queue_bytes w.queue_limit size w.queue_bytes in
    if not r.0
    then (some over_limit, w)
    else enqueue size idx job wait (queue_at idx w.queues) (record w { queue_bytes = r.1 })

abbrev pub is_waiting : Option ℕ → Bool
is_waiting none = true
is_waiting (some delay) = false

abbrev pub write_on : Option ℕ → Meets → WriteJob → Writes → Option WriteError × Writes
write_on none meets job w = (some invalid_channel, w)
write_on (some idx) meets job w =
    if is_waiting (get_backpressure_delay meets.level) && not meets.resumes
    then (some closing, w)
    else write_to idx job meets.wait w

unfoldable pub async_write_direct : Meets → ℕ → ℕ → Bytes → Writes → Option WriteError × Writes
async_write_direct meets ch_id msg_type data_ w =
    write_on (ch_index ch_id w.queues) meets (record { msg_type = msg_type; bytes = data_ }) w

-- The channels whose connection is there, from an index on.
unfoldable pub live_channels : ℕ → List Bool → List ℕ
live_channels idx [] = []
live_channels idx (there ∷ conns) =
    let rest = live_channels (suc idx) conns in if there then suc idx ∷ rest else rest

abbrev pub succeeded : Option WriteError → ℕ
succeeded none = 1
succeeded (some e) = 0

unfoldable pub write_each : (ℕ → Meets) → List ℕ → ℕ → Bytes → Writes → ℕ × Writes
write_each meets [] msg_type data_ w = (0, w)
write_each meets (ch_id ∷ ch_ids) msg_type data_ w =
    let first = async_write_direct (meets ch_id) ch_id msg_type data_ w in
    let rest = write_each meets ch_ids msg_type data_ first.1 in
    (succeeded first.0 + rest.0, rest.1)

unfoldable pub broadcast_write : (ℕ → Meets) → ℕ → Bytes → Writes → ℕ × Writes
broadcast_write meets msg_type data_ w =
    write_each meets (live_channels 0 w.ws_conns) msg_type data_ w

-- availableChannels: the channels that have a connection and a queue.
unfoldable pub available_channels : ℕ → List Bool → List (Option (List WriteJob)) → List ℕ
available_channels idx [] queues = []
available_channels idx (there ∷ conns) [] = []
available_channels idx (there ∷ conns) (none ∷ queues) = available_channels (suc idx) conns queues
available_channels idx (there ∷ conns) (some jobs ∷ queues) =
    let rest = available_channels (suc idx) conns queues in if there then suc idx ∷ rest else rest
