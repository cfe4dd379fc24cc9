-- ===== src/ClientPool/Tests.antt =====
-- The client's channels on small examples.
use xtunnel.Base.{
  ℕ, zero, suc, ◌+◌, ◌≤◌, ◌<◌, ◌≡◌, refl, Bool, true, false, none, some, List, [], ◌∷◌, length, All,
  Bytes, codes, arith, bytes_eq, if◌then◌else◌, inr, ◌⊎◌,
}
use xtunnel.Base.Dict.{text_eq, get}
use xtunnel.Protocol.Message.{msg_tcp_data}
use xtunnel.Relay.Fraction.{whole}
use xtunnel.Relay.Nodes.{RelayNode, new_node}
use xtunnel.Relay.Loads.{Loads, acquired_count}
use xtunnel.Relay.Tests.{sort_by_failures}
use xtunnel.ServerPool.Backpressure.{slow_down, pause}
use xtunnel.ClientPool.Writer.{WriteJob, write_worker}
use xtunnel.ClientPool.Writer.Events.{events}
use xtunnel.ClientPool.Writer.Stream.{CarryBytes, write_worker-events}
use xtunnel.ClientPool.Dial.{
  DialConfig, Dial, Surroundings, new_dial, dial_succeeded, start_attempt, succeeded_nodes,
  acquired_loads,
}
use xtunnel.ClientPool.Dial.Pace.{IsPaced}
use xtunnel.ClientPool.Dial.Load.{Channels, start, next, connected, serving_on, Reach-loads}
use xtunnel.ClientPool.Pressure.{Pressure, run, notified, elapsed, recoveries, run-waiting}
use xtunnel.ClientPool.Budget.{
  Budget, Queue, Steps, done, then_, reserved, sent, new_budget, reserve_queue_bytes,
}
use xtunnel.ClientPool.Budget.Accounting.{
  total, queued, stranded, Steps-queue_bytes, reserve_queue_bytes-stranded,
}
use xtunnel.ClientPool.Registry.{ConnState, PairRef, new_state, prebind_target}
use xtunnel.ClientPool.Registry.Downlink.{race, wins, IsDecided, race_once, IsPrebound}
use xtunnel.ClientPool.Registry.Cleanup.{IsLive}
use xtunnel.ClientPool.Writes.{Writes, Meets, timed_out}
use xtunnel.ClientPool.Dispatch.{Frame, handle_frames}
use xtunnel.ClientPool.Dispatch.Delivery.{IsVia}
use xtunnel.ClientPool.Dispatch.OneChannel.{handle_frames-one_channel}

abbrev conn_a : Bytes
conn_a = codes "a"

abbrev data_job : Bytes → WriteJob
data_job text = record { msg_type = 2; bytes = 2 ∷ 1 ∷ 0 ∷ 0 ∷ 0 ∷ 0 ∷ 0 ∷ 1 ∷ 97 ∷ text }

abbrev jobs : List WriteJob
jobs = data_job (7 ∷ []) ∷ data_job (8 ∷ []) ∷ []

jobs-CarryBytes : CarryBytes jobs
jobs-CarryBytes = ground arith

write_worker-events_example :
    (events (write_worker (1 ∷ []) 100 jobs) ≡ events jobs)
    × (length (write_worker (1 ∷ []) 100 jobs) ≤ length jobs)
write_worker-events_example = write_worker-events (1 ∷ []) 100 jobs jobs-CarryBytes (omega arith)

abbrev config : DialConfig
config = record {
  relay_count = 1;
  max_fast_retry_consecutive = 3;
  fast_retry_window = 1000;
  fast_retry_attempts = 2;
}

abbrev surroundings : Surroundings
surroundings = record {
  now = 5;
  later = 6;
  draw = whole 0;
  jitter = 17;
  resolve = λ host. none;
  by_failures = sort_by_failures;
}

abbrev relay_ip : Bytes
relay_ip = codes "10.0.0.1:443"

abbrev relay_nodes : List RelayNode
relay_nodes = new_node (codes "relay") relay_ip ∷ []

abbrev fresh_dial : Dial
fresh_dial = new_dial relay_ip

fresh_dial-IsPaced : IsPaced config fresh_dial
fresh_dial-IsPaced = (omega arith, omega arith, omega arith, inr (refl, omega arith))

abbrev repeated : ℕ → List (Surroundings × Loads × List RelayNode)
repeated zero = []
repeated (suc n) = (surroundings, [], relay_nodes) ∷ repeated n

-- One channel that connects through a relay.
abbrev connected_channels : Channels
connected_channels =
    let a = start_attempt config surroundings [] (new_dial relay_ip) relay_nodes in
    record {
      dials = dial_succeeded a.0 ∷ [];
      nodes = succeeded_nodes config surroundings.now a.0.ip a.1;
      loads = acquired_loads config a.0.ip [];
    }

Reach-loads_example :
    acquired_count relay_ip connected_channels.loads
    ≡ serving_on config relay_ip connected_channels.dials
Reach-loads_example =
    Reach-loads config (relay_ip ∷ []) {c = connected_channels} relay_ip (omega arith)
      (next (start relay_nodes) (connected surroundings [] [] (new_dial relay_ip) refl refl refl))

abbrev paused : Pressure
paused = record { level = pause; resume = true; waiting = 3000000000 ∷ 3000000001 ∷ [] }

run-waiting_example :
    length paused.waiting
    ≤ length (run (elapsed 60 ∷ notified slow_down ∷ elapsed 99 ∷ []) paused).waiting
      + recoveries (elapsed 60 ∷ notified slow_down ∷ elapsed 99 ∷ [])
      + (if paused.resume then 1 else 0)
run-waiting_example = run-waiting (elapsed 60 ∷ notified slow_down ∷ elapsed 99 ∷ []) paused refl

-- A job of ten bytes that goes to a queue without a worker.
abbrev reserved_budget : Budget
reserved_budget = record (new_budget 12 1) { queue_bytes = 10; writers = 10 ∷ [] }

abbrev stuck_budget : Budget
stuck_budget = record reserved_budget {
  writers = [];
  queues = record { jobs = 10 ∷ []; has_worker = false } ∷ [];
}

abbrev idle_queue : Queue
idle_queue = record { jobs = []; has_worker = false }

stuck-Steps : Steps (new_budget 12 1) stuck_budget
unfolding reserve_queue_bytes
stuck-Steps =
    then_ {c = reserved_budget} (then_ {c = new_budget 12 1} done (reserved 10 refl refl))
      (sent 10 [] [] [] [] idle_queue refl refl (omega arith) refl)

Steps-queue_bytes_example :
    (stuck_budget.queue_bytes ≡ total stuck_budget.writers + queued stuck_budget.queues)
    × (stuck_budget.queue_bytes ≤ stuck_budget.queue_limit)
Steps-queue_bytes_example = Steps-queue_bytes 12 1 {b = stuck_budget} stuck-Steps

stuck_bytes : 12 < stranded stuck_budget.queues + 3
unfolding stranded total
stuck_bytes = omega arith

reserve_queue_bytes-stranded_example :
    (reserve_queue_bytes stuck_budget.queue_limit 3 stuck_budget.queue_bytes).0 ≡ false
reserve_queue_bytes-stranded_example =
    reserve_queue_bytes-stranded 12 1 3 {b = stuck_budget} {c = stuck_budget} stuck-Steps done
      (omega arith) stuck_bytes

abbrev state_a : ConnState
state_a = record new_state { target = codes "example.com:80"; has_tcp_conn = true }

race_once_example :
    let r = race (2 ∷ 1 ∷ []) state_a in (wins r.0 ≤ 1) × All (IsDecided r.1.downlink) r.0
race_once_example = race_once (2 ∷ 1 ∷ []) state_a (omega arith, (omega arith, tt))

abbrev prebound_state : ConnState
prebound_state = record new_state { target = prebind_target; uplink = 2 }

prebound_state-IsPrebound : IsPrebound prebound_state
prebound_state-IsPrebound = (refl, refl, omega arith, λ e. omega arith)

abbrev conns : List (Bytes × ConnState)
conns = (conn_a, record state_a { uplink = 1; downlink = 2 }) ∷ []

conns-IsLive : (i : Bytes) → IsLive (get i conns)
unfolding get
conns-IsLive i = either (bytes_eq conn_a i)
  where
    either :
        (b : Bool) → IsLive (if b then some (record state_a { uplink = 1; downlink = 2 }) else none)
    either true = refl
    either false = tt

abbrev pair_ref : PairRef
pair_ref = record { address = 0; uplink_ch_id = 1; downlink_ch_id = 2 }

abbrev data_frame : ℕ → Frame
data_frame ch_id = record {
  ch_id = ch_id;
  message = record { kind = msg_tcp_data; conn_id = conn_a; meta = []; payload = 7 ∷ [] };
  has_reverse_conn = false;
  write_ok = true;
}

handle_frames-one_channel_example :
    (y : ℕ) × ((state_a.downlink ≡ 0) ⊎ (y ≡ state_a.downlink))
    × All (IsVia y) (handle_frames (data_frame 2 ∷ data_frame 1 ∷ []) (some state_a)).1
handle_frames-one_channel_example =
    handle_frames-one_channel (data_frame 2 ∷ data_frame 1 ∷ []) (some state_a) state_a.downlink
      (omega arith, (omega arith, tt)) refl

abbrev writes : Writes
writes = record {
  queue_bytes = 0;
  queue_limit = 5;
  queues = some [] ∷ none ∷ [];
  ws_conns = true ∷ true ∷ [];
}

abbrev meets : Meets
meets = record { level = slow_down; resumes = true; wait = timed_out }
