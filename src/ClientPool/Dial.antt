-- ===== src/ClientPool/Dial.antt =====
-- pool.go: dialAndServe, the loop that keeps one channel connected: the pace of its attempts, the
-- relay node it dials through, and what it reports to the relay manager. dialWebSocket is left
-- out: an attempt fails or succeeds. Times are in nanoseconds.
pub mod Pace
pub mod Load
use xtunnel.Base.{
  is_empty, ℕ, zero, suc, ◌+◌, ◌-◌, ◌*◌, ◌/◌, ◌≤◌, ◌<◌, ◌≡◌, Bool, true, false, not, ◌&&◌, ◌||◌,
  Option, none, some, List, [], ◌∷◌, ◌++◌, ltb, leb, ◌==◌, if◌then◌else◌, length, min, Bytes,
  bytes_eq,
}
use xtunnel.Relay.Fraction.{Frac}
use xtunnel.Relay.Nodes.{RelayNode, second, mark_node_failed, mark_node_success}
use xtunnel.Relay.Loads.{Loads, acquire, release}
use xtunnel.Relay.Select.{Sort, before, select_node_excluding}

abbrev pub millisecond : ℕ
millisecond = 1000000

abbrev pub max_retries : ℕ
max_retries = 20

abbrev pub base_delay : ℕ
base_delay = 3 * second

abbrev pub max_delay : ℕ
max_delay = 60 * second

-- The fields of Config that the loop reads.
pub record DialConfig : Type 0 where
  pub relay_count : ℕ
  pub max_fast_retry_consecutive : ℕ
  pub fast_retry_window : ℕ
  pub fast_retry_attempts : ℕ

-- The time of the last failure is none where Go has the zero time.
pub record FastRetryState : Type 0 where
  pub consecutive_failures : ℕ
  pub last_failure : Option ℕ

abbrev pub on_failure : ℕ → FastRetryState → FastRetryState
on_failure now f = record {
  consecutive_failures = f.consecutive_failures + 1;
  last_failure = some now;
}

abbrev pub on_success : FastRetryState → FastRetryState
on_success f = record { consecutive_failures = 0; last_failure = none }

abbrev pub within : ℕ → ℕ → Option ℕ → Bool
within window now none = false
within window now (some last) = leb (now - last) window

unfoldable pub should_fast_retry_within_window : ℕ → ℕ → ℕ → FastRetryState → Bool
should_fast_retry_within_window max_consecutive window now f =
    if leb max_consecutive f.consecutive_failures then false else within window now f.last_failure

-- The variables of the loop; `serving` tells where in it the channel is.
pub record Dial : Type 0 where
  pub ip : Bytes
  pub last_ip : Bytes
  pub first_attempt : Bool
  pub retry_count : ℕ
  pub slow_retry_mode : Bool
  pub fast : FastRetryState
  pub fast_retry_count : ℕ
  pub current_delay : ℕ
  pub serving : Bool

abbrev pub new_dial : Bytes → Dial
new_dial ip = record {
  ip = ip;
  last_ip = [];
  first_attempt = true;
  retry_count = 0;
  slow_retry_mode = false;
  fast = record { consecutive_failures = 0; last_failure = none };
  fast_retry_count = 0;
  current_delay = base_delay;
  serving = false;
}

unfoldable pub check_retries : Dial → Dial
check_retries d =
    if leb max_retries d.retry_count && not d.slow_retry_mode
    then record d { slow_retry_mode = true; retry_count = 0; current_delay = max_delay }
    else d

unfoldable pub exclude_ips : Dial → List Bytes
exclude_ips d =
    (if is_empty d.last_ip then [] else d.last_ip ∷ [])
    ++ (if not (is_empty d.ip) && not (bytes_eq d.ip d.last_ip) then d.ip ∷ [] else [])

-- What a round of the loop finds: the clock, the draw, the lookups, and the order of a sort.
pub record Surroundings : Type 0 where
  pub now : ℕ
  pub later : ℕ
  pub draw : Frac
  pub jitter : ℕ
  pub resolve : Bytes → Option (List Bytes)
  pub by_failures : Sort before

abbrev pub chosen_ip : Bytes → Option RelayNode → Bytes
chosen_ip ip none = ip
chosen_ip ip (some n) = n.ip

-- The top of the loop, up to the dial.
unfoldable pub start_attempt :
    DialConfig → Surroundings → Loads → Dial → List RelayNode → Dial × List RelayNode
start_attempt cfg s loads d nodes =
    let c = check_retries d in
    let r =
      select_node_excluding s.by_failures s.resolve s.draw s.now s.later (exclude_ips c) loads
        nodes in
    let again = ltb 0 cfg.relay_count && not c.first_attempt in
    (
      record c { ip = if again then chosen_ip c.ip r.0 else c.ip; first_attempt = false },
      if again then r.1 else nodes,
    )

-- `ip != "" && p.relayCount > 0`
abbrev pub uses_relay : DialConfig → Bytes → Bool
uses_relay cfg ip = not (is_empty ip) && ltb 0 cfg.relay_count

abbrev pub back_off : ℕ → ℕ
back_off delay = if ltb delay max_delay then min (delay * 3 / 2) max_delay else delay

abbrev pub counted : ℕ → Dial → Dial
counted now d = record d { fast = on_failure now d.fast; retry_count = d.retry_count + 1 }

abbrev pub retries_fast : DialConfig → ℕ → Dial → Bool
retries_fast cfg now d =
    not d.slow_retry_mode
    && (should_fast_retry_within_window cfg.max_fast_retry_consecutive cfg.fast_retry_window now
          d.fast
        && ltb d.fast_retry_count cfg.fast_retry_attempts)

-- A failed dial: the variables behind it and the delay before the next attempt.
unfoldable pub dial_failed : DialConfig → Surroundings → Dial → Dial × ℕ
dial_failed cfg s d =
    let c = counted s.now d in
    if retries_fast cfg s.now c
    then (record c { fast_retry_count = c.fast_retry_count + 1 }, (100 + s.jitter) * millisecond)
    else (
      record c { fast_retry_count = 0; current_delay = back_off c.current_delay },
      back_off c.current_delay,
    )

abbrev pub failed_nodes : DialConfig → ℕ → Bytes → List RelayNode → List RelayNode
failed_nodes cfg now ip nodes = if uses_relay cfg ip then mark_node_failed now ip nodes else nodes

-- A round of the loop whose dial fails: the variables and the delay, and the nodes.
unfoldable pub failed_round :
    DialConfig → Surroundings → Loads → Dial → List RelayNode → (Dial × ℕ) × List RelayNode
failed_round cfg s loads d nodes =
    let a = start_attempt cfg s loads d nodes in
    (dial_failed cfg s a.0, failed_nodes cfg s.now a.0.ip a.1)

unfoldable pub dial_succeeded : Dial → Dial
dial_succeeded d = record d {
  retry_count = 0;
  slow_retry_mode = false;
  fast_retry_count = 0;
  current_delay = base_delay;
  fast = on_success d.fast;
  last_ip = if is_empty d.ip then d.last_ip else d.ip;
  serving = true;
}

abbrev pub succeeded_nodes : DialConfig → ℕ → Bytes → List RelayNode → List RelayNode
succeeded_nodes cfg now ip nodes =
    if uses_relay cfg ip then mark_node_success now ip nodes else nodes

abbrev pub acquired_loads : DialConfig → Bytes → Loads → Loads
acquired_loads cfg ip loads = if uses_relay cfg ip then acquire ip loads else loads

abbrev pub released_loads : DialConfig → Bytes → Loads → Loads
released_loads cfg ip loads = if uses_relay cfg ip then release ip loads else loads

-- handleChannel has returned.
abbrev pub channel_lost : Dial → Dial
channel_lost d = record d { serving = false }
