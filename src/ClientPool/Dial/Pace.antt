-- ===== src/ClientPool/Dial/Pace.antt =====
-- pool.go: how often a channel that cannot connect tries again.
use xtunnel.Base.{
  ℕ, suc, ◌+◌, ◌*◌, ◌≤◌, ◌<◌, ◌≡◌, refl, true, false, List, [], ◌∷◌, ltb, length, arith, ◌⊎◌, inl,
  inr, Bool-cases,
}
use xtunnel.Relay.Nodes.{RelayNode}
use xtunnel.Relay.Loads.{Loads}
use xtunnel.ClientPool.Dial.{
  DialConfig, Dial, Surroundings, FastRetryState, base_delay, max_delay, max_retries, millisecond,
  back_off, counted, retries_fast, dial_failed, failed_round, check_retries, start_attempt,
  on_failure, should_fast_retry_within_window, dial_succeeded,
}

-- The delay is between its bounds, and the slow mode starts in time.
abbrev pub IsPaced : DialConfig → Dial → Type 0
IsPaced cfg d =
    (base_delay ≤ d.current_delay)
    × (d.current_delay ≤ max_delay)
    × (d.fast_retry_count ≤ cfg.fast_retry_attempts)
    × (((d.slow_retry_mode ≡ true) × (d.current_delay ≡ max_delay))
        ⊎ ((d.slow_retry_mode ≡ false) × (d.retry_count ≤ max_retries)))

-- Where a dial starts: in the slow mode, or with attempts left before it.
abbrev IsReady : Dial → Type 0
IsReady d = (d.slow_retry_mode ≡ true) ⊎ (d.retry_count < max_retries)

check_retries-IsPaced :
    (cfg : DialConfig) (d : Dial)
    → IsPaced cfg d
    → IsPaced cfg (check_retries d) × IsReady (check_retries d)
unfolding check_retries
check_retries-IsPaced cfg d p = ground arith

start_attempt-IsPaced :
    (cfg : DialConfig) (s : Surroundings) (loads : Loads) (d : Dial) (nodes : List RelayNode)
    → IsPaced cfg d
    → let a = (start_attempt cfg s loads d nodes).0 in IsPaced cfg a × IsReady a
unfolding start_attempt
start_attempt-IsPaced cfg s loads d nodes p = check_retries-IsPaced cfg d p

back_off_bounds :
    (delay : ℕ)
    → base_delay ≤ delay
    → delay ≤ max_delay
    → (delay ≤ back_off delay) × (back_off delay ≤ max_delay)
back_off_bounds delay low high = ground arith

dial_failed-IsPaced :
    (cfg : DialConfig) (s : Surroundings) (d : Dial)
    → IsReady d
    → IsPaced cfg d
    → IsPaced cfg (dial_failed cfg s d).0
unfolding dial_failed
dial_failed-IsPaced cfg s d room p = elim (Bool-cases (retries_fast cfg s.now (counted s.now d))) [
  | inl quick ↦ rw quick (ground arith)
  | inr slow ↦ rw slow (ground (arith, back_off_bounds d.current_delay p.0 p.1))
]

dial_failed_delay :
    (cfg : DialConfig) (s : Surroundings) (d : Dial)
    → s.jitter < 300
    → let f = dial_failed cfg s d in
      ((100 * millisecond ≤ f.1) × (f.1 < 400 * millisecond)) ⊎ (f.1 ≡ f.0.current_delay)
unfolding dial_failed
dial_failed_delay cfg s d small = elim (Bool-cases (retries_fast cfg s.now (counted s.now d))) [
  | inl quick ↦ rw quick (ground arith)
  | inr slow ↦ rw slow (inr refl)
]

failed_round_keeps :
    (cfg : DialConfig) (s : Surroundings) (loads : Loads) (d : Dial) (nodes : List RelayNode)
    → IsPaced cfg d
    → IsPaced cfg (failed_round cfg s loads d nodes).0.0
unfolding failed_round
failed_round_keeps cfg s loads d nodes p =
    let q = start_attempt-IsPaced cfg s loads d nodes p in
    dial_failed-IsPaced cfg s (start_attempt cfg s loads d nodes).0 q.1 q.0

-- A round whose dial fails keeps the pace: the backoff is between 3 and 60 seconds, no more fast
-- retries are counted than FastRetryAttempts, and the round waits 100 to 400 milliseconds or the
-- backoff. The random jitter is below 300 milliseconds.
pub failed_round-IsPaced :
    (cfg : DialConfig) (s : Surroundings) (loads : Loads) (d : Dial) (nodes : List RelayNode)
    → s.jitter < 300
    → IsPaced cfg d
    → let f = (failed_round cfg s loads d nodes).0 in
      IsPaced cfg f.0
      × (((100 * millisecond ≤ f.1) × (f.1 < 400 * millisecond)) ⊎ (f.1 ≡ f.0.current_delay))
unfolding failed_round
failed_round-IsPaced cfg s loads d nodes small p = (
  failed_round_keeps cfg s loads d nodes p,
  dial_failed_delay cfg s (start_attempt cfg s loads d nodes).0 small,
)

-- A number of rounds that fail, each with what it finds.
unfoldable pub failed_rounds :
    DialConfig → List (Surroundings × Loads × List RelayNode) → Dial → Dial
failed_rounds cfg [] d = d
failed_rounds cfg ((s, loads, nodes) ∷ rounds) d =
    failed_rounds cfg rounds (failed_round cfg s loads d nodes).0.0

abbrev GetsSlow : ℕ → Dial → Type 0
GetsSlow rounds d = (d.slow_retry_mode ≡ true) ⊎ (max_retries < d.retry_count + rounds)

dial_failed-GetsSlow :
    (cfg : DialConfig) (s : Surroundings) (d : Dial) (rounds : ℕ)
    → GetsSlow (suc rounds) d
    → GetsSlow rounds (dial_failed cfg s d).0
unfolding dial_failed
dial_failed-GetsSlow cfg s d rounds h =
    elim (Bool-cases (retries_fast cfg s.now (counted s.now d))) [
      | inl quick ↦ rw quick (ground arith)
      | inr slow ↦ rw slow (ground arith)
    ]

check_retries-GetsSlow :
    (d : Dial) (rounds : ℕ) → GetsSlow rounds d → GetsSlow rounds (check_retries d)
unfolding check_retries
check_retries-GetsSlow d rounds h = ground arith

failed_round-GetsSlow :
    (cfg : DialConfig) (s : Surroundings) (loads : Loads) (d : Dial) (nodes : List RelayNode)
    (rounds : ℕ)
    → GetsSlow (suc rounds) d
    → GetsSlow rounds (failed_round cfg s loads d nodes).0.0
unfolding failed_round start_attempt
failed_round-GetsSlow cfg s loads d nodes rounds h =
    dial_failed-GetsSlow cfg s (start_attempt cfg s loads d nodes).0 rounds
      (check_retries-GetsSlow d (suc rounds) h)

failed_rounds-slow_from :
    (cfg : DialConfig) (rounds : List (Surroundings × Loads × List RelayNode)) (d : Dial)
    → IsPaced cfg d
    → GetsSlow (length rounds) d
    → let after = failed_rounds cfg rounds d in
      (after.slow_retry_mode ≡ true) × (after.current_delay ≡ max_delay)
unfolding failed_rounds
failed_rounds-slow_from cfg [] d p h = ground arith
failed_rounds-slow_from cfg ((s, loads, nodes) ∷ rounds) d p h =
    failed_rounds-slow_from cfg rounds (failed_round cfg s loads d nodes).0.0
      (failed_round_keeps cfg s loads d nodes p)
      (failed_round-GetsSlow cfg s loads d nodes (length rounds) h)

-- A channel whose dial fails in 21 rounds or more in a row, whatever else changes between them, is
-- in the slow mode afterwards, where the backoff is 60 seconds.
pub failed_rounds-slow :
    (cfg : DialConfig) (rounds : List (Surroundings × Loads × List RelayNode)) (d : Dial)
    → IsPaced cfg d
    → 21 ≤ length rounds
    → let after = failed_rounds cfg rounds d in
      (after.slow_retry_mode ≡ true) × (after.current_delay ≡ max_delay)
failed_rounds-slow cfg rounds d p many = failed_rounds-slow_from cfg rounds d p (inr (omega arith))

-- A new channel, and one that has connected, is paced.
pub dial_succeeded-IsPaced : (cfg : DialConfig) (d : Dial) → IsPaced cfg (dial_succeeded d)
unfolding dial_succeeded
dial_succeeded-IsPaced cfg d = (omega arith, omega arith, omega arith, inr (refl, omega arith))

-- The window of the fast retries does not count: the failure that is asked about is the one just
-- noted, at the same time, so that only the number of failures in a row decides.
pub should_fast_retry-on_failure :
    (max_consecutive window now : ℕ) (f : FastRetryState)
    → should_fast_retry_within_window max_consecutive window now (on_failure now f)
      ≡ ltb (f.consecutive_failures + 1) max_consecutive
unfolding should_fast_retry_within_window
should_fast_retry-on_failure max_consecutive window now f = ground arith
