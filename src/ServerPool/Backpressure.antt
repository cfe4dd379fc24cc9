-- ===== src/ServerPool/Backpressure.antt =====
-- server_pool.go: the byte count of all write queues and the backpressure level that follows it.
-- A function returns the levels that it broadcasts. The count and the limit are int64 in the code;
-- a count that would fall below 0 is set to 0 there, which is what `-` on ℕ does.
pub mod Levels
pub mod Flow
pub mod Resets
use xtunnel.Base.{
  ℕ, ◌+◌, ◌-◌, ◌*◌, ◌/◌, Bool, true, false, ◌&&◌, List, [], ◌∷◌, ◌==◌, ltb, if◌then◌else◌,
}

-- protocol.BackpressureState, as far as the server sets it.
pub data Level : Type 0 where
  normal slow_down pause : Level

abbrev pub is_pause : Level → Bool
is_pause pause = true
is_pause _ = false

abbrev pub is_slow_down : Level → Bool
is_slow_down slow_down = true
is_slow_down _ = false

abbrev pub is_normal : Level → Bool
is_normal normal = true
is_normal _ = false

-- The fields of serverPool under "backpressure control".
pub record Gauge : Type 0 where
  pub queue_bytes : ℕ
  pub queue_limit : ℕ
  pub level : Level
  pub cooldown : Bool

abbrev default_queue_limit : ℕ
default_queue_limit = 32 * 1024 * 1024

-- newServerPool, at the configured BackpressureLimitBytes.
unfoldable pub new_gauge : ℕ → Gauge
new_gauge configured = record {
  queue_bytes = 0;
  queue_limit = if configured == 0 then default_queue_limit else configured;
  level = normal;
  cooldown = false;
}

unfoldable pub add_queue_bytes : ℕ → Gauge → Gauge
add_queue_bytes size g = record g { queue_bytes = g.queue_bytes + size }

unfoldable pub rollback_queue_bytes : ℕ → Gauge → Gauge
rollback_queue_bytes size g = record g { queue_bytes = g.queue_bytes - size }

abbrev set_level : Level → Gauge → Gauge × List Level
set_level l g = (record g { level = l }, l ∷ [])

-- `new_size` is what the caller's addQueueBytes returned.
unfoldable pub update_backpressure_state : ℕ → Gauge → Gauge × List Level
update_backpressure_state new_size g =
    if g.queue_limit == 0
    then (g, [])
    else if ltb (g.queue_limit * 95 / 100) new_size
    then (if is_pause g.level then (g, []) else set_level pause g)
    else if ltb (g.queue_limit * 8 / 10) new_size && is_normal g.level
    then (if g.cooldown then (g, []) else set_level slow_down (record g { cooldown = true }))
    else (g, [])

-- The goroutine that slow-down starts, a second later.
unfoldable pub end_cooldown : Gauge → Gauge
end_cooldown g = record g { cooldown = false }

unfoldable pub recover : Gauge → Gauge × List Level
recover g =
    if g.queue_limit == 0
    then (g, [])
    else if is_pause g.level && ltb g.queue_bytes (g.queue_limit * 3 / 10)
    then set_level normal g
    else if is_pause g.level && ltb g.queue_bytes (g.queue_limit * 9 / 10)
    then set_level slow_down g
    else if is_slow_down g.level && ltb g.queue_bytes (g.queue_limit * 7 / 10)
    then set_level normal g
    else (g, [])

unfoldable pub remove_queue_bytes : ℕ → Gauge → Gauge × List Level
unfolding recover
remove_queue_bytes size g = recover (record g { queue_bytes = g.queue_bytes - size })
