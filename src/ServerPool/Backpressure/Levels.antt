-- ===== src/ServerPool/Backpressure/Levels.antt =====
-- server_pool.go: how updateBackpressureState and removeQueueBytes move the level.
use xtunnel.Base.{ℕ, ◌-◌, ◌*◌, ◌/◌, ◌≤◌, ◌<◌, ◌≡◌, ◌≢◌, ◌⊎◌, List, [], ◌∷◌, arith}
use xtunnel.ServerPool.Backpressure.{
  Level, normal, slow_down, pause, Gauge, update_backpressure_state, remove_queue_bytes,
}

-- How hard a level throttles.
abbrev pub rank : Level → ℕ
rank normal = 0
rank slow_down = 1
rank pause = 2

-- One step to a level: it is broadcast if it is a new one, and nothing else is.
abbrev pub Tells : Gauge → Gauge × List Level → Type 0
Tells g (g', told) =
    ((g'.level ≡ g.level) × (told ≡ [])) ⊎ ((g'.level ≢ g.level) × (told ≡ g'.level ∷ []))

-- An update for an added message never lowers the level, and tells the clients of a change, and only then.
pub update_backpressure_state_rises :
    (n : ℕ) (g : Gauge)
    → (rank g.level ≤ rank (update_backpressure_state n g).0.level)
      × Tells g (update_backpressure_state n g)
unfolding update_backpressure_state
update_backpressure_state_rises n g = ground arith

-- A removed message never raises the level, and tells the clients of a change, and only then.
pub remove_queue_bytes_falls :
    (n : ℕ) (g : Gauge)
    → (rank (remove_queue_bytes n g).0.level ≤ rank g.level)
      × Tells g (remove_queue_bytes n g)
      × ((remove_queue_bytes n g).0.queue_bytes ≡ g.queue_bytes - n)
unfolding remove_queue_bytes
remove_queue_bytes_falls n g = ground arith

-- Above 95% of the limit the level is pause, whatever it was.
pub update_backpressure_state_pauses :
    (n : ℕ) (g : Gauge)
    → 0 < g.queue_limit
    → g.queue_limit * 95 / 100 < n
    → (update_backpressure_state n g).0.level ≡ pause
unfolding update_backpressure_state
update_backpressure_state_pauses n g h over = ground arith

-- A removal that leaves less than 30% of the limit ends all throttling.
pub remove_queue_bytes_recovers :
    (n : ℕ) (g : Gauge)
    → g.queue_bytes - n < g.queue_limit * 3 / 10
    → (remove_queue_bytes n g).0.level ≡ normal
unfolding remove_queue_bytes
remove_queue_bytes_recovers n g low = ground arith

-- The thresholds do not make the level flap: a level that an update at the count `n` raised is not
-- lowered by a removal that leaves that count.
pub raised_stays :
    (n m : ℕ) (g : Gauge)
    → (update_backpressure_state n g).0.level ≢ g.level
    → g.queue_bytes - m ≡ n
    → (remove_queue_bytes m (update_backpressure_state n g).0).0.level
      ≡ (update_backpressure_state n g).0.level
unfolding update_backpressure_state remove_queue_bytes
raised_stays n m g changed count = ground arith

-- A level that a removal lowered is not raised again by an update at the count that it left.
pub lowered_stays :
    (m : ℕ) (g : Gauge)
    → (remove_queue_bytes m g).0.level ≢ g.level
    → (update_backpressure_state (g.queue_bytes - m) (remove_queue_bytes m g).0).0.level
      ≡ (remove_queue_bytes m g).0.level
unfolding update_backpressure_state remove_queue_bytes
lowered_stays m g changed = ground arith
