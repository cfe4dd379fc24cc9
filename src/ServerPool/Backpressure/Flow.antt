-- ===== src/ServerPool/Backpressure/Flow.antt =====
-- connection.go: asyncWrite and writeLoop of many goroutines, in their atomic steps. asyncWrite adds
-- to the count, then enqueues or rolls back, then updates the level by the count that it read first;
-- writeLoop takes a message off the queue and its bytes off the count.
pub mod Accounting
use xtunnel.Base.{ℕ, ◌+◌, ◌≡◌, List, [], ◌∷◌, ◌++◌}
use xtunnel.ServerPool.Backpressure.{
  Level, Gauge, new_gauge, add_queue_bytes, rollback_queue_bytes, update_backpressure_state,
  end_cooldown, remove_queue_bytes,
}

-- `adding`: calls between addQueueBytes and the enqueue, with the size and the count that they read;
-- `updating`: counts of calls between the enqueue and updateBackpressureState;
-- `queued`: the sizes of the messages in all write queues; `notices`: the levels that have been
-- broadcast, in order. The frames of a broadcast go through asyncWrite: they come in by `add` steps.
pub record Flow : Type 0 where
  pub gauge : Gauge
  pub adding : List (ℕ × ℕ)
  pub updating : List ℕ
  pub queued : List ℕ
  pub notices : List Level

unfoldable pub start : ℕ → Flow
start configured = record {
  gauge = new_gauge configured;
  adding = [];
  updating = [];
  queued = [];
  notices = [];
}

pub data Step (f f' : Flow) : Type 0 where
  add :
      (size : ℕ)
      → f' ≡ record f {
        gauge = add_queue_bytes size f.gauge;
        adding = (size, f.gauge.queue_bytes + size) ∷ f.adding;
      }
      → Step f f'
  enqueue :
      (size count : ℕ) (xs ys : List (ℕ × ℕ)) (qs rs : List ℕ)
      → f.adding ≡ xs ++ ((size, count) ∷ ys)
      → f.queued ≡ qs ++ rs
      → f'
        ≡ record f { adding = xs ++ ys; updating = count ∷ f.updating; queued = qs ++ (size ∷ rs) }
      → Step f f'
  reject :
      (size count : ℕ) (xs ys : List (ℕ × ℕ))
      → f.adding ≡ xs ++ ((size, count) ∷ ys)
      → f' ≡ record f { gauge = rollback_queue_bytes size f.gauge; adding = xs ++ ys }
      → Step f f'
  update :
      (count : ℕ) (xs ys : List ℕ)
      → f.updating ≡ xs ++ (count ∷ ys)
      → f' ≡ record f {
        gauge = (update_backpressure_state count f.gauge).0;
        updating = xs ++ ys;
        notices = f.notices ++ (update_backpressure_state count f.gauge).1;
      }
      → Step f f'
  write :
      (size : ℕ) (qs rs : List ℕ)
      → f.queued ≡ qs ++ (size ∷ rs)
      → f' ≡ record f {
        gauge = (remove_queue_bytes size f.gauge).0;
        queued = qs ++ rs;
        notices = f.notices ++ (remove_queue_bytes size f.gauge).1;
      }
      → Step f f'
  cool : f' ≡ record f { gauge = end_cooldown f.gauge } → Step f f'

pub data Reach (f : Flow) : Flow → Type 0 where
  here : Reach f f
  next : {g h : Flow} → Reach f g → Step g h → Reach f h
