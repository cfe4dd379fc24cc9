-- ===== src/ClientPool/Budget.antt =====
-- pool.go: globalQueueBytes, the bytes of all jobs on their way to a channel, with the queues that
-- hold them. Sums are below 2^63.
use xtunnel.Base.{
  ℕ, zero, suc, ◌+◌, ◌-◌, ◌*◌, ◌≤◌, ◌<◌, ◌≡◌, refl, Bool, true, false, Option, none, some, List, [],
  ◌∷◌, ◌++◌, ltb, ◌==◌, if◌then◌else◌, length, arith,
}
pub mod Accounting

unfoldable pub reserve_queue_bytes : ℕ → ℕ → ℕ → Bool × ℕ
reserve_queue_bytes limit size current =
    if size == 0
    then (true, current)
    else if ltb limit (current + size)
    then (false, current)
    else (true, current + size)

-- `next < 0` is set to 0, as the subtraction is.
abbrev pub release_queue_bytes : ℕ → ℕ → ℕ
release_queue_bytes size current = current - size

-- A queue is the one of a session: reconnecting makes a new one. It has the sizes of its jobs, and a
-- writeWorker until this has drained it and returned.
pub record Queue : Type 0 where
  pub jobs : List ℕ
  pub has_worker : Bool

-- `writers` has the sizes of the jobs that asyncWriteDirect has reserved and not sent yet.
pub record Budget : Type 0 where
  pub queue_bytes : ℕ
  pub queue_limit : ℕ
  pub queues : List Queue
  pub writers : List ℕ

abbrev pub write_queue_size : ℕ
write_queue_size = 16384

-- The queues that newClientPool makes have no worker.
abbrev pub new_queues : ℕ → List Queue
new_queues zero = []
new_queues (suc n) = record { jobs = []; has_worker = false } ∷ new_queues n

-- asyncWriteDirect reserves, and sends or gives up; writeWorker takes a job and, at its end, returns
-- from the empty queue; dialAndServe puts a new queue and its worker in the place of the last one.
pub data Step (b after : Budget) : Type 0 where
  reserved :
      (size : ℕ)
      → (reserve_queue_bytes b.queue_limit size b.queue_bytes).0 ≡ true
      → after ≡ record b {
        queue_bytes = (reserve_queue_bytes b.queue_limit size b.queue_bytes).1;
        writers = size ∷ b.writers;
      }
      → Step b after
  sent :
      (size : ℕ) (left right : List ℕ) (before behind : List Queue) (q : Queue)
      → b.writers ≡ left ++ (size ∷ right)
      → b.queues ≡ before ++ (q ∷ behind)
      → length q.jobs < write_queue_size
      → after ≡ record b {
        writers = left ++ right;
        queues = before ++ (record q { jobs = q.jobs ++ (size ∷ []) } ∷ behind);
      }
      → Step b after
  gave_up :
      (size : ℕ) (left right : List ℕ)
      → b.writers ≡ left ++ (size ∷ right)
      → after
        ≡ record b { writers = left ++ right; queue_bytes = release_queue_bytes size b.queue_bytes }
      → Step b after
  taken :
      (size : ℕ) (jobs : List ℕ) (before behind : List Queue) (q : Queue)
      → b.queues ≡ before ++ (q ∷ behind)
      → q.has_worker ≡ true
      → q.jobs ≡ size ∷ jobs
      → after ≡ record b {
        queues = before ++ (record q { jobs = jobs } ∷ behind);
        queue_bytes = release_queue_bytes size b.queue_bytes;
      }
      → Step b after
  returned :
      (before behind : List Queue) (q : Queue)
      → b.queues ≡ before ++ (q ∷ behind)
      → q.jobs ≡ []
      → after ≡ record b { queues = before ++ (record q { has_worker = false } ∷ behind) }
      → Step b after
  opened :
      after ≡ record b { queues = record { jobs = []; has_worker = true } ∷ b.queues }
      → Step b after

pub data Steps : Budget → Budget → Type 0 where
  done : {b : Budget} → Steps b b
  then_ : {b c d : Budget} → Steps b c → Step c d → Steps b d

abbrev pub new_budget : ℕ → ℕ → Budget
new_budget limit n = record {
  queue_bytes = 0;
  queue_limit = limit;
  queues = new_queues n;
  writers = [];
}
