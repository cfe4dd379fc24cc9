-- ===== src/ClientPool/Budget/Accounting.antt =====
-- pool.go: what the counter of queued bytes says of the queues.
use xtunnel.Base.{
  ℕ, zero, suc, ◌+◌, ◌≤◌, ◌<◌, ◌≡◌, refl, true, false, List, [], ◌∷◌, ◌++◌, if◌then◌else◌, arith,
}
use xtunnel.ClientPool.Budget.{
  Queue, Budget, Step, reserved, sent, gave_up, taken, returned, opened, Steps, done, then_,
  new_queues, new_budget, reserve_queue_bytes,
}

unfoldable pub total : List ℕ → ℕ
total [] = 0
total (size ∷ sizes) = size + total sizes

unfoldable pub queued : List Queue → ℕ
queued [] = 0
queued (q ∷ queues) = total q.jobs + queued queues

-- The bytes of the jobs in queues that no worker reads any more.
unfoldable pub stranded : List Queue → ℕ
stranded [] = 0
stranded (q ∷ queues) = (if q.has_worker then 0 else total q.jobs) + stranded queues

total-append : (a b : List ℕ) → total (a ++ b) ≡ total a + total b
unfolding total
total-append [] b = omega arith
total-append (x ∷ a) b = omega (arith, total-append a b)

queued-append : (a b : List Queue) → queued (a ++ b) ≡ queued a + queued b
unfolding queued
queued-append [] b = omega arith
queued-append (q ∷ a) b = omega (arith, queued-append a b)

stranded-append : (a b : List Queue) → stranded (a ++ b) ≡ stranded a + stranded b
unfolding stranded
stranded-append [] b = omega arith
stranded-append (q ∷ a) b = omega (arith, stranded-append a b)

stranded-le : (queues : List Queue) → stranded queues ≤ queued queues
unfolding stranded queued
stranded-le [] = omega arith
stranded-le (q ∷ queues) = ground (arith, stranded-le queues)

-- The counter is the bytes that writers have reserved and queues hold, and at most the limit.
abbrev pub IsCounted : Budget → Type 0
IsCounted b = (b.queue_bytes ≡ total b.writers + queued b.queues) × (b.queue_bytes ≤ b.queue_limit)

reserve_queue_bytes_lem :
    (limit size current : ℕ)
    → current ≤ limit
    → (reserve_queue_bytes limit size current).0 ≡ true
    → ((reserve_queue_bytes limit size current).1 ≡ current + size) × (current + size ≤ limit)
unfolding reserve_queue_bytes
reserve_queue_bytes_lem limit size current fits ok = ground arith

Step-IsCounted : {b after : Budget} → Step b after → IsCounted b → IsCounted after
unfolding total queued
Step-IsCounted {b} (reserved size ok e) h =
    rw e (ground (arith, reserve_queue_bytes_lem b.queue_limit size b.queue_bytes h.1 ok))
Step-IsCounted {b} (sent size left right before behind q at place room e) h = rw e (
    ground (
      arith,
      rw (at, place) at h.0,
      total-append left (size ∷ right),
      total-append left right,
      queued-append before (q ∷ behind),
      total-append q.jobs (size ∷ []),
      queued-append before (record q { jobs = q.jobs ++ (size ∷ []) } ∷ behind),
    ))
Step-IsCounted {b} (gave_up size left right at e) h =
    rw e (ground (arith, rw at at h.0, total-append left (size ∷ right), total-append left right))
Step-IsCounted {b} (taken size jobs before behind q place works head e) h = rw e (
    ground (
      arith,
      rw place at h.0,
      queued-append before (q ∷ behind),
      queued-append before (record q { jobs = jobs } ∷ behind),
    ))
Step-IsCounted {b} (returned before behind q place empty e) h = rw e (
    ground (
      arith,
      rw place at h.0,
      queued-append before (q ∷ behind),
      queued-append before (record q { has_worker = false } ∷ behind),
    ))
Step-IsCounted {b} (opened e) h = rw e (ground arith)

Steps-IsCounted : {b c : Budget} → Steps b c → IsCounted b → IsCounted c
Steps-IsCounted done h = h
Steps-IsCounted (then_ r s) h = Step-IsCounted s (Steps-IsCounted r h)

new_queues-empty : (n : ℕ) → queued (new_queues n) ≡ 0
unfolding queued total
new_queues-empty zero = refl
new_queues-empty (suc n) = omega (arith, new_queues-empty n)

-- From a new pool, whatever the writers and the workers do and in whatever order, the counter of
-- queued bytes is exactly the bytes that writers have reserved and queues hold, and never above the
-- limit; so no release is cut off at zero.
pub Steps-queue_bytes :
    (limit n : ℕ) {b : Budget}
    → Steps (new_budget limit n) b
    → (b.queue_bytes ≡ total b.writers + queued b.queues) × (b.queue_bytes ≤ b.queue_limit)
unfolding total
Steps-queue_bytes limit n r = Steps-IsCounted r (ground (arith, new_queues-empty n))

Step-stranded :
    {b after : Budget}
    → Step b after
    → (stranded b.queues ≤ stranded after.queues) × (after.queue_limit ≡ b.queue_limit)
unfolding total stranded
Step-stranded {b} (reserved size ok e) = rw e (omega arith, refl)
Step-stranded {b} (sent size left right before behind q at place room e) =
    rw (e, place)
      (
        ground (
          arith,
          stranded-append before (q ∷ behind),
          total-append q.jobs (size ∷ []),
          stranded-append before (record q { jobs = q.jobs ++ (size ∷ []) } ∷ behind),
        ),
        refl,
      )
Step-stranded {b} (gave_up size left right at e) = rw e (omega arith, refl)
Step-stranded {b} (taken size jobs before behind q place works head e) =
    rw (e, place)
      (
        ground (
          arith,
          stranded-append before (q ∷ behind),
          stranded-append before (record q { jobs = jobs } ∷ behind),
        ),
        refl,
      )
Step-stranded {b} (returned before behind q place empty e) =
    rw (e, place)
      (
        ground (
          arith,
          stranded-append before (q ∷ behind),
          stranded-append before (record q { has_worker = false } ∷ behind),
        ),
        refl,
      )
Step-stranded {b} (opened e) = rw e (omega arith, refl)

Steps-stranded :
    {b c : Budget}
    → Steps b c
    → (stranded b.queues ≤ stranded c.queues) × (c.queue_limit ≡ b.queue_limit)
Steps-stranded done = (omega arith, refl)
Steps-stranded (then_ r s) = ground (arith, Steps-stranded r, Step-stranded s)

-- The bytes of the jobs that went to a queue without a worker are never given back: once they and the
-- size of a job are above the limit, the job is refused for ever, whatever the pool does.
pub reserve_queue_bytes-stranded :
    (limit n size : ℕ) {b c : Budget}
    → Steps (new_budget limit n) b
    → Steps b c
    → 0 < size
    → limit < stranded b.queues + size
    → (reserve_queue_bytes c.queue_limit size c.queue_bytes).0 ≡ false
unfolding reserve_queue_bytes total
reserve_queue_bytes-stranded limit n size {b} {c} before later some_ full = ground (
  arith,
  Steps-stranded before,
  Steps-stranded later,
  stranded-le c.queues,
  Steps-IsCounted later (Steps-IsCounted before (ground (arith, new_queues-empty n))),
)
