-- ===== src/ServerPool/Tests.antt =====
-- The server's backpressure on small examples.
use xtunnel.Base.{ℕ, ◌*◌, List, length, none, ◌+◌, ◌≤◌, ◌≡◌, refl, false, [], ◌∷◌, All}
use xtunnel.ServerPool.Backpressure.{normal, new_gauge, add_queue_bytes}
use xtunnel.ServerPool.Backpressure.Flow.{Flow, start, Step, add, enqueue, Reach, here, next}
use xtunnel.ServerPool.Backpressure.Resets.{new_full_queue, resets, second, IsSpaced, resets_rare}
use xtunnel.ServerPool.Backpressure.Flow.Accounting.{sum, sum_sizes, Reach-IsExact}

-- Two calls that have added their bytes, one of which has enqueued its message.
abbrev busy : Flow
busy = record {
  gauge = record { queue_bytes = 12; queue_limit = 1000; level = normal; cooldown = false };
  adding = (7, 12) ∷ [];
  updating = 5 ∷ [];
  queued = 5 ∷ [];
  notices = [];
}

abbrev added : Flow
added = record (start 1000) {
  gauge = record { queue_bytes = 5; queue_limit = 1000; level = normal; cooldown = false };
  adding = (5, 5) ∷ [];
}

abbrev enqueued : Flow
enqueued = record added { adding = []; updating = 5 ∷ []; queued = 5 ∷ [] }

start-busy : Reach (start 1000) busy
unfolding start new_gauge add_queue_bytes
start-busy =
    let s1 : Step (start 1000) added = add 5 refl in
    let s2 : Step added enqueued = enqueue 5 5 [] [] [] [] refl refl refl in
    let s3 : Step enqueued busy = add 7 refl in next (next (next here s1) s2) s3

Reach-IsExact_example :
    (12 ≡ sum (5 ∷ []) + sum_sizes ((7, 12) ∷ []))
    × All (λ x. x ≤ 12) (5 ∷ [])
    × All (λ (x : ℕ × ℕ). x.0 ≤ 12) ((7, 12) ∷ [])
Reach-IsExact_example = Reach-IsExact 1000 start-busy

abbrev fulls : List ℕ
fulls = 0 ∷ second ∷ (2 * second) ∷ []

resets_rare_example :
    IsSpaced none (resets fulls new_full_queue)
    × (5 * length (resets fulls new_full_queue) ≤ length fulls)
resets_rare_example = resets_rare fulls
