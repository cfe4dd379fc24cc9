-- ===== src/ServerPool/Backpressure/Flow/Accounting.antt =====
-- server_pool.go, connection.go: the byte count is exact under every interleaving.
use xtunnel.Base.{ℕ, ◌+◌, ◌≤◌, ◌≡◌, refl, ap, All, List, [], ◌∷◌, ◌++◌, arith}
use xtunnel.ServerPool.Backpressure.{
  Gauge, new_gauge, add_queue_bytes, rollback_queue_bytes, update_backpressure_state, end_cooldown,
}
use xtunnel.ServerPool.Backpressure.Levels.{remove_queue_bytes_falls}
use xtunnel.ServerPool.Backpressure.Flow.{
  Flow, start, Step, add, enqueue, reject, update, write, cool, Reach, here, next,
}

abbrev pub sum : List ℕ → ℕ
sum [] = 0
sum (x ∷ xs) = x + sum xs

abbrev pub sum_sizes : List (ℕ × ℕ) → ℕ
sum_sizes [] = 0
sum_sizes (x ∷ xs) = x.0 + sum_sizes xs

sum-append : (xs ys : List ℕ) → sum (xs ++ ys) ≡ sum xs + sum ys
sum-append [] ys = omega arith
sum-append (x ∷ xs) ys = omega (arith, sum-append xs ys)

sum_sizes-append : (xs ys : List (ℕ × ℕ)) → sum_sizes (xs ++ ys) ≡ sum_sizes xs + sum_sizes ys
sum_sizes-append [] ys = omega arith
sum_sizes-append (x ∷ xs) ys = omega (arith, sum_sizes-append xs ys)

-- The count is the bytes in the queues and those of the calls that are on their way in.
pub record IsExact (f : Flow) : Type 0 where
  pub exact : f.gauge.queue_bytes ≡ sum f.queued + sum_sizes f.adding

update_keeps_count :
    (n : ℕ) (g : Gauge) → (update_backpressure_state n g).0.queue_bytes ≡ g.queue_bytes
unfolding update_backpressure_state
update_keeps_count n g = ground arith

Step-IsExact : {f f' : Flow} → Step f f' → IsExact f → IsExact f'
unfolding add_queue_bytes rollback_queue_bytes end_cooldown
Step-IsExact {f} (add size e) h = rw e (record { exact = omega (arith, h.exact) })
Step-IsExact {f} (enqueue size count xs ys qs rs a q e) h = rw e (record {
  exact = omega (
    arith,
    h.exact,
    ap sum_sizes a,
    ap sum q,
    sum_sizes-append xs ((size, count) ∷ ys),
    sum_sizes-append xs ys,
    sum-append qs rs,
    sum-append qs (size ∷ rs),
  );
})
Step-IsExact {f} (reject size count xs ys a e) h = rw e (record {
  exact = omega (
    arith,
    h.exact,
    ap sum_sizes a,
    sum_sizes-append xs ((size, count) ∷ ys),
    sum_sizes-append xs ys,
  );
})
Step-IsExact {f} (update count xs ys u e) h =
    rw e (record { exact = omega (arith, h.exact, update_keeps_count count f.gauge) })
Step-IsExact {f} (write size qs rs q e) h = rw e (record {
  exact = omega (
    arith,
    h.exact,
    ap sum q,
    sum-append qs rs,
    sum-append qs (size ∷ rs),
    (remove_queue_bytes_falls size f.gauge).2,
  );
})
Step-IsExact {f} (cool e) h = rw e (record { exact = h.exact })

start-Reach-IsExact : (configured : ℕ) {f : Flow} → Reach (start configured) f → IsExact f
unfolding start new_gauge
start-Reach-IsExact configured here = record { exact = refl }
start-Reach-IsExact configured (next r s) = Step-IsExact s (start-Reach-IsExact configured r)

All-le-sum : (n : ℕ) (xs : List ℕ) → sum xs ≤ n → All (λ x. x ≤ n) xs
All-le-sum n [] h = tt
All-le-sum n (x ∷ xs) h = (omega arith, All-le-sum n xs (omega arith))

All-le-sum_sizes : (n : ℕ) (xs : List (ℕ × ℕ)) → sum_sizes xs ≤ n → All (λ x. x.0 ≤ n) xs
All-le-sum_sizes n [] h = tt
All-le-sum_sizes n (x ∷ xs) h = (omega arith, All-le-sum_sizes n xs (omega arith))

-- From the start, however the writers and the write loops interleave, the count is exact: it is the bytes in the
-- queues and on their way in, so no message that may be written or rolled back next is larger than
-- the count, and the branches that set a negative count to 0 are never taken.
pub Reach-IsExact :
    (configured : ℕ) {f : Flow}
    → Reach (start configured) f
    → (f.gauge.queue_bytes ≡ sum f.queued + sum_sizes f.adding)
      × All (λ x. x ≤ f.gauge.queue_bytes) f.queued
      × All (λ x. x.0 ≤ f.gauge.queue_bytes) f.adding
Reach-IsExact configured {f} r =
    let h = start-Reach-IsExact configured r in
    (
      h.exact,
      All-le-sum f.gauge.queue_bytes f.queued (omega (arith, h.exact)),
      All-le-sum_sizes f.gauge.queue_bytes f.adding (omega (arith, h.exact)),
    )
