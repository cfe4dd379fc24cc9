-- ===== src/PairWarmer.antt =====
-- pair_warmer.go: the client's queue of warmed channel pairs. Pairs are shared by pointer, so they
-- live in a store and the queue holds addresses. Each function is one critical section under `mu`.
pub mod Store
pub mod Primary
pub mod Members
pub mod Sweep
pub mod Channels
pub mod Users
pub mod Pruning
pub mod Heads
pub mod Slots
pub mod Duplicates
pub mod Trimming
pub mod Notices
pub mod Refresh
pub mod Race
mod Tests
use xtunnel.Base.{
  ℕ, zero, suc, ◌+◌, ◌-◌, Bool, true, false, not, ◌&&◌, ◌||◌, Option, none, some, List, [], ◌∷◌,
  ◌++◌, ◌==◌, ltb, leb, if◌then◌else◌, length, take, drop, get_or, keep, any,
}
use Store.{
  State, ready, draining, closed, is_ready, is_draining, is_closed, Pair, Heap, Warmer, with_state,
  with_refs, is_idle, inc, dec,
}

-- `w.primary == pair`
abbrev pub is_primary : ℕ → Option ℕ → Bool
is_primary a none = false
is_primary a (some b) = b == a

abbrev pub forget_primary : ℕ → Option ℕ → Option ℕ
forget_primary a p = if is_primary a p then none else p

-- tryAcquire on a pair that is Ready: the section holds `mu`, so the second test sees the same state.
unfoldable pub try_acquire : ℕ → Heap → Bool × Heap
try_acquire a h =
    if is_ready (h a).state then (true, with_refs a (inc (h a).refs) h) else (false, h)

unfoldable pub acquire_from : Option ℕ → List ℕ → Heap → Option ℕ × Heap
acquire_from primary [] h = (none, h)
acquire_from primary (a ∷ pairs) h =
    let rest = acquire_from primary pairs h in
    if is_primary a primary || not (is_ready (h a).state)
    then rest
    else (some a, (try_acquire a h).1)

-- The loop of AcquirePrimary over the queue.
unfoldable pub scan_queue : Warmer → Option ℕ × Warmer
scan_queue w = let r = acquire_from w.primary w.pairs w.heap in (r.0, record w { heap = r.1 })

-- AcquirePrimary where `w.primary` is as given.
unfoldable pub acquire_by : Option ℕ → Warmer → Option ℕ × Warmer
acquire_by none w = scan_queue w
acquire_by (some a) w =
    let scanned = scan_queue w in
    if is_ready (w.heap a).state
    then (some a, record w { heap = (try_acquire a w.heap).1 })
    else scanned

unfoldable pub acquire_primary : Warmer → Option ℕ × Warmer
acquire_primary w = acquire_by w.primary w

unfoldable pub first_ready : Heap → List ℕ → Option ℕ
first_ready h [] = none
first_ready h (a ∷ pairs) = if is_ready (h a).state then some a else first_ready h pairs

-- `w.primary != nil && w.primary.State() == PairStateReady`
abbrev pub primary_ready : Warmer → Bool
primary_ready w = elim w.primary [ none ↦ false | some a ↦ is_ready (w.heap a).state ]

unfoldable pub ensure_primary : Warmer → Warmer
ensure_primary w = if primary_ready w then w else record w { primary = first_ready w.heap w.pairs }

unfoldable pub remove_pair : ℕ → Warmer → Warmer
remove_pair a w = record w {
  pairs = keep (λ b. not (b == a)) w.pairs;
  primary = forget_primary a w.primary;
}

unfoldable pub release_pair : Option ℕ → Warmer → Warmer
release_pair none w = w
release_pair (some a) w =
    let refs = dec (w.heap a).refs in
    let released = record w { heap = with_refs a refs w.heap } in
    if is_idle refs && is_draining (w.heap a).state
    then ensure_primary
        (remove_pair a (record w { heap = with_state a closed (with_refs a refs w.heap) }))
    else released

abbrev pub uses_channel : ℕ → Pair → Bool
uses_channel ch p = p.uplink == ch || p.downlink == ch

-- The loop of InvalidateChannel: the store, the primary and the pairs that stay.
pub record Swept : Type 0 where
  pub heap : Heap
  pub primary : Option ℕ
  pub kept : List ℕ

abbrev pub stay : ℕ → Swept → Swept
stay a s = record s { kept = a ∷ s.kept }

unfoldable pub invalidate_loop : ℕ → Heap → Option ℕ → List ℕ → Swept
invalidate_loop ch h primary [] = record { heap = h; primary = primary; kept = [] }
invalidate_loop ch h primary (a ∷ pairs) =
    let untouched = invalidate_loop ch h primary pairs in
    let drained = invalidate_loop ch (with_state a draining h) primary pairs in
    let removed = invalidate_loop ch (with_state a closed h) (forget_primary a primary) pairs in
    if is_closed (h a).state || not (uses_channel ch (h a))
    then stay a untouched
    else if is_idle (h a).refs
    then removed
    else stay a drained

unfoldable pub invalidate_channel : ℕ → Warmer → Warmer
invalidate_channel ch w =
    let s = invalidate_loop ch w.heap w.primary w.pairs in
    ensure_primary (record w { heap = s.heap; primary = s.primary; pairs = s.kept })

unfoldable pub discard_candidate_pair : ℕ → Warmer → Warmer
discard_candidate_pair a w =
    if is_idle (w.heap a).refs
    then ensure_primary (remove_pair a (record w { heap = with_state a closed w.heap }))
    else record w { heap = with_state a draining w.heap }

-- invalidatePair
unfoldable pub invalidate_pair : ℕ → Warmer → Warmer
invalidate_pair a w =
    if not (is_ready (w.heap a).state)
    then w
    else if is_idle (w.heap a).refs
    then ensure_primary (remove_pair a (record w { heap = with_state a closed w.heap }))
    else record w { heap = with_state a draining w.heap }

-- The part of BuildPair that holds `mu`: the new pair is queued last.
unfoldable pub add_pair : ℕ → Warmer → Warmer
add_pair a w = record w {
  pairs = w.pairs ++ (a ∷ []);
  primary = if primary_ready w then w.primary else some a;
}
