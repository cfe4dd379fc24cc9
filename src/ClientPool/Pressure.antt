-- ===== src/ClientPool/Pressure.antt =====
-- pool.go: what the writers do about the server's backpressure notices. A writer that is told to pause
-- stands in the select of waitForBackpressure; a Pressure has the deadlines of those that do.
-- Times are in nanoseconds. A byte that names none of the three levels is left out.
use xtunnel.Base.{
  ℕ, suc, ◌+◌, ◌*◌, ◌≤◌, ◌<◌, ◌≡◌, refl, Bool, true, false, not, ◌&&◌, ◌||◌, Option, none, some,
  List, [], ◌∷◌, ◌++◌, ltb, if◌then◌else◌, length, any, take, drop, get_or, arith, length-append,
  length-take, length-drop, Bool-cases, lt→ltb, inl, inr,
}
use xtunnel.ServerPool.Backpressure.{Level, normal, slow_down, pause, is_pause, is_normal}

abbrev same_level : Level → Level → Bool
same_level normal normal = true
same_level slow_down slow_down = true
same_level pause pause = true
same_level _ _ = false

-- `resume` tells whether resumeCh, which has room for one, holds a signal.
pub record Pressure : Type 0 where
  pub level : Level
  pub resume : Bool
  pub waiting : List ℕ

unfoldable pub handle_backpressure : Level → Pressure → Pressure
handle_backpressure level p =
    if same_level p.level level
    then p
    else record p { level = level; resume = p.resume || is_normal level }

-- The delay in nanoseconds; none is the -1 of a writer that has to wait.
unfoldable pub get_backpressure_delay : Level → Option ℕ
get_backpressure_delay slow_down = some (10 * 1000000)
get_backpressure_delay pause = none
get_backpressure_delay normal = some 0

abbrev pub wait_limit : ℕ
wait_limit = 3 * 1000000000

-- One turn of the loop, up to its select: the writer goes on, or it waits.
unfoldable pub wait_turn : ℕ → ℕ → Pressure → Pressure
wait_turn now deadline p =
    if not (is_pause p.level)
    then p
    else if ltb deadline now
    then record p { level = slow_down }
    else record p { waiting = deadline ∷ p.waiting }

-- What happens: a notice, a writer that comes to wait, one of those waiting that takes the signal, and
-- the end of the client, at which all give up. The clock alone does nothing.
pub data Event : Type 0 where
  notified : Level → Event
  entered : ℕ → Event
  resumed : ℕ → ℕ → Event
  elapsed : ℕ → Event
  closed : Event

unfoldable pub act : Event → Pressure → Pressure
act (notified level) p = handle_backpressure level p
act (entered now) p = wait_turn now (now + wait_limit) p
act (resumed i now) p =
    if p.resume && ltb i (length p.waiting)
    then wait_turn now (get_or p.waiting i 0)
        (record p { resume = false; waiting = take i p.waiting ++ drop (suc i) p.waiting })
    else p
act (elapsed time) p = p
act closed p = record p { waiting = [] }

unfoldable pub run : List Event → Pressure → Pressure
run [] p = p
run (e ∷ events) p = run events (act e p)

-- The notices that the server is back to normal.
abbrev is_recovery : Event → Bool
is_recovery (notified level) = is_normal level
is_recovery _ = false

abbrev is_closed : Event → Bool
is_closed closed = true
is_closed _ = false

unfoldable pub recoveries : List Event → ℕ
recoveries [] = 0
recoveries (e ∷ events) = (if is_recovery e then 1 else 0) + recoveries events

abbrev credit : Pressure → ℕ
credit p = if p.resume then 1 else 0

wait_turn-waiting :
    (now deadline : ℕ) (p : Pressure)
    → (length p.waiting ≤ length (wait_turn now deadline p).waiting)
      × (credit (wait_turn now deadline p) ≡ credit p)
unfolding wait_turn
wait_turn-waiting now deadline p = ground arith

act-waiting :
    (e : Event) (p : Pressure)
    → is_closed e ≡ false
    → length p.waiting + credit (act e p)
      ≤ length (act e p).waiting + (if is_recovery e then 1 else 0) + credit p
unfolding act handle_backpressure
act-waiting (notified level) p open_ = ground arith
act-waiting (entered now) p open_ = ground (arith, wait_turn-waiting now (now + wait_limit) p)
act-waiting (resumed i now) p open_ = ground (
  arith,
  wait_turn-waiting now (get_or p.waiting i 0)
      (record p { resume = false; waiting = take i p.waiting ++ drop (suc i) p.waiting }),
  length-append (take i p.waiting) (drop (suc i) p.waiting),
  length-take i p.waiting,
  length-drop (suc i) p.waiting,
)
act-waiting (elapsed time) p open_ = omega arith
act-waiting closed p open_ = cc open_

run-waiting_from :
    (events : List Event) (p : Pressure)
    → any is_closed events ≡ false
    → length p.waiting + credit (run events p)
      ≤ length (run events p).waiting + recoveries events + credit p
unfolding run recoveries
run-waiting_from [] p open_ = omega arith
run-waiting_from (e ∷ events) p open_ =
    ground (arith, act-waiting e p, run-waiting_from events (act e p))

-- Of the writers that wait, as many are still waiting, however long it takes, as there are more than
-- one for each notice that the server is back to normal, and one for a signal left over: neither
-- the deadline nor a notice to slow down lets one go. The client is not closed meanwhile.
pub run-waiting :
    (events : List Event) (p : Pressure)
    → any is_closed events ≡ false
    → length p.waiting
      ≤ length (run events p).waiting + recoveries events + (if p.resume then 1 else 0)
run-waiting events p open_ = omega (arith, run-waiting_from events p open_)

-- A paused writer that is next to take the signal goes on when the server is back to normal, and only
-- this one does.
pub handle_backpressure-resumed :
    (i now : ℕ) (p : Pressure)
    → p.level ≡ pause
    → i < length p.waiting
    → run (notified normal ∷ resumed i now ∷ []) p ≡ record {
      level = normal;
      resume = false;
      waiting = take i p.waiting ++ drop (suc i) p.waiting;
    }
unfolding run act handle_backpressure wait_turn
handle_backpressure-resumed i now p paused inside = elim (Bool-cases p.resume) [
  | inl left_over ↦ rw (paused, left_over, lt→ltb i (length p.waiting) inside) refl
  | inr none_left ↦ rw (paused, none_left, lt→ltb i (length p.waiting) inside) refl
]
