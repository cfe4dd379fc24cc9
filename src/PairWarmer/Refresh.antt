-- ===== src/PairWarmer/Refresh.antt =====
-- pair_warmer.go: BuildPair from its result on, tryBuildPairs, tryRefresh, validatePrimaryChannels,
-- healthCheckSpares and periodicRefresh, one pass without other goroutines between its sections. The
-- races' results and the channels that are available during the pass are parameters.
pub mod Shrinks
pub mod Order
use xtunnel.Base.{
  ℕ, zero, suc, ◌+◌, ◌-◌, Bool, true, false, not, ◌&&◌, Option, none, some, List, [], ◌∷◌, ◌==◌,
  ltb, leb, if◌then◌else◌, length, keep, any, Bytes,
}
use xtunnel.PairWarmer.Store.{ready, is_ready, Pair, pos, unassigned, Heap, Warmer, write}
use xtunnel.PairWarmer.{
  is_primary, primary_ready, ensure_primary, invalidate_channel, discard_candidate_pair, add_pair,
}
use xtunnel.PairWarmer.Pruning.{prune_idle_draining_pairs}
use xtunnel.PairWarmer.Heads.{find_ready_match, promote_to_head, replace_head}
use xtunnel.PairWarmer.Slots.{assign_pair_slot}
use xtunnel.PairWarmer.Duplicates.{deduplicate_pairs}
use xtunnel.PairWarmer.Trimming.{ready_count, trim_excess_pairs}
use xtunnel.PairWarmer.Notices.{Notifier, queue_hot_pair_notify, heartbeat_hot_pair_notify}

-- What a race gave: the pre-bound id and the two channels.
pub record Built : Type 0 where
  pub prebind_id : Bytes
  pub uplink : ℕ
  pub downlink : ℕ

-- The warmer, its notifications, and the number of races so far, which is the next pair's address.
pub record Rotation : Type 0 where
  pub warmer : Warmer
  pub notifier : Notifier
  pub races : ℕ

abbrev pub on_warmer : (Warmer → Warmer) → Rotation → Rotation
on_warmer f r = record r { warmer = f r.warmer }

abbrev pub new_pair : Built → Pair
new_pair b = record {
  slot = unassigned;
  prebind_id = b.prebind_id;
  uplink = b.uplink;
  downlink = b.downlink;
  state = ready;
  refs = pos 0;
}

abbrev pub allocated : Built → ℕ → Warmer → Warmer
allocated b a w = add_pair a (record w { heap = write a (new_pair b) w.heap })

-- BuildPair: `none` is an error, whatever its cause.
unfoldable pub build_pair : (ℕ → Option Built) → Rotation → Option ℕ × Rotation
build_pair outcome r = elim (outcome r.races) [
  | none ↦ (none, record r { races = suc r.races })
  | some b ↦ (
    some r.races,
    record {
      warmer = allocated b r.races r.warmer;
      notifier = queue_hot_pair_notify (new_pair b) r.notifier;
      races = suc r.races;
    },
  )
]

-- The loop of tryBuildPairs, with the number of pairs that are missing.
unfoldable pub build_missing : ℕ → (ℕ → Option Built) → Rotation → Rotation
build_missing zero outcome r = r
build_missing (suc n) outcome r =
    let built = build_pair outcome r in
    elim built.0 [
      | none ↦ built.1
      | some a ↦ build_missing n outcome (on_warmer (assign_pair_slot a) built.1)
    ]

unfoldable pub try_build_pairs : (ℕ → Option Built) → List ℕ → Rotation → Rotation
try_build_pairs outcome available r =
    if leb r.warmer.pair_count (ready_count r.warmer)
    then r
    else if ltb (length available) 2
    then r
    else build_missing (r.warmer.pair_count - ready_count r.warmer) outcome r

abbrev pub is_alive : ℕ → List ℕ → Bool
is_alive ch available = any (λ c. c == ch) available

-- `if !valid { w.InvalidateChannel(ch) }`
abbrev pub drop_dead : ℕ → List ℕ → Warmer → Warmer
drop_dead ch available w = if is_alive ch available then w else invalidate_channel ch w

-- The check of the primary's channels, which are read before either fails.
unfoldable pub validate_primary_channels : Option ℕ → List ℕ → Warmer → Bool × Warmer
validate_primary_channels none available w = (true, w)
validate_primary_channels (some a) available w =
    let p = w.heap a in
    if not (is_ready p.state) then (true, w) else (
      is_alive p.uplink available && is_alive p.downlink available,
      drop_dead p.downlink available (drop_dead p.uplink available w),
    )

unfoldable pub try_refresh : (ℕ → Option Built) → List ℕ → Rotation → Rotation
try_refresh outcome available r =
    let elected = ensure_primary r.warmer in
    try_build_pairs outcome available
      (record r { warmer = (validate_primary_channels elected.primary available elected).1 })

unfoldable pub check_spares : Heap → List ℕ → List ℕ → Warmer → Warmer
check_spares h available [] w = w
check_spares h available (a ∷ spares) w = check_spares h available spares (
    if not (is_alive (h a).uplink available)
    then invalidate_channel (h a).uplink w
    else drop_dead (h a).downlink available w)

unfoldable pub health_check_spares : List ℕ → Warmer → Warmer
health_check_spares available w =
    check_spares w.heap available
      (keep (λ a. not (is_primary a w.primary) && is_ready (w.heap a).state) w.pairs) w

-- The candidate beside the pairs of the queue: what findReadyMatchLocked found decides.
abbrev pub place : Option ℕ × Option ℕ → ℕ → Warmer → Warmer
place (some head, spare) a w = discard_candidate_pair a w
place (none, some spare) a w = discard_candidate_pair a (promote_to_head spare w)
place (none, none) a w =
    if is_primary a w.primary
    then assign_pair_slot a w
    else replace_head a w.primary (assign_pair_slot a w)

unfoldable pub place_candidate : ℕ → Warmer → Warmer
place_candidate a w = place (find_ready_match a w) a w

unfoldable pub race_again : (ℕ → Option Built) → List ℕ → Rotation → Rotation
race_again outcome available r =
    let built = build_pair outcome r in
    if ltb (length available) 2
    then r
    else elim built.0 [ none ↦ built.1 | some a ↦ on_warmer (place_candidate a) built.1 ]

-- trimExcessPairs with fuel above the number of Ready pairs.
unfoldable pub trimmed : Warmer → Warmer
trimmed w = elim (trim_excess_pairs (suc (ready_count w)) w) [ none ↦ w | some v ↦ v ]

unfoldable pub periodic_refresh : (ℕ → Option Built) → List ℕ → Rotation → Rotation
periodic_refresh outcome available r =
    let told = record r { notifier = heartbeat_hot_pair_notify r.warmer r.notifier } in
    let raced = race_again outcome available (on_warmer prune_idle_draining_pairs told) in
    let checked =
      on_warmer (λ w. trimmed (health_check_spares available (deduplicate_pairs w))) raced in
    on_warmer deduplicate_pairs (try_build_pairs outcome available checked)
