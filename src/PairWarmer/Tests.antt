-- ===== src/PairWarmer/Tests.antt =====
-- The queue of warmed pairs on a small example.
use xtunnel.Base.{
  false, ==_iff, ℕ, ◌<◌, ◌≤◌, true, ◌^◌, length, ◌≡◌, List, Bytes, codes, Option, inl, inr, refl,
  none, some, [], ◌∷◌, ◌==◌, arith, if◌then◌else◌,
}
use xtunnel.PairWarmer.Store.{ready, draining, Pair, pos, unassigned, numbered, Warmer}
use xtunnel.PairWarmer.{invalidate_channel}
use xtunnel.PairWarmer.Primary.{IsWellFormed, IsElected}
use xtunnel.PairWarmer.Users.{InOrder}
use xtunnel.PairWarmer.Pruning.{prune_idle_draining_pairs, prune_skips}
use xtunnel.PairWarmer.Channels.{IsRetired, invalidate_channel-IsRetired}
use xtunnel.Protocol.Message.{Message, ok, decode_message}
use xtunnel.Protocol.HotPair.{encode_hot_pair_notify}
use xtunnel.HotPairTable.{entry, entry_at, handle_notify}
use xtunnel.PairWarmer.Duplicates.{deduplicate_pairs}
use xtunnel.PairWarmer.Trimming.{ready_pairs, trim_excess_pairs, trim_excess_pairs_total}
use xtunnel.PairWarmer.Trimming.Tail.{staying, trim_excess_pairs-staying}
use xtunnel.PairWarmer.Notices.{
  first_accepting, Notifier, info_of, heartbeat_hot_pair_notify, flush_hot_pair_notify,
}
use xtunnel.PairWarmer.Notices.Told.{IsMap}
use xtunnel.PairWarmer.Notices.Delivered.{heartbeat_batch, heartbeat_reaches_table}
use xtunnel.PairWarmer.Refresh.{Built, Rotation, periodic_refresh}
use xtunnel.PairWarmer.Refresh.Order.{IsRotation}
use xtunnel.PairWarmer.Refresh.Order.Whole.{periodic_refresh-IsRotation}
use xtunnel.PairWarmer.Race.{Wake, told, built, await_result, announce, race}
use xtunnel.PairWarmer.Slots.{first_free, assign_pair_slot}

-- Pair 0 is idle on channels 1 and 2, pair 1 in use on 2 and 3, the others on 4 and 5.
abbrev pair_at : ℕ → Pair
pair_at a = record {
  slot = unassigned;
  prebind_id = [];
  uplink = if a == 0 then 1 else if a == 1 then 2 else 4;
  downlink = if a == 0 then 2 else if a == 1 then 3 else 5;
  state = ready;
  refs = if a == 1 then pos 1 else pos 0;
}

abbrev warmer : Warmer
warmer = record { heap = pair_at; pairs = 0 ∷ 1 ∷ 2 ∷ []; primary = some 0; pair_count = 3 }

warmer-IsWellFormed : IsWellFormed warmer
warmer-IsWellFormed = record { distinct = ground arith; live = ground arith; primary_in = refl }

invalidate_channel-IsRetired_example :
    IsWellFormed (invalidate_channel 2 warmer)
    × IsElected (invalidate_channel 2 warmer)
    × IsRetired 2 (invalidate_channel 2 warmer)
invalidate_channel-IsRetired_example = invalidate_channel-IsRetired 2 warmer warmer-IsWellFormed

warmer-InOrder : InOrder warmer
warmer-InOrder = (warmer-IsWellFormed, inl refl)

-- The same queue, all draining.
abbrev drained : Warmer
drained = record warmer { heap = λ a. record (pair_at a) { state = draining } }

drained-InOrder : InOrder (record drained { primary = none })
drained-InOrder = (
  record { distinct = ground arith; live = (refl, (refl, (refl, tt))); primary_in = tt },
  inr (refl, (refl, (refl, (refl, tt)))),
)

prune_skips_example :
    (prune_idle_draining_pairs (record drained { pairs = 0 ∷ 2 ∷ 3 ∷ [] })).pairs ≡ 2 ∷ []
prune_skips_example = prune_skips 0 2 3 drained refl refl refl refl refl refl

-- Pair 0 has slot 1, the others none.
abbrev labelled : Warmer
labelled = record warmer {
  heap = λ a. record (pair_at a) { slot = if a == 0 then numbered 1 else unassigned };
}

second_slot : ((assign_pair_slot 1 labelled).heap 1).slot ≡ numbered 2
unfolding assign_pair_slot first_free
second_slot = refl

-- A queue of five whose last two pairs are on the same channels as the third.
abbrev crowded : Warmer
crowded = record warmer { pairs = 0 ∷ 1 ∷ 2 ∷ 3 ∷ 4 ∷ [] }

crowded-IsWellFormed : IsWellFormed crowded
crowded-IsWellFormed = record { distinct = ground arith; live = ground arith; primary_in = refl }

dedupe_crowded : (deduplicate_pairs crowded).pairs ≡ 0 ∷ 1 ∷ 2 ∷ []
unfolding deduplicate_pairs xtunnel.PairWarmer.ensure_primary
    xtunnel.PairWarmer.Duplicates.dedupe_loop
dedupe_crowded = refl

-- One pair is wanted, and the second is in use.
abbrev single : Warmer
single = record crowded { pair_count = 1 }

single-IsWellFormed : IsWellFormed single
single-IsWellFormed = record { distinct = ground arith; live = ground arith; primary_in = refl }

trim_excess_pairs-staying_example :
    (v : Warmer) × (trim_excess_pairs 6 single ≡ some v)
    × InOrder v
    × (ready_pairs v.heap v.pairs ≡ staying single)
trim_excess_pairs-staying_example =
    trim_excess_pairs-staying 6 single (omega arith) (omega arith) single-IsWellFormed

staying-single : staying single ≡ 0 ∷ []
unfolding staying xtunnel.PairWarmer.Trimming.Tail.before_last_used
staying-single = refl

trim_excess_pairs_total_example : (v : Warmer) × (trim_excess_pairs 6 single ≡ some v)
trim_excess_pairs_total_example = trim_excess_pairs_total 6 single (omega arith)

-- The first race gives a pair on the channels of pair 2, and the others fail.
abbrev outcome : ℕ → Option Built
outcome n =
    if n == 3
    then some (record { prebind_id = codes "prebind-d"; uplink = 4; downlink = 5 })
    else none

abbrev rotation : Rotation
rotation = record { warmer = warmer; notifier = record { pending = []; timer = false }; races = 3 }

rotation-IsRotation : IsRotation rotation
rotation-IsRotation = (warmer-InOrder, λ b h. ground (arith, ==_iff 0 b, ==_iff 1 b, ==_iff 2 b))

abbrev channels : List ℕ
channels = 1 ∷ 2 ∷ 3 ∷ 4 ∷ 5 ∷ []

periodic_refresh-IsRotation_example : IsRotation (periodic_refresh outcome channels rotation)
periodic_refresh-IsRotation_example =
    periodic_refresh-IsRotation outcome channels rotation rotation-IsRotation

refreshed : (periodic_refresh outcome channels rotation).warmer.pairs ≡ 2 ∷ 0 ∷ 1 ∷ []
unfolding periodic_refresh deduplicate_pairs xtunnel.PairWarmer.ensure_primary
    xtunnel.PairWarmer.Duplicates.dedupe_loop xtunnel.PairWarmer.Refresh.try_build_pairs
    xtunnel.PairWarmer.Refresh.trimmed trim_excess_pairs
    xtunnel.PairWarmer.Refresh.health_check_spares xtunnel.PairWarmer.Refresh.check_spares
    xtunnel.PairWarmer.Refresh.race_again xtunnel.PairWarmer.Refresh.build_pair
    xtunnel.PairWarmer.Refresh.place_candidate xtunnel.PairWarmer.Heads.find_ready_match
    xtunnel.PairWarmer.Heads.find_match xtunnel.PairWarmer.add_pair prune_idle_draining_pairs
    xtunnel.PairWarmer.Pruning.prune_rounds xtunnel.PairWarmer.Heads.promote_to_head
    xtunnel.PairWarmer.Heads.remove_first xtunnel.PairWarmer.Trimming.trim_loop
    xtunnel.PairWarmer.discard_candidate_pair invalidate_channel xtunnel.PairWarmer.invalidate_loop
    xtunnel.PairWarmer.remove_pair
refreshed = refl

-- Pair 0 with a key that the notification can carry.
abbrev keyed : Warmer
keyed = record warmer {
  heap = λ a. record (pair_at a) { prebind_id = if a == 0 then codes "prebind-a" else [] };
}

abbrev silent : Notifier
silent = record { pending = []; timer = false }

taken : first_accepting (λ ch. ch == 4) channels ≡ some 4
unfolding first_accepting
taken = refl

silent-IsMap : IsMap silent
silent-IsMap = record { distinct = tt; keyed = tt }

small : length (encode_hot_pair_notify (heartbeat_batch keyed silent)) < 2 ^ 32
unfolding encode_hot_pair_notify xtunnel.PairWarmer.Notices.filter_pending heartbeat_hot_pair_notify
    xtunnel.PairWarmer.Notices.queue_all xtunnel.PairWarmer.Notices.queue_hot_pair_notify
    xtunnel.Base.Dict.put xtunnel.PairWarmer.Notices.find_ready
    xtunnel.Protocol.HotPair.encode_record xtunnel.Protocol.Wire.put_u32
small = omega arith

heartbeat_reaches_table_example :
    (frame : Bytes) × (message : Message) × ((flush_hot_pair_notify
        (λ ch. ch == 4)
        channels
        keyed
        (heartbeat_hot_pair_notify keyed silent)).0
      ≡ some (4, frame))
    × (decode_message frame ≡ ok message)
    × (entry
          (codes "client")
          (codes "prebind-a")
          (handle_notify 7 (codes "client") message.payload [])
        ≡ some (entry_at 7 (info_of (keyed.heap 0))))
unfolding xtunnel.Base.Dict.get
heartbeat_reaches_table_example =
    heartbeat_reaches_table (λ ch. ch == 4) channels 4 keyed silent 0 7 (codes "client") [] taken
      silent-IsMap
      (record {
        queued = refl;
        fit = refl;
        keyed = (omega arith, omega arith);
        up = (omega arith, omega arith);
        down = (omega arith, omega arith);
        agree =
            (λ _ _. refl, (λ e. absurd (ground (arith, e)), (λ e. absurd (ground (arith, e)), tt)));
      })
      small tt

abbrev both : List ℕ
both = 2 ∷ 4 ∷ []

-- A late result of another race, then one of this race.
abbrev wakes : List Wake
wakes =
    told (record { conn_id = codes "prebind-z"; uplink = 1; downlink = 2; failed = false }) true
    ∷ told (record { conn_id = codes "prebind-a"; uplink = 4; downlink = 2; failed = false }) true
    ∷ []

abbrev fresh_pair : Built
fresh_pair = record { prebind_id = codes "prebind-a"; uplink = 4; downlink = 2 }

wins :
    (race true (λ ch. true) (λ ch. true) both 0 (codes "t") (codes "prebind-a") wakes).1
    ≡ built fresh_pair
unfolding race announce await_result
wins = refl
