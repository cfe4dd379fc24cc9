-- ===== src/PairWarmer/Notices.antt =====
-- pair_warmer.go: the notifications of warmed pairs, queueHotPairNotify, flushHotPairNotify,
-- heartbeatHotPairNotify and LookupReady. What asyncWriteDirect answers for a channel is a
-- parameter.
pub mod Told
pub mod Delivered
use xtunnel.Base.{
  ℕ, ◌≡◌, Bool, true, false, not, ◌&&◌, Option, none, some, List, [], ◌∷◌, if◌then◌else◌, map, keep,
  Bytes, bytes_eq, is_empty,
}
use xtunnel.Base.Dict.{put, delete, text_eq}
use xtunnel.Protocol.Message.{msg_hot_pair_notify, encode_message}
use xtunnel.Protocol.HotPair.{HotPairInfo, encode_hot_pair_notify}
use xtunnel.PairWarmer.Store.{is_ready, Pair, Heap, Warmer}

-- `notifyPending`, and whether `notifyTimer` is set.
pub record Notifier : Type 0 where
  pub pending : List (Bytes × HotPairInfo)
  pub timer : Bool

abbrev pub info_of : Pair → HotPairInfo
info_of p = record { key = p.prebind_id; cha = p.uplink; chb = p.downlink }

unfoldable pub queue_hot_pair_notify : Pair → Notifier → Notifier
queue_hot_pair_notify p n =
    if is_empty p.prebind_id
    then n
    else record { pending = put p.prebind_id (info_of p) n.pending; timer = true }

-- The Ready pairs are collected, then queued.
unfoldable pub queue_all : Heap → List ℕ → Notifier → Notifier
queue_all h [] n = n
queue_all h (a ∷ pairs) n = queue_all h pairs (queue_hot_pair_notify (h a) n)

unfoldable pub heartbeat_hot_pair_notify : Warmer → Notifier → Notifier
heartbeat_hot_pair_notify w n = queue_all w.heap (keep (λ a. is_ready (w.heap a).state) w.pairs) n

-- lookupReady, which the caller's lock covers.
unfoldable pub find_ready : Bytes → Heap → List ℕ → Option ℕ
find_ready key h [] = none
find_ready key h (a ∷ pairs) =
    if bytes_eq (h a).prebind_id key && is_ready (h a).state then some a else find_ready key h pairs

unfoldable pub lookup_ready : Bytes → Warmer → Option ℕ
lookup_ready key w = if is_empty key then none else find_ready key w.heap w.pairs

abbrev pub is_some {ℓ} : {A : Type ℓ} → Option A → Bool
is_some none = false
is_some (some a) = true

-- The first section of flushHotPairNotify under `notifyMu`: what no longer names a Ready pair goes.
unfoldable pub filter_pending : Warmer → Notifier → Notifier
filter_pending w n = record {
  pending = keep (λ kv. is_some (find_ready kv.0 w.heap w.pairs)) n.pending;
  timer = false;
}

abbrev pub batch_of : Notifier → List HotPairInfo
batch_of n = map (λ (kv : Bytes × HotPairInfo). kv.1) n.pending

abbrev pub notify_frame : List HotPairInfo → Bytes
notify_frame batch = encode_message msg_hot_pair_notify [] [] (encode_hot_pair_notify batch)

-- The second section, once a channel has taken the frame.
unfoldable pub forget_sent : List HotPairInfo → Notifier → Notifier
forget_sent [] n = n
forget_sent (e ∷ batch) n = forget_sent batch (record n { pending = delete e.key n.pending })

-- The loop over the channels: the first that takes the frame.
unfoldable pub first_accepting : (ℕ → Bool) → List ℕ → Option ℕ
first_accepting accepts [] = none
first_accepting accepts (ch ∷ available) =
    if accepts ch then some ch else first_accepting accepts available

-- The sections in a row: the channel and the frame it takes, if one does, and the queue.
abbrev pub send_batch : Option ℕ → List HotPairInfo → Notifier → Option (ℕ × Bytes) × Notifier
send_batch taken [] n = (none, n)
send_batch none (e ∷ batch) n = (none, n)
send_batch (some ch) (e ∷ batch) n =
    (some (ch, notify_frame (e ∷ batch)), forget_sent (e ∷ batch) n)

unfoldable pub flush_hot_pair_notify :
    (ℕ → Bool) → List ℕ → Warmer → Notifier → Option (ℕ × Bytes) × Notifier
flush_hot_pair_notify accepts available w n =
    let filtered = filter_pending w n in
    send_batch (first_accepting accepts available) (batch_of filtered) filtered
