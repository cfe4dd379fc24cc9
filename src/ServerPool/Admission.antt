-- ===== src/ServerPool/Admission.antt =====
-- server_pool.go: handleWebSocket up to the registration of the channel, and the numbering of channels.
-- Nothing happens between the first count of the active channels and the section under the lock.
pub mod Admits
pub mod Takeover
use xtunnel.Base.{
  ℕ, zero, suc, ◌+◌, ◌≤◌, ◌<◌, Bool, true, false, not, ◌&&◌, ◌||◌, Option, none, some, List, [],
  ◌∷◌, ◌++◌, ltb, leb, ◌==◌, if◌then◌else◌, Bytes, bytes_eq,
}
use xtunnel.ServerPool.Conns.{Channel, Server, channel_alive}

abbrev pub max_allowed_ch_id : ℕ
max_allowed_ch_id = 65535

-- The loop from `i` on, over `left` numbers more.
unfoldable pub alloc_from : ℕ → ℕ → Bytes → Server → ℕ
alloc_from zero i client s = 0
alloc_from (suc left) i client s =
    let rest = alloc_from left (suc i) client s in if channel_alive client i s then rest else i

unfoldable pub alloc_client_ch_id : Bytes → Server → ℕ
alloc_client_ch_id client s = alloc_from max_allowed_ch_id 1 client s

unfoldable pub count_open : (Channel → Bool) → List Channel → ℕ
count_open p [] = 0
count_open p (w ∷ sockets) = (if not w.closed && p w then 1 else 0) + count_open p sockets

abbrev pub count_total : Server → ℕ
count_total s = count_open (λ w. true) s.sockets

abbrev pub count_client : Bytes → Server → ℕ
count_client client s = count_open (λ w. bytes_eq w.client client) s.sockets

-- MaxTotalChannels and MaxChannelsPerClient; 0 is no limit.
pub record Limits : Type 0 where
  pub max_total : ℕ
  pub max_per_client : ℕ

abbrev pub is_full : Limits → Bytes → Server → Bool
is_full limits client s =
    (ltb 0 limits.max_total && leb limits.max_total (count_total s))
    || (ltb 0 limits.max_per_client && leb limits.max_per_client (count_client client s))

abbrev pub new_channel : Bytes → ℕ → Channel
new_channel client ch = record { client = client; ch = ch; closed = false }

abbrev pub with_channel : Bytes → ℕ → Server → Server
with_channel client ch s = record s {
  channels =
      λ c i. if bytes_eq c client && i == ch then some (new_channel client ch) else s.channels c i;
  sockets = s.sockets ++ (new_channel client ch ∷ []);
}

pub data Reply : Type 0 where
  unauthorized bad_request too_many_requests upgrade_failed try_again_later admitted : Reply

-- The section under the lock.
abbrev pub register : Limits → Bytes → ℕ → Server → Reply × Server
register limits client ch s =
    if is_full limits client s || channel_alive client ch s
    then (try_again_later, s)
    else (admitted, with_channel client ch s)

abbrev pub with_number : Limits → Bool → Bytes → ℕ → Server → Reply × Server
with_number limits upgraded client ch s =
    if is_full limits client s
    then (too_many_requests, s)
    else if not upgraded
    then (upgrade_failed, s)
    else register limits client ch s

abbrev pub numbered : Limits → Bool → Bytes → Option (Option ℕ) → Server → Reply × Server
numbered limits upgraded client none s =
    let ch = alloc_client_ch_id client s in
    if ch == 0 then (too_many_requests, s) else with_number limits upgraded client ch s
numbered limits upgraded client (some none) s = (bad_request, s)
numbered limits upgraded client (some (some ch)) s =
    if ch == 0 || ltb max_allowed_ch_id ch
    then (bad_request, s)
    else with_number limits upgraded client ch s

-- `requested` is none without a ch_id, and some none where it is no positive number; the client's
-- identity is the one of the query or a fresh one.
unfoldable pub handle_web_socket :
    Limits → Bool → Bool → Bytes → Option (Option ℕ) → Server → Reply × Server
handle_web_socket limits authorized upgraded client requested s =
    if authorized then numbered limits upgraded client requested s else (unauthorized, s)
