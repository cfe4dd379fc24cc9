-- ===== src/ClientPool/Registry/Selection.antt =====
-- pool.go: selectDownlink, the choice of the channel on which a connection receives.
use xtunnel.Base.{
  is_empty, ℕ, Bool, true, false, not, ◌&&◌, Option, none, some, [], ltb, ◌==◌, if◌then◌else◌,
  Bytes,
}
use xtunnel.ClientPool.Registry.{ConnState, PairRef, is_prebind}

-- The results of selectDownlink; `up` is none for -1.
pub record Selection : Type 0 where
  pub selected : Bool
  pub chosen : ℕ
  pub start : ℕ
  pub target : Bytes
  pub up : Option ℕ
  pub typ : Bytes

abbrev pub no_selection : Selection
no_selection = record {
  selected = false;
  chosen = 0;
  start = 0;
  target = [];
  up = some 0;
  typ = [];
}

abbrev pub positive : ℕ → Option ℕ
positive n = if ltb 0 n then some n else none

abbrev pub claimed : ℕ → Option ℕ → ConnState → Selection
claimed ch_id up st = record {
  selected = true;
  chosen = ch_id;
  start = st.start;
  target = st.target;
  up = up;
  typ = st.req_type;
}

-- The compare-and-swap from 0 to `ch_id`, and the results that follow it.
abbrev pub claim_downlink : ℕ → Option ℕ → ConnState → Selection × ConnState
claim_downlink ch_id up st =
    if st.downlink == 0 then (claimed ch_id up st, record st { downlink = ch_id }) else (
      record no_selection { chosen = st.downlink; target = st.target; up = up; typ = st.req_type },
      st,
    )

abbrev pub unpaired : ℕ → ConnState → Selection × ConnState
unpaired ch_id st =
    let up = positive st.uplink in
    let yields = is_prebind st.target && (ltb 0 st.uplink && ch_id == st.uplink) in
    if not (ltb 0 st.downlink) && yields
    then (record no_selection { target = st.target; up = up; typ = st.req_type }, st)
    else claim_downlink ch_id up st

-- `uplink <= 0 && st.uplink > 0` takes the connection's.
abbrev pub pair_up : PairRef → ConnState → Option ℕ
pair_up pair st = some (if pair.uplink_ch_id == 0 then st.uplink else pair.uplink_ch_id)

abbrev pub over_pair : ℕ → ConnState → Option PairRef → Selection × ConnState
over_pair ch_id st none = unpaired ch_id st
over_pair ch_id st (some pair) =
    if ltb 0 pair.downlink_ch_id
    then claim_downlink pair.downlink_ch_id (pair_up pair st) st
    else unpaired ch_id st

unfoldable pub select_entry : ℕ → ConnState → Selection × ConnState
select_entry ch_id st =
    if is_empty st.target then (no_selection, st) else over_pair ch_id st st.pair

abbrev pub with_entry : Selection × ConnState → Selection × Option ConnState
with_entry (s, st) = (s, some st)

unfoldable pub select_downlink : ℕ → Option ConnState → Selection × Option ConnState
select_downlink ch_id none = (no_selection, none)
select_downlink ch_id (some st) = with_entry (select_entry ch_id st)
