-- ===== src/PairWarmer/Store.antt =====
-- pair_warmer.go: HotChannelPair, the store of pairs and the fields of PairWarmer.
use xtunnel.Base.{ℕ, zero, suc, Bool, true, false, Option, List, ◌==◌, if◌then◌else◌, Bytes}

pub data State : Type 0 where
  ready draining closed : State

abbrev pub is_ready : State → Bool
is_ready ready = true
is_ready _ = false

abbrev pub is_draining : State → Bool
is_draining draining = true
is_draining _ = false

abbrev pub is_closed : State → Bool
is_closed closed = true
is_closed _ = false

-- An int32 count of users, which a release without an acquire takes below 0. It does not wrap here:
-- that takes 2^31 users.
pub data Refs : Type 0 where
  pos : ℕ → Refs
  negsuc : ℕ → Refs

abbrev pub inc : Refs → Refs
inc (pos n) = pos (suc n)
inc (negsuc zero) = pos zero
inc (negsuc (suc n)) = negsuc n

abbrev pub dec : Refs → Refs
dec (pos zero) = negsuc zero
dec (pos (suc n)) = pos n
dec (negsuc n) = negsuc (suc n)

-- `refs <= 0`
abbrev pub is_idle : Refs → Bool
is_idle (pos zero) = true
is_idle (pos (suc n)) = false
is_idle (negsuc n) = true

-- The slot that a pair's ID names: "", "01" to "08", or "ff".
pub data Slot : Type 0 where
  unassigned : Slot
  numbered : ℕ → Slot
  beyond : Slot

pub record Pair : Type 0 where
  pub slot : Slot
  pub prebind_id : Bytes
  pub uplink : ℕ
  pub downlink : ℕ
  pub state : State
  pub refs : Refs

abbrev pub Heap : Type 0
Heap = ℕ → Pair

abbrev pub write : ℕ → Pair → Heap → Heap
write a p h b = if b == a then p else h b

abbrev pub with_state : ℕ → State → Heap → Heap
with_state a s h = write a (record (h a) { state = s }) h

abbrev pub with_refs : ℕ → Refs → Heap → Heap
with_refs a r h = write a (record (h a) { refs = r }) h

pub record Warmer : Type 0 where
  pub heap : Heap
  pub pairs : List ℕ
  pub primary : Option ℕ
  pub pair_count : ℕ
