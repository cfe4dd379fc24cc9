-- ===== src/Relay/Loads.antt =====
-- relay.go: loadCounts, the connections that are open to each node, with Acquire and Release. An int32
-- is its residue modulo 2^32: from 2^31 it is negative.
use xtunnel.Base.{
  ℕ, ◌+◌, ◌-◌, ◌%◌, ◌^◌, ◌<◌, ◌≡◌, refl, ◌&&◌, Option, none, some, List, [], ◌∷◌, ltb, ◌==◌,
  if◌then◌else◌, length, Bytes, bytes_eq, bytes_eq_iff, arith, ◌↔◌,
}
use xtunnel.Base.Dict.{text_eq, get, put, delete, get-put, get-delete}

abbrev pub Loads : Type 0
Loads = List (Bytes × ℕ)

abbrev count_of : Option ℕ → ℕ
count_of none = 0
count_of (some count) = count

unfoldable pub acquired_count : Bytes → Loads → ℕ
acquired_count ip loads = count_of (get ip loads)

unfoldable pub acquire : Bytes → Loads → Loads
acquire ip loads = put ip ((acquired_count ip loads + 1) % 2 ^ 32) loads

unfoldable pub release : Bytes → Loads → Loads
release ip loads =
    let count = acquired_count ip loads in
    if ltb 1 count && ltb count (2 ^ 31) then put ip (count - 1) loads else delete ip loads

pub data Op : Type 0 where
  acquired : Bytes → Op
  released : Bytes → Op

unfoldable pub run : List Op → Loads → Loads
run [] loads = loads
run (acquired ip ∷ ops) loads = run ops (acquire ip loads)
run (released ip ∷ ops) loads = run ops (release ip loads)

-- The abstract table: a number for each address, where a release stops at zero.
abbrev pub change : Bytes → (ℕ → ℕ) → (Bytes → ℕ) → Bytes → ℕ
change ip f table a = if bytes_eq ip a then f (table a) else table a

unfoldable pub replay : List Op → (Bytes → ℕ) → Bytes → ℕ
replay [] table = table
replay (acquired ip ∷ ops) table = replay ops (change ip (◌+◌ 1) table)
replay (released ip ∷ ops) table = replay ops (change ip (λ count. count - 1) table)

abbrev pub stored : ℕ → Option ℕ
stored count = if count == 0 then none else some count

-- The map holds the positive numbers of the table.
abbrev pub Shows : Loads → (Bytes → ℕ) → Type 0
Shows loads table = (a : Bytes) → get a loads ≡ stored (table a)

count-stored : (count : ℕ) → count_of (stored count) ≡ count
count-stored count = ground arith

wraps : (count : ℕ) → count + 1 < 2 ^ 31 → (count + 1) % 2 ^ 32 ≡ count + 1
wraps count h = omega arith

pub acquired_count-Shows :
    (ip : Bytes) (loads : Loads) (table : Bytes → ℕ)
    → Shows loads table
    → acquired_count ip loads ≡ table ip
unfolding acquired_count
acquired_count-Shows ip loads table h = rw (h ip) (count-stored (table ip))

pub acquire-Shows :
    (ip : Bytes) (loads : Loads) (table : Bytes → ℕ)
    → table ip + 1 < 2 ^ 31
    → Shows loads table
    → Shows (acquire ip loads) (change ip (◌+◌ 1) table)
unfolding acquire
acquire-Shows ip loads table small h a =
    rw (acquired_count-Shows ip loads table h, wraps (table ip) small)
      (ground (arith, get-put ip a (table ip + 1) loads, h a, bytes_eq_iff ip a))

pub release-Shows :
    (ip : Bytes) (loads : Loads) (table : Bytes → ℕ)
    → table ip < 2 ^ 31
    → Shows loads table
    → Shows (release ip loads) (change ip (λ count. count - 1) table)
unfolding release
release-Shows ip loads table small h a = rw (acquired_count-Shows ip loads table h) (
    ground
      (arith, get-put ip a (table ip - 1) loads, get-delete ip a loads, h a, bytes_eq_iff ip a))

run-Shows :
    (ops : List Op) (loads : Loads) (table : Bytes → ℕ)
    → ((a : Bytes) → table a + length ops < 2 ^ 31)
    → Shows loads table
    → Shows (run ops loads) (replay ops table)
unfolding run replay
run-Shows [] loads table small h = h
run-Shows (acquired ip ∷ ops) loads table small h =
    run-Shows ops (acquire ip loads) (change ip (◌+◌ 1) table) (λ a. ground (arith, small a))
      (acquire-Shows ip loads table (ground (arith, small ip)) h)
run-Shows (released ip ∷ ops) loads table small h =
    run-Shows ops (release ip loads) (change ip (λ count. count - 1) table)
      (λ a. ground (arith, small a)) (release-Shows ip loads table (ground (arith, small ip)) h)

-- After fewer than 2^31 calls of Acquire and Release from the empty map, AcquiredCount is for each
-- address the number that the calls on it leave, where a Release at zero does nothing, and the map
-- has an entry for an address exactly when that number is not zero.
pub run-replay :
    (ops : List Op) (ip : Bytes)
    → length ops < 2 ^ 31
    → let count = replay ops (λ a. 0) ip in
      (acquired_count ip (run ops []) ≡ count) × (get ip (run ops []) ≡ none ↔ count ≡ 0)
unfolding get
run-replay ops ip small =
    (acquired_count-Shows ip (run ops []) (replay ops (λ a. 0)) shown, ground (arith, shown ip))
  where
    shown : Shows (run ops []) (replay ops (λ a. 0))
    shown = run-Shows ops [] (λ a. 0) (λ a. omega arith) (λ a. refl)
