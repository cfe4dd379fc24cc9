-- ===== src/Relay/Select.antt =====
-- relay.go: the choice of a node for a new connection. The lock, the copies that snapshotNode makes
-- and the logging have no part in it; rng.Float64 is an argument, and sort.Slice a parameter.
pub mod Choice
pub mod Order
use mathlib.Core.List.{Memᴰ}
use xtunnel.Base.{
  ℕ, zero, suc, ◌+◌, ◌-◌, ◌*◌, ◌^◌, ◌≤◌, ◌<◌, ◌≡◌, refl, sym, ap, ◌∙◌, Bool, true, false, not, ◌&&◌,
  ◌||◌, Option, none, some, List, [], ◌∷◌, ltb, leb, ◌==◌, if◌then◌else◌, length, any, keep, take,
  min, All, Bytes, bytes_eq, arith, ◌↔◌, ◌⊎◌, inl, inr, Bool-cases, Option-cases,
}
use xtunnel.Relay.Fraction.{Frac, whole, add_frac, mul_frac, sub_frac, lt_frac}
use xtunnel.Relay.Nodes.{RelayNode, second, refresh_hostname_nodes}
use xtunnel.Relay.Loads.{Loads, acquired_count}

abbrev pub is_excluded : List Bytes → RelayNode → Bool
is_excluded excluded n = any (bytes_eq n.ip) excluded

-- The loop's three tests: a node is passed over when it is excluded, when it failed three times
-- and last within 30 seconds, and when its success rate is zero.
unfoldable pub is_candidate : ℕ → List Bytes → RelayNode → Bool
is_candidate now excluded n =
    if is_excluded excluded n
    then false
    else if leb 3 n.fail_count && ltb (now - n.fail_time) (30 * second)
    then false
    else n.success_rate

abbrev pub select_healthy : ℕ → List Bytes → List RelayNode → List RelayNode
select_healthy now excluded nodes = keep (is_candidate now excluded) nodes

-- 1 - load / 16 * 0.5, and 0.1 at least; an int32 is negative from 2^31.
abbrev pub load_ratio : ℕ → Frac
load_ratio load =
    if ltb load (2 ^ 31)
    then record { num = 32 - load; den = 32 }
    else record { num = 32 + (2 ^ 32 - load); den = 32 }

abbrev pub tenth : Frac
tenth = record { num = 1; den = 10 }

unfoldable pub load_factor : ℕ → Frac
load_factor load = if lt_frac (load_ratio load) tenth then tenth else load_ratio load

unfoldable pub candidate_weight : Loads → RelayNode → Frac
candidate_weight loads c = mul_frac c.score (load_factor (acquired_count c.ip loads))

unfoldable pub total_weight : Loads → Frac → List RelayNode → Frac
total_weight loads total [] = total
total_weight loads total (c ∷ cs) =
    total_weight loads (add_frac total (candidate_weight loads c)) cs

-- The loop over the weights: `pick -= w` and `pick < 0`, in one test. Behind the last weight it is
-- the last candidate.
unfoldable pub pick_weighted : Loads → Frac → RelayNode → List RelayNode → RelayNode
pick_weighted loads pick c [] = c
pick_weighted loads pick c (d ∷ cs) =
    let w = candidate_weight loads c in
    let rest = pick_weighted loads (sub_frac pick w) d cs in if lt_frac pick w then c else rest

unfoldable pub select_weighted : Loads → Frac → RelayNode → List RelayNode → RelayNode
select_weighted loads draw c cs =
    pick_weighted loads (mul_frac draw (total_weight loads (whole 0) (c ∷ cs))) c cs

-- The order of the fallback: fewer failures first, then the higher score.
abbrev pub before : RelayNode → RelayNode → Bool
before a b =
    if not (a.fail_count == b.fail_count)
    then ltb a.fail_count b.fail_count
    else lt_frac b.score a.score

abbrev pub higher : RelayNode → RelayNode → Bool
higher a b = lt_frac b.score a.score

abbrev pub first_of : List RelayNode → Option RelayNode
first_of [] = none
first_of (n ∷ nodes) = some n

-- sort.Slice by a test: it keeps the members, and no member behind the first comes before it.
pub record Sort (less : RelayNode → RelayNode → Bool) : Type 0 where
  pub sort : List RelayNode → List RelayNode
  pub sort-Mem : (n : RelayNode) (nodes : List RelayNode) → Memᴰ n (sort nodes) ↔ Memᴰ n nodes
  pub sort-first :
      (n : RelayNode) (nodes rest : List RelayNode)
      → sort nodes ≡ n ∷ rest
      → All (λ k. less k n ≡ false) nodes

abbrev pub fallback : Sort before → List Bytes → List RelayNode → Option RelayNode
fallback s excluded nodes = first_of (s.sort (keep (λ n. not (is_excluded excluded n)) nodes))

abbrev pub retried :
    Sort before → Frac → List Bytes → Loads → List RelayNode → List RelayNode → Option RelayNode
retried s draw excluded loads nodes [] = fallback s excluded nodes
retried s draw excluded loads nodes (c ∷ cs) = some (select_weighted loads draw c cs)

abbrev pub selected :
    Sort before
    → (Bytes → Option (List Bytes))
    → Frac
    → ℕ
    → List Bytes
    → Loads
    → List RelayNode
    → List RelayNode
    → Option RelayNode × List RelayNode
selected s resolve draw later excluded loads nodes [] =
    let fresh = refresh_hostname_nodes resolve nodes in
    (retried s draw excluded loads fresh (select_healthy later excluded fresh), fresh)
selected s resolve draw later excluded loads nodes (c ∷ cs) =
    (some (select_weighted loads draw c cs), nodes)

-- SelectNodeExcluding, and the nodes behind it. `now` and `later` are the times at which the two
-- calls of selectHealthy look at the clock.
unfoldable pub select_node_excluding :
    Sort before
    → (Bytes → Option (List Bytes))
    → Frac
    → ℕ
    → ℕ
    → List Bytes
    → Loads
    → List RelayNode
    → Option RelayNode × List RelayNode
select_node_excluding s resolve draw now later excluded loads nodes =
    selected s resolve draw later excluded loads nodes (select_healthy now excluded nodes)

-- n is not negative.
unfoldable pub select_best_nodes : Sort higher → ℕ → List RelayNode → List RelayNode
select_best_nodes s n nodes = take (min n (length nodes)) (s.sort nodes)

unfoldable pub select_best_node : Sort higher → List RelayNode → Option RelayNode
select_best_node s nodes = first_of (s.sort nodes)

unfoldable pub get_node_by_ip : Bytes → List RelayNode → Option RelayNode
get_node_by_ip ip [] = none
get_node_by_ip ip (n ∷ nodes) =
    let rest = get_node_by_ip ip nodes in if bytes_eq n.ip ip then some n else rest
