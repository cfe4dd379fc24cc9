-- ===== src/Relay/Nodes.antt =====
-- relay.go: RelayNode, the list of nodes and what changes it. `Weight` is written and never read, so
-- it is left out; SuccessRate is 0 or 1 wherever it is written, here a Boolean.
use xtunnel.Base.{
  zero, suc, ℕ, ◌+◌, ◌-◌, ◌*◌, Bool, true, false, ◌&&◌, Option, none, some, List, [], ◌∷◌, ◌++◌,
  ltb, min, if◌then◌else◌, any, Bytes, bytes_eq,
}
use xtunnel.Relay.Fraction.{Frac, whole, mul_frac, lt_frac}

pub record RelayNode : Type 0 where
  pub address : Bytes
  pub ip : Bytes
  pub score : Frac
  pub last_test : ℕ
  pub latency : ℕ
  pub success_rate : Bool
  pub fail_count : ℕ
  pub fail_time : ℕ

-- Times are in nanoseconds.
abbrev pub second : ℕ
second = 1000000000

abbrev pub max_latency : ℕ
max_latency = 5 * second

abbrev pub hour : ℕ
hour = 3600 * second

abbrev pub new_node : Bytes → Bytes → RelayNode
new_node source resolved = record {
  address = source;
  ip = resolved;
  score = whole 50;
  last_test = 0;
  latency = 0;
  success_rate = false;
  fail_count = 0;
  fail_time = 0;
}

-- (1 - latency / max) * 0.7 + rate * 0.3, with the latency cut at the maximum.
unfoldable pub base_score : RelayNode → Frac
base_score node = record {
  num =
      7 * (max_latency - min node.latency max_latency)
      + (if node.success_rate then 3 * max_latency else 0);
  den = 10 * max_latency;
}

-- 1 / (1 + hours * 0.1) after the first hour.
unfoldable pub decay_factor : ℕ → RelayNode → Frac
decay_factor now node =
    let age = now - node.last_test in
    if ltb hour age then record { num = 10 * hour; den = 10 * hour + age } else whole 1

unfoldable pub calculate_score : ℕ → RelayNode → Frac
calculate_score now node = mul_frac (base_score node) (decay_factor now node)

abbrev pub is_known : Bytes → List RelayNode → Bool
is_known ip nodes = any (λ (n : RelayNode). bytes_eq n.ip ip) nodes

-- The addresses are those that formatIPPort makes of the host's addresses.
unfoldable pub add_resolved_nodes : Bytes → List Bytes → List RelayNode → List RelayNode
add_resolved_nodes source [] nodes = nodes
add_resolved_nodes source (ip ∷ ips) nodes =
    add_resolved_nodes source ips
      (if is_known ip nodes then nodes else nodes ++ (new_node source ip ∷ []))

-- The node that GetNodeByIP finds is written; a missing one is left out.
unfoldable pub update_node : Bytes → (RelayNode → RelayNode) → List RelayNode → List RelayNode
update_node ip f [] = []
update_node ip f (n ∷ nodes) =
    let rest = update_node ip f nodes in if bytes_eq n.ip ip then f n ∷ nodes else n ∷ rest

abbrev pub failed_node : ℕ → RelayNode → RelayNode
failed_node now n = record n {
  fail_count = n.fail_count + 1;
  fail_time = now;
  success_rate = false;
  score = whole 0;
}

unfoldable pub mark_node_failed : ℕ → Bytes → List RelayNode → List RelayNode
mark_node_failed now ip nodes = update_node ip (failed_node now) nodes

-- `Score = CalculateScore()` behind `LastTest = time.Now()`.
abbrev pub rescored : ℕ → RelayNode → RelayNode
rescored now n = let m = record n { last_test = now } in record m { score = calculate_score now m }

abbrev pub succeeded_node : ℕ → RelayNode → RelayNode
succeeded_node now n = rescored now (record n { fail_count = 0; success_rate = true })

unfoldable pub mark_node_success : ℕ → Bytes → List RelayNode → List RelayNode
mark_node_success now ip nodes = update_node ip (succeeded_node now) nodes

-- The sections of a probe of testAllNodes, each under the node's lock: what TestNodeSpeed writes
-- where it connects, what is written of the outcome, and then `rescored`.
abbrev pub timed_node : ℕ → RelayNode → RelayNode
timed_node latency n = record n { latency = latency }

abbrev pub rated_node : Bool → RelayNode → RelayNode
rated_node false n = record n { latency = 9999 * second; success_rate = false }
rated_node true n = record n { success_rate = true }

-- The node at a place of the list.
unfoldable pub update_at : ℕ → (RelayNode → RelayNode) → List RelayNode → List RelayNode
update_at i f [] = []
update_at zero f (n ∷ nodes) = f n ∷ nodes
update_at (suc i) f (n ∷ nodes) = n ∷ update_at i f nodes

-- All sections of a probe, for a node that no other goroutine has yet: the outcome is the latency, or a
-- failure.
abbrev pub tested_node : ℕ → Option ℕ → RelayNode → RelayNode
tested_node now none n = rescored now (rated_node false n)
tested_node now (some latency) n = rescored now (rated_node true (timed_node latency n))

abbrev pub add_found : Bytes → Option (List Bytes) → List RelayNode → List RelayNode
add_found source none nodes = nodes
add_found source (some ips) nodes = add_resolved_nodes source ips nodes

-- AddNode behind the lookup: all addresses are added, known or not.
unfoldable pub add_node : Bytes → List Bytes → List RelayNode → List RelayNode
add_node source [] nodes = nodes
add_node source (ip ∷ ips) nodes = add_node source ips (nodes ++ (new_node source ip ∷ []))

-- The nodes that AddNodeAndTest adds, probed first, and the addresses of those that answered.
unfoldable pub tested_nodes : ℕ → (Bytes → Option ℕ) → Bytes → List Bytes → List RelayNode
tested_nodes now probe source [] = []
tested_nodes now probe source (ip ∷ ips) =
    tested_node now (probe ip) (new_node source ip) ∷ tested_nodes now probe source ips

unfoldable pub added_ips : (Bytes → Option ℕ) → List Bytes → List Bytes
added_ips probe [] = []
added_ips probe (ip ∷ ips) =
    let rest = added_ips probe ips in elim (probe ip) [ none ↦ rest | some latency ↦ ip ∷ rest ]

unfoldable pub add_node_and_test :
    ℕ → (Bytes → Option ℕ) → Bytes → List Bytes → List RelayNode → List Bytes × List RelayNode
add_node_and_test now probe source ips nodes =
    (added_ips probe ips, nodes ++ tested_nodes now probe source ips)

-- refreshHostnameNodes over the sources of a snapshot. `resolve` stands for splitAddress, ParseIP,
-- the lookup and formatIPPort: none where the host is an address or the lookup fails.
unfoldable pub refresh_from :
    (Bytes → Option (List Bytes)) → List Bytes → List RelayNode → List RelayNode → List RelayNode
refresh_from resolve seen [] nodes = nodes
refresh_from resolve seen (s ∷ snapshots) nodes =
    let fresh = add_found s.address (resolve s.address) nodes in
    refresh_from resolve (s.address ∷ seen) snapshots
      (if any (bytes_eq s.address) seen then nodes else fresh)

unfoldable pub refresh_hostname_nodes :
    (Bytes → Option (List Bytes)) → List RelayNode → List RelayNode
refresh_hostname_nodes resolve nodes = refresh_from resolve [] nodes nodes

abbrev pub is_healthy : RelayNode → Bool
is_healthy n = lt_frac (whole 30) n.score && n.success_rate

unfoldable pub get_healthy_relay_ips : List RelayNode → List Bytes
get_healthy_relay_ips [] = []
get_healthy_relay_ips (n ∷ nodes) =
    let rest = get_healthy_relay_ips nodes in if is_healthy n then n.ip ∷ rest else rest
