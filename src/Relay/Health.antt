-- ===== src/Relay/Health.antt =====
-- relay.go: the health score of all nodes, and which nodes count as healthy.
use xtunnel.Base.{
  zero, suc, ◌≢◌, sym, ap, ◌∙◌, subst, ==_refl, ==_iff, Bool, ℕ, ◌+◌, ◌-◌, ◌*◌, ◌/◌, ◌≤◌, ◌<◌, ◌≡◌,
  refl, true, false, Option, none, some, List, [], ◌∷◌, ◌++◌, ltb, leb, min, if◌then◌else◌, length,
  any, All, ◌⊎◌, Bytes, bytes_eq, ◌==◌, arith, Bool-cases, inl, inr, ◌↔◌,
}
use native.Mathlib.Nat.{mul-le-mul, le-div_iff_mul-le, div-lt_iff_lt-mul}
use xtunnel.Relay.Nodes.{
  RelayNode, second, base_score, decay_factor, calculate_score, is_healthy, get_healthy_relay_ips,
  tested_node, timed_node, rated_node, update_at, rescored, succeeded_node, new_node, add_node,
  tested_nodes, add_node_and_test, is_known, add_resolved_nodes, add_found, refresh_from,
  refresh_hostname_nodes, update_node, failed_node, mark_node_failed, mark_node_success,
}

abbrev pub clamp_health : ℕ → ℕ
clamp_health score = min score 100

unfoldable pub failures : List RelayNode → ℕ
failures [] = 0
failures (n ∷ nodes) = (if ltb 0 n.fail_count then 1 else 0) + failures nodes

-- SetHealthScore's lower bound needs no test: the score is not negative.
unfoldable pub update_health_score : List RelayNode → ℕ
update_health_score nodes =
    if length nodes == 0 then 50 else clamp_health (100 - failures nodes * 100 / length nodes)

unfoldable pub current_test_interval : ℕ → ℕ
current_test_interval score =
    if ltb score 30 then 15 * second else if leb 70 score then 60 * second else 30 * second

base_le : (node : RelayNode) → (base_score node).num ≤ (base_score node).den
unfolding base_score
base_le node = ground arith

decay_le : (now : ℕ) (node : RelayNode) → (decay_factor now node).num ≤ (decay_factor now node).den
unfolding decay_factor
decay_le now node = ground arith

pub calculate_score_le :
    (now : ℕ) (node : RelayNode) → (calculate_score now node).num ≤ (calculate_score now node).den
unfolding calculate_score
calculate_score_le now node = mul-le-mul (base_le node) (decay_le now node)

-- `testing i`: the probes of the node at place i that have written its success rate and not yet its
-- score.
pub record Tests : Type 0 where
  pub nodes : List RelayNode
  pub testing : ℕ → ℕ

abbrev pub no_tests : Tests
no_tests = record { nodes = []; testing = λ i. 0 }

abbrev pub more : ℕ → (ℕ → ℕ) → ℕ → ℕ
more i t j = if j == i then suc (t j) else t j

abbrev pub fewer : ℕ → (ℕ → ℕ) → ℕ → ℕ
fewer i t j = if j == i then t j - 1 else t j

-- Adding, testing and marking, in any order; the probes of testAllNodes in their sections. The
-- addresses, the outcomes and the times are arbitrary.
pub data Step (s after : Tests) : Type 0 where
  added :
      (source : Bytes) (ips : List Bytes)
      → after ≡ record s { nodes = add_node source ips s.nodes }
      → Step s after
  added_and_tested :
      (now : ℕ) (probe : Bytes → Option ℕ) (source : Bytes) (ips : List Bytes)
      → after ≡ record s { nodes = (add_node_and_test now probe source ips s.nodes).1 }
      → Step s after
  refreshed :
      (resolve : Bytes → Option (List Bytes))
      → after ≡ record s { nodes = refresh_hostname_nodes resolve s.nodes }
      → Step s after
  timed :
      (i latency : ℕ)
      → after ≡ record s { nodes = update_at i (timed_node latency) s.nodes }
      → Step s after
  rated :
      (i : ℕ) (answers : Bool)
      → after
        ≡ record { nodes = update_at i (rated_node answers) s.nodes; testing = more i s.testing }
      → Step s after
  scored :
      (i now : ℕ)
      → 0 < s.testing i
      → after ≡ record { nodes = update_at i (rescored now) s.nodes; testing = fewer i s.testing }
      → Step s after
  failed :
      (now : ℕ) (ip : Bytes)
      → after ≡ record s { nodes = mark_node_failed now ip s.nodes }
      → Step s after
  succeeded :
      (now : ℕ) (ip : Bytes)
      → after ≡ record s { nodes = mark_node_success now ip s.nodes }
      → Step s after

pub data Reach : Tests → Type 0 where
  start : Reach no_tests
  next : {s after : Tests} → Reach s → Step s after → Reach after

-- A node that has been tested scores 1 at most; one that has not has no success yet.
abbrev IsLow : RelayNode → Type 0
IsLow n = (n.score.num ≤ n.score.den) ⊎ (n.success_rate ≡ false)

-- From place i on, each node is so, or a probe of it is between its sections.
abbrev AreLow : ℕ → (ℕ → ℕ) → List RelayNode → Type 0
AreLow i t [] = Unit {0}
AreLow i t (n ∷ nodes) = (IsLow n ⊎ (0 < t i)) × AreLow (suc i) t nodes

AreLow-append :
    (i : ℕ) (t : ℕ → ℕ) (nodes more_nodes : List RelayNode)
    → AreLow i t nodes
    → All IsLow more_nodes
    → AreLow i t (nodes ++ more_nodes)
AreLow-append i t [] [] low new = tt
AreLow-append i t [] (n ∷ ns) low new = (inl new.0, AreLow-append (suc i) t [] ns tt new.1)
AreLow-append i t (n ∷ nodes) ns low new = (low.0, AreLow-append (suc i) t nodes ns low.1 new)

rescored-IsLow : (now : ℕ) (n : RelayNode) → IsLow (rescored now n)
rescored-IsLow now n = inl (calculate_score_le now (record n { last_test = now }))

tested_node-IsLow : (now : ℕ) (o : Option ℕ) (n : RelayNode) → IsLow (tested_node now o n)
tested_node-IsLow now none n = rescored-IsLow now (rated_node false n)
tested_node-IsLow now (some latency) n = rescored-IsLow now (rated_node true (timed_node latency n))

add_node-AreLow :
    (t : ℕ → ℕ) (source : Bytes) (ips : List Bytes) (nodes : List RelayNode)
    → AreLow 0 t nodes
    → AreLow 0 t (add_node source ips nodes)
unfolding add_node
add_node-AreLow t source [] nodes low = low
add_node-AreLow t source (ip ∷ ips) nodes low =
    add_node-AreLow t source ips (nodes ++ (new_node source ip ∷ []))
      (AreLow-append 0 t nodes (new_node source ip ∷ []) low (inr refl, tt))

tested_nodes-IsLow :
    (now : ℕ) (probe : Bytes → Option ℕ) (source : Bytes) (ips : List Bytes)
    → All IsLow (tested_nodes now probe source ips)
unfolding tested_nodes
tested_nodes-IsLow now probe source [] = tt
tested_nodes-IsLow now probe source (ip ∷ ips) =
    (tested_node-IsLow now (probe ip) (new_node source ip), tested_nodes-IsLow now probe source ips)

add_resolved_nodes-AreLow :
    (t : ℕ → ℕ) (source : Bytes) (ips : List Bytes) (nodes : List RelayNode)
    → AreLow 0 t nodes
    → AreLow 0 t (add_resolved_nodes source ips nodes)
unfolding add_resolved_nodes
add_resolved_nodes-AreLow t source [] nodes low = low
add_resolved_nodes-AreLow t source (ip ∷ ips) nodes low = elim (Bool-cases (is_known ip nodes)) [
  | inl known ↦ rw (add_resolved_nodes, known) (add_resolved_nodes-AreLow t source ips nodes low)
  | inr fresh ↦
      rw (add_resolved_nodes, fresh)
        (add_resolved_nodes-AreLow t source ips (nodes ++ (new_node source ip ∷ []))
          (AreLow-append 0 t nodes (new_node source ip ∷ []) low (inr refl, tt)))
]

add_found-AreLow :
    (t : ℕ → ℕ) (source : Bytes) (o : Option (List Bytes)) (nodes : List RelayNode)
    → AreLow 0 t nodes
    → AreLow 0 t (add_found source o nodes)
add_found-AreLow t source none nodes low = low
add_found-AreLow t source (some ips) nodes low = add_resolved_nodes-AreLow t source ips nodes low

refresh_from-AreLow :
    (t : ℕ → ℕ) (resolve : Bytes → Option (List Bytes)) (seen : List Bytes)
    (snapshots nodes : List RelayNode)
    → AreLow 0 t nodes
    → AreLow 0 t (refresh_from resolve seen snapshots nodes)
unfolding refresh_from
refresh_from-AreLow t resolve seen [] nodes low = low
refresh_from-AreLow t resolve seen (s ∷ snapshots) nodes low =
    elim (Bool-cases (any (bytes_eq s.address) seen)) [
      | inl again ↦
          rw (refresh_from, again)
            (refresh_from-AreLow t resolve (s.address ∷ seen) snapshots nodes low)
      | inr first ↦
          rw (refresh_from, first)
            (refresh_from-AreLow t resolve (s.address ∷ seen) snapshots
              (add_found s.address (resolve s.address) nodes)
              (add_found-AreLow t s.address (resolve s.address) nodes low))
    ]

update_node-AreLow :
    (i : ℕ) (t : ℕ → ℕ) (ip : Bytes) (f : RelayNode → RelayNode) (nodes : List RelayNode)
    → ((n : RelayNode) → IsLow (f n))
    → AreLow i t nodes
    → AreLow i t (update_node ip f nodes)
unfolding update_node
update_node-AreLow i t ip f [] h low = tt
update_node-AreLow i t ip f (n ∷ nodes) h low = elim (Bool-cases (bytes_eq n.ip ip)) [
  | inl hit ↦ rw (update_node, hit) (inl (h n), low.1)
  | inr miss ↦ rw (update_node, miss) (low.0, update_node-AreLow (suc i) t ip f nodes h low.1)
]

-- From place i on, the nodes keep what they have where the probes become no fewer.
AreLow-more :
    (i : ℕ) (t u : ℕ → ℕ) (nodes : List RelayNode)
    → ((j : ℕ) → i ≤ j → t j ≤ u j)
    → AreLow i t nodes
    → AreLow i u nodes
AreLow-more i t u [] h low = tt
AreLow-more i t u (n ∷ nodes) h low = (
  elim low.0 [ inl fine ↦ inl fine | inr busy ↦ inr (omega (arith, h i (omega arith), busy)) ],
  AreLow-more (suc i) t u nodes (λ j le. h j (omega arith)) low.1,
)

-- A section that writes the node at place p, the k-th from place i on.
update_at-AreLow :
    (i k p : ℕ) (t u : ℕ → ℕ) (f : RelayNode → RelayNode) (nodes : List RelayNode)
    → p ≡ i + k
    → ((n : RelayNode) → IsLow n ⊎ (0 < t p) → IsLow (f n) ⊎ (0 < u p))
    → ((j : ℕ) → j ≢ p → t j ≤ u j)
    → AreLow i t nodes
    → AreLow i u (update_at k f nodes)
unfolding update_at
update_at-AreLow i k p t u f [] e h others low = tt
update_at-AreLow i zero p t u f (n ∷ nodes) e h others low =
    let here : p ≡ i = omega arith in
    (
      subst (λ x. IsLow (f n) ⊎ (0 < u x)) here
          (h n (subst (λ x. IsLow n ⊎ (0 < t x)) (sym here) low.0)),
      AreLow-more (suc i) t u nodes (λ j le. others j (λ same. omega arith)) low.1,
    )
update_at-AreLow i (suc k) p t u f (n ∷ nodes) e h others low =
    let before : t i ≤ u i = others i (λ same. omega arith) in
    (
      elim low.0 [ inl fine ↦ inl fine | inr busy ↦ inr (omega arith) ],
      update_at-AreLow (suc i) k p t u f nodes (omega arith) h others low.1,
    )

more_here : (i : ℕ) (t : ℕ → ℕ) → 0 < more i t i
more_here i t = rw (==_refl i) (omega arith)

more_other : (i : ℕ) (t : ℕ → ℕ) (j : ℕ) → j ≢ i → t j ≤ more i t j
more_other i t j other = ground arith

fewer_other : (i : ℕ) (t : ℕ → ℕ) (j : ℕ) → j ≢ i → t j ≤ fewer i t j
fewer_other i t j other = elim (Bool-cases (j == i)) [
  | inl same ↦ absurd (other ((==_iff j i).0 same))
  | inr differ ↦ rw differ (omega arith)
]

Reach-AreLow : {s : Tests} → Reach s → AreLow 0 s.testing s.nodes
unfolding refresh_hostname_nodes mark_node_failed mark_node_success add_node_and_test
Reach-AreLow start = tt
Reach-AreLow (next {s} r (added source ips e)) =
    rw e (add_node-AreLow s.testing source ips s.nodes (Reach-AreLow r))
Reach-AreLow (next {s} r (added_and_tested now probe source ips e)) = rw e (
    AreLow-append 0 s.testing s.nodes (tested_nodes now probe source ips) (Reach-AreLow r)
      (tested_nodes-IsLow now probe source ips))
Reach-AreLow (next {s} r (refreshed resolve e)) =
    rw e (refresh_from-AreLow s.testing resolve [] s.nodes s.nodes (Reach-AreLow r))
Reach-AreLow (next {s} r (timed i latency e)) = rw e (
    update_at-AreLow 0 i i s.testing s.testing (timed_node latency) s.nodes (omega arith)
      (λ n low. low) (λ j other. omega arith) (Reach-AreLow r))
Reach-AreLow (next {s} r (rated i answers e)) = rw e (
    update_at-AreLow 0 i i s.testing (more i s.testing) (rated_node answers) s.nodes (omega arith)
      (λ n low. inr (more_here i s.testing)) (more_other i s.testing) (Reach-AreLow r))
Reach-AreLow (next {s} r (scored i now busy e)) = rw e (
    update_at-AreLow 0 i i s.testing (fewer i s.testing) (rescored now) s.nodes (omega arith)
      (λ n low. inl (rescored-IsLow now n)) (fewer_other i s.testing) (Reach-AreLow r))
Reach-AreLow (next {s} r (failed now ip e)) =
    rw e
      (update_node-AreLow 0 s.testing ip (failed_node now) s.nodes (λ n. inr refl) (Reach-AreLow r))
Reach-AreLow (next {s} r (succeeded now ip e)) = rw e (
    update_node-AreLow 0 s.testing ip (succeeded_node now) s.nodes
      (λ n. rescored-IsLow now (record n { fail_count = 0; success_rate = true })) (Reach-AreLow r))

low_unhealthy : (n : RelayNode) → IsLow n → is_healthy n ≡ false
low_unhealthy n (inl low) = ground arith
low_unhealthy n (inr never) = ground arith

abbrev pub get_elem? : List RelayNode → ℕ → Option RelayNode
get_elem? [] i = none
get_elem? (n ∷ nodes) zero = some n
get_elem? (n ∷ nodes) (suc i) = get_elem? nodes i

healthy_from :
    (i k p : ℕ) (t : ℕ → ℕ) (nodes : List RelayNode) (n : RelayNode)
    → p ≡ i + k
    → AreLow i t nodes
    → get_elem? nodes k ≡ some n
    → is_healthy n ≡ true
    → 0 < t p
healthy_from i k p t [] n e low found well = absurd (cc found)
healthy_from i zero p t (m ∷ nodes) n e low found well = elim low.0 [
  | inl fine ↦
      let same : m ≡ n = ground (arith, found) in
      absurd (cc (sym well ∙ ap is_healthy (sym same) ∙ low_unhealthy m fine))
  | inr busy ↦ subst (λ x. 0 < t x) (omega (arith, e)) busy
]
healthy_from i (suc k) p t (m ∷ nodes) n e low found well =
    healthy_from (suc i) k p t nodes n (omega arith) low.1 found well

-- However nodes are added, tested and marked, a node counts as healthy for GetHealthyRelayIPs only
-- while a probe of it has written its success rate and not yet its score: a score that
-- CalculateScore gives is 1 at most, and the threshold is 30.
pub Reach-unhealthy :
    {s : Tests} (i : ℕ) (n : RelayNode)
    → Reach s
    → get_elem? s.nodes i ≡ some n
    → is_healthy n ≡ true
    → 0 < s.testing i
Reach-unhealthy {s} i n r found well =
    healthy_from 0 i i s.testing s.nodes n (omega arith) (Reach-AreLow r) found well

none_healthy :
    (i : ℕ) (t : ℕ → ℕ) (nodes : List RelayNode)
    → ((j : ℕ) → t j ≡ 0)
    → AreLow i t nodes
    → get_healthy_relay_ips nodes ≡ []
unfolding get_healthy_relay_ips
none_healthy i t [] quiet low = refl
none_healthy i t (n ∷ nodes) quiet low =
    let fine : IsLow n = elim low.0 [
      | inl h ↦ h
      | inr busy ↦ absurd (omega (arith, quiet i, busy))
    ] in
    rw (get_healthy_relay_ips, low_unhealthy n fine) (none_healthy (suc i) t nodes quiet low.1)

-- So it finds none when no probe is under way.
pub Reach-none_healthy :
    {s : Tests} → Reach s → ((j : ℕ) → s.testing j ≡ 0) → get_healthy_relay_ips s.nodes ≡ []
Reach-none_healthy {s} r quiet = none_healthy 0 s.testing s.nodes quiet (Reach-AreLow r)

-- The interval between the tests that UpdateHealthScore's result sets is 15 seconds exactly when the
-- nodes that failed last are 71 % of all at least, 60 seconds exactly when they are below 31 %, and
-- the score is 100 at most.
pub update_health_score_bounds :
    (n : RelayNode) (nodes : List RelayNode)
    → let all = n ∷ nodes in
      (update_health_score all ≤ 100)
      × (current_test_interval (update_health_score all) ≡ 15 * second
          ↔ 71 * length all ≤ failures all * 100)
      × (current_test_interval (update_health_score all) ≡ 60 * second
          ↔ failures all * 100 < 31 * length all)
unfolding update_health_score current_test_interval
update_health_score_bounds n nodes = ground (
  arith,
  le-div_iff_mul-le {k = length (n ∷ nodes)} {x = 71} {y = failures (n ∷ nodes) * 100}
      (omega arith),
  div-lt_iff_lt-mul {k = length (n ∷ nodes)} {x = failures (n ∷ nodes) * 100} {y = 31}
      (omega arith),
)
