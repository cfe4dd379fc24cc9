-- ===== src/ClientPool/Dial/Load.antt =====
-- pool.go: the channels of a client together, and the load that they report to the relay manager.
use xtunnel.Base.{
  ℕ, ◌+◌, ◌-◌, ◌≤◌, ◌<◌, ◌^◌, ◌≡◌, refl, sym, ◌∙◌, Bool, true, false, ◌&&◌, List, [], ◌∷◌, ◌++◌,
  if◌then◌else◌, length, Bytes, bytes_eq, bytes_eq_refl, arith, inl, inr, Bool-cases, length-append,
}
use xtunnel.Relay.Nodes.{RelayNode}
use xtunnel.Base.Dict.{get}
use xtunnel.Relay.Loads.{
  Loads, Shows, change, acquire, release, acquire-Shows, release-Shows, acquired_count,
  acquired_count-Shows,
}
use xtunnel.ClientPool.Dial.{
  DialConfig, Dial, Surroundings, new_dial, start_attempt, failed_round, dial_failed,
  dial_succeeded, channel_lost, check_retries, succeeded_nodes, acquired_loads, released_loads,
  uses_relay,
}

-- The loops of all channels, and the state of the manager that they share.
pub record Channels : Type 0 where
  pub dials : List Dial
  pub nodes : List RelayNode
  pub loads : Loads

abbrev pub IsAt : List Dial → Dial → List Dial → List Dial → Type 0
IsAt before d after dials = dials ≡ before ++ (d ∷ after)

-- One loop goes a part of a round: it dials in vain, it connects, or it loses its channel. What else
-- happens to the nodes between the parts, tests and refreshes, is any change of them.
pub data Step (cfg : DialConfig) (c after : Channels) : Type 0 where
  failed :
      (s : Surroundings) (left right : List Dial) (d : Dial)
      → d.serving ≡ false
      → c.dials ≡ left ++ (d ∷ right)
      → after ≡ (
          let f = failed_round cfg s c.loads d c.nodes in
          record { dials = left ++ (f.0.0 ∷ right); nodes = f.1; loads = c.loads })
      → Step cfg c after
  connected :
      (s : Surroundings) (left right : List Dial) (d : Dial)
      → d.serving ≡ false
      → c.dials ≡ left ++ (d ∷ right)
      → after ≡ (
          let a = start_attempt cfg s c.loads d c.nodes in
          record {
            dials = left ++ (dial_succeeded a.0 ∷ right);
            nodes = succeeded_nodes cfg s.now a.0.ip a.1;
            loads = acquired_loads cfg a.0.ip c.loads;
          })
      → Step cfg c after
  lost :
      (left right : List Dial) (d : Dial)
      → d.serving ≡ true
      → c.dials ≡ left ++ (d ∷ right)
      → after ≡ record {
        dials = left ++ (channel_lost d ∷ right);
        nodes = c.nodes;
        loads = released_loads cfg d.ip c.loads;
      }
      → Step cfg c after
  nodes_changed : (nodes : List RelayNode) → after ≡ record c { nodes = nodes } → Step cfg c after

abbrev pub new_dials : List Bytes → List Dial
new_dials [] = []
new_dials (ip ∷ ips) = new_dial ip ∷ new_dials ips

pub data Reach (cfg : DialConfig) (ips : List Bytes) : Channels → Type 0 where
  start :
      (nodes : List RelayNode)
      → Reach cfg ips (record { dials = new_dials ips; nodes = nodes; loads = [] })
  next : {c after : Channels} → Reach cfg ips c → Step cfg c after → Reach cfg ips after

abbrev uses : DialConfig → Bytes → Dial → Bool
uses cfg a d = d.serving && (uses_relay cfg d.ip && bytes_eq d.ip a)

-- The channels that are connected through an address.
unfoldable pub serving_on : DialConfig → Bytes → List Dial → ℕ
serving_on cfg a [] = 0
serving_on cfg a (d ∷ dials) = (if uses cfg a d then 1 else 0) + serving_on cfg a dials

serving_on-append :
    (cfg : DialConfig) (a : Bytes) (left right : List Dial)
    → serving_on cfg a (left ++ right) ≡ serving_on cfg a left + serving_on cfg a right
unfolding serving_on
serving_on-append cfg a [] right = omega arith
serving_on-append cfg a (d ∷ left) right = ground (arith, serving_on-append cfg a left right)

serving_on-le :
    (cfg : DialConfig) (a : Bytes) (dials : List Dial) → serving_on cfg a dials ≤ length dials
unfolding serving_on
serving_on-le cfg a [] = omega arith
serving_on-le cfg a (d ∷ dials) = ground (arith, serving_on-le cfg a dials)

Shows-≡ :
    (loads : Loads) (s t : Bytes → ℕ) → ((a : Bytes) → s a ≡ t a) → Shows loads s → Shows loads t
Shows-≡ loads s t e h a = rw (← (e a)) (h a)

-- One loop of the list changes, and the number of its channel's connections with it.
serving_on-change :
    (cfg : DialConfig) (a : Bytes) (left right : List Dial) (c d : Dial)
    → serving_on cfg a (left ++ (d ∷ right)) + (if uses cfg a c then 1 else 0)
      ≡ serving_on cfg a (left ++ (c ∷ right)) + (if uses cfg a d then 1 else 0)
unfolding serving_on
serving_on-change cfg a left right c d =
    ground
      (arith, serving_on-append cfg a left (c ∷ right), serving_on-append cfg a left (d ∷ right))

-- A loop that does not serve counts for nothing.
serving_on-idle :
    (cfg : DialConfig) (a : Bytes) (left right : List Dial) (c d : Dial)
    → c.serving ≡ false
    → d.serving ≡ false
    → serving_on cfg a (left ++ (d ∷ right)) ≡ serving_on cfg a (left ++ (c ∷ right))
serving_on-idle cfg a left right c d hc hd = ground (arith, serving_on-change cfg a left right c d)

acquired-Shows :
    (cfg : DialConfig) (left right : List Dial) (c d : Dial) (loads : Loads)
    → c.serving ≡ false
    → d.serving ≡ true
    → length (left ++ (c ∷ right)) < 2 ^ 31
    → Shows loads (λ a. serving_on cfg a (left ++ (c ∷ right)))
    → Shows (acquired_loads cfg d.ip loads) (λ a. serving_on cfg a (left ++ (d ∷ right)))
acquired-Shows cfg left right c d loads hc hd small h = elim (Bool-cases (uses_relay cfg d.ip)) [
  | inl relayed ↦ rw relayed (
      Shows-≡ (acquire d.ip loads)
        (change d.ip (◌+◌ 1) (λ a. serving_on cfg a (left ++ (c ∷ right))))
        (λ a. serving_on cfg a (left ++ (d ∷ right)))
        (λ a. ground (arith, serving_on-change cfg a left right c d))
        (acquire-Shows d.ip loads (λ a. serving_on cfg a (left ++ (c ∷ right))) (room (relayed)) h))
  | inr direct ↦ rw direct (
      Shows-≡ loads (λ a. serving_on cfg a (left ++ (c ∷ right)))
        (λ a. serving_on cfg a (left ++ (d ∷ right)))
        (λ a. ground (arith, serving_on-change cfg a left right c d)) h)
]
  where
    room : uses_relay cfg d.ip ≡ true → serving_on cfg d.ip (left ++ (c ∷ right)) + 1 < 2 ^ 31
    room relayed = ground (
      arith,
      serving_on-change cfg d.ip left right c d,
      serving_on-le cfg d.ip (left ++ (d ∷ right)),
      bytes_eq_refl d.ip,
      length-append left (c ∷ right),
      length-append left (d ∷ right),
    )

released-Shows :
    (cfg : DialConfig) (left right : List Dial) (c d : Dial) (loads : Loads)
    → c.serving ≡ true
    → d.serving ≡ false
    → length (left ++ (c ∷ right)) < 2 ^ 31
    → Shows loads (λ a. serving_on cfg a (left ++ (c ∷ right)))
    → Shows (released_loads cfg c.ip loads) (λ a. serving_on cfg a (left ++ (d ∷ right)))
released-Shows cfg left right c d loads hc hd small h = elim (Bool-cases (uses_relay cfg c.ip)) [
  | inl relayed ↦ rw relayed (
      Shows-≡ (release c.ip loads)
        (change c.ip (λ count. count - 1) (λ a. serving_on cfg a (left ++ (c ∷ right))))
        (λ a. serving_on cfg a (left ++ (d ∷ right)))
        (λ a. ground (arith, serving_on-change cfg a left right c d))
        (release-Shows c.ip loads (λ a. serving_on cfg a (left ++ (c ∷ right)))
          (omega (arith, serving_on-le cfg c.ip (left ++ (c ∷ right)))) h))
  | inr direct ↦ rw direct (
      Shows-≡ loads (λ a. serving_on cfg a (left ++ (c ∷ right)))
        (λ a. serving_on cfg a (left ++ (d ∷ right)))
        (λ a. ground (arith, serving_on-change cfg a left right c d)) h)
]

failed_round-serving :
    (cfg : DialConfig) (s : Surroundings) (loads : Loads) (d : Dial) (nodes : List RelayNode)
    → (failed_round cfg s loads d nodes).0.0.serving ≡ d.serving
unfolding failed_round dial_failed start_attempt check_retries
failed_round-serving cfg s loads d nodes = ground arith

-- What holds of the channels: the loads show which of them serve, and none is new.
abbrev AreLoaded : DialConfig → List Bytes → Channels → Type 0
AreLoaded cfg ips c = (length c.dials ≡ length ips) × Shows c.loads (λ a. serving_on cfg a c.dials)

new_dials-idle :
    (cfg : DialConfig) (a : Bytes) (ips : List Bytes)
    → (serving_on cfg a (new_dials ips) ≡ 0) × (length (new_dials ips) ≡ length ips)
unfolding serving_on
new_dials-idle cfg a [] = (refl, refl)
new_dials-idle cfg a (ip ∷ ips) = ground (arith, new_dials-idle cfg a ips)

exchange :
    (left right : List Dial) (c d : Dial)
    → length (left ++ (d ∷ right)) ≡ length (left ++ (c ∷ right))
exchange left right c d =
    omega (arith, length-append left (c ∷ right), length-append left (d ∷ right))

Step-AreLoaded :
    (cfg : DialConfig) (ips : List Bytes) {c after : Channels}
    → length ips < 2 ^ 31
    → Step cfg c after
    → AreLoaded cfg ips c
    → AreLoaded cfg ips after
unfolding dial_succeeded start_attempt check_retries
Step-AreLoaded cfg ips {c} small (failed s left right d idle at e) h =
    let d' = (failed_round cfg s c.loads d c.nodes).0.0 in
    let now_idle = failed_round-serving cfg s c.loads d c.nodes ∙ idle in
    rw e (
      exchange left right d d' ∙ rw at at h.0,
      Shows-≡ c.loads (λ a. serving_on cfg a (left ++ (d ∷ right)))
          (λ a. serving_on cfg a (left ++ (d' ∷ right)))
          (λ a. sym (serving_on-idle cfg a left right d d' idle now_idle)) (rw at at h.1),
    )
Step-AreLoaded cfg ips {c} small (connected s left right d idle at e) h =
    let d' = dial_succeeded (start_attempt cfg s c.loads d c.nodes).0 in
    rw e (
      exchange left right d d' ∙ rw at at h.0,
      acquired-Shows cfg left right d d' c.loads idle refl (rw (rw at at h.0) small) (rw at at h.1),
    )
Step-AreLoaded cfg ips {c} small (lost left right d serves at e) h = rw e (
  exchange left right d (channel_lost d) ∙ rw at at h.0,
  released-Shows cfg left right d (channel_lost d) c.loads serves refl (rw (rw at at h.0) small)
      (rw at at h.1),
)
Step-AreLoaded cfg ips {c} small (nodes_changed nodes e) h = rw e h

Reach-AreLoaded :
    (cfg : DialConfig) (ips : List Bytes) {c : Channels}
    → length ips < 2 ^ 31
    → Reach cfg ips c
    → AreLoaded cfg ips c
unfolding acquired_count get
Reach-AreLoaded cfg ips small (start nodes) =
    ((new_dials-idle cfg [] ips).1, λ a. rw ((new_dials-idle cfg a ips).0) refl)
Reach-AreLoaded cfg ips small (next {c} r s) =
    Step-AreLoaded cfg ips {c = c} small s (Reach-AreLoaded cfg ips small r)

-- However the channels dial, connect and break, the load that the relay manager has for an address
-- is the number of the channels that are connected through it: each Acquire has its Release. There
-- are fewer than 2^31 channels.
pub Reach-loads :
    (cfg : DialConfig) (ips : List Bytes) {c : Channels} (ip : Bytes)
    → length ips < 2 ^ 31
    → Reach cfg ips c
    → acquired_count ip c.loads ≡ serving_on cfg ip c.dials
Reach-loads cfg ips {c} ip small r =
    acquired_count-Shows ip c.loads (λ a. serving_on cfg a c.dials)
      (Reach-AreLoaded cfg ips small r).1
