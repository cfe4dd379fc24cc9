-- ===== src/PairWarmer/Race.antt =====
-- pair_warmer.go: BuildPair up to its result, and HandlePrebindResult. The channels that take each frame
-- and the order in which the select wakes are parameters. The entry that the race has among the
-- client's connections, and its removal at each end, are left out here.
use xtunnel.Base.{
  ℕ, ◌<◌, ◌≤◌, ◌≡◌, ◌⊎◌, ◌≢◌, ◌||◌, sym, ap, Bool, true, false, not, List, [], ◌∷◌, ◌++◌, ◌==◌,
  ==_iff, ltb, arith, if◌then◌else◌, length, Bytes, bytes_eq, bytes_eq_iff, Bool-cases, inl, inr,
}
use xtunnel.Protocol.Message.{Message, msg_prebind_request, msg_hot_pair_begin}
use xtunnel.PairWarmer.Refresh.{Built}

pub record PrebindResult : Type 0 where
  pub conn_id : Bytes
  pub uplink : ℕ
  pub downlink : ℕ
  pub failed : Bool

-- A send that does not block: a result that finds the buffer full is dropped.
unfoldable pub handle_prebind_result : ℕ → PrebindResult → List PrebindResult → List PrebindResult
handle_prebind_result capacity r buffer =
    if ltb (length buffer) capacity then buffer ++ (r ∷ []) else buffer

-- What the select of the wait reads next. `alive` is whether the context still is when a result has
-- been read.
pub data Wake : Type 0 where
  closed timed_out : Wake
  told : PrebindResult → Bool → Wake

pub data Outcome : Type 0 where
  waiting failed : Outcome
  built : Built → Outcome

abbrev pub built_of : Bytes → PrebindResult → Built
built_of id r = record { prebind_id = id; uplink = r.uplink; downlink = r.downlink }

-- The loop over what it reads: results of other races are skipped.
unfoldable pub await_result : Bytes → List Wake → Outcome
await_result id [] = waiting
await_result id (closed ∷ wakes) = failed
await_result id (timed_out ∷ wakes) = failed
await_result id (told r alive ∷ wakes) =
    let later = await_result id wakes in
    if not (bytes_eq r.conn_id id)
    then later
    else if r.failed || not alive
    then failed
    else built (built_of id r)

-- meta[0] is the strategy of the configuration.
abbrev pub request_frame : ℕ → Bytes → Bytes → Message
request_frame strategy target id = record {
  kind = msg_prebind_request;
  conn_id = id;
  meta = strategy ∷ target;
  payload = [];
}

abbrev pub begin_frame : Message
begin_frame = record { kind = msg_hot_pair_begin; conn_id = []; meta = []; payload = [] }

-- The frames of both loops over the channels that take them, in their order.
unfoldable pub announce : (ℕ → Bool) → Message → List ℕ → List (ℕ × Message)
announce accepts m [] = []
announce accepts m (ch ∷ available) =
    if accepts ch then (ch, m) ∷ announce accepts m available else announce accepts m available

-- The frames sent, and what BuildPair comes to; `alive` is the context at its start.
unfoldable pub race :
    Bool
    → (ℕ → Bool)
    → (ℕ → Bool)
    → List ℕ
    → ℕ
    → Bytes
    → Bytes
    → List Wake
    → List (ℕ × Message) × Outcome
race alive begins accepts available strategy target id wakes =
    let begun = announce begins begin_frame available in
    let asked = announce accepts (request_frame strategy target id) available in
    if not alive || ltb (length available) 2
    then ([], failed)
    else if length asked == 0
    then (begun ++ asked, failed)
    else (begun ++ asked, await_result id wakes)

-- A result of the race itself is among what was read.
abbrev pub Tells : Bytes → Built → Wake → Type 0
Tells id b closed = ⊥
Tells id b timed_out = ⊥
Tells id b (told r alive) =
    (r.conn_id ≡ id) × (r.failed ≡ false) × (alive ≡ true) × (b ≡ built_of id r)

abbrev pub Any : (Wake → Type 0) → List Wake → Type 0
Any P [] = ⊥
Any P (x ∷ xs) = P x ⊎ Any P xs

abbrev unbuilt : Built → Outcome → Built
unbuilt b waiting = b
unbuilt b failed = b
unbuilt b (built c) = c

await_result_sound :
    (id : Bytes) (wakes : List Wake) (b : Built)
    → await_result id wakes ≡ built b
    → Any (Tells id b) wakes
unfolding await_result
await_result_sound id [] b e = absurd (cc e)
await_result_sound id (closed ∷ wakes) b e = absurd (cc e)
await_result_sound id (timed_out ∷ wakes) b e = absurd (cc e)
await_result_sound id (told r alive ∷ wakes) b e = elim (Bool-cases (bytes_eq r.conn_id id)) [
  | inr other ↦ inr (await_result_sound id wakes b (rw other at e))
  | inl own ↦ elim (Bool-cases (r.failed || not alive)) [
    | inl bad ↦ absurd (cc (rw (own, bad) at e))
    | inr good ↦ inl (
      (bytes_eq_iff r.conn_id id).0 own,
      ground arith,
      ground arith,
      sym (ap (unbuilt b) (rw (own, good) at e)),
    )
  ]
]

-- A race that gives a pair was run while the warmer was alive, over two channels at least, of which
-- one took the request; the pair has the race's own id and the channels of a result of that id
-- which tells no error, whatever results of other races came before it.
pub race_sound :
    (alive : Bool) (begins accepts : ℕ → Bool) (available : List ℕ) (strategy : ℕ)
    (target id : Bytes) (wakes : List Wake) (b : Built)
    → (race alive begins accepts available strategy target id wakes).1 ≡ built b
    → (alive ≡ true)
      × (2 ≤ length available)
      × (0 < length (announce accepts (request_frame strategy target id) available))
      × Any (Tells id b) wakes
unfolding race
race_sound alive begins accepts available strategy target id wakes b e =
    elim (Bool-cases (not alive || ltb (length available) 2)) [
      | inl bad ↦ absurd (cc (rw (race, bad) at e))
      | inr good ↦
          elim (Bool-cases
            (length (announce accepts (request_frame strategy target id) available) == 0)) [
              | inl unsent ↦ absurd (cc (rw (race, good, unsent) at e))
              | inr sent ↦ (
                ground arith,
                ground arith,
                ground (
                  arith,
                  ==_iff (length (announce accepts (request_frame strategy target id) available)) 0,
                ),
                await_result_sound id wakes b (rw (race, good, sent) at e),
              )
            ]
    ]

abbrev pub IsEnd : Wake → Type 0
IsEnd closed = Unit {0}
IsEnd timed_out = Unit {0}
IsEnd (told r alive) = ⊥

-- The wait ends once the timer fires or the context is done, whatever results come before.
pub await_result_ends :
    (id : Bytes) (wakes : List Wake) → Any IsEnd wakes → await_result id wakes ≢ waiting
unfolding await_result
await_result_ends id [] ended e = ended
await_result_ends id (closed ∷ wakes) ended e = absurd (cc e)
await_result_ends id (timed_out ∷ wakes) ended e = absurd (cc e)
await_result_ends id (told r alive ∷ wakes) (inl never) e = never
await_result_ends id (told r alive ∷ wakes) (inr later) e =
    elim (Bool-cases (bytes_eq r.conn_id id)) [
      | inr other ↦ await_result_ends id wakes later (rw other at e)
      | inl own ↦ elim (Bool-cases (r.failed || not alive)) [
        | inl bad ↦ absurd (cc (rw (own, bad) at e))
        | inr good ↦ absurd (cc (rw (own, good) at e))
      ]
    ]
