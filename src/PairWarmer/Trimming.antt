-- ===== src/PairWarmer/Trimming.antt =====
-- pair_warmer.go: trimExcessPairs. The loop runs on fuel, and `none` means that the fuel ran out.
pub mod Tail
use xtunnel.Base.{
  ℕ, zero, suc, ◌+◌, ◌-◌, ◌≤◌, ◌<◌, ◌≡◌, ◌⊎◌, ◌↔◌, inl, inr, refl, sym, ap, ◌∙◌, subst, Bool, true,
  false, not, ◌&&◌, ◌||◌, Option, none, some, List, [], ◌∷◌, ◌++◌, ◌==◌, ltb, leb, ==_iff, arith,
  length, take, keep, any, All, Bool-cases, if◌then◌else◌, length-append,
}
use xtunnel.PairWarmer.Store.{
  State, ready, draining, closed, is_ready, is_closed, Pair, Heap, Warmer, write, with_state,
  is_idle,
}
use xtunnel.PairWarmer.{ensure_primary, remove_pair}
use xtunnel.PairWarmer.Primary.{Has, Lacks, Distinct, IsWellFormed, ensure_primary_frame}
use xtunnel.PairWarmer.Sweep.{write_other}
use xtunnel.PairWarmer.Users.{InOrder, elected-InOrder, removed-IsWellFormed, drained-IsWellFormed}

-- The Ready pairs of the queue: the loop counts them.
abbrev pub ready_pairs : Heap → List ℕ → List ℕ
ready_pairs h = keep (λ a. is_ready (h a).state)

abbrev pub ready_count : Warmer → ℕ
ready_count w = length (ready_pairs w.heap w.pairs)

-- The loop from the end of the queue.
unfoldable pub last_ready : Heap → List ℕ → Option ℕ
last_ready h [] = none
last_ready h (a ∷ pairs) = elim (last_ready h pairs) [
  | some b ↦ some b
  | none ↦ if is_ready (h a).state then some a else none
]

-- A tail in use is only drained, and ends the loop.
unfoldable pub trim_loop : ℕ → Warmer → Option Warmer
trim_loop zero w = none
trim_loop (suc fuel) w =
    if leb (ready_count w) w.pair_count then some w else elim (last_ready w.heap w.pairs) [
      | none ↦ some w
      | some a ↦
          let rest =
            trim_loop fuel (remove_pair a (record w { heap = with_state a closed w.heap })) in
          if is_idle (w.heap a).refs
          then rest
          else some (record w { heap = with_state a draining w.heap })
    ]

unfoldable pub trim_excess_pairs : ℕ → Warmer → Option Warmer
trim_excess_pairs fuel w =
    if w.pair_count == 0
    then some w
    else elim (trim_loop fuel w) [ none ↦ none | some v ↦ some (ensure_primary v) ]

-- The loop finds the last of the Ready pairs, if there is one.
last_ready_cases :
    (h : Heap) (pairs : List ℕ)
    → ((last_ready h pairs ≡ none) × (ready_pairs h pairs ≡ []))
      ⊎ ((xs : List ℕ) × (a : ℕ) × (last_ready h pairs ≡ some a)
          × (ready_pairs h pairs ≡ xs ++ (a ∷ []))
          × Has a pairs
          × (is_ready (h a).state ≡ true))
unfolding last_ready
last_ready_cases h [] = inl (refl, refl)
last_ready_cases h (b ∷ pairs) = elim (last_ready_cases h pairs) [
  | inl (e, r) ↦ elim (Bool-cases (is_ready (h b).state)) [
    | inl fit ↦ inr ([], b, rw (e, fit) refl, rw (fit, r) refl, ground (arith, ==_iff b b), fit)
    | inr unfit ↦ inl (rw (e, unfit) refl, rw unfit r)
  ]
  | inr (xs, a, e, r, m, fit) ↦ elim (Bool-cases (is_ready (h b).state)) [
    | inl hit ↦ inr (b ∷ xs, a, rw e refl, rw (hit, r) refl, ground arith, fit)
    | inr miss ↦ inr (xs, a, rw e refl, rw (miss, r) refl, ground arith, fit)
  ]
]

-- The Ready pairs once `a` is out of the queue.
pub ready_pairs-removed :
    (a : ℕ) (h : Heap) (pairs : List ℕ)
    → ready_pairs (with_state a closed h) (keep (λ b. not (b == a)) pairs)
      ≡ keep (λ b. not (b == a)) (ready_pairs h pairs)
ready_pairs-removed a h [] = refl
ready_pairs-removed a h (b ∷ pairs) = ground (arith, ready_pairs-removed a h pairs)

-- The Ready pairs once `a` is draining.
pub ready_pairs-drained :
    (a : ℕ) (h : Heap) (pairs : List ℕ)
    → ready_pairs (with_state a draining h) pairs ≡ keep (λ b. not (b == a)) (ready_pairs h pairs)
ready_pairs-drained a h [] = refl
ready_pairs-drained a h (b ∷ pairs) = ground (arith, ready_pairs-drained a h pairs)

keep_absent : (a : ℕ) (xs : List ℕ) → Lacks a xs → keep (λ b. not (b == a)) xs ≡ xs
keep_absent a [] l = refl
keep_absent a (b ∷ xs) l = ground (arith, keep_absent a xs)

length-keep_others : (a : ℕ) (xs : List ℕ) → length (keep (λ b. not (b == a)) xs) ≤ length xs
length-keep_others a [] = omega arith
length-keep_others a (b ∷ xs) = ground (arith, length-keep_others a xs)

keep_others_lt :
    (a : ℕ) (xs : List ℕ)
    → length (keep (λ b. not (b == a)) (xs ++ (a ∷ []))) < length (xs ++ (a ∷ []))
keep_others_lt a [] = ground (arith, ==_iff a a)
keep_others_lt a (b ∷ xs) = ground (arith, keep_others_lt a xs)

Lacks-behind : (a b : ℕ) (xs : List ℕ) → Lacks b (xs ++ (a ∷ [])) → (a == b) ≡ false
Lacks-behind a b [] l = ground arith
Lacks-behind a b (x ∷ xs) l = Lacks-behind a b xs (ground arith)

pub keep_front :
    (a : ℕ) (xs : List ℕ)
    → Distinct (xs ++ (a ∷ []))
    → keep (λ b. not (b == a)) (xs ++ (a ∷ [])) ≡ xs
keep_front a [] d = ground (arith, ==_iff a a)
keep_front a (b ∷ xs) d =
    ground (arith, Lacks-behind a b xs d.0, ==_iff a b, ==_iff b a, keep_front a xs d.1)

abbrev pub dropped : ℕ → Warmer → Warmer
dropped a w = remove_pair a (record w { heap = with_state a closed w.heap })

abbrev pub drained : ℕ → Warmer → Warmer
drained a w = record w { heap = with_state a draining w.heap }

-- The ways of a round that begins with fuel.
pub trim_round :
    (fuel : ℕ) (w : Warmer) (P : Option Warmer → Type 0)
    → (ready_count w ≤ w.pair_count → P (some w))
    → ((xs : List ℕ) (a : ℕ)
        → w.pair_count < ready_count w
        → ready_pairs w.heap w.pairs ≡ xs ++ (a ∷ [])
        → is_idle (w.heap a).refs ≡ true
        → P (trim_loop fuel (dropped a w)))
    → ((xs : List ℕ) (a : ℕ)
        → w.pair_count < ready_count w
        → ready_pairs w.heap w.pairs ≡ xs ++ (a ∷ [])
        → is_idle (w.heap a).refs ≡ false
        → P (some (drained a w)))
    → P (trim_loop (suc fuel) w)
unfolding trim_loop
trim_round fuel w P f g k = elim (Bool-cases (leb (ready_count w) w.pair_count)) [
  | inl few ↦ rw (trim_loop, few) (f (ground arith))
  | inr many ↦ elim (last_ready_cases w.heap w.pairs) [
    | inl (e, r) ↦ absurd (ground (arith, ap length r))
    | inr (xs, a, e, r, m, fit) ↦ elim (Bool-cases (is_idle (w.heap a).refs)) [
      | inl idle ↦ rw (trim_loop, many, e, idle) (g xs a (ground arith) r idle)
      | inr used ↦ rw (trim_loop, many, e, used) (k xs a (ground arith) r used)
    ]
  ]
]

ready_count-dropped :
    (a : ℕ) (w : Warmer) (xs : List ℕ)
    → ready_pairs w.heap w.pairs ≡ xs ++ (a ∷ [])
    → ready_count (dropped a w) < ready_count w
unfolding remove_pair
ready_count-dropped a w xs r = rw (ready_pairs-removed a w.heap w.pairs, r) (keep_others_lt a xs)

-- Every round but the last takes one Ready pair out, so that fuel above their number is enough.
pub trim_loop_total :
    (fuel : ℕ) (w : Warmer) → ready_count w < fuel → (v : Warmer) × (trim_loop fuel w ≡ some v)
trim_loop_total zero w h = absurd (omega arith)
trim_loop_total (suc fuel) w h =
    trim_round fuel w (λ r. (v : Warmer) × (r ≡ some v)) (λ _. (w, refl))
      (λ xs a _ r _.
        trim_loop_total fuel (dropped a w) (omega (arith, ready_count-dropped a w xs r, h)))
      (λ _ a _ _ _. (drained a w, refl))

-- The loop ends: more fuel than there are Ready pairs is enough.
pub trim_excess_pairs_total :
    (fuel : ℕ) (w : Warmer)
    → ready_count w < fuel
    → (v : Warmer) × (trim_excess_pairs fuel w ≡ some v)
unfolding trim_excess_pairs
trim_excess_pairs_total fuel w h = elim (Bool-cases (w.pair_count == 0)) [
  | inl unset ↦ (w, rw (trim_excess_pairs, unset) refl)
  | inr set ↦
      let (v, e) = trim_loop_total fuel w h in
      (ensure_primary v, rw (trim_excess_pairs, set, e) refl)
]
