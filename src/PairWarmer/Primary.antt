-- ===== src/PairWarmer/Primary.antt =====
-- pair_warmer.go: who is primary. The queue's invariant, the election, acquiring and releasing.
use xtunnel.Base.{
  ℕ, ◌≡◌, ◌⊎◌, inl, inr, refl, ap, true, false, not, ◌||◌, Option, none, some, List, [], ◌∷◌, ◌==◌,
  ==_iff, arith, any, All, Bool-cases,
}
use xtunnel.PairWarmer.Store.{is_ready, is_closed, Heap, Warmer, with_refs, inc}
use xtunnel.PairWarmer.{
  is_primary, try_acquire, acquire_from, scan_queue, acquire_by, acquire_primary, first_ready,
  primary_ready, ensure_primary,
}

abbrev pub Has : ℕ → List ℕ → Type 0
Has a pairs = any (λ b. b == a) pairs ≡ true

abbrev pub Lacks : ℕ → List ℕ → Type 0
Lacks a pairs = any (λ b. b == a) pairs ≡ false

abbrev pub Distinct : List ℕ → Type 0
Distinct [] = Unit {0}
Distinct (a ∷ pairs) = Lacks a pairs × Distinct pairs

abbrev pub PrimaryIn : Option ℕ → List ℕ → Type 0
PrimaryIn none pairs = Unit {0}
PrimaryIn (some a) pairs = Has a pairs

-- The queue names each pair once and no closed one, and the primary is in it.
pub record IsWellFormed (w : Warmer) : Type 0 where
  pub distinct : Distinct w.pairs
  pub live : All (λ a. is_closed (w.heap a).state ≡ false) w.pairs
  pub primary_in : PrimaryIn w.primary w.pairs

-- A Ready pair is primary, or there is none.
abbrev pub IsElected : Warmer → Type 0
IsElected w =
    (primary_ready w ≡ true)
    ⊎ ((w.primary ≡ none) × All (λ a. is_ready (w.heap a).state ≡ false) w.pairs)

first_ready_cases :
    (h : Heap) (pairs : List ℕ)
    → ((a : ℕ) × (first_ready h pairs ≡ some a) × Has a pairs × (is_ready (h a).state ≡ true))
      ⊎ ((first_ready h pairs ≡ none) × All (λ a. is_ready (h a).state ≡ false) pairs)
unfolding first_ready
first_ready_cases h [] = inr (refl, tt)
first_ready_cases h (a ∷ pairs) = elim (Bool-cases (is_ready (h a).state)) [
  | inl hit ↦ inl (a, rw hit, ground (arith, ==_iff a a), hit)
  | inr miss ↦ elim (first_ready_cases h pairs) [
    | inl (b, e, m, r) ↦ inl (b, rw miss e, ground arith, r)
    | inr (e, all) ↦ inr (rw miss e, (miss, all))
  ]
]

-- After an election a Ready pair of the queue is primary, or the queue has none.
pub ensure_primary-IsElected :
    (w : Warmer)
    → PrimaryIn w.primary w.pairs
    → IsElected (ensure_primary w) × PrimaryIn (ensure_primary w).primary (ensure_primary w).pairs
unfolding ensure_primary
ensure_primary-IsElected w p = elim (Bool-cases (primary_ready w)) [
  | inl fine ↦ rw fine (inl fine, p)
  | inr gone ↦ elim (first_ready_cases w.heap w.pairs) [
    | inl (a, e, m, r) ↦ rw (gone, e) (inl r, m)
    | inr (e, all) ↦ rw (gone, e) (inr (refl, all), tt)
  ]
]

pub ensure_primary_frame :
    (w : Warmer) → ((ensure_primary w).heap ≡ w.heap) × ((ensure_primary w).pairs ≡ w.pairs)
unfolding ensure_primary
ensure_primary_frame w = ground arith

-- What acquiring may give: a Ready pair of the queue with one user more, or nothing where none is Ready.
abbrev pub Acquires : Warmer → Option ℕ × Warmer → Type 0
Acquires w r =
    ((a : ℕ) × (r ≡ (some a, record w { heap = with_refs a (inc (w.heap a).refs) w.heap }))
      × Has a w.pairs
      × (is_ready (w.heap a).state ≡ true))
    ⊎ ((r ≡ (none, w)) × All (λ b. is_ready (w.heap b).state ≡ false) w.pairs)

acquire_from_cases :
    (p : Option ℕ) (pairs : List ℕ) (h : Heap)
    → ((a : ℕ) × (acquire_from p pairs h ≡ (some a, with_refs a (inc (h a).refs) h))
        × Has a pairs
        × (is_ready (h a).state ≡ true))
      ⊎ ((acquire_from p pairs h ≡ (none, h))
          × All (λ b. (is_primary b p ≡ true) ⊎ (is_ready (h b).state ≡ false)) pairs)
unfolding acquire_from try_acquire
acquire_from_cases p [] h = inr (refl, tt)
acquire_from_cases p (a ∷ pairs) h =
    elim (Bool-cases (is_primary a p || not (is_ready (h a).state))) [
      | inl skip ↦ elim (acquire_from_cases p pairs h) [
        | inl (b, e, m, r) ↦ inl (b, rw skip e, ground arith, r)
        | inr (e, all) ↦ inr (rw skip e, (ground arith, all))
      ]
      | inr use_it ↦
          let fit : is_ready (h a).state ≡ true = ground arith in
          inl (a, rw (use_it, fit), ground (arith, ==_iff a a), fit)
    ]

none_ready :
    (p : Option ℕ) (h : Heap) (pairs : List ℕ)
    → ((a : ℕ) → p ≡ some a → is_ready (h a).state ≡ false)
    → All (λ b. (is_primary b p ≡ true) ⊎ (is_ready (h b).state ≡ false)) pairs
    → All (λ b. is_ready (h b).state ≡ false) pairs
none_ready p h [] gone all = tt
none_ready none h (b ∷ pairs) gone all = (ground arith, none_ready none h pairs gone all.1)
none_ready (some a) h (b ∷ pairs) gone all =
    (ground (arith, gone a, ==_iff a b), none_ready (some a) h pairs gone all.1)

scan_queue-Acquires :
    (w : Warmer)
    → ((a : ℕ) → w.primary ≡ some a → is_ready (w.heap a).state ≡ false)
    → Acquires w (scan_queue w)
unfolding scan_queue
scan_queue-Acquires w gone = elim (acquire_from_cases w.primary w.pairs w.heap) [
  | inl (a, e, m, r) ↦ inl (a, ap (λ q. (q.0, record w { heap = q.1 })) e, m, r)
  | inr (e, all) ↦
      inr (ap (λ q. (q.0, record w { heap = q.1 })) e, none_ready w.primary w.heap w.pairs gone all)
]

acquire_by-Acquires :
    (o : Option ℕ) (w : Warmer) → w.primary ≡ o → PrimaryIn o w.pairs → Acquires w (acquire_by o w)
unfolding acquire_by try_acquire
acquire_by-Acquires none w e p = scan_queue-Acquires w (λ a q. absurd (cc q))
acquire_by-Acquires (some a) w e p = elim (Bool-cases (is_ready (w.heap a).state)) [
  | inl fit ↦ inl (a, rw fit refl, p, fit)
  | inr unfit ↦ rw unfit (scan_queue-Acquires w (λ b q. ground arith))
]

-- Acquiring hands out a Ready pair of the queue and counts one user more, and changes nothing else;
-- it hands out none, and changes nothing, only where no pair of the queue is Ready.
pub acquire_primary-Acquires :
    (w : Warmer) → PrimaryIn w.primary w.pairs → Acquires w (acquire_primary w)
unfolding acquire_primary
acquire_primary-Acquires w p = acquire_by-Acquires w.primary w refl p
