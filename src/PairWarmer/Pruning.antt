-- ===== src/PairWarmer/Pruning.antt =====
-- pair_warmer.go: pruneIdleDrainingPairs. `range` reads the slice that the loop began with, whose
-- array removePair shifts in place.
use xtunnel.Base.{
  ℕ, zero, suc, ◌+◌, ◌≡◌, inl, inr, refl, sym, ap, ◌∙◌, subst, Bool, true, false, not, ◌&&◌, List,
  [], ◌∷◌, ◌++◌, ◌==◌, ==_iff, arith, length, drop, get_or, keep, Bool-cases, if◌then◌else◌,
}
use xtunnel.PairWarmer.Store.{closed, is_draining, Warmer, with_state, is_idle}
use xtunnel.PairWarmer.{ensure_primary, remove_pair}
use xtunnel.PairWarmer.Primary.{IsWellFormed, ensure_primary_frame}
use xtunnel.PairWarmer.Users.{InOrder, removed-IsWellFormed, elected-InOrder}

-- The array after removePair: the queue that stays, then what the array held from there on.
abbrev pub shifted : ℕ → Warmer → List ℕ → List ℕ
shifted a w array =
    let stays = keep (λ b. not (b == a)) w.pairs in stays ++ drop (length stays) array

abbrev pub is_prunable : ℕ → Warmer → Bool
is_prunable a w = is_draining (w.heap a).state && is_idle (w.heap a).refs

abbrev pub prune_pair : ℕ → Warmer → Warmer
prune_pair a w = remove_pair a (record w { heap = with_state a closed w.heap })

-- The loop at index `k` with `n` rounds left; whether it removed a pair, and the queue.
unfoldable pub prune_rounds : ℕ → ℕ → List ℕ → Warmer → Bool × Warmer
prune_rounds zero k array w = (false, w)
prune_rounds (suc n) k array w =
    let a = get_or array k 0 in
    let pruned = prune_rounds n (k + 1) (shifted a w array) (prune_pair a w) in
    let rest = prune_rounds n (k + 1) array w in if is_prunable a w then (true, pruned.1) else rest

unfoldable pub prune_idle_draining_pairs : Warmer → Warmer
prune_idle_draining_pairs w =
    let r = prune_rounds (length w.pairs) 0 w.pairs w in if r.0 then ensure_primary r.1 else r.1

prune_rounds-IsWellFormed :
    (n k : ℕ) (array : List ℕ) (w : Warmer)
    → IsWellFormed w
    → IsWellFormed (prune_rounds n k array w).1
unfolding prune_rounds
prune_rounds-IsWellFormed zero k array w wf = wf
prune_rounds-IsWellFormed (suc n) k array w wf =
    elim (Bool-cases (is_prunable (get_or array k 0) w)) [
      | inl hit ↦
          rw (prune_rounds, hit)
            (prune_rounds-IsWellFormed n (k + 1) (shifted (get_or array k 0) w array)
              (prune_pair (get_or array k 0) w) (removed-IsWellFormed (get_or array k 0) w wf))
      | inr miss ↦ rw (prune_rounds, miss) (prune_rounds-IsWellFormed n (k + 1) array w wf)
    ]

-- What no round removed a pair from is the queue as it was.
prune_rounds_idle :
    (n k : ℕ) (array : List ℕ) (w : Warmer)
    → (prune_rounds n k array w).0 ≡ false
    → (prune_rounds n k array w).1 ≡ w
unfolding prune_rounds
prune_rounds_idle zero k array w e = refl
prune_rounds_idle (suc n) k array w e = elim (Bool-cases (is_prunable (get_or array k 0) w)) [
  | inl hit ↦ absurd (ground arith)
  | inr miss ↦
      rw (prune_rounds, miss) (prune_rounds_idle n (k + 1) array w (rw (prune_rounds, miss) at e))
]

-- Pruning keeps the queue in order.
pub prune_idle_draining_pairs-InOrder :
    (w : Warmer) → InOrder w → InOrder (prune_idle_draining_pairs w)
unfolding prune_idle_draining_pairs
prune_idle_draining_pairs-InOrder w h =
    let r : Bool × Warmer = prune_rounds (length w.pairs) 0 w.pairs w in
    elim (Bool-cases r.0) [
      | inl some_gone ↦
          rw (prune_idle_draining_pairs, some_gone)
            (elected-InOrder r.1 (prune_rounds-IsWellFormed (length w.pairs) 0 w.pairs w h.0))
      | inr none_gone ↦
          rw (prune_idle_draining_pairs, none_gone)
            (subst InOrder (sym (prune_rounds_idle (length w.pairs) 0 w.pairs w none_gone)) h)
    ]

prune_hit :
    (n k : ℕ) (array : List ℕ) (w : Warmer)
    → is_prunable (get_or array k 0) w ≡ true
    → prune_rounds (suc n) k array w ≡ (
      true,
      (prune_rounds n
          (k + 1)
          (shifted (get_or array k 0) w array)
          (prune_pair (get_or array k 0) w)).1,
    )
unfolding prune_rounds
prune_hit n k array w hit = rw (prune_rounds, hit) refl

prune_miss :
    (n k : ℕ) (array : List ℕ) (w : Warmer)
    → is_prunable (get_or array k 0) w ≡ false
    → prune_rounds (suc n) k array w ≡ prune_rounds n (k + 1) array w
unfolding prune_rounds
prune_miss n k array w miss = rw (prune_rounds, miss) refl

kept_pairs : (x : ℕ) (v : Warmer) → (prune_pair x v).pairs ≡ keep (λ y. not (y == x)) v.pairs
unfolding remove_pair
kept_pairs x v = refl

module _ (a b c : ℕ) (w : Warmer) where
  -- The queue of the three pairs, and what the first two rounds make of it.
  abbrev three : Warmer
  three = record w { pairs = a ∷ b ∷ c ∷ [] }

  abbrev two : Warmer
  two = prune_pair a three

  abbrev one : Warmer
  one = prune_pair c two

  module _ (ab : (b == a) ≡ false) (ac : (c == a) ≡ false) (bc : (b == c) ≡ false)
      (fit_a : is_prunable a w ≡ true) (fit_c : is_prunable c w ≡ true) where
    two_pairs : two.pairs ≡ b ∷ c ∷ []
    unfolding remove_pair
    two_pairs = ground (arith, ==_iff a a, ab, ac)

    one_pairs : one.pairs ≡ b ∷ []
    one_pairs =
        kept_pairs c two ∙ ap (keep (λ x. not (x == c))) two_pairs ∙ ground (arith, ==_iff c c, bc)

    array_two : shifted a three (a ∷ b ∷ c ∷ []) ≡ b ∷ c ∷ c ∷ []
    array_two =
        ap (λ (ks : List ℕ). ks ++ drop (length ks) (a ∷ b ∷ c ∷ []))
          (sym (kept_pairs a three) ∙ two_pairs)

    array_one : shifted c two (b ∷ c ∷ c ∷ []) ≡ b ∷ c ∷ c ∷ []
    array_one =
        ap (λ (ks : List ℕ). ks ++ drop (length ks) (b ∷ c ∷ c ∷ []))
          (sym (kept_pairs c two) ∙ one_pairs)

    still_fit : is_prunable c two ≡ true
    unfolding remove_pair
    still_fit = rw ac fit_c

    closed_now : is_prunable c one ≡ false
    unfolding remove_pair
    closed_now = ground (arith, ==_iff c c)

    rounds : prune_rounds 3 0 (a ∷ b ∷ c ∷ []) three ≡ (true, one)
    rounds =
        prune_hit 2 0 (a ∷ b ∷ c ∷ []) three fit_a
        ∙ ap (λ (xs : List ℕ). (true, (prune_rounds 2 1 xs two).1)) array_two
        ∙ ap (λ (r : Bool × Warmer). (true, r.1)) (prune_hit 1 1 (b ∷ c ∷ c ∷ []) two still_fit)
        ∙ ap (λ (xs : List ℕ). (true, (prune_rounds 1 2 xs one).1)) array_one
        ∙ ap (λ (r : Bool × Warmer). (true, r.1)) (prune_miss 0 2 (b ∷ c ∷ c ∷ []) one closed_now)
        ∙ (unfold prune_rounds in refl)

-- The loop skips the pair behind one that it removes: where the queue is three idle draining pairs
-- that differ,
-- it takes the first and the third out, and the second stays.
pub prune_skips :
    (a b c : ℕ) (w : Warmer)
    → (b == a) ≡ false
    → (c == a) ≡ false
    → (b == c) ≡ false
    → is_prunable a w ≡ true
    → is_prunable b w ≡ true
    → is_prunable c w ≡ true
    → (prune_idle_draining_pairs (record w { pairs = a ∷ b ∷ c ∷ [] })).pairs ≡ b ∷ []
unfolding prune_idle_draining_pairs
prune_skips a b c w ab ac bc fit_a fit_b fit_c =
    ap (λ (r : Bool × Warmer). (if r.0 then ensure_primary r.1 else r.1).pairs)
      (rounds a b c w ab ac bc fit_a fit_c)
    ∙ (ensure_primary_frame (one a b c w)).1
    ∙ one_pairs a b c w ab ac bc fit_a fit_c
