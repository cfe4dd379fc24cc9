-- ===== src/PairWarmer/Trimming/Tail.antt =====
-- pair_warmer.go: which pairs trimExcessPairs leaves in service.
use mathlib.Core.Option.{some-injective}
use xtunnel.Base.{
  ℕ, zero, suc, max, ◌≤◌, ◌<◌, ◌≡◌, inl, inr, refl, sym, ap, ◌∙◌, subst, Bool, true, false, not,
  ◌||◌, some, List, [], ◌∷◌, ◌++◌, ◌==◌, ==_iff, arith, length, take, any, Bool-cases,
  if◌then◌else◌, length-append, take-all, take-append,
}
use xtunnel.PairWarmer.Store.{State, closed, is_ready, Heap, Warmer, with_state, is_idle}
use xtunnel.PairWarmer.{ensure_primary, remove_pair}
use xtunnel.PairWarmer.Primary.{Distinct, IsWellFormed, ensure_primary_frame}
use xtunnel.PairWarmer.Members.{Distinct-keep}
use xtunnel.PairWarmer.Users.{InOrder, elected-InOrder, removed-IsWellFormed, drained-IsWellFormed}
use xtunnel.PairWarmer.Trimming.{
  ready_pairs, ready_count, trim_loop, trim_excess_pairs, trim_round, trim_loop_total, dropped,
  drained, ready_pairs-removed, ready_pairs-drained, keep_front,
}

abbrev pub in_use : Heap → ℕ → Bool
in_use h a = not (is_idle (h a).refs)

-- How many pairs stand before the last one in use.
unfoldable pub before_last_used : Heap → List ℕ → ℕ
before_last_used h [] = 0
before_last_used h (a ∷ xs) = if any (in_use h) xs then suc (before_last_used h xs) else 0

any-in_use :
    (h : Heap) (xs : List ℕ) (a : ℕ)
    → any (in_use h) (xs ++ (a ∷ [])) ≡ (any (in_use h) xs || in_use h a)
any-in_use h [] a = ground arith
any-in_use h (x ∷ xs) a = ground (arith, any-in_use h xs a)

before_last_used-idle :
    (h : Heap) (xs : List ℕ) (a : ℕ)
    → is_idle (h a).refs ≡ true
    → before_last_used h (xs ++ (a ∷ [])) ≡ before_last_used h xs
unfolding before_last_used
before_last_used-idle h [] a idle = refl
before_last_used-idle h (x ∷ xs) a idle =
    ground (arith, any-in_use h xs a, before_last_used-idle h xs a)

before_last_used-used :
    (h : Heap) (xs : List ℕ) (a : ℕ)
    → is_idle (h a).refs ≡ false
    → before_last_used h (xs ++ (a ∷ [])) ≡ length xs
unfolding before_last_used
before_last_used-used h [] a used = refl
before_last_used-used h (x ∷ xs) a used =
    ground (arith, any-in_use h xs a, before_last_used-used h xs a)

before_last_used-le : (h : Heap) (xs : List ℕ) → before_last_used h xs ≤ length xs
unfolding before_last_used
before_last_used-le h [] = omega arith
before_last_used-le h (x ∷ xs) = ground (arith, before_last_used-le h xs)

before_last_used_same :
    (g h : Heap) (xs : List ℕ)
    → ((b : ℕ) → (g b).refs ≡ (h b).refs)
    → (before_last_used g xs ≡ before_last_used h xs) × (any (in_use g) xs ≡ any (in_use h) xs)
unfolding before_last_used
before_last_used_same g h [] same = (refl, refl)
before_last_used_same g h (x ∷ xs) same =
    let rest = before_last_used_same g h xs same in
    (rw (rest.0, rest.1) refl, rw (same x, rest.1) refl)

with_state-refs : (a : ℕ) (s : State) (h : Heap) (b : ℕ) → (with_state a s h b).refs ≡ (h b).refs
with_state-refs a s h b = elim (Bool-cases (b == a)) [
  | inl hit ↦ rw hit (ap (λ x. (h x).refs) (sym ((==_iff b a).0 hit)))
  | inr miss ↦ rw miss refl
]

take-front : (n : ℕ) (xs : List ℕ) (a : ℕ) → n ≤ length xs → take n (xs ++ (a ∷ [])) ≡ take n xs
take-front zero xs a h = refl
take-front (suc n) [] a h = absurd (omega arith)
take-front (suc n) (x ∷ xs) a h = ap (◌∷◌ x) (take-front n xs a (omega arith))

-- The pairs that stay in service, of the Ready ones in the queue's order.
unfoldable pub staying : Warmer → List ℕ
staying w =
    let all = ready_pairs w.heap w.pairs in
    take (max w.pair_count (before_last_used w.heap all)) all

abbrev ready_of : Warmer → List ℕ
ready_of w = ready_pairs w.heap w.pairs

dropped_ready :
    (a : ℕ) (w : Warmer) (xs : List ℕ)
    → Distinct w.pairs
    → ready_of w ≡ xs ++ (a ∷ [])
    → ready_of (dropped a w) ≡ xs
unfolding remove_pair
dropped_ready a w xs d r =
    ready_pairs-removed a w.heap w.pairs
    ∙ rw r (
        keep_front a xs
          (subst Distinct r (Distinct-keep (λ b. is_ready (w.heap b).state) w.pairs d)))

drained_ready :
    (a : ℕ) (w : Warmer) (xs : List ℕ)
    → Distinct w.pairs
    → ready_of w ≡ xs ++ (a ∷ [])
    → ready_of (drained a w) ≡ xs
drained_ready a w xs d r =
    ready_pairs-drained a w.heap w.pairs
    ∙ rw r (
        keep_front a xs
          (subst Distinct r (Distinct-keep (λ b. is_ready (w.heap b).state) w.pairs d)))

staying-dropped :
    (a : ℕ) (w : Warmer) (xs : List ℕ)
    → Distinct w.pairs
    → w.pair_count < ready_count w
    → ready_of w ≡ xs ++ (a ∷ [])
    → is_idle (w.heap a).refs ≡ true
    → staying (dropped a w) ≡ staying w
unfolding staying remove_pair
staying-dropped a w xs d many r idle =
    let few : w.pair_count ≤ length xs =
      omega (arith, many, ap length r, length-append xs (a ∷ [])) in
    let k : ℕ = max w.pair_count (before_last_used w.heap xs) in
    let bound : k ≤ length xs = omega (arith, few, before_last_used-le w.heap xs) in
    let refs =
      before_last_used_same (dropped a w).heap w.heap xs (with_state-refs a closed w.heap) in
    ap (λ all. take (max w.pair_count (before_last_used (dropped a w).heap all)) all)
      (dropped_ready a w xs d r)
    ∙ ap (λ n. take (max w.pair_count n) xs) refs.0
    ∙ sym (take-front k xs a bound)
    ∙ ap (λ n. take (max w.pair_count n) (xs ++ (a ∷ [])))
        (sym (before_last_used-idle w.heap xs a idle))
    ∙ ap (λ all. take (max w.pair_count (before_last_used w.heap all)) all) (sym r)

staying-drained :
    (a : ℕ) (w : Warmer) (xs : List ℕ)
    → w.pair_count < ready_count w
    → ready_of w ≡ xs ++ (a ∷ [])
    → is_idle (w.heap a).refs ≡ false
    → staying w ≡ xs
unfolding staying
staying-drained a w xs many r used =
    let n : w.pair_count ≤ length xs =
      omega (arith, many, ap length r, length-append xs (a ∷ [])) in
    let k : max w.pair_count (length xs) ≡ length xs = omega arith in
    rw (r, before_last_used-used w.heap xs a used, k) (take-append xs (a ∷ []))

dropped-IsWellFormed : (a : ℕ) (w : Warmer) → IsWellFormed w → IsWellFormed (dropped a w)
dropped-IsWellFormed a w wf = removed-IsWellFormed a w wf

dropped_count : (a : ℕ) (w : Warmer) → (dropped a w).pair_count ≡ w.pair_count
unfolding remove_pair
dropped_count a w = refl

trim_loop-staying :
    (fuel : ℕ) (w v : Warmer)
    → IsWellFormed w
    → trim_loop fuel w ≡ some v
    → IsWellFormed v × (ready_of v ≡ staying w)
unfolding trim_loop
trim_loop-staying zero w v wf e = absurd (cc e)
trim_loop-staying (suc fuel) w v wf ended =
    trim_round fuel w (λ o. o ≡ some v → IsWellFormed v × (ready_of v ≡ staying w))
      (λ few e.
        subst (λ u. IsWellFormed u × (ready_of u ≡ staying w)) (some-injective w v e)
          (
            wf,
            sym (
                unfold staying in
                take-all (max w.pair_count (before_last_used w.heap (ready_of w))) (ready_of w)
                  (omega (arith, few))),
          ))
      (λ xs a many r idle e.
        let rest = trim_loop-staying fuel (dropped a w) v (dropped-IsWellFormed a w wf) e in
        (rest.0, rest.1 ∙ staying-dropped a w xs wf.distinct many r idle))
      (λ xs a many r used e.
        subst (λ u. IsWellFormed u × (ready_of u ≡ staying w)) (some-injective (drained a w) v e)
          (
            drained-IsWellFormed a w wf,
            drained_ready a w xs wf.distinct r ∙ sym (staying-drained a w xs many r used),
          ))
      ended

-- Where pairs are wanted and the fuel exceeds the number of Ready pairs, trimming ends with the queue
-- in order. The Ready pairs that it leaves are the first of those there were: as many as are wanted,
-- or as stand before the last one in use, whichever is more, or all where there are fewer.
pub trim_excess_pairs-staying :
    (fuel : ℕ) (w : Warmer)
    → ready_count w < fuel
    → 0 < w.pair_count
    → IsWellFormed w
    → (v : Warmer) × (trim_excess_pairs fuel w ≡ some v) × InOrder v × (ready_of v ≡ staying w)
unfolding trim_excess_pairs
trim_excess_pairs-staying fuel w h set wf =
    let (v, e) = trim_loop_total fuel w h in
    let out = trim_loop-staying fuel w v wf e in
    let frame = ensure_primary_frame v in
    let on : (w.pair_count == 0) ≡ false = ground (arith, ==_iff w.pair_count 0) in
    (
      ensure_primary v,
      rw (trim_excess_pairs, on, e) refl,
      elected-InOrder v out.0,
      ap (λ h. ready_pairs h (ensure_primary v).pairs) frame.0
          ∙ ap (ready_pairs v.heap) frame.1
          ∙ out.1,
    )
