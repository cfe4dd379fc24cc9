-- ===== src/PairWarmer/Duplicates/Kept.antt =====
-- pair_warmer.go: deduplicatePairs, the pairs that stay and the primary.
use xtunnel.Base.{
  ℕ, ◌≡◌, ◌⊎◌, inl, inr, refl, sym, ◌∙◌, subst, true, false, Option, none, some, List, [], ◌∷◌,
  ◌==◌, ==_iff, arith, All, Bool-cases,
}
use xtunnel.PairWarmer.Store.{draining, closed, is_closed, Pair, Heap, Warmer, write, with_state}
use xtunnel.PairWarmer.{forget_primary, Swept, stay}
use xtunnel.PairWarmer.Primary.{Has, Lacks, Distinct, PrimaryIn, IsWellFormed}
use xtunnel.PairWarmer.Sweep.{write_other}
use xtunnel.PairWarmer.Users.{InOrder, elected-InOrder}
use xtunnel.PairWarmer.Duplicates.{Key, key_of, dedupe_loop, deduplicate_pairs, dedupe_round}

pub dedupe_untouched :
    (seen : List Key) (h : Heap) (p : Option ℕ) (pairs : List ℕ) (b : ℕ)
    → Lacks b pairs
    → (dedupe_loop seen h p pairs).heap b ≡ h b
unfolding dedupe_loop
dedupe_untouched seen h p [] b l = refl
dedupe_untouched seen h p (a ∷ pairs) b l =
    let rest : Lacks b pairs = ground arith in
    let other : (a == b) ≡ false = ground arith in
    dedupe_round seen h p a pairs (λ s. s.heap b ≡ h b)
      (λ _. dedupe_untouched seen h p pairs b rest)
      (λ _.
        dedupe_untouched seen (with_state a draining h) p pairs b rest
        ∙ write_other a (record (h a) { state = draining }) h b other)
      (λ _ _.
        dedupe_untouched seen (with_state a closed h) (forget_primary a p) pairs b rest
        ∙ write_other a (record (h a) { state = closed }) h b other)
      (λ _ _. dedupe_untouched (key_of (h a) ∷ seen) h p pairs b rest)

pub dedupe_Lacks :
    (seen : List Key) (h : Heap) (p : Option ℕ) (pairs : List ℕ) (b : ℕ)
    → Lacks b pairs
    → Lacks b (dedupe_loop seen h p pairs).kept
unfolding dedupe_loop
dedupe_Lacks seen h p [] b l = refl
dedupe_Lacks seen h p (a ∷ pairs) b l =
    let rest : Lacks b pairs = ground arith in
    dedupe_round seen h p a pairs (λ s. Lacks b s.kept)
      (λ _. ground (arith, dedupe_Lacks seen h p pairs b rest))
      (λ _. ground (arith, dedupe_Lacks seen (with_state a draining h) p pairs b rest))
      (λ _ _. dedupe_Lacks seen (with_state a closed h) (forget_primary a p) pairs b rest)
      (λ _ _. ground (arith, dedupe_Lacks (key_of (h a) ∷ seen) h p pairs b rest))

pub dedupe-Distinct :
    (seen : List Key) (h : Heap) (p : Option ℕ) (pairs : List ℕ)
    → Distinct pairs
    → Distinct (dedupe_loop seen h p pairs).kept
unfolding dedupe_loop
dedupe-Distinct seen h p [] d = tt
dedupe-Distinct seen h p (a ∷ pairs) d =
    dedupe_round seen h p a pairs (λ s. Distinct s.kept)
      (λ _. (dedupe_Lacks seen h p pairs a d.0, dedupe-Distinct seen h p pairs d.1))
      (λ _. (
        dedupe_Lacks seen (with_state a draining h) p pairs a d.0,
        dedupe-Distinct seen (with_state a draining h) p pairs d.1,
      ))
      (λ _ _. dedupe-Distinct seen (with_state a closed h) (forget_primary a p) pairs d.1)
      (λ _ _. (
        dedupe_Lacks (key_of (h a) ∷ seen) h p pairs a d.0,
        dedupe-Distinct (key_of (h a) ∷ seen) h p pairs d.1,
      ))

-- A write to a pair that is not in the list.
pub All-write :
    (P : Pair → Type 0) (a : ℕ) (q : Pair) (h : Heap) (pairs : List ℕ)
    → Lacks a pairs
    → All (λ b. P (h b)) pairs
    → All (λ b. P (write a q h b)) pairs
All-write P a q h [] l all = tt
All-write P a q h (b ∷ pairs) l all = (
  subst P (sym (write_other a q h b (ground (arith, ==_iff a b, ==_iff b a)))) all.0,
  All-write P a q h pairs (ground arith) all.1,
)

abbrev pub IsLive : Pair → Type 0
IsLive p = is_closed p.state ≡ false

pub dedupe-IsLive :
    (seen : List Key) (h : Heap) (p : Option ℕ) (pairs : List ℕ)
    → Distinct pairs
    → All (λ b. IsLive (h b)) pairs
    → let s = dedupe_loop seen h p pairs in All (λ b. IsLive (s.heap b)) s.kept
unfolding dedupe_loop
dedupe-IsLive seen h p [] d all = tt
dedupe-IsLive seen h p (a ∷ pairs) d all =
    let still : (x : Pair) → All (λ b. IsLive (write a x h b)) pairs =
      λ x. All-write IsLive a x h pairs d.0 all.1 in
    let draining_a : Pair = record (h a) { state = draining } in
    let closed_a : Pair = record (h a) { state = closed } in
    dedupe_round seen h p a pairs (λ s. All (λ b. IsLive (s.heap b)) s.kept)
      (λ _. (
        subst IsLive (sym (dedupe_untouched seen h p pairs a d.0)) all.0,
        dedupe-IsLive seen h p pairs d.1 all.1,
      ))
      (λ _. (
        subst IsLive (sym (dedupe_untouched seen (write a draining_a h) p pairs a d.0))
            (ground (arith, ==_iff a a)),
        dedupe-IsLive seen (write a draining_a h) p pairs d.1 (still draining_a),
      ))
      (λ _ _.
        dedupe-IsLive seen (write a closed_a h) (forget_primary a p) pairs d.1 (still closed_a))
      (λ _ _. (
        subst IsLive (sym (dedupe_untouched (key_of (h a) ∷ seen) h p pairs a d.0)) all.0,
        dedupe-IsLive (key_of (h a) ∷ seen) h p pairs d.1 all.1,
      ))

dedupe_no_primary :
    (seen : List Key) (h : Heap) (pairs : List ℕ) → (dedupe_loop seen h none pairs).primary ≡ none
unfolding dedupe_loop
dedupe_no_primary seen h [] = refl
dedupe_no_primary seen h (a ∷ pairs) =
    dedupe_round seen h none a pairs (λ s. s.primary ≡ none) (λ _. dedupe_no_primary seen h pairs)
      (λ _. dedupe_no_primary seen (with_state a draining h) pairs)
      (λ _ _. dedupe_no_primary seen (with_state a closed h) pairs)
      (λ _ _. dedupe_no_primary (key_of (h a) ∷ seen) h pairs)

dedupe_other_primary :
    (seen : List Key) (h : Heap) (c : ℕ) (pairs : List ℕ)
    → Lacks c pairs
    → (dedupe_loop seen h (some c) pairs).primary ≡ some c
unfolding dedupe_loop
dedupe_other_primary seen h c [] l = refl
dedupe_other_primary seen h c (a ∷ pairs) l =
    let rest : Lacks c pairs = ground arith in
    let other : (c == a) ≡ false = ground (arith, ==_iff a c, ==_iff c a) in
    dedupe_round seen h (some c) a pairs (λ s. s.primary ≡ some c)
      (λ _. dedupe_other_primary seen h c pairs rest)
      (λ _. dedupe_other_primary seen (with_state a draining h) c pairs rest)
      (λ _ _. rw other (dedupe_other_primary seen (with_state a closed h) c pairs rest))
      (λ _ _. dedupe_other_primary (key_of (h a) ∷ seen) h c pairs rest)

-- The primary that the loop began with is still queued, or there is none.
abbrev IsKept : ℕ → Swept → Type 0
IsKept c s = (s.primary ≡ none) ⊎ ((s.primary ≡ some c) × Has c s.kept)

IsKept-stay : (c a : ℕ) (s : Swept) → IsKept c s → IsKept c (stay a s)
IsKept-stay c a s (inl gone) = inl gone
IsKept-stay c a s (inr (same, m)) = inr (same, ground arith)

dedupe-IsKept :
    (seen : List Key) (h : Heap) (c : ℕ) (pairs : List ℕ)
    → Distinct pairs
    → Has c pairs
    → IsKept c (dedupe_loop seen h (some c) pairs)
unfolding dedupe_loop
dedupe-IsKept seen h c [] d m = absurd (ground arith)
dedupe-IsKept seen h c (a ∷ pairs) d m = elim (Bool-cases (a == c)) [
  | inl hit ↦
      let path : a ≡ c = (==_iff a c).0 hit in
      let l : Lacks c pairs = subst (λ x. Lacks x pairs) path d.0 in
      let here : (a == c) ≡ true = hit in
      let back : (c == a) ≡ true = ground (arith, ==_iff c a) in
      dedupe_round seen h (some c) a pairs (IsKept c)
        (λ _. inr (dedupe_other_primary seen h c pairs l, rw here refl))
        (λ _. inr (dedupe_other_primary seen (with_state a draining h) c pairs l, rw here refl))
        (λ _ _. inl (rw back (dedupe_no_primary seen (with_state a closed h) pairs)))
        (λ _ _. inr (dedupe_other_primary (key_of (h a) ∷ seen) h c pairs l, rw here refl))
  | inr n ↦
      let rest : Has c pairs = ground arith in
      let back : (c == a) ≡ false = ground (arith, ==_iff a c, ==_iff c a) in
      dedupe_round seen h (some c) a pairs (IsKept c)
        (λ _.
          IsKept-stay c a (dedupe_loop seen h (some c) pairs)
            (dedupe-IsKept seen h c pairs d.1 rest))
        (λ _.
          IsKept-stay c a (dedupe_loop seen (with_state a draining h) (some c) pairs)
            (dedupe-IsKept seen (with_state a draining h) c pairs d.1 rest))
        (λ _ _. rw back (dedupe-IsKept seen (with_state a closed h) c pairs d.1 rest))
        (λ _ _.
          IsKept-stay c a (dedupe_loop (key_of (h a) ∷ seen) h (some c) pairs)
            (dedupe-IsKept (key_of (h a) ∷ seen) h c pairs d.1 rest))
]

dedupe-PrimaryIn :
    (seen : List Key) (h : Heap) (p : Option ℕ) (pairs : List ℕ)
    → Distinct pairs
    → PrimaryIn p pairs
    → let s = dedupe_loop seen h p pairs in PrimaryIn s.primary s.kept
dedupe-PrimaryIn seen h none pairs d m =
    subst (λ o. PrimaryIn o (dedupe_loop seen h none pairs).kept)
      (sym (dedupe_no_primary seen h pairs)) tt
dedupe-PrimaryIn seen h (some c) pairs d m = elim (dedupe-IsKept seen h c pairs d m) [
  | inl gone ↦ subst (λ o. PrimaryIn o (dedupe_loop seen h (some c) pairs).kept) (sym gone) tt
  | inr (same, at) ↦ subst (λ o. PrimaryIn o (dedupe_loop seen h (some c) pairs).kept) (sym same) at
]

-- Taking out duplicates keeps the queue in order.
pub deduplicate_pairs-InOrder : (w : Warmer) → IsWellFormed w → InOrder (deduplicate_pairs w)
unfolding deduplicate_pairs
deduplicate_pairs-InOrder w wf =
    let s : Swept = dedupe_loop [] w.heap w.primary w.pairs in
    elected-InOrder (record w { heap = s.heap; primary = s.primary; pairs = s.kept })
      record {
        distinct = dedupe-Distinct [] w.heap w.primary w.pairs wf.distinct;
        live = dedupe-IsLive [] w.heap w.primary w.pairs wf.distinct wf.live;
        primary_in = dedupe-PrimaryIn [] w.heap w.primary w.pairs wf.distinct wf.primary_in;
      }
