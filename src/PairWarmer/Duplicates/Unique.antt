-- ===== src/PairWarmer/Duplicates/Unique.antt =====
-- pair_warmer.go: what deduplicatePairs leaves, one Ready pair for each two channels.
use xtunnel.Base.{
  ℕ, ◌≡◌, inl, inr, refl, sym, ap, ◌∙◌, subst, true, false, ◌&&◌, Option, none, some, List, [], ◌∷◌,
  ◌==◌, ==_iff, arith, Bool-cases, if◌then◌else◌,
}
use xtunnel.PairWarmer.Store.{draining, closed, is_ready, Pair, Heap, Warmer, write, with_state}
use xtunnel.PairWarmer.{forget_primary, Swept}
use xtunnel.PairWarmer.Primary.{Has, Lacks, Distinct, IsWellFormed, ensure_primary_frame}
use xtunnel.PairWarmer.Sweep.{write_other}
use xtunnel.PairWarmer.Duplicates.{
  Key, key_of, same_key, is_seen, dedupe_loop, deduplicate_pairs, dedupe_round,
}
use xtunnel.PairWarmer.Duplicates.Kept.{dedupe_untouched}

-- The first Ready pair of a queue on the two channels.
unfoldable pub first_on : Key → Heap → List ℕ → Option ℕ
first_on k h [] = none
first_on k h (a ∷ pairs) =
    if is_ready (h a).state && same_key k (key_of (h a)) then some a else first_on k h pairs

-- No Ready pair of the queue is on channels that are seen or on those of a Ready pair before it.
abbrev pub IsUnique : List Key → Heap → List ℕ → Type 0
IsUnique seen h [] = Unit {0}
IsUnique seen h (a ∷ pairs) =
    (is_ready (h a).state ≡ true → is_seen (key_of (h a)) seen ≡ false)
    × IsUnique (if is_ready (h a).state then key_of (h a) ∷ seen else seen) h pairs

unready-IsUnique :
    (seen : List Key) (a : ℕ) (s : Swept)
    → is_ready (s.heap a).state ≡ false
    → IsUnique seen s.heap s.kept
    → IsUnique seen s.heap (a ∷ s.kept)
unready-IsUnique seen a s other u = rw other (λ e. absurd (cc e), u)

dedupe-IsUnique :
    (seen : List Key) (h : Heap) (p : Option ℕ) (pairs : List ℕ)
    → Distinct pairs
    → let s = dedupe_loop seen h p pairs in IsUnique seen s.heap s.kept
unfolding dedupe_loop
dedupe-IsUnique seen h p [] d = tt
dedupe-IsUnique seen h p (a ∷ pairs) d =
    dedupe_round seen h p a pairs (λ s. IsUnique seen s.heap s.kept)
      (λ other.
        unready-IsUnique seen a (dedupe_loop seen h p pairs)
          (rw (dedupe_untouched seen h p pairs a d.0) other) (dedupe-IsUnique seen h p pairs d.1))
      (λ _.
        unready-IsUnique seen a (dedupe_loop seen (with_state a draining h) p pairs)
          (rw (dedupe_untouched seen (with_state a draining h) p pairs a d.0)
            (ground (arith, ==_iff a a)))
          (dedupe-IsUnique seen (with_state a draining h) p pairs d.1))
      (λ _ _. dedupe-IsUnique seen (with_state a closed h) (forget_primary a p) pairs d.1)
      (λ fit fresh.
        rw (dedupe_untouched (key_of (h a) ∷ seen) h p pairs a d.0)
          (λ _. fresh, rw fit (dedupe-IsUnique (key_of (h a) ∷ seen) h p pairs d.1)))

first_on-write :
    (k : Key) (a : ℕ) (q : Pair) (h : Heap) (pairs : List ℕ)
    → Lacks a pairs
    → first_on k (write a q h) pairs ≡ first_on k h pairs
unfolding first_on
first_on-write k a q h [] l = refl
first_on-write k a q h (b ∷ pairs) l =
    let other : (a == b) ≡ false = ground (arith, ==_iff a b, ==_iff b a) in
    rw (write_other a q h b other, first_on-write k a q h pairs (ground arith)) refl

first_on-skip :
    (k : Key) (a : ℕ) (h : Heap) (pairs : List ℕ)
    → (is_ready (h a).state && same_key k (key_of (h a))) ≡ false
    → first_on k h (a ∷ pairs) ≡ first_on k h pairs
unfolding first_on
first_on-skip k a h pairs miss = rw miss refl

seen_differs :
    (j k : Key) (seen : List Key)
    → is_seen j seen ≡ true
    → is_seen k seen ≡ false
    → same_key k j ≡ false
seen_differs j k [] s f = absurd (ground arith)
seen_differs j k (i ∷ seen) s f = ground (
  arith,
  seen_differs j k seen,
  ==_iff (j.0) (i.0),
  ==_iff (j.1) (i.1),
  ==_iff (k.0) (i.0),
  ==_iff (k.1) (i.1),
  ==_iff (k.0) (j.0),
  ==_iff (k.1) (j.1),
)

first_on-hit :
    (k : Key) (a : ℕ) (h : Heap) (pairs : List ℕ)
    → (is_ready (h a).state && same_key k (key_of (h a))) ≡ true
    → first_on k h (a ∷ pairs) ≡ some a
unfolding first_on
first_on-hit k a h pairs hit = rw hit refl

-- Channels that are not seen keep their first Ready pair.
dedupe_first_on :
    (k : Key) (seen : List Key) (h : Heap) (p : Option ℕ) (pairs : List ℕ)
    → Distinct pairs
    → is_seen k seen ≡ false
    → let s = dedupe_loop seen h p pairs in first_on k s.heap s.kept ≡ first_on k h pairs
unfolding dedupe_loop
dedupe_first_on k seen h p [] d fresh = unfold first_on in refl
dedupe_first_on k seen h p (a ∷ pairs) d fresh =
    dedupe_round seen h p a pairs (λ s. first_on k s.heap s.kept ≡ first_on k h (a ∷ pairs))
      (λ other.
        first_on-skip k a (dedupe_loop seen h p pairs).heap (dedupe_loop seen h p pairs).kept
          (rw (dedupe_untouched seen h p pairs a d.0, other) refl)
        ∙ dedupe_first_on k seen h p pairs d.1 fresh
        ∙ sym (first_on-skip k a h pairs (rw other refl)))
      (λ twice.
        let g : Heap = with_state a draining h in
        first_on-skip k a (dedupe_loop seen g p pairs).heap (dedupe_loop seen g p pairs).kept
          (rw (dedupe_untouched seen g p pairs a d.0) (ground (arith, ==_iff a a)))
        ∙ dedupe_first_on k seen g p pairs d.1 fresh
        ∙ first_on-write k a (record (h a) { state = draining }) h pairs d.0
        ∙ sym (
            first_on-skip k a h pairs
              (ground (arith, seen_differs (key_of (h a)) k seen twice fresh))))
      (λ fit twice.
        dedupe_first_on k seen (with_state a closed h) (forget_primary a p) pairs d.1 fresh
        ∙ first_on-write k a (record (h a) { state = closed }) h pairs d.0
        ∙ sym (
            first_on-skip k a h pairs
              (ground (arith, seen_differs (key_of (h a)) k seen twice fresh))))
      (λ fit _.
        let s : Swept = dedupe_loop (key_of (h a) ∷ seen) h p pairs in
        let same : s.heap a ≡ h a = dedupe_untouched (key_of (h a) ∷ seen) h p pairs a d.0 in
        elim (Bool-cases (same_key k (key_of (h a)))) [
          | inl hit ↦
              first_on-hit k a s.heap s.kept (rw (same, fit) hit)
              ∙ sym (first_on-hit k a h pairs (rw fit hit))
          | inr miss ↦
              first_on-skip k a s.heap s.kept (rw (same, fit) miss)
              ∙ dedupe_first_on k (key_of (h a) ∷ seen) h p pairs d.1 (rw miss fresh)
              ∙ sym (first_on-skip k a h pairs (rw fit miss))
        ])

IsUnique-seen :
    (seen : List Key) (h : Heap) (pairs : List ℕ) (b : ℕ)
    → IsUnique seen h pairs
    → Has b pairs
    → is_ready (h b).state ≡ true
    → is_seen (key_of (h b)) seen ≡ false
IsUnique-seen seen h [] b u m fit = absurd (ground arith)
IsUnique-seen seen h (a ∷ pairs) b u m fit = elim (Bool-cases (a == b)) [
  | inl hit ↦
      subst (λ x. is_ready (h x).state ≡ true → is_seen (key_of (h x)) seen ≡ false)
        ((==_iff a b).0 hit) u.0 fit
  | inr n ↦ elim (Bool-cases (is_ready (h a).state)) [
    | inl r ↦
        ground
          (arith, IsUnique-seen (key_of (h a) ∷ seen) h pairs b (rw r at u.1) (ground arith) fit)
    | inr r ↦ IsUnique-seen seen h pairs b (rw r at u.1) (ground arith) fit
  ]
]

first_IsUnique :
    (seen : List Key) (h : Heap) (a c : ℕ) (pairs : List ℕ)
    → IsUnique seen h (a ∷ pairs)
    → Has c pairs
    → is_ready (h a).state ≡ true
    → is_ready (h c).state ≡ true
    → key_of (h a) ≡ key_of (h c)
    → ⊥
first_IsUnique seen h a c pairs u m ra rc e =
    let unseen : is_seen (key_of (h c)) (key_of (h a) ∷ seen) ≡ false =
      IsUnique-seen (key_of (h a) ∷ seen) h pairs c (rw ra at u.1) m rc in
    let up : (h a).uplink ≡ (h c).uplink = ap (λ (k : Key). k.0) e in
    let down : (h a).downlink ≡ (h c).downlink = ap (λ (k : Key). k.1) e in
    ground (arith, up, down, ==_iff (h c).uplink (h a).uplink, ==_iff (h c).downlink (h a).downlink)

same_key-IsUnique :
    (seen : List Key) (h : Heap) (pairs : List ℕ) (b c : ℕ)
    → IsUnique seen h pairs
    → Has b pairs
    → Has c pairs
    → is_ready (h b).state ≡ true
    → is_ready (h c).state ≡ true
    → key_of (h b) ≡ key_of (h c)
    → b ≡ c
same_key-IsUnique seen h [] b c u mb mc rb rc e = absurd (ground arith)
same_key-IsUnique seen h (a ∷ pairs) b c u mb mc rb rc e = elim (Bool-cases (a == b)) [
  | inl ab ↦ elim (Bool-cases (a == c)) [
    | inl ac ↦ sym ((==_iff a b).0 ab) ∙ (==_iff a c).0 ac
    | inr n ↦
        let path : a ≡ b = (==_iff a b).0 ab in
        absurd (first_IsUnique seen h a c pairs u (ground arith) (rw path rb) rc (rw path e))
  ]
  | inr n ↦ elim (Bool-cases (a == c)) [
    | inl ac ↦
        let path : a ≡ c = (==_iff a c).0 ac in
        absurd (first_IsUnique seen h a b pairs u (ground arith) (rw path rc) rb (rw path (sym e)))
    | inr k ↦
        same_key-IsUnique (if is_ready (h a).state then key_of (h a) ∷ seen else seen) h pairs b c
          u.1 (ground arith) (ground arith) rb rc e
  ]
]

-- Taking out duplicates leaves the queue no two Ready pairs on the same channels.
pub deduplicate_pairs-IsUnique :
    (w : Warmer)
    → IsWellFormed w
    → (b c : ℕ)
    → let v = deduplicate_pairs w in
      Has b v.pairs
      → Has c v.pairs
      → is_ready (v.heap b).state ≡ true
      → is_ready (v.heap c).state ≡ true
      → key_of (v.heap b) ≡ key_of (v.heap c)
      → b ≡ c
unfolding deduplicate_pairs
deduplicate_pairs-IsUnique w wf b c =
    let s : Swept = dedupe_loop [] w.heap w.primary w.pairs in
    let frame =
      ensure_primary_frame (record w { heap = s.heap; primary = s.primary; pairs = s.kept }) in
    rw (frame.0, frame.1)
      (same_key-IsUnique [] s.heap s.kept b c
        (dedupe-IsUnique [] w.heap w.primary w.pairs wf.distinct))

-- For any two channels, the first Ready pair on them is the same before and after duplicates are
-- taken out.
pub first_on-deduplicate_pairs :
    (k : Key) (w : Warmer)
    → IsWellFormed w
    → let v = deduplicate_pairs w in first_on k v.heap v.pairs ≡ first_on k w.heap w.pairs
unfolding deduplicate_pairs
first_on-deduplicate_pairs k w wf =
    let s : Swept = dedupe_loop [] w.heap w.primary w.pairs in
    let frame =
      ensure_primary_frame (record w { heap = s.heap; primary = s.primary; pairs = s.kept }) in
    rw (frame.0, frame.1) (dedupe_first_on k [] w.heap w.primary w.pairs wf.distinct refl)
