-- ===== src/PairWarmer/Users.antt =====
-- pair_warmer.go: ReleasePair, invalidatePair and discardCandidatePair, which take a pair out of the
-- queue when nobody uses it.
use xtunnel.Base.{
  ℕ, ◌≡◌, inl, inr, refl, sym, ap, ◌∙◌, subst, Bool, true, false, not, ◌&&◌, Option, none, some,
  List, [], ◌∷◌, ◌==◌, ==_iff, arith, keep, any, All, Bool-cases,
}
use xtunnel.PairWarmer.Store.{
  State, draining, closed, is_ready, is_draining, is_closed, Pair, Heap, Warmer, write, with_state,
  with_refs, is_idle, dec,
}
use xtunnel.PairWarmer.{forget_primary, ensure_primary, remove_pair, release_pair, invalidate_pair}
use xtunnel.PairWarmer.Primary.{
  Lacks, Distinct, PrimaryIn, IsWellFormed, IsElected, ensure_primary-IsElected,
  ensure_primary_frame,
}
use xtunnel.PairWarmer.Members.{Distinct-keep, Has-keep, All-members, All-Has, Has-of-keep}

-- A queue that is in order, and a primary that is elected.
abbrev pub InOrder : Warmer → Type 0
InOrder w = IsWellFormed w × IsElected w

abbrev Elsewhere : ℕ → Heap → Heap → Type 0
Elsewhere a g h = (b : ℕ) → (b == a) ≡ false → g b ≡ h b

forget_primary-PrimaryIn :
    (a : ℕ) (p : Option ℕ) (pairs : List ℕ)
    → PrimaryIn p pairs
    → PrimaryIn (forget_primary a p) (keep (λ b. not (b == a)) pairs)
forget_primary-PrimaryIn a none pairs m = tt
forget_primary-PrimaryIn a (some b) pairs m = elim (Bool-cases (b == a)) [
  | inl hit ↦ rw hit tt
  | inr miss ↦ rw miss (Has-keep (λ x. not (x == a)) b pairs (rw miss refl) m)
]

-- An election puts a well-formed queue in order.
pub elected-InOrder : (w : Warmer) → IsWellFormed w → InOrder (ensure_primary w)
elected-InOrder w wf =
    let frame = ensure_primary_frame w in
    let elected = ensure_primary-IsElected w wf.primary_in in
    (
      record {
        distinct = subst Distinct (sym frame.1) wf.distinct;
        live =
            subst (λ (h : Heap). All (λ b. is_closed (h b).state ≡ false) (ensure_primary w).pairs)
              (sym frame.0)
              (subst (All (λ b. is_closed (w.heap b).state ≡ false)) (sym frame.1) wf.live);
        primary_in = elected.1;
      },
      elected.0,
    )

-- A pair that leaves the queue leaves it well formed, whatever becomes of the pair itself.
dropped-IsWellFormed :
    (a : ℕ) (g : Heap) (w : Warmer)
    → IsWellFormed w
    → Elsewhere a g w.heap
    → IsWellFormed (remove_pair a (record w { heap = g }))
unfolding remove_pair
dropped-IsWellFormed a g w wf same =
    let others : ℕ → Bool = λ b. not (b == a) in
    record {
      distinct = Distinct-keep others w.pairs wf.distinct;
      live =
          All-members (λ b. is_closed (g b).state ≡ false) (keep others w.pairs)
            (λ b m.
              let was = Has-of-keep others b w.pairs m in
              ap (λ (p : Pair). is_closed p.state) (same b (ground (arith, was.1)))
              ∙ All-Has (λ x. is_closed (w.heap x).state ≡ false) w.pairs b wf.live was.0);
      primary_in = forget_primary-PrimaryIn a w.primary w.pairs wf.primary_in;
    }

dropped-InOrder :
    (a : ℕ) (g : Heap) (w : Warmer)
    → IsWellFormed w
    → Elsewhere a g w.heap
    → InOrder (ensure_primary (remove_pair a (record w { heap = g })))
dropped-InOrder a g w wf same =
    elected-InOrder (remove_pair a (record w { heap = g })) (dropped-IsWellFormed a g w wf same)

write-Elsewhere : (a : ℕ) (p : Pair) (h : Heap) → Elsewhere a (write a p h) h
write-Elsewhere a p h b miss = rw miss refl

pub removed-IsWellFormed :
    (a : ℕ) (w : Warmer)
    → IsWellFormed w
    → IsWellFormed (remove_pair a (record w { heap = with_state a closed w.heap }))
removed-IsWellFormed a w wf =
    dropped-IsWellFormed a (with_state a closed w.heap) w wf
      (write-Elsewhere a (record (w.heap a) { state = closed }) w.heap)

pub same_state :
    (a : ℕ) (p : Pair) (h : Heap)
    → p.state ≡ (h a).state
    → (b : ℕ) → (write a p h b).state ≡ (h b).state
same_state a p h e b = elim (Bool-cases (b == a)) [
  | inl hit ↦ rw hit (e ∙ ap (λ x. (h x).state) (sym ((==_iff b a).0 hit)))
  | inr miss ↦ rw miss refl
]

primary_ready_same :
    (p : Option ℕ) (g h : Heap)
    → ((b : ℕ) → (g b).state ≡ (h b).state)
    → (elim p as (λ _. Bool) [ none ↦ false | some a ↦ is_ready (g a).state ])
      ≡ (elim p as (λ _. Bool) [ none ↦ false | some a ↦ is_ready (h a).state ])
primary_ready_same none g h same = refl
primary_ready_same (some a) g h same = ap is_ready (same a)

All-states :
    (P : State → Type 0) (pairs : List ℕ) (g h : Heap)
    → ((b : ℕ) → (g b).state ≡ (h b).state)
    → All (λ b. P (h b).state) pairs
    → All (λ b. P (g b).state) pairs
All-states P [] g h same all = tt
All-states P (b ∷ pairs) g h same all =
    (subst P (sym (same b)) all.0, All-states P pairs g h same all.1)

-- Users that come and go without a change of state leave the queue in order.
pub recounted-InOrder :
    (g : Heap) (w : Warmer)
    → ((b : ℕ) → (g b).state ≡ (w.heap b).state)
    → InOrder w
    → InOrder (record w { heap = g })
recounted-InOrder g w same (wf, elected) = (
  record {
    distinct = wf.distinct;
    live = All-states (λ s. is_closed s ≡ false) w.pairs g w.heap same wf.live;
    primary_in = wf.primary_in;
  },
  elim elected [
    | inl fine ↦ inl (primary_ready_same w.primary g w.heap same ∙ fine)
    | inr (unset, all) ↦ inr (unset, All-states (λ s. is_ready s ≡ false) w.pairs g w.heap same all)
  ],
)

-- Releasing a pair keeps the queue in order: no pair twice, none closed, and a Ready one primary
-- where there is one.
pub release_pair-InOrder : (o : Option ℕ) (w : Warmer) → InOrder w → InOrder (release_pair o w)
unfolding release_pair
release_pair-InOrder none w h = h
release_pair-InOrder (some a) w h =
    let refs = dec (w.heap a).refs in
    let g : Heap = with_refs a refs w.heap in
    elim (Bool-cases (is_idle refs && is_draining (w.heap a).state)) [
      | inl last ↦
          rw (release_pair, last)
            (dropped-InOrder a (with_state a closed g) w h.0 (λ b miss.
              write-Elsewhere a (record (g a) { state = closed }) g b miss
              ∙ write-Elsewhere a (record (w.heap a) { refs = refs }) w.heap b miss))
      | inr busy ↦
          rw (release_pair, busy)
            (recounted-InOrder g w (same_state a (record (w.heap a) { refs = refs }) w.heap refl) h)
    ]

keep-Lacks : (a : ℕ) (pairs : List ℕ) → Lacks a (keep (λ b. not (b == a)) pairs)
keep-Lacks a [] = refl
keep-Lacks a (b ∷ pairs) = ground (arith, keep-Lacks a pairs)

-- The release by the last user takes a draining pair out of the queue.
pub release_pair_last :
    (a : ℕ) (w : Warmer)
    → is_draining (w.heap a).state ≡ true
    → is_idle (dec (w.heap a).refs) ≡ true
    → Lacks a (release_pair (some a) w).pairs
unfolding release_pair
release_pair_last a w drains last =
    let refs = dec (w.heap a).refs in
    let v : Warmer =
      remove_pair a (record w { heap = with_state a closed (with_refs a refs w.heap) }) in
    let both : (is_idle refs && is_draining (w.heap a).state) ≡ true = ground arith in
    rw (release_pair, both)
      (ap (any (λ b. b == a)) (ensure_primary_frame v).1
        ∙ (unfold remove_pair in keep-Lacks a w.pairs))

pub drained-IsWellFormed :
    (a : ℕ) (w : Warmer)
    → IsWellFormed w
    → IsWellFormed (record w { heap = with_state a draining w.heap })
drained-IsWellFormed a w wf = record {
  distinct = wf.distinct;
  live = drained_live w.pairs wf.live;
  primary_in = wf.primary_in;
}
  where
    drained_live :
        (pairs : List ℕ)
        → All (λ b. is_closed (w.heap b).state ≡ false) pairs
        → All (λ b. is_closed (with_state a draining w.heap b).state ≡ false) pairs
    drained_live [] all = tt
    drained_live (b ∷ pairs) all = (ground (arith, all.0), drained_live pairs all.1)

-- Taking a Ready pair out of service keeps the queue well formed and leaves the pair not Ready: it
-- is closed and out of the queue if nobody uses it, and draining otherwise.
pub invalidate_pair-IsWellFormed :
    (a : ℕ) (w : Warmer)
    → IsWellFormed w
    → IsWellFormed (invalidate_pair a w) × (is_ready ((invalidate_pair a w).heap a).state ≡ false)
unfolding invalidate_pair
invalidate_pair-IsWellFormed a w wf = elim (Bool-cases (not (is_ready (w.heap a).state))) [
  | inl other ↦ rw (invalidate_pair, other) (wf, ground arith)
  | inr fit ↦ elim (Bool-cases (is_idle (w.heap a).refs)) [
    | inl idle ↦
        let g : Heap = with_state a closed w.heap in
        rw (invalidate_pair, fit, idle)
          (
            (dropped-InOrder a g w wf
                (write-Elsewhere a (record (w.heap a) { state = closed }) w.heap)).0,
            ap (λ (h : Heap). is_ready (h a).state)
                  (ensure_primary_frame (remove_pair a (record w { heap = g }))).0
                ∙ (unfold remove_pair in ground (arith, ==_iff a a)),
          )
    | inr used ↦
        rw (invalidate_pair, fit, used) (drained-IsWellFormed a w wf, ground (arith, ==_iff a a))
  ]
]
