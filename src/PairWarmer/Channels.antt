-- ===== src/PairWarmer/Channels.antt =====
-- pair_warmer.go: InvalidateChannel, a channel that fails takes its pairs out of service.
use xtunnel.Base.{
  ℕ, ◌≡◌, inl, inr, refl, sym, ap, ◌∙◌, subst, Bool, true, false, not, ◌&&◌, Option, none, some,
  List, arith, keep, All, Bool-cases,
}
use xtunnel.PairWarmer.Store.{
  State, ready, draining, closed, is_ready, is_closed, Pair, Heap, Warmer,
}
use xtunnel.PairWarmer.{uses_channel, Swept, invalidate_loop, invalidate_channel}
use xtunnel.PairWarmer.Primary.{
  Has, Lacks, Distinct, PrimaryIn, IsWellFormed, IsElected, ensure_primary-IsElected,
  ensure_primary_frame,
}
use xtunnel.PairWarmer.Members.{Distinct-keep, Has-keep, All-members, All-Has, Has-of-keep}
use xtunnel.PairWarmer.Sweep.{
  after, goes, loop_untouched, loop_touched, loop_primary_none, survivor, loop_primary, loop_kept,
  same_pairs,
}

-- The failure of `ch` takes exactly its unused pairs out of the queue; each pair of the queue becomes
-- what `after` says, and no other pair of the store changes.
pub invalidate_channel_lem :
    (ch : ℕ) (w : Warmer)
    → IsWellFormed w
    → ((invalidate_channel ch w).pairs ≡ keep (λ b. not (goes ch (w.heap b))) w.pairs)
      × ((b : ℕ) → Has b w.pairs → (invalidate_channel ch w).heap b ≡ after ch (w.heap b))
      × ((b : ℕ) → Lacks b w.pairs → (invalidate_channel ch w).heap b ≡ w.heap b)
unfolding invalidate_channel
invalidate_channel_lem ch w wf =
    let s : Swept = invalidate_loop ch w.heap w.primary w.pairs in
    let frame =
      ensure_primary_frame (record w { heap = s.heap; primary = s.primary; pairs = s.kept }) in
    (
      frame.1
          ∙ loop_kept ch w.heap w.heap w.primary w.pairs wf.distinct (same_pairs w.pairs w.heap),
      λ b m.
          ap (λ (h : Heap). h b) frame.0 ∙ loop_touched ch w.heap w.primary w.pairs b wf.distinct m,
      λ b l. ap (λ (h : Heap). h b) frame.0 ∙ loop_untouched ch w.heap w.primary w.pairs b l,
    )

-- No pair of the queue is Ready and uses the channel.
abbrev pub IsRetired : ℕ → Warmer → Type 0
IsRetired ch w =
    All (λ b. (is_ready (w.heap b).state && uses_channel ch (w.heap b)) ≡ false) w.pairs

after_live :
    (ch : ℕ) (p : Pair)
    → is_closed p.state ≡ false
    → goes ch p ≡ false
    → is_closed (after ch p).state ≡ false
after_live ch p l g = ground arith

closed_not_ready : (s : State) → is_closed s ≡ true → is_ready s ≡ false
closed_not_ready ready e = absurd (ground arith)
closed_not_ready draining e = refl
closed_not_ready closed e = refl

after_retired :
    (ch : ℕ) (p : Pair) → (is_ready (after ch p).state && uses_channel ch (after ch p)) ≡ false
after_retired ch p = ground (arith, closed_not_ready p.state)

survivor-PrimaryIn :
    (ch : ℕ) (h : Heap) (p : Option ℕ) (pairs : List ℕ)
    → PrimaryIn p pairs
    → PrimaryIn (survivor ch h p pairs) (keep (λ b. not (goes ch (h b))) pairs)
survivor-PrimaryIn ch h none pairs m = tt
survivor-PrimaryIn ch h (some a) pairs m = elim (Bool-cases (goes ch (h a))) [
  | inl gone ↦ rw (m, gone) tt
  | inr stays ↦ rw (m, stays) (Has-keep (λ b. not (goes ch (h b))) a pairs (rw stays refl) m)
]

loop_primary_lem :
    (ch : ℕ) (h : Heap) (p : Option ℕ) (pairs : List ℕ)
    → Distinct pairs
    → (invalidate_loop ch h p pairs).primary ≡ survivor ch h p pairs
loop_primary_lem ch h none pairs d = loop_primary_none ch h pairs
loop_primary_lem ch h (some a) pairs d = loop_primary ch h a pairs d

invalidate_channel-IsElected :
    (ch : ℕ) (w : Warmer)
    → IsWellFormed w
    → IsElected (invalidate_channel ch w)
      × PrimaryIn (invalidate_channel ch w).primary (invalidate_channel ch w).pairs
unfolding invalidate_channel
invalidate_channel-IsElected ch w wf =
    let s : Swept = invalidate_loop ch w.heap w.primary w.pairs in
    ensure_primary-IsElected (record w { heap = s.heap; primary = s.primary; pairs = s.kept })
      (rw
        (
          loop_primary_lem ch w.heap w.primary w.pairs wf.distinct,
          loop_kept ch w.heap w.heap w.primary w.pairs wf.distinct (same_pairs w.pairs w.heap),
        )
        (survivor-PrimaryIn ch w.heap w.primary w.pairs wf.primary_in))

-- The failure of a channel keeps the queue well formed, elects a primary again, and leaves the queue
-- no Ready pair that uses the channel.
pub invalidate_channel-IsRetired :
    (ch : ℕ) (w : Warmer)
    → IsWellFormed w
    → IsWellFormed (invalidate_channel ch w)
      × IsElected (invalidate_channel ch w)
      × IsRetired ch (invalidate_channel ch w)
invalidate_channel-IsRetired ch w wf =
    let lem = invalidate_channel_lem ch w wf in
    let kept : ℕ → Bool = λ b. not (goes ch (w.heap b)) in
    let elected = invalidate_channel-IsElected ch w wf in
    (
      record {
        distinct = subst Distinct (sym lem.0) (Distinct-keep kept w.pairs wf.distinct);
        live =
            subst (All (λ b. is_closed ((invalidate_channel ch w).heap b).state ≡ false))
              (sym lem.0)
              (All-members (λ b. is_closed ((invalidate_channel ch w).heap b).state ≡ false)
                (keep kept w.pairs)
                (λ b m.
                  let was = Has-of-keep kept b w.pairs m in
                  rw (lem.1 b was.0) (
                    after_live ch (w.heap b)
                      (All-Has (λ a. is_closed (w.heap a).state ≡ false) w.pairs b wf.live was.0)
                      (ground (arith, was.1)))));
        primary_in = elected.1;
      },
      elected.0,
      subst
          (All (λ b.
            (is_ready ((invalidate_channel ch w).heap b).state
              && uses_channel ch ((invalidate_channel ch w).heap b))
            ≡ false))
          (sym lem.0)
          (All-members
            (λ b.
              (is_ready ((invalidate_channel ch w).heap b).state
                && uses_channel ch ((invalidate_channel ch w).heap b))
              ≡ false)
            (keep kept w.pairs)
            (λ b m. rw (lem.1 b (Has-of-keep kept b w.pairs m).0) (after_retired ch (w.heap b)))),
    )
