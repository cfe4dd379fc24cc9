-- ===== src/PairWarmer/Refresh/Order/Whole.antt =====
-- pair_warmer.go: a whole pass of periodicRefresh.
use mathlib.Core.Option.{some-injective}
use xtunnel.Base.{
  ℕ, suc, ◌≡◌, refl, sym, ap, ◌∙◌, subst, inl, inr, true, Option, none, some, List, ◌==◌, ==_iff,
  arith, ltb, length, Bool-cases, Option-cases,
}
use xtunnel.PairWarmer.Store.{is_ready, Pair, Warmer}
use xtunnel.PairWarmer.{add_pair, is_primary}
use xtunnel.PairWarmer.Primary.{Has}
use xtunnel.PairWarmer.Users.{InOrder, same_state}
use xtunnel.PairWarmer.Pruning.{prune_idle_draining_pairs, prune_idle_draining_pairs-InOrder}
use xtunnel.PairWarmer.Heads.{find_ready_match, promote_to_head}
use xtunnel.PairWarmer.Slots.{assign_pair_slot, first_free}
use xtunnel.PairWarmer.Duplicates.{deduplicate_pairs, key_of}
use xtunnel.PairWarmer.Duplicates.Kept.{deduplicate_pairs-InOrder}
use xtunnel.PairWarmer.Duplicates.Unique.{deduplicate_pairs-IsUnique}
use xtunnel.PairWarmer.Notices.{heartbeat_hot_pair_notify}
use xtunnel.PairWarmer.Trimming.{ready_count, trim_excess_pairs}
use xtunnel.PairWarmer.Trimming.Tail.{trim_excess_pairs-staying}
use xtunnel.PairWarmer.Refresh.{
  Built, Rotation, on_warmer, build_pair, place, place_candidate, race_again, trimmed,
  try_build_pairs, health_check_spares, periodic_refresh,
}
use xtunnel.PairWarmer.Refresh.Shrinks.{
  Fits, Shrinks, prune_idle_draining_pairs-Shrinks, deduplicate_pairs-Shrinks,
  trim_excess_pairs-Shrinks,
}
use xtunnel.PairWarmer.Refresh.Order.{
  HasRoom, IsRotation, assigned-InOrder, build_pair-IsRotation, try_build_pairs-IsRotation,
  health_check_spares_lem,
}
use xtunnel.PairWarmer.Refresh.Order.Placed.{IsPlaced, discarded, promoted, replaced}

placed :
    (m : Option ℕ × Option ℕ) (n a : ℕ) (w : Warmer)
    → is_ready (w.heap a).state ≡ true
    → InOrder w
    → HasRoom n w
    → IsPlaced n (place m a w)
unfolding assign_pair_slot
placed (some head, spare) n a w fit order room = discarded n a w (order.0, room)
placed (none, some spare) n a w fit order room =
    discarded n a (promote_to_head spare w) (promoted n spare w (order.0, room))
placed (none, none) n a w fit order room = elim (Bool-cases (is_primary a w.primary)) [
  | inl head ↦ rw head ((assigned-InOrder a w order).0, room)
  | inr other ↦
      let p : Pair = record (w.heap a) { slot = first_free 8 1 a w } in
      rw other (
        replaced n a (assign_pair_slot a w) (ap is_ready (same_state a p w.heap refl a) ∙ fit)
          (assigned-InOrder a w order) room)
]

build_pair_ready :
    (outcome : ℕ → Option Built) (r : Rotation) (a : ℕ)
    → (build_pair outcome r).0 ≡ some a
    → is_ready ((build_pair outcome r).1.warmer.heap a).state ≡ true
unfolding build_pair add_pair
build_pair_ready outcome r a = elim (Option-cases (outcome r.races)) [
  | inl failed ↦ rw (build_pair, failed) (λ e. absurd (cc e))
  | inr (b, won) ↦
      rw (build_pair, won)
        (λ e.
          let path : a ≡ r.races = sym (some-injective r.races a e) in
          ground (arith, path, ==_iff a r.races))
]

race_again-IsPlaced :
    (outcome : ℕ → Option Built) (available : List ℕ) (r : Rotation)
    → IsRotation r
    → let v = race_again outcome available r in IsPlaced v.races v.warmer
unfolding race_again place_candidate
race_again-IsPlaced outcome available r h =
    let built : Option ℕ × Rotation = build_pair outcome r in
    let next : IsRotation built.1 = build_pair-IsRotation outcome r h in
    elim (Bool-cases (ltb (length available) 2)) [
      | inl few ↦ rw (race_again, few) (h.0.0, h.1)
      | inr many ↦ elim (Option-cases built.0) [
        | inl failed ↦ rw (race_again, many, failed) (next.0.0, next.1)
        | inr (a, won) ↦
            rw (race_again, many, won)
              (placed (find_ready_match a built.1.warmer) built.1.races a built.1.warmer
                (build_pair_ready outcome r a won) next.0 next.1)
      ]
    ]

trim_unset :
    (fuel : ℕ) (w : Warmer) → (w.pair_count == 0) ≡ true → trim_excess_pairs fuel w ≡ some w
unfolding trim_excess_pairs
trim_unset fuel w unset = rw (trim_excess_pairs, unset) refl

trimmed_lem :
    (n : ℕ) (w : Warmer) → InOrder w → HasRoom n w → InOrder (trimmed w) × HasRoom n (trimmed w)
unfolding trimmed
trimmed_lem n w order room = elim (Bool-cases (w.pair_count == 0)) [
  | inl unset ↦ rw (trimmed, trim_unset (suc (ready_count w)) w unset) (order, room)
  | inr set ↦
      let fuel : ℕ = suc (ready_count w) in
      let (v, e, ordered, _) =
        trim_excess_pairs-staying fuel w (omega arith) (ground (arith, ==_iff w.pair_count 0))
          order.0 in
      let small : Shrinks w v = subst (Fits w) e (trim_excess_pairs-Shrinks fuel w) in
      rw (trimmed, e) (ordered, λ b h. small b (room b h))
]

module _ (outcome : ℕ → Option Built) (available : List ℕ) (r : Rotation) where
  abbrev pruned : Rotation
  pruned =
      on_warmer prune_idle_draining_pairs
        (record r { notifier = heartbeat_hot_pair_notify r.warmer r.notifier })

  abbrev raced : Rotation
  raced = race_again outcome available pruned

  abbrev checked : Rotation
  checked = on_warmer (λ w. trimmed (health_check_spares available (deduplicate_pairs w))) raced

  -- The queue before its duplicates are taken out for the second time.
  abbrev pub refilled : Rotation
  refilled = try_build_pairs outcome available checked

  refilled-IsRotation : IsRotation r → IsRotation refilled
  refilled-IsRotation (order, room) =
      let placed = race_again-IsPlaced outcome available pruned (
        prune_idle_draining_pairs-InOrder r.warmer order,
        λ b h. prune_idle_draining_pairs-Shrinks r.warmer b (room b h),
      ) in
      let healthy =
        health_check_spares_lem raced.races available (deduplicate_pairs raced.warmer)
          (deduplicate_pairs-InOrder raced.warmer placed.0)
          (λ b h. deduplicate_pairs-Shrinks raced.warmer b (placed.1 b h)) in
      try_build_pairs-IsRotation outcome available checked (
        trimmed_lem raced.races (health_check_spares available (deduplicate_pairs raced.warmer))
          healthy.0 healthy.1)

-- A pass over a queue in order leaves it in order: no pair twice, none closed, and a Ready pair
-- primary where there is one; and addresses not yet used stay unused.
pub periodic_refresh-IsRotation :
    (outcome : ℕ → Option Built) (available : List ℕ) (r : Rotation)
    → IsRotation r
    → IsRotation (periodic_refresh outcome available r)
unfolding periodic_refresh
periodic_refresh-IsRotation outcome available r h =
    let filled : Rotation = refilled outcome available r in
    let known = refilled-IsRotation outcome available r h in
    (
      deduplicate_pairs-InOrder filled.warmer known.0.0,
      λ b k. deduplicate_pairs-Shrinks filled.warmer b (known.1 b k),
    )

-- After a pass over a queue in order no two Ready pairs are on the same channels.
pub periodic_refresh-IsUnique :
    (outcome : ℕ → Option Built) (available : List ℕ) (r : Rotation) (b c : ℕ)
    → IsRotation r
    → let w = (periodic_refresh outcome available r).warmer in
      Has b w.pairs
      → Has c w.pairs
      → is_ready (w.heap b).state ≡ true
      → is_ready (w.heap c).state ≡ true
      → key_of (w.heap b) ≡ key_of (w.heap c)
      → b ≡ c
unfolding periodic_refresh
periodic_refresh-IsUnique outcome available r b c h =
    deduplicate_pairs-IsUnique (refilled outcome available r).warmer
      (refilled-IsRotation outcome available r h).0.0 b c
