-- ===== src/PairWarmer/Refresh/Order.antt =====
-- pair_warmer.go: a pass of periodicRefresh leaves the queue in order and without duplicates.
pub mod Placed
pub mod Whole
use xtunnel.Base.{
  ℕ, zero, suc, ◌+◌, ◌-◌, ◌≡◌, ◌≤◌, ◌<◌, refl, sym, ap, ◌∙◌, subst, inl, inr, Bool, true, false,
  not, ◌&&◌, ◌||◌, Option, none, some, List, [], ◌∷◌, ◌++◌, ◌==◌, ==_iff, arith, ltb, leb,
  if◌then◌else◌, length, keep, any, All, Bool-cases, Option-cases,
}
use xtunnel.PairWarmer.Store.{
  State, ready, draining, closed, is_ready, is_closed, Pair, Heap, Warmer, write, with_state,
  is_idle,
}
use xtunnel.PairWarmer.{is_primary, primary_ready, ensure_primary, add_pair, invalidate_channel}
use xtunnel.PairWarmer.Primary.{Has, Lacks, Distinct, PrimaryIn, IsWellFormed, IsElected}
use xtunnel.PairWarmer.Channels.{invalidate_channel-IsRetired}
use xtunnel.PairWarmer.Sweep.{write_other}
use xtunnel.PairWarmer.Users.{InOrder, same_state, recounted-InOrder}
use xtunnel.PairWarmer.Slots.{assign_pair_slot, first_free}
use xtunnel.PairWarmer.Duplicates.Kept.{All-write}
use xtunnel.PairWarmer.Trimming.{ready_count}
use xtunnel.PairWarmer.Refresh.{
  Built, Rotation, on_warmer, new_pair, allocated, build_pair, build_missing, try_build_pairs,
  is_alive, drop_dead, check_spares, health_check_spares,
}
use xtunnel.PairWarmer.Refresh.Shrinks.{Shrinks, invalidate_channel-Shrinks}

pub self : (a : ℕ) → (a == a) ≡ true
self a = (==_iff a a).1 refl

-- No address from the next one on is queued.
abbrev pub HasRoom : ℕ → Warmer → Type 0
HasRoom n w = (b : ℕ) → n ≤ b → Lacks b w.pairs

abbrev pub IsRotation : Rotation → Type 0
IsRotation r = InOrder r.warmer × HasRoom r.races r.warmer

Lacks-last :
    (a b : ℕ) (pairs : List ℕ) → Lacks b pairs → (a == b) ≡ false → Lacks b (pairs ++ (a ∷ []))
Lacks-last a b [] l n = rw n refl
Lacks-last a b (x ∷ pairs) l n = ground (arith, Lacks-last a b pairs (ground arith) n)

Distinct-last :
    (a : ℕ) (pairs : List ℕ) → Lacks a pairs → Distinct pairs → Distinct (pairs ++ (a ∷ []))
Distinct-last a [] l d = (refl, tt)
Distinct-last a (x ∷ pairs) l d = (
  Lacks-last a x pairs d.0 (ground (arith, ==_iff a x, ==_iff x a)),
  Distinct-last a pairs (ground arith) d.1,
)

All-last : (P : ℕ → Type 0) (a : ℕ) (pairs : List ℕ) → All P pairs → P a → All P (pairs ++ (a ∷ []))
All-last P a [] all h = (h, tt)
All-last P a (x ∷ pairs) all h = (all.0, All-last P a pairs all.1 h)

Has-front : (a b : ℕ) (pairs : List ℕ) → Has b pairs → Has b (pairs ++ (a ∷ []))
Has-front a b [] m = absurd (ground arith)
Has-front a b (x ∷ pairs) m = ground (arith, Has-front a b pairs)

Has-last : (a : ℕ) (pairs : List ℕ) → Has a (pairs ++ (a ∷ []))
Has-last a [] = ground (arith, ==_iff a a)
Has-last a (x ∷ pairs) = ground (arith, Has-last a pairs)

pub Has-differs : (a b : ℕ) (pairs : List ℕ) → Lacks a pairs → Has b pairs → (a == b) ≡ false
Has-differs a b pairs l m = elim (Bool-cases (a == b)) [
  | inr other ↦ other
  | inl same ↦ absurd (ground (arith, subst (λ x. Lacks x pairs) ((==_iff a b).0 same) l))
]

abbrev readies : Option ℕ → Heap → Bool
readies o h = elim o [ none ↦ false | some b ↦ is_ready (h b).state ]

-- The primary once a new pair is queued.
elects :
    (a : ℕ) (p : Pair) (o : Option ℕ) (h : Heap) (pairs : List ℕ)
    → is_ready p.state ≡ true
    → Lacks a pairs
    → PrimaryIn o pairs
    → let g : Heap = write a p h in
      let chosen : Option ℕ = if readies o g then o else some a in
      (readies chosen g ≡ true) × PrimaryIn chosen (pairs ++ (a ∷ []))
elects a p none h pairs fit l m = (rw (self a) fit, Has-last a pairs)
elects a p (some b) h pairs fit l m = elim (Bool-cases (is_ready (write a p h b).state)) [
  | inl still ↦ rw still (still, Has-front a b pairs m)
  | inr gone ↦ rw gone (rw (self a) fit, Has-last a pairs)
]

-- A new Ready pair leaves the queue in order.
pub allocated-InOrder :
    (b : Built) (a : ℕ) (w : Warmer) → InOrder w → Lacks a w.pairs → InOrder (allocated b a w)
unfolding add_pair
allocated-InOrder b a w (wf, elected) l =
    let p : Pair = new_pair b in
    let e = elects a p w.primary w.heap w.pairs refl l wf.primary_in in
    (
      record {
        distinct = Distinct-last a w.pairs l wf.distinct;
        live =
            All-last (λ x. is_closed (write a p w.heap x).state ≡ false) a w.pairs
              (All-write (λ q. is_closed q.state ≡ false) a p w.heap w.pairs l wf.live)
              (rw (self a) refl);
        primary_in = e.1;
      },
      inl e.0,
    )

-- A label changes no state.
pub assigned-InOrder : (a : ℕ) (w : Warmer) → InOrder w → InOrder (assign_pair_slot a w)
unfolding assign_pair_slot
assigned-InOrder a w h =
    let p : Pair = record (w.heap a) { slot = first_free 8 1 a w } in
    recounted-InOrder (write a p w.heap) w (same_state a p w.heap refl) h

pub assigned-pairs : (a : ℕ) (w : Warmer) → (assign_pair_slot a w).pairs ≡ w.pairs
unfolding assign_pair_slot
assigned-pairs a w = refl

allocated-HasRoom :
    (b : Built) (n : ℕ) (w : Warmer) → HasRoom n w → HasRoom (suc n) (allocated b n w)
unfolding add_pair
allocated-HasRoom b n w room c h =
    Lacks-last n c w.pairs (room c (omega (arith, h))) (ground (arith, ==_iff n c))

pub build_pair-IsRotation :
    (outcome : ℕ → Option Built) (r : Rotation) → IsRotation r → IsRotation (build_pair outcome r).1
unfolding build_pair
build_pair-IsRotation outcome r (order, room) = elim (Option-cases (outcome r.races)) [
  | inl failed ↦ rw (build_pair, failed) (order, λ b h. room b (omega (arith, h)))
  | inr (b, won) ↦
      rw (build_pair, won)
        (
          allocated-InOrder b r.races r.warmer order (room r.races (omega arith)),
          allocated-HasRoom b r.races r.warmer room,
        )
]

build_missing-IsRotation :
    (n : ℕ) (outcome : ℕ → Option Built) (r : Rotation)
    → IsRotation r
    → IsRotation (build_missing n outcome r)
unfolding build_missing
build_missing-IsRotation zero outcome r h = h
build_missing-IsRotation (suc n) outcome r h =
    let built : Option ℕ × Rotation = build_pair outcome r in
    let next : IsRotation built.1 = build_pair-IsRotation outcome r h in
    elim (Option-cases built.0) [
      | inl failed ↦ rw (build_missing, failed) next
      | inr (a, won) ↦
          rw (build_missing, won)
            (build_missing-IsRotation n outcome (on_warmer (assign_pair_slot a) built.1) (
              assigned-InOrder a built.1.warmer next.0,
              λ b k. ap (any (λ x. x == b)) (assigned-pairs a built.1.warmer) ∙ next.1 b k,
            ))
    ]

pub try_build_pairs-IsRotation :
    (outcome : ℕ → Option Built) (available : List ℕ) (r : Rotation)
    → IsRotation r
    → IsRotation (try_build_pairs outcome available r)
unfolding try_build_pairs
try_build_pairs-IsRotation outcome available r h =
    elim (Bool-cases (leb r.warmer.pair_count (ready_count r.warmer))) [
      | inl enough ↦ rw (try_build_pairs, enough) h
      | inr missing ↦ elim (Bool-cases (ltb (length available) 2)) [
        | inl few ↦ rw (try_build_pairs, missing, few) h
        | inr many ↦
            rw (try_build_pairs, missing, many)
              (build_missing-IsRotation (r.warmer.pair_count - ready_count r.warmer) outcome r h)
      ]
    ]

failed_lem :
    (n ch : ℕ) (w : Warmer)
    → InOrder w
    → HasRoom n w
    → InOrder (invalidate_channel ch w) × HasRoom n (invalidate_channel ch w)
failed_lem n ch w order room =
    let out = invalidate_channel-IsRetired ch w order.0 in
    ((out.0, out.1), λ b h. invalidate_channel-Shrinks ch w order.0 b (room b h))

drop_dead_lem :
    (n ch : ℕ) (available : List ℕ) (w : Warmer)
    → InOrder w
    → HasRoom n w
    → InOrder (drop_dead ch available w) × HasRoom n (drop_dead ch available w)
drop_dead_lem n ch available w order room = elim (Bool-cases (is_alive ch available)) [
  | inl alive ↦ rw alive (order, room)
  | inr dead ↦ rw dead (failed_lem n ch w order room)
]

check_spares_lem :
    (n : ℕ) (h : Heap) (available spares : List ℕ) (w : Warmer)
    → InOrder w
    → HasRoom n w
    → InOrder (check_spares h available spares w) × HasRoom n (check_spares h available spares w)
unfolding check_spares
check_spares_lem n h available [] w order room = (order, room)
check_spares_lem n h available (a ∷ spares) w order room =
    elim (Bool-cases (is_alive (h a).uplink available)) [
      | inr dead ↦
          let next = failed_lem n (h a).uplink w order room in
          rw (check_spares, dead)
            (check_spares_lem n h available spares (invalidate_channel (h a).uplink w) next.0
              next.1)
      | inl alive ↦
          let next = drop_dead_lem n (h a).downlink available w order room in
          rw (check_spares, alive)
            (check_spares_lem n h available spares (drop_dead (h a).downlink available w) next.0
              next.1)
    ]

pub health_check_spares_lem :
    (n : ℕ) (available : List ℕ) (w : Warmer)
    → InOrder w
    → HasRoom n w
    → InOrder (health_check_spares available w) × HasRoom n (health_check_spares available w)
unfolding health_check_spares
health_check_spares_lem n available w order room =
    check_spares_lem n w.heap available
      (keep (λ a. not (is_primary a w.primary) && is_ready (w.heap a).state) w.pairs) w order room
