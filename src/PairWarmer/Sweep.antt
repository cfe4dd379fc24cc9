-- ===== src/PairWarmer/Sweep.antt =====
-- pair_warmer.go: what one round of InvalidateChannel's loop after the other makes of the store, the
-- primary and the queue.
use xtunnel.Base.{
  ℕ, ◌≡◌, inl, inr, refl, subst, Bool, true, false, not, ◌&&◌, ◌||◌, Option, none, some, List, [],
  ◌∷◌, ◌==◌, ==_iff, arith, if◌then◌else◌, keep, any, All, Bool-cases,
}
use xtunnel.PairWarmer.Store.{draining, closed, is_closed, Pair, Heap, write, with_state, is_idle}
use xtunnel.PairWarmer.{forget_primary, uses_channel, invalidate_loop}
use xtunnel.PairWarmer.Primary.{Has, Lacks, Distinct}

-- The pair that the failure of `ch` leaves of a pair: closed if nobody uses it, else draining.
abbrev pub after : ℕ → Pair → Pair
after ch p =
    if is_closed p.state || not (uses_channel ch p)
    then p
    else record p { state = if is_idle p.refs then closed else draining }

-- Whether the failure of `ch` takes a pair out of the queue.
abbrev pub goes : ℕ → Pair → Bool
goes ch p = not (is_closed p.state) && uses_channel ch p && is_idle p.refs

pub write_other : (a : ℕ) (q : Pair) (h : Heap) (b : ℕ) → (a == b) ≡ false → write a q h b ≡ h b
write_other a q h b n = ground (arith, ==_iff a b, ==_iff b a)

pub write_here : (a : ℕ) (q : Pair) (h : Heap) (b : ℕ) → (a == b) ≡ true → write a q h b ≡ q
write_here a q h b n = ground (arith, ==_iff a b, ==_iff b a)

pub loop_untouched :
    (ch : ℕ) (h : Heap) (p : Option ℕ) (pairs : List ℕ) (b : ℕ)
    → Lacks b pairs
    → (invalidate_loop ch h p pairs).heap b ≡ h b
unfolding invalidate_loop
loop_untouched ch h p [] b l = refl
loop_untouched ch h p (a ∷ pairs) b l =
    let n : (a == b) ≡ false = ground arith in
    let rest : Lacks b pairs = ground arith in
    ground (
      arith,
      loop_untouched ch h p pairs b rest,
      loop_untouched ch (with_state a closed h) (forget_primary a p) pairs b rest,
      loop_untouched ch (with_state a draining h) p pairs b rest,
      write_other a (record (h a) { state = closed }) h b n,
      write_other a (record (h a) { state = draining }) h b n,
    )

pub loop_touched :
    (ch : ℕ) (h : Heap) (p : Option ℕ) (pairs : List ℕ) (b : ℕ)
    → Distinct pairs
    → Has b pairs
    → (invalidate_loop ch h p pairs).heap b ≡ after ch (h b)
unfolding invalidate_loop
loop_touched ch h p [] b d m = absurd (ground arith)
loop_touched ch h p (a ∷ pairs) b d m = elim (Bool-cases (a == b)) [
  | inl hit ↦
      let path : a ≡ b = ground (arith, ==_iff a b) in
      let rest : Lacks b pairs = subst (λ x. Lacks x pairs) path d.0 in
      ground (
        arith,
        hit,
        path,
        loop_untouched ch h p pairs b rest,
        loop_untouched ch (with_state a closed h) (forget_primary a p) pairs b rest,
        loop_untouched ch (with_state a draining h) p pairs b rest,
        write_here a (record (h a) { state = closed }) h b hit,
        write_here a (record (h a) { state = draining }) h b hit,
      )
  | inr n ↦
      let rest : Has b pairs = ground arith in
      ground (
        arith,
        loop_touched ch h p pairs b d.1 rest,
        loop_touched ch (with_state a closed h) (forget_primary a p) pairs b d.1 rest,
        loop_touched ch (with_state a draining h) p pairs b d.1 rest,
        write_other a (record (h a) { state = closed }) h b n,
        write_other a (record (h a) { state = draining }) h b n,
      )
]

pub loop_primary_none :
    (ch : ℕ) (h : Heap) (pairs : List ℕ) → (invalidate_loop ch h none pairs).primary ≡ none
unfolding invalidate_loop
loop_primary_none ch h [] = refl
loop_primary_none ch h (a ∷ pairs) = ground (
  arith,
  loop_primary_none ch h pairs,
  loop_primary_none ch (with_state a closed h) pairs,
  loop_primary_none ch (with_state a draining h) pairs,
)

-- The primary that the loop leaves: none where the primary is taken out of the queue.
abbrev pub survivor : ℕ → Heap → Option ℕ → List ℕ → Option ℕ
survivor ch h none pairs = none
survivor ch h (some a) pairs = if any (λ b. b == a) pairs && goes ch (h a) then none else some a

pub loop_primary :
    (ch : ℕ) (h : Heap) (a : ℕ) (pairs : List ℕ)
    → Distinct pairs
    → (invalidate_loop ch h (some a) pairs).primary ≡ survivor ch h (some a) pairs
unfolding invalidate_loop
loop_primary ch h a [] d = refl
loop_primary ch h a (x ∷ pairs) d = elim (Bool-cases (x == a)) [
  | inl hit ↦
      let path : x ≡ a = ground (arith, ==_iff x a) in
      let rest : Lacks a pairs = subst (λ y. Lacks y pairs) path d.0 in
      ground (
        arith,
        hit,
        path,
        ==_iff a x,
        loop_primary_none ch (with_state x closed h) pairs,
        loop_primary ch h a pairs d.1,
        loop_primary ch (with_state x draining h) a pairs d.1,
      )
  | inr n ↦
      let m : (a == x) ≡ false = ground (arith, ==_iff x a, ==_iff a x) in
      ground (
        arith,
        loop_primary ch h a pairs d.1,
        m,
        loop_primary ch (with_state x closed h) a pairs d.1,
        loop_primary ch (with_state x draining h) a pairs d.1,
        write_other x (record (h x) { state = closed }) h a n,
        write_other x (record (h x) { state = draining }) h a n,
      )
]

pub agree_write :
    (a : ℕ) (q : Pair) (h g : Heap) (pairs : List ℕ)
    → Lacks a pairs
    → All (λ b. h b ≡ g b) pairs
    → All (λ b. write a q h b ≡ g b) pairs
agree_write a q h g [] l all = tt
agree_write a q h g (x ∷ pairs) l all =
    (ground (arith, ==_iff x a, ==_iff a x), agree_write a q h g pairs (ground arith) all.1)

pub loop_kept :
    (ch : ℕ) (g h : Heap) (p : Option ℕ) (pairs : List ℕ)
    → Distinct pairs
    → All (λ b. h b ≡ g b) pairs
    → (invalidate_loop ch h p pairs).kept ≡ keep (λ b. not (goes ch (g b))) pairs
unfolding invalidate_loop
loop_kept ch g h p [] d all = refl
loop_kept ch g h p (a ∷ pairs) d all = ground (
  arith,
  loop_kept ch g h p pairs d.1 all.1,
  loop_kept ch g (with_state a closed h) (forget_primary a p) pairs d.1
      (agree_write a (record (h a) { state = closed }) h g pairs d.0 all.1),
  loop_kept ch g (with_state a draining h) p pairs d.1
      (agree_write a (record (h a) { state = draining }) h g pairs d.0 all.1),
  all.0,
)

pub same_pairs : (pairs : List ℕ) (h : Heap) → All (λ b. h b ≡ h b) pairs
same_pairs [] h = tt
same_pairs (a ∷ pairs) h = (refl, same_pairs pairs h)
