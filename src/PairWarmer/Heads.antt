-- ===== src/PairWarmer/Heads.antt =====
-- pair_warmer.go: the choice of the queue's head after a race, findReadyMatchLocked, promoteToHead
-- and replaceHeadWithCandidate.
use xtunnel.Base.{
  ℕ, ◌≡◌, inl, inr, refl, subst, Bool, true, false, not, ◌&&◌, ◌||◌, Option, none, some, List, [],
  ◌∷◌, ◌==◌, ==_iff, arith, any, All, Bool-cases, if◌then◌else◌,
}
use xtunnel.PairWarmer.Store.{
  State, ready, draining, closed, is_ready, is_closed, Pair, Heap, Warmer,
}
use xtunnel.PairWarmer.{is_primary}
use xtunnel.PairWarmer.Primary.{Lacks, Distinct, IsWellFormed}
use xtunnel.PairWarmer.Users.{InOrder}

abbrev pub pair_channels_equal : Pair → Pair → Bool
pair_channels_equal p q = p.uplink == q.uplink && p.downlink == q.downlink

-- The loop, with the first spare that matched so far. The first result is the primary.
unfoldable pub find_match : Heap → Option ℕ → ℕ → Option ℕ → List ℕ → Option ℕ × Option ℕ
find_match h primary candidate spare [] = (none, spare)
find_match h primary candidate spare (a ∷ pairs) =
    let skipped = find_match h primary candidate spare pairs in
    let found =
      find_match h primary candidate (elim spare [ none ↦ some a | some b ↦ some b ]) pairs in
    if (a == candidate || not (is_ready (h a).state))
      || not (pair_channels_equal (h candidate) (h a))
    then skipped
    else if is_primary a primary
    then (some a, none)
    else found

unfoldable pub find_ready_match : ℕ → Warmer → Option ℕ × Option ℕ
find_ready_match candidate w = find_match w.heap w.primary candidate none w.pairs

-- `append(pairs[:i], pairs[i+1:]...)` at the first place of the pair.
unfoldable pub remove_first : ℕ → List ℕ → List ℕ
remove_first a [] = []
remove_first a (b ∷ pairs) = let rest = remove_first a pairs in if b == a then pairs else b ∷ rest

abbrev pub is_queued : ℕ → List ℕ → Bool
is_queued a pairs = any (λ b. b == a) pairs

unfoldable pub promote_to_head : ℕ → Warmer → Warmer
promote_to_head a w =
    if is_queued a w.pairs
    then record w { pairs = a ∷ remove_first a w.pairs; primary = some a }
    else w

-- The old head that becomes the second pair.
abbrev pub demoted : ℕ → Option ℕ → Heap → Option ℕ
demoted candidate none h = none
demoted candidate (some old) h =
    if not (old == candidate) && is_ready (h old).state then some old else none

-- The queue behind the candidate.
abbrev pub behind : Option ℕ → List ℕ → List ℕ
behind none pairs = pairs
behind (some old) pairs = old ∷ remove_first old pairs

unfoldable pub replace_head : ℕ → Option ℕ → Warmer → Warmer
replace_head candidate old w =
    if is_queued candidate w.pairs
    then record w {
      pairs = candidate ∷ behind (demoted candidate old w.heap) (remove_first candidate w.pairs);
      primary = some candidate;
    }
    else w

pub Lacks-remove_first : (a b : ℕ) (pairs : List ℕ) → Lacks a pairs → Lacks a (remove_first b pairs)
unfolding remove_first
Lacks-remove_first a b [] l = refl
Lacks-remove_first a b (x ∷ pairs) l = ground (arith, Lacks-remove_first a b pairs)

pub Distinct-remove_first :
    (a : ℕ) (pairs : List ℕ) → Distinct pairs → Distinct (remove_first a pairs)
unfolding remove_first
Distinct-remove_first a [] d = tt
Distinct-remove_first a (x ∷ pairs) d = elim (Bool-cases (x == a)) [
  | inl hit ↦ rw (remove_first, hit) d.1
  | inr miss ↦
      rw (remove_first, miss) (Lacks-remove_first x a pairs d.0, Distinct-remove_first a pairs d.1)
]

pub remove_first-Lacks : (a : ℕ) (pairs : List ℕ) → Distinct pairs → Lacks a (remove_first a pairs)
unfolding remove_first
remove_first-Lacks a [] d = refl
remove_first-Lacks a (x ∷ pairs) d = elim (Bool-cases (x == a)) [
  | inl hit ↦ rw (remove_first, hit) (subst (λ y. Lacks y pairs) ((==_iff x a).0 hit) d.0)
  | inr miss ↦ rw (remove_first, miss, miss) (remove_first-Lacks a pairs d.1)
]

pub All-remove_first :
    (P : ℕ → Type 0) (a : ℕ) (pairs : List ℕ) → All P pairs → All P (remove_first a pairs)
unfolding remove_first
All-remove_first P a [] all = tt
All-remove_first P a (x ∷ pairs) all = elim (Bool-cases (x == a)) [
  | inl hit ↦ rw (remove_first, hit) all.1
  | inr miss ↦ rw (remove_first, miss) (all.0, All-remove_first P a pairs all.1)
]

ready_live : (s : State) → is_ready s ≡ true → is_closed s ≡ false
ready_live ready e = refl
ready_live draining e = refl
ready_live closed e = absurd (ground arith)

-- A queue that begins with its primary, which is Ready.
headed-InOrder :
    (a : ℕ) (pairs : List ℕ) (w : Warmer)
    → is_ready (w.heap a).state ≡ true
    → Lacks a pairs
    → Distinct pairs
    → All (λ b. is_closed (w.heap b).state ≡ false) pairs
    → InOrder (record w { pairs = a ∷ pairs; primary = some a })
headed-InOrder a pairs w fit l d live = (
  record {
    distinct = (l, d);
    live = (ready_live (w.heap a).state fit, live);
    primary_in = ground (arith, ==_iff a a);
  },
  inl fit,
)

-- Promoting a Ready pair keeps the queue in order.
pub promote_to_head-InOrder :
    (a : ℕ) (w : Warmer)
    → is_ready (w.heap a).state ≡ true
    → InOrder w
    → InOrder (promote_to_head a w)
unfolding promote_to_head
promote_to_head-InOrder a w fit (wf, elected) = elim (Bool-cases (is_queued a w.pairs)) [
  | inl queued ↦
      rw (promote_to_head, queued)
        (headed-InOrder a (remove_first a w.pairs) w fit (remove_first-Lacks a w.pairs wf.distinct)
          (Distinct-remove_first a w.pairs wf.distinct)
          (All-remove_first (λ b. is_closed (w.heap b).state ≡ false) a w.pairs wf.live))
  | inr gone ↦ rw (promote_to_head, gone) (wf, elected)
]

behind-InOrder :
    (a : ℕ) (o : Option ℕ) (w : Warmer)
    → is_ready (w.heap a).state ≡ true
    → ((b : ℕ) → o ≡ some b → ((b == a) ≡ false) × (is_ready (w.heap b).state ≡ true))
    → IsWellFormed w
    → InOrder (record w { pairs = a ∷ behind o (remove_first a w.pairs); primary = some a })
behind-InOrder a none w fit second wf =
    headed-InOrder a (remove_first a w.pairs) w fit (remove_first-Lacks a w.pairs wf.distinct)
      (Distinct-remove_first a w.pairs wf.distinct)
      (All-remove_first (λ b. is_closed (w.heap b).state ≡ false) a w.pairs wf.live)
behind-InOrder a (some b) w fit second wf =
    let rest : List ℕ = remove_first a w.pairs in
    let d : Distinct rest = Distinct-remove_first a w.pairs wf.distinct in
    let other = second b refl in
    let miss : (b == a) ≡ false = other.0 in
    headed-InOrder a (b ∷ remove_first b rest) w fit
      (ground (arith, miss, Lacks-remove_first a b rest (remove_first-Lacks a w.pairs wf.distinct)))
      (remove_first-Lacks b rest d, Distinct-remove_first b rest d)
      (
        ready_live (w.heap b).state other.1,
        All-remove_first (λ x. is_closed (w.heap x).state ≡ false) b rest
            (All-remove_first (λ x. is_closed (w.heap x).state ≡ false) a w.pairs wf.live),
      )

demoted_ready :
    (a : ℕ) (old : Option ℕ) (h : Heap) (b : ℕ)
    → demoted a old h ≡ some b
    → ((b == a) ≡ false) × (is_ready (h b).state ≡ true)
demoted_ready a none h b e = absurd (cc e)
demoted_ready a (some o) h b e = elim (Bool-cases (not (o == a) && is_ready (h o).state)) [
  | inl fits ↦
      let path : o ≡ b = ground arith in
      subst (λ x. ((x == a) ≡ false) × (is_ready (h x).state ≡ true)) path
        (ground arith, ground arith)
  | inr unfit ↦ absurd (ground arith)
]

-- A Ready candidate that replaces the head leaves the queue in order, the old head behind it at most
-- once, whether or not the old head is still queued.
pub replace_head-InOrder :
    (candidate : ℕ) (old : Option ℕ) (w : Warmer)
    → is_ready (w.heap candidate).state ≡ true
    → InOrder w
    → InOrder (replace_head candidate old w)
unfolding replace_head
replace_head-InOrder candidate old w fit (wf, elected) =
    elim (Bool-cases (is_queued candidate w.pairs)) [
      | inl queued ↦
          rw (replace_head, queued)
            (behind-InOrder candidate (demoted candidate old w.heap) w fit
              (demoted_ready candidate old w.heap) wf)
      | inr gone ↦ rw (replace_head, gone) (wf, elected)
    ]
