-- ===== src/PairWarmer/Refresh/Order/Placed.antt =====
-- pair_warmer.go: a new pair beside those of the queue.
use mathlib.Core.Option.{some-injective}
use xtunnel.Base.{
  ℕ, ◌≡◌, refl, subst, inl, inr, true, false, not, ◌&&◌, Option, none, some, List, ◌∷◌, ◌==◌,
  ==_iff, arith, Bool-cases,
}
use xtunnel.PairWarmer.Store.{closed, is_ready, is_closed, Heap, Warmer, with_state, is_idle}
use xtunnel.PairWarmer.{remove_pair, discard_candidate_pair}
use xtunnel.PairWarmer.Primary.{Has, Lacks, PrimaryIn, IsWellFormed}
use xtunnel.PairWarmer.Members.{All-Has}
use xtunnel.PairWarmer.Users.{InOrder, elected-InOrder, removed-IsWellFormed, drained-IsWellFormed}
use xtunnel.PairWarmer.Heads.{
  remove_first, is_queued, demoted, behind, promote_to_head, replace_head, replace_head-InOrder,
  Lacks-remove_first, remove_first-Lacks, Distinct-remove_first, All-remove_first,
}
use xtunnel.PairWarmer.Refresh.Shrinks.{ensure_primary-Shrinks, remove_pair-Shrinks}
use xtunnel.PairWarmer.Refresh.Order.{HasRoom, self, Has-differs}

-- Well formed, with no address from `n` on in the queue.
abbrev pub IsPlaced : ℕ → Warmer → Type 0
IsPlaced n w = IsWellFormed w × HasRoom n w

pub discarded : (n a : ℕ) (w : Warmer) → IsPlaced n w → IsPlaced n (discard_candidate_pair a w)
unfolding discard_candidate_pair
discarded n a w (wf, room) =
    let gone : Warmer = remove_pair a (record w { heap = with_state a closed w.heap }) in
    elim (Bool-cases (is_idle (w.heap a).refs)) [
      | inl idle ↦
          rw (discard_candidate_pair, idle)
            (
              (elected-InOrder gone (removed-IsWellFormed a w wf)).0,
              λ b h. ensure_primary-Shrinks gone b (
                  remove_pair-Shrinks a (record w { heap = with_state a closed w.heap }) b
                    (room b h)),
            )
      | inr used ↦ rw (discard_candidate_pair, used) (drained-IsWellFormed a w wf, room)
    ]

pub promoted : (n a : ℕ) (w : Warmer) → IsPlaced n w → IsPlaced n (promote_to_head a w)
unfolding promote_to_head
promoted n a w (wf, room) = elim (Bool-cases (is_queued a w.pairs)) [
  | inr gone ↦ rw (promote_to_head, gone) (wf, room)
  | inl queued ↦
      rw (promote_to_head, queued)
        (
          record {
            distinct = (
              remove_first-Lacks a w.pairs wf.distinct,
              Distinct-remove_first a w.pairs wf.distinct,
            );
            live = (
              All-Has (λ b. is_closed (w.heap b).state ≡ false) w.pairs a wf.live queued,
              All-remove_first (λ b. is_closed (w.heap b).state ≡ false) a w.pairs wf.live,
            );
            primary_in = rw (self a) refl;
          },
          λ b h. ground (
            arith,
            Has-differs b a w.pairs (room b h) queued,
            ==_iff a b,
            ==_iff b a,
            Lacks-remove_first b a w.pairs (room b h),
          ),
        )
]

demoted_from : (a : ℕ) (o : Option ℕ) (h : Heap) (b : ℕ) → demoted a o h ≡ some b → o ≡ some b
demoted_from a none h b e = e
demoted_from a (some old) h b e = elim (Bool-cases (not (old == a) && is_ready (h old).state)) [
  | inl fits ↦ rw fits at e
  | inr unfit ↦ absurd (cc (rw unfit at e))
]

PrimaryIn-Has :
    (o : Option ℕ) (b : ℕ) (pairs : List ℕ) → PrimaryIn o pairs → o ≡ some b → Has b pairs
PrimaryIn-Has none b pairs m e = absurd (cc e)
PrimaryIn-Has (some c) b pairs m e = subst (λ x. Has x pairs) (some-injective c b e) m

behind-Lacks :
    (o : Option ℕ) (b : ℕ) (pairs : List ℕ)
    → ((c : ℕ) → o ≡ some c → (c == b) ≡ false)
    → Lacks b pairs
    → Lacks b (behind o pairs)
behind-Lacks none b pairs f l = l
behind-Lacks (some c) b pairs f l = rw (f c refl) (Lacks-remove_first b c pairs l)

pub replaced :
    (n a : ℕ) (w : Warmer)
    → is_ready (w.heap a).state ≡ true
    → InOrder w
    → HasRoom n w
    → IsPlaced n (replace_head a w.primary w)
unfolding replace_head
replaced n a w fit order room = (
  (replace_head-InOrder a w.primary w fit order).0,
  λ b h. elim (Bool-cases (is_queued a w.pairs)) [
    | inr gone ↦ rw (replace_head, gone) (room b h)
    | inl queued ↦
        rw (replace_head, queued)
          (cons_lacks b a (behind (demoted a w.primary w.heap) (remove_first a w.pairs))
            (ground (arith, Has-differs b a w.pairs (room b h) queued, ==_iff a b, ==_iff b a))
            (behind-Lacks (demoted a w.primary w.heap) b (remove_first a w.pairs)
              (λ c e. ground (
                arith,
                ==_iff c b,
                ==_iff b c,
                Has-differs b c w.pairs (room b h) (
                    PrimaryIn-Has w.primary c w.pairs order.0.primary_in
                      (demoted_from a w.primary w.heap c e)),
              ))
              (Lacks-remove_first b a w.pairs (room b h))))
  ],
)
  where
    cons_lacks : (b x : ℕ) (pairs : List ℕ) → (x == b) ≡ false → Lacks b pairs → Lacks b (x ∷ pairs)
    cons_lacks b x pairs other l = rw other l
