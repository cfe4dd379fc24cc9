-- ===== src/PairWarmer/Refresh/Shrinks.antt =====
-- pair_warmer.go: the sections of a refresh that put no new pair in the queue.
use xtunnel.Base.{
  ℕ, zero, suc, ◌+◌, ap, ◌∙◌, inl, inr, Bool, not, Option, none, some, List, [], ◌==◌, length, any,
  get_or, Bool-cases,
}
use xtunnel.PairWarmer.Store.{closed, Warmer, with_state}
use xtunnel.PairWarmer.{ensure_primary, remove_pair, invalidate_channel, Swept}
use xtunnel.PairWarmer.Primary.{Lacks, IsWellFormed, ensure_primary_frame}
use xtunnel.PairWarmer.Members.{Lacks-keep}
use xtunnel.PairWarmer.Sweep.{goes}
use xtunnel.PairWarmer.Channels.{invalidate_channel_lem}
use xtunnel.PairWarmer.Pruning.{
  is_prunable, prune_rounds, shifted, prune_pair, prune_idle_draining_pairs,
}
use xtunnel.PairWarmer.Duplicates.{dedupe_loop, deduplicate_pairs}
use xtunnel.PairWarmer.Duplicates.Kept.{dedupe_Lacks}
use xtunnel.PairWarmer.Trimming.{trim_loop, trim_excess_pairs, trim_round, dropped}

-- Every pair of `v`'s queue is one of `w`'s.
abbrev pub Shrinks : Warmer → Warmer → Type 0
Shrinks w v = (b : ℕ) → Lacks b w.pairs → Lacks b v.pairs

pub ensure_primary-Shrinks : (w : Warmer) → Shrinks w (ensure_primary w)
ensure_primary-Shrinks w b l = ap (any (λ x. x == b)) (ensure_primary_frame w).1 ∙ l

pub remove_pair-Shrinks : (a : ℕ) (w : Warmer) → Shrinks w (remove_pair a w)
unfolding remove_pair
remove_pair-Shrinks a w b l = Lacks-keep (λ x. not (x == a)) b w.pairs l

pub invalidate_channel-Shrinks :
    (ch : ℕ) (w : Warmer) → IsWellFormed w → Shrinks w (invalidate_channel ch w)
invalidate_channel-Shrinks ch w wf b l =
    ap (any (λ x. x == b)) (invalidate_channel_lem ch w wf).0
    ∙ Lacks-keep (λ x. not (goes ch (w.heap x))) b w.pairs l

pub deduplicate_pairs-Shrinks : (w : Warmer) → Shrinks w (deduplicate_pairs w)
unfolding deduplicate_pairs
deduplicate_pairs-Shrinks w b l =
    let s : Swept = dedupe_loop [] w.heap w.primary w.pairs in
    ensure_primary-Shrinks (record w { heap = s.heap; primary = s.primary; pairs = s.kept }) b
      (dedupe_Lacks [] w.heap w.primary w.pairs b l)

prune_rounds-Shrinks :
    (n k : ℕ) (array : List ℕ) (w : Warmer) → Shrinks w (prune_rounds n k array w).1
unfolding prune_rounds
prune_rounds-Shrinks zero k array w b l = l
prune_rounds-Shrinks (suc n) k array w b l =
    let a : ℕ = get_or array k 0 in
    elim (Bool-cases (is_prunable a w)) [
      | inl hit ↦
          rw (prune_rounds, hit)
            (prune_rounds-Shrinks n (k + 1) (shifted a w array) (prune_pair a w) b
              (remove_pair-Shrinks a (record w { heap = with_state a closed w.heap }) b l))
      | inr miss ↦ rw (prune_rounds, miss) (prune_rounds-Shrinks n (k + 1) array w b l)
    ]

pub prune_idle_draining_pairs-Shrinks : (w : Warmer) → Shrinks w (prune_idle_draining_pairs w)
unfolding prune_idle_draining_pairs
prune_idle_draining_pairs-Shrinks w b l =
    let r : Bool × Warmer = prune_rounds (length w.pairs) 0 w.pairs w in
    let rounds : Lacks b r.1.pairs = prune_rounds-Shrinks (length w.pairs) 0 w.pairs w b l in
    elim (Bool-cases r.0) [
      | inl gone ↦ rw (prune_idle_draining_pairs, gone) (ensure_primary-Shrinks r.1 b rounds)
      | inr kept ↦ rw (prune_idle_draining_pairs, kept) rounds
    ]

abbrev pub Fits : Warmer → Option Warmer → Type 0
Fits w none = Unit {0}
Fits w (some v) = Shrinks w v

trim_loop-Shrinks : (fuel : ℕ) (w : Warmer) → Fits w (trim_loop fuel w)
unfolding trim_loop
trim_loop-Shrinks zero w = tt
trim_loop-Shrinks (suc fuel) w =
    trim_round fuel w (Fits w) (λ _ b l. l)
      (λ xs a _ _ _. widen (trim_loop fuel (dropped a w)) a (trim_loop-Shrinks fuel (dropped a w)))
      (λ xs a _ _ _ b l. l)
  where
    widen : (o : Option Warmer) (a : ℕ) → Fits (dropped a w) o → Fits w o
    widen none a f = tt
    widen (some v) a f =
        λ b l. f b (remove_pair-Shrinks a (record w { heap = with_state a closed w.heap }) b l)

pub trim_excess_pairs-Shrinks : (fuel : ℕ) (w : Warmer) → Fits w (trim_excess_pairs fuel w)
unfolding trim_excess_pairs
trim_excess_pairs-Shrinks fuel w = elim (Bool-cases (w.pair_count == 0)) [
  | inl unset ↦ rw (trim_excess_pairs, unset) (λ b l. l)
  | inr set ↦ rw (trim_excess_pairs, set) (elected (trim_loop fuel w) (trim_loop-Shrinks fuel w))
]
  where
    elected :
        (o : Option Warmer)
        → Fits w o
        → Fits w (elim o as (λ _. Option Warmer) [ none ↦ none | some v ↦ some (ensure_primary v) ])
    elected none f = tt
    elected (some v) f = λ b l. ensure_primary-Shrinks v b (f b l)
