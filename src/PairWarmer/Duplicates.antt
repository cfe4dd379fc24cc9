-- ===== src/PairWarmer/Duplicates.antt =====
-- pair_warmer.go: deduplicatePairs. The text of the key tells the two channels, which stand for it.
pub mod Kept
pub mod Unique
use xtunnel.Base.{
  ℕ, ◌≡◌, ◌⊎◌, inl, inr, refl, sym, ap, ◌∙◌, subst, Bool, true, false, not, ◌&&◌, ◌||◌, Option,
  none, some, List, [], ◌∷◌, ◌==◌, ==_iff, arith, any, All, Bool-cases, if◌then◌else◌,
}
use xtunnel.PairWarmer.Store.{
  State, ready, draining, closed, is_ready, is_closed, Pair, Heap, Warmer, write, with_state,
  is_idle,
}
use xtunnel.PairWarmer.{is_primary, forget_primary, ensure_primary, Swept, stay}
use xtunnel.PairWarmer.Primary.{Has, Lacks, Distinct, PrimaryIn, IsWellFormed, ensure_primary_frame}
use xtunnel.PairWarmer.Sweep.{write_other}
use xtunnel.PairWarmer.Users.{InOrder, elected-InOrder}

abbrev pub Key : Type 0
Key = ℕ × ℕ

abbrev pub key_of : Pair → Key
key_of p = (p.uplink, p.downlink)

abbrev pub same_key : Key → Key → Bool
same_key j k = j.0 == k.0 && j.1 == k.1

abbrev pub is_seen : Key → List Key → Bool
is_seen k seen = any (same_key k) seen

-- The loop over what it has not visited.
unfoldable pub dedupe_loop : List Key → Heap → Option ℕ → List ℕ → Swept
dedupe_loop seen h primary [] = record { heap = h; primary = primary; kept = [] }
dedupe_loop seen h primary (a ∷ pairs) =
    let key = key_of (h a) in
    let skipped = dedupe_loop seen h primary pairs in
    let in_use = dedupe_loop seen (with_state a draining h) primary pairs in
    let removed = dedupe_loop seen (with_state a closed h) (forget_primary a primary) pairs in
    let first = dedupe_loop (key ∷ seen) h primary pairs in
    if not (is_ready (h a).state)
    then stay a skipped
    else if is_seen key seen
    then (if is_idle (h a).refs then removed else stay a in_use)
    else stay a first

unfoldable pub deduplicate_pairs : Warmer → Warmer
deduplicate_pairs w =
    let s = dedupe_loop [] w.heap w.primary w.pairs in
    ensure_primary (record w { heap = s.heap; primary = s.primary; pairs = s.kept })

module _ (seen : List Key) (h : Heap) (p : Option ℕ) (a : ℕ) (pairs : List ℕ) where
  abbrev pub drained : Swept
  drained = dedupe_loop seen (with_state a draining h) p pairs

  abbrev pub dropped : Swept
  dropped = dedupe_loop seen (with_state a closed h) (forget_primary a p) pairs

  -- The four ways of a round.
  pub dedupe_round :
      (P : Swept → Type 0)
      → (is_ready (h a).state ≡ false → P (stay a (dedupe_loop seen h p pairs)))
      → (is_seen (key_of (h a)) seen ≡ true → P (stay a drained))
      → (is_ready (h a).state ≡ true → is_seen (key_of (h a)) seen ≡ true → P dropped)
      → (is_ready (h a).state ≡ true
          → is_seen (key_of (h a)) seen ≡ false
          → P (stay a (dedupe_loop (key_of (h a) ∷ seen) h p pairs)))
      → P (dedupe_loop seen h p (a ∷ pairs))
  unfolding dedupe_loop
  dedupe_round P f g i k = elim (Bool-cases (is_ready (h a).state)) [
    | inr other ↦ rw (dedupe_loop, other) (f other)
    | inl fit ↦ elim (Bool-cases (is_seen (key_of (h a)) seen)) [
      | inr fresh ↦ rw (dedupe_loop, fit, fresh) (k fit fresh)
      | inl twice ↦ elim (Bool-cases (is_idle (h a).refs)) [
        | inl idle ↦ rw (dedupe_loop, fit, twice, idle) (i fit twice)
        | inr used ↦ rw (dedupe_loop, fit, twice, used) (g twice)
      ]
    ]
  ]
