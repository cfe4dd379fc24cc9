-- ===== src/PairWarmer/Slots.antt =====
-- pair_warmer.go: assignPairSlot, the label of a new pair.
use xtunnel.Base.{
  ℕ, zero, suc, ◌+◌, ◌≤◌, ◌<◌, ◌≡◌, Bool, true, false, not, ◌&&◌, ◌==◌, ==_iff, arith, any,
  Bool-cases, inl, inr, if◌then◌else◌,
}
use xtunnel.PairWarmer.Store.{Slot, unassigned, numbered, beyond, Warmer, write}

abbrev pub has_slot : ℕ → Slot → Bool
has_slot i unassigned = false
has_slot i (numbered j) = j == i
has_slot i beyond = false

-- `used[id]` for the id of slot `i`.
abbrev pub is_used : ℕ → ℕ → Warmer → Bool
is_used i a w = any (λ b. not (b == a) && has_slot i (w.heap b).slot) w.pairs

-- The loop from slot `i` with `n` rounds left.
unfoldable pub first_free : ℕ → ℕ → ℕ → Warmer → Slot
first_free zero i a w = beyond
first_free (suc n) i a w =
    let later = first_free n (i + 1) a w in if is_used i a w then later else numbered i

unfoldable pub assign_pair_slot : ℕ → Warmer → Warmer
assign_pair_slot a w = record w {
  heap = write a (record (w.heap a) { slot = first_free 8 1 a w }) w.heap;
}

first_free_sound :
    (n i a : ℕ) (w : Warmer) (k : ℕ)
    → first_free n i a w ≡ numbered k
    → (i ≤ k)
      × (k < i + n)
      × (is_used k a w ≡ false)
      × ((j : ℕ) → i ≤ j → j < k → is_used j a w ≡ true)
unfolding first_free
first_free_sound zero i a w k e = absurd (cc e)
first_free_sound (suc n) i a w k e = elim (Bool-cases (is_used i a w)) [
  | inl used ↦
      let rest = first_free_sound n (i + 1) a w k (rw used at e) in
      (
        omega (arith, rest.0),
        omega (arith, rest.1),
        rest.2,
        λ j lo hi. elim (Bool-cases (j == i)) [
          | inl same ↦ rw ((==_iff j i).0 same) used
          | inr other ↦ rest.3 j (ground (arith, ==_iff j i)) hi
        ],
      )
  | inr free ↦
      let path : i ≡ k = ground arith in
      (
        omega (arith, path),
        omega (arith, path),
        rw⁻¹ path free,
        λ j lo hi. absurd (omega (arith, path)),
      )
]

-- A numbered label is from 1 to 8, no other pair of the queue has it, and every smaller one is
-- another pair's.
pub assign_pair_slot_least :
    (a : ℕ) (w : Warmer) (k : ℕ)
    → ((assign_pair_slot a w).heap a).slot ≡ numbered k
    → (1 ≤ k) × (k ≤ 8) × (is_used k a w ≡ false) × ((j : ℕ) → 1 ≤ j → j < k → is_used j a w ≡ true)
unfolding assign_pair_slot
assign_pair_slot_least a w k e =
    let found : first_free 8 1 a w ≡ numbered k = ground (arith, ==_iff a a) in
    let sound = first_free_sound 8 1 a w k found in
    (sound.0, omega (arith, sound.1), sound.2, sound.3)
