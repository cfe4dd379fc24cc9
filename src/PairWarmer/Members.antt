-- ===== src/PairWarmer/Members.antt =====
-- What a queue of addresses keeps when some of its pairs go.
use xtunnel.Base.{
  ℕ, ◌≡◌, refl, subst, Bool, true, List, [], ◌∷◌, ◌==◌, ==_iff, arith, keep, All, Bool-cases, inl,
  inr,
}
use xtunnel.PairWarmer.Primary.{Has, Lacks, Distinct}

pub Lacks-keep : (p : ℕ → Bool) (a : ℕ) (pairs : List ℕ) → Lacks a pairs → Lacks a (keep p pairs)
Lacks-keep p a [] l = refl
Lacks-keep p a (x ∷ pairs) l = ground (arith, Lacks-keep p a pairs)

pub Distinct-keep : (p : ℕ → Bool) (pairs : List ℕ) → Distinct pairs → Distinct (keep p pairs)
Distinct-keep p [] d = tt
Distinct-keep p (x ∷ pairs) d = ground (arith, Distinct-keep p pairs d.1, Lacks-keep p x pairs d.0)

pub Has-keep :
    (p : ℕ → Bool) (a : ℕ) (pairs : List ℕ) → p a ≡ true → Has a pairs → Has a (keep p pairs)
Has-keep p a [] fit m = m
Has-keep p a (x ∷ pairs) fit m = ground (arith, Has-keep p a pairs fit, ==_iff x a)

-- A property that the store gives the pairs of a queue one by one.
pub All-members : (P : ℕ → Type 0) (pairs : List ℕ) → ((b : ℕ) → Has b pairs → P b) → All P pairs
All-members P [] f = tt
All-members P (x ∷ pairs) f =
    (f x (ground (arith, ==_iff x x)), All-members P pairs (λ b m. f b (ground arith)))

pub All-Has : (P : ℕ → Type 0) (pairs : List ℕ) (b : ℕ) → All P pairs → Has b pairs → P b
All-Has P [] b all m = absurd (ground arith)
All-Has P (x ∷ pairs) b all m = elim (Bool-cases (x == b)) [
  | inl hit ↦ subst P (ground (arith, ==_iff x b)) all.0
  | inr n ↦ All-Has P pairs b all.1 (ground arith)
]

pub Has-of-keep :
    (p : ℕ → Bool) (b : ℕ) (pairs : List ℕ) → Has b (keep p pairs) → Has b pairs × (p b ≡ true)
Has-of-keep p b [] m = absurd (ground arith)
Has-of-keep p b (x ∷ pairs) m = ground (arith, Has-of-keep p b pairs, ==_iff x b)
