-- ===== src/Base/Dict.antt =====
-- Go maps as association lists: the list is one order in which `range` may visit the entries.
use Prim.Native.Nat.{ℕ}
use mathlib.Core.Path.{◌≡◌, refl, subst}
use mathlib.Core.Logic.{◌↔◌, inl, inr}
use mathlib.Core.Bool.{Bool, true, false}
use mathlib.Core.List.{List, [], ◌∷◌}
use mathlib.Core.Option.{Option, none, some, some-injective}
use native.Mathlib.Omega.{arith}
use xtunnel.Base.Tests.{◌==◌, ==_iff, if◌then◌else◌, Bool-cases}
use xtunnel.Base.Lists.{Bytes, bytes_eq, bytes_eq_iff, keep, All}

pub record Eq {ℓ} (A : Type ℓ) : Type ℓ where
  pub beq : A → A → Bool
  pub beq_iff : (a b : A) → (beq a b ≡ true) ↔ (a ≡ b)

instance abbrev pub nat_eq : Eq ℕ
nat_eq = record { beq = ◌==◌; beq_iff = ==_iff }

instance abbrev pub text_eq : Eq Bytes
text_eq = record { beq = bytes_eq; beq_iff = bytes_eq_iff }

-- `b && p o`: an optional value that passes a test.
abbrev pub only {ℓ} : {A : Type ℓ} → (A → Bool) → Option A → Option A
only p none = none
only p (some a) = if p a then some a else none

module _ {ℓ κ} {K : Type ℓ} {V : Type κ} ⦃e : Eq K⦄ where
  unfoldable pub get : K → List (K × V) → Option V
  get k [] = none
  get k ((j, v) ∷ m) = if e.beq j k then some v else get k m

  unfoldable pub put : K → V → List (K × V) → List (K × V)
  put k v [] = (k, v) ∷ []
  put k v ((j, w) ∷ m) = if e.beq j k then (k, v) ∷ m else (j, w) ∷ put k v m

  unfoldable pub delete : K → List (K × V) → List (K × V)
  delete k [] = []
  delete k ((j, w) ∷ m) = if e.beq j k then delete k m else (j, w) ∷ delete k m

  pub get-put :
      (k j : K) (v : V) (m : List (K × V))
      → get j (put k v m) ≡ (if e.beq k j then some v else get j m)
  unfolding get put
  get-put k j v [] = refl
  get-put k j v ((i, w) ∷ m) =
      ground (arith, e.beq_iff k j, e.beq_iff i k, e.beq_iff i j, get-put k j v m)

  pub get-delete :
      (k j : K) (m : List (K × V)) → get j (delete k m) ≡ (if e.beq k j then none else get j m)
  unfolding get delete
  get-delete k j [] = ground arith
  get-delete k j ((i, w) ∷ m) =
      ground (arith, e.beq_iff k j, e.beq_iff i k, e.beq_iff i j, get-delete k j m)

  pub get-put_self : (k : K) (v : V) (m : List (K × V)) → get k (put k v m) ≡ some v
  get-put_self k v m = ground (arith, get-put k k v m, e.beq_iff k k)

  -- The key stands nowhere in the list.
  abbrev pub Fresh : K → List (K × V) → Type 0
  Fresh k [] = Unit {0}
  Fresh k ((j, v) ∷ m) = (e.beq j k ≡ false) × Fresh k m

  -- A key stands once at most, as in a Go map.
  abbrev pub Distinct : List (K × V) → Type 0
  Distinct [] = Unit {0}
  Distinct ((j, v) ∷ m) = Fresh j m × Distinct m

  pub get-Fresh : (k : K) (m : List (K × V)) → Fresh k m → get k m ≡ none
  unfolding get
  get-Fresh k [] h = refl
  get-Fresh k ((j, v) ∷ m) h = rw h.0 (get-Fresh k m h.1)

  pub put-Fresh :
      (k j : K) (v : V) (m : List (K × V)) → e.beq k j ≡ false → Fresh j m → Fresh j (put k v m)
  unfolding put
  put-Fresh k j v [] h f = (h, tt)
  put-Fresh k j v ((i, w) ∷ m) h f = ground (arith, put-Fresh k j v m)

  pub put-Distinct : (k : K) (v : V) (m : List (K × V)) → Distinct m → Distinct (put k v m)
  unfolding put
  put-Distinct k v [] d = (tt, tt)
  put-Distinct k v ((j, w) ∷ m) d = elim (Bool-cases (e.beq j k)) [
    | inl hit ↦ rw hit (rw (← (e.beq_iff j k).0 hit) d.0, d.1)
    | inr miss ↦ rw miss (
      put-Fresh k j v m (ground (arith, e.beq_iff k j, e.beq_iff j k)) d.0,
      put-Distinct k v m d.1,
    )
  ]

  pub delete-Fresh : (k j : K) (m : List (K × V)) → Fresh j m → Fresh j (delete k m)
  unfolding delete
  delete-Fresh k j [] f = tt
  delete-Fresh k j ((i, w) ∷ m) f = ground (arith, delete-Fresh k j m f.1)

  pub delete-Distinct : (k : K) (m : List (K × V)) → Distinct m → Distinct (delete k m)
  unfolding delete
  delete-Distinct k [] d = tt
  delete-Distinct k ((i, w) ∷ m) d = ground (arith, delete-Distinct k m d.1, delete-Fresh k i m d.0)

  pub keep-Fresh : (p : K × V → Bool) (k : K) (m : List (K × V)) → Fresh k m → Fresh k (keep p m)
  keep-Fresh p k [] f = tt
  keep-Fresh p k ((i, w) ∷ m) f = ground (arith, keep-Fresh p k m f.1)

  pub keep-Distinct : (p : K × V → Bool) (m : List (K × V)) → Distinct m → Distinct (keep p m)
  keep-Distinct p [] d = tt
  keep-Distinct p ((i, w) ∷ m) d = ground (arith, keep-Distinct p m d.1, keep-Fresh p i m d.0)

  -- Deleting while ranging: the entries that pass the test stay, each under its key.
  pub get-keep :
      (p : K × V → Bool) (k : K) (m : List (K × V))
      → Distinct m
      → get k (keep p m) ≡ only (λ v. p (k, v)) (get k m)
  unfolding get
  get-keep p k [] d = refl
  get-keep p k ((j, v) ∷ m) d = elim (Bool-cases (e.beq j k)) [
    | inl hit ↦
        ground
          (arith, ap_test, get-keep p k m d.1, get-Fresh j (keep p m) (keep-Fresh p j m d.0), same)
    | inr miss ↦ ground (arith, get-keep p k m d.1)
  ]
    where
      same : e.beq j k ≡ true → j ≡ k
      same = (e.beq_iff j k).0

      ap_test : e.beq j k ≡ true → p (j, v) ≡ p (k, v)
      ap_test h = rw ((e.beq_iff j k).0 h)

module _ {ℓ κ ν} {K : Type ℓ} {V : Type κ} ⦃e : Eq K⦄ (P : K × V → Type ν) where
  pub All-put : (k : K) (v : V) (m : List (K × V)) → P (k, v) → All P m → All P (put k v m)
  unfolding put
  All-put k v [] p h = (p, tt)
  All-put k v ((j, w) ∷ m) p h = elim (Bool-cases (e.beq j k)) [
    | inl hit ↦ rw hit (p, h.1)
    | inr miss ↦ rw miss (h.0, All-put k v m p h.1)
  ]

  pub All-delete : (k : K) (m : List (K × V)) → All P m → All P (delete k m)
  unfolding delete
  All-delete k [] h = tt
  All-delete k ((j, w) ∷ m) h = elim (Bool-cases (e.beq j k)) [
    | inl hit ↦ rw hit (All-delete k m h.1)
    | inr miss ↦ rw miss (h.0, All-delete k m h.1)
  ]

  pub All-get : (k : K) (m : List (K × V)) (v : V) → All P m → get k m ≡ some v → P (k, v)
  unfolding get
  All-get k [] v h q = cc
  All-get k ((j, w) ∷ m) v h q = elim (Bool-cases (e.beq j k)) [
    | inl hit ↦ subst P (λ i. ((e.beq_iff j k).0 hit i, some-injective w v (rw hit at q) i)) h.0
    | inr miss ↦ All-get k m v h.1 (rw miss at q)
  ]
