-- ===== src/Relay/Select/Choice.antt =====
-- relay.go: what SelectNodeExcluding may answer.
use mathlib.Core.List.{Memᴰ}
use mathlib.Core.List.Memᴰ
use xtunnel.Base.{
  ℕ, ◌≤◌, ◌≡◌, refl, Bool, true, false, not, Option, none, some, List, [], ◌∷◌, keep, All, Bytes,
  arith, ◌⊎◌, inl, inr, Bool-cases, if◌then◌else◌,
}
use xtunnel.Relay.Fraction.{Frac, whole, mul_frac, sub_frac, lt_frac}
use xtunnel.Relay.Nodes.{RelayNode, refresh_hostname_nodes}
use xtunnel.Relay.Loads.{Loads}
use xtunnel.Relay.Select.{
  Sort, before, is_excluded, is_candidate, select_healthy, pick_weighted, select_weighted, retried,
  selected, first_of, select_node_excluding, candidate_weight, total_weight,
}

keep-Mem :
    (p : RelayNode → Bool) (n : RelayNode) (nodes : List RelayNode)
    → Memᴰ n (keep p nodes)
    → Memᴰ n nodes × (p n ≡ true)
keep-Mem p n [] m = absurd (Memᴰ.not-nil m)
keep-Mem p n (k ∷ nodes) m = elim (Bool-cases (p k)) [
  | inl kept ↦ first kept (Memᴰ.cases_cons (rw kept at m)) (λ behind. keep-Mem p n nodes behind)
  | inr dropped ↦ let r = keep-Mem p n nodes (rw dropped at m) in (Memᴰ.tail r.0, r.1)
]
  where
    first :
        p k ≡ true
        → (n ≡ k) ⊎ Memᴰ n (keep p nodes)
        → (Memᴰ n (keep p nodes) → Memᴰ n nodes × (p n ≡ true))
        → Memᴰ n (k ∷ nodes) × (p n ≡ true)
    first kept (inl e) ih = (Memᴰ.head e, rw e kept)
    first kept (inr behind) ih = (Memᴰ.tail (ih behind).0, (ih behind).1)

keep-none :
    (p : RelayNode → Bool) (nodes : List RelayNode)
    → keep p nodes ≡ []
    → All (λ k. p k ≡ false) nodes
keep-none p [] h = tt
keep-none p (k ∷ nodes) h = elim (Bool-cases (p k)) [
  | inl kept ↦ cc (rw kept at h)
  | inr dropped ↦ (dropped, keep-none p nodes (rw dropped at h))
]

keep-All :
    (P : RelayNode → Type 0) (p : RelayNode → Bool) (nodes : List RelayNode)
    → All P (keep p nodes)
    → All (λ k. (p k ≡ false) ⊎ P k) nodes
keep-All P p [] h = tt
keep-All P p (k ∷ nodes) h = elim (Bool-cases (p k)) [
  | inl kept ↦ (inr (rw kept at h).0, keep-All P p nodes (rw kept at h).1)
  | inr dropped ↦ (inl dropped, keep-All P p nodes (rw dropped at h))
]

either-Mem :
    (test : Bool) (c d : RelayNode) (nodes : List RelayNode)
    → Memᴰ c nodes
    → Memᴰ d nodes
    → Memᴰ (if test then c else d) nodes
either-Mem true c d nodes hc hd = hc
either-Mem false c d nodes hc hd = hd

pick_weighted-Mem :
    (loads : Loads) (pick : Frac) (c : RelayNode) (cs : List RelayNode)
    → Memᴰ (pick_weighted loads pick c cs) (c ∷ cs)
unfolding pick_weighted
pick_weighted-Mem loads pick c [] = Memᴰ.head refl
pick_weighted-Mem loads pick c (d ∷ cs) =
    either-Mem (lt_frac pick (candidate_weight loads c)) c
      (pick_weighted loads (sub_frac pick (candidate_weight loads c)) d cs) (c ∷ d ∷ cs)
      (Memᴰ.head refl)
      (Memᴰ.tail (pick_weighted-Mem loads (sub_frac pick (candidate_weight loads c)) d cs))

-- An answer: a node of the list that is not excluded and, unless it is a candidate, no node is one
-- and no other that is not excluded comes before it; or none, and all nodes are excluded.
abbrev pub IsChoice : ℕ → List Bytes → List RelayNode → Option RelayNode → Type 0
IsChoice later excluded nodes none = All (λ k. is_excluded excluded k ≡ true) nodes
IsChoice later excluded nodes (some n) =
    Memᴰ n nodes
    × (is_excluded excluded n ≡ false)
    × ((is_candidate later excluded n ≡ true)
        ⊎ (All (λ k. is_candidate later excluded k ≡ false) nodes
            × All (λ k. (is_excluded excluded k ≡ true) ⊎ (before k n ≡ false)) nodes))

candidate_included :
    (now : ℕ) (excluded : List Bytes) (n : RelayNode)
    → is_candidate now excluded n ≡ true
    → is_excluded excluded n ≡ false
unfolding is_candidate
candidate_included now excluded n h = ground arith

is_candidate_later :
    (now later : ℕ) (excluded : List Bytes) (n : RelayNode)
    → now ≤ later
    → is_candidate now excluded n ≡ true
    → is_candidate later excluded n ≡ true
unfolding is_candidate
is_candidate_later now later excluded n le h = ground arith

-- A pick among the candidates of a moment is an answer at any later one.
select_weighted-IsChoice :
    (draw : Frac) (now later : ℕ) (excluded : List Bytes) (loads : Loads) (nodes : List RelayNode)
    (c : RelayNode) (cs : List RelayNode)
    → now ≤ later
    → select_healthy now excluded nodes ≡ c ∷ cs
    → IsChoice later excluded nodes (some (select_weighted loads draw c cs))
unfolding select_weighted
select_weighted-IsChoice draw now later excluded loads nodes c cs le e =
    let pick = mul_frac draw (total_weight loads (whole 0) (c ∷ cs)) in
    let n = pick_weighted loads pick c cs in
    let kept =
      keep-Mem (is_candidate now excluded) n nodes (rw e (pick_weighted-Mem loads pick c cs)) in
    (
      kept.0,
      candidate_included now excluded n kept.1,
      inl (is_candidate_later now later excluded n le kept.1),
    )

abbrev included : List Bytes → RelayNode → Bool
included excluded n = not (is_excluded excluded n)

sort-none : (s : Sort before) (nodes : List RelayNode) → s.sort nodes ≡ [] → nodes ≡ []
sort-none s [] e = refl
sort-none s (n ∷ nodes) e =
    absurd (Memᴰ.not-nil (rw e at ((s.sort-Mem n (n ∷ nodes)).1 (Memᴰ.head refl))))

All-map :
    (P Q : RelayNode → Type 0) (nodes : List RelayNode)
    → ((n : RelayNode) → P n → Q n)
    → All P nodes
    → All Q nodes
All-map P Q [] f h = tt
All-map P Q (n ∷ nodes) f h = (f n h.0, All-map P Q nodes f h.1)

fallback-IsChoice :
    (s : Sort before) (later : ℕ) (excluded : List Bytes) (nodes : List RelayNode)
    → All (λ k. is_candidate later excluded k ≡ false) nodes
    → (sorted : List RelayNode) → s.sort (keep (included excluded) nodes) ≡ sorted
    → IsChoice later excluded nodes (first_of sorted)
fallback-IsChoice s later excluded nodes bad [] e =
    All-map (λ k. included excluded k ≡ false) (λ k. is_excluded excluded k ≡ true) nodes
      (λ k h. ground arith)
      (keep-none (included excluded) nodes (sort-none s (keep (included excluded) nodes) e))
fallback-IsChoice s later excluded nodes bad (n ∷ rest) e =
    let filtered = keep (included excluded) nodes in
    let member = (s.sort-Mem n filtered).0 (rw e (Memᴰ.head refl)) in
    let kept = keep-Mem (included excluded) n nodes member in
    (
      kept.0,
      ground (arith, kept.1),
      inr (
        bad,
        All-map (λ k. (included excluded k ≡ false) ⊎ (before k n ≡ false))
            (λ k. (is_excluded excluded k ≡ true) ⊎ (before k n ≡ false)) nodes
            (λ k h. ground arith)
            (keep-All (λ k. before k n ≡ false) (included excluded) nodes
              (s.sort-first n filtered rest e)),
      ),
    )

retried-IsChoice :
    (s : Sort before) (draw : Frac) (later : ℕ) (excluded : List Bytes) (loads : Loads)
    (nodes cs : List RelayNode)
    → select_healthy later excluded nodes ≡ cs
    → IsChoice later excluded nodes (retried s draw excluded loads nodes cs)
retried-IsChoice s draw later excluded loads nodes [] e =
    fallback-IsChoice s later excluded nodes (keep-none (is_candidate later excluded) nodes e)
      (s.sort (keep (included excluded) nodes)) refl
retried-IsChoice s draw later excluded loads nodes (c ∷ cs) e =
    select_weighted-IsChoice draw later later excluded loads nodes c cs (omega arith) e

selected-IsChoice :
    (s : Sort before) (resolve : Bytes → Option (List Bytes)) (draw : Frac) (now later : ℕ)
    (excluded : List Bytes) (loads : Loads) (nodes cs : List RelayNode)
    → now ≤ later
    → select_healthy now excluded nodes ≡ cs
    → let r = selected s resolve draw later excluded loads nodes cs in
      IsChoice later excluded r.1 r.0
selected-IsChoice s resolve draw now later excluded loads nodes [] le e =
    let fresh = refresh_hostname_nodes resolve nodes in
    retried-IsChoice s draw later excluded loads fresh (select_healthy later excluded fresh) refl
selected-IsChoice s resolve draw now later excluded loads nodes (c ∷ cs) le e =
    select_weighted-IsChoice draw now later excluded loads nodes c cs le e

-- SelectNodeExcluding answers with a node of its list that is not excluded; with no node only when
-- all are excluded; and with one that is no candidate only when no node is, and then with one that
-- no other not excluded node comes before: it failed least often and, of those, scores highest.
-- The second look at the clock is not before the first.
pub select_node_excluding-IsChoice :
    (s : Sort before) (resolve : Bytes → Option (List Bytes)) (draw : Frac) (now later : ℕ)
    (excluded : List Bytes) (loads : Loads) (nodes : List RelayNode)
    → now ≤ later
    → let r = select_node_excluding s resolve draw now later excluded loads nodes in
      IsChoice later excluded r.1 r.0
unfolding select_node_excluding
select_node_excluding-IsChoice s resolve draw now later excluded loads nodes le =
    selected-IsChoice s resolve draw now later excluded loads nodes
      (select_healthy now excluded nodes) le refl
