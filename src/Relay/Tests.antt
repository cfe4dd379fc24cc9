-- ===== src/Relay/Tests.antt =====
-- The relay nodes on small examples.
use mathlib.Core.List.{Memᴰ, head-eq_of_cons-eq}
use xtunnel.Base.{
  ◌<◌, ◌≡◌, refl, sym, true, false, Option, none, some, List, [], ◌∷◌, ◌↔◌, All, Bytes, codes,
  arith, if◌then◌else◌, inl, inr, ◌⊎◌, Bool-cases,
}
use xtunnel.Base.Dict.{text_eq, get}
use xtunnel.Relay.Fraction.{whole}
use xtunnel.Relay.Nodes.{RelayNode, new_node, mark_node_failed, add_node, rated_node, update_at}
use xtunnel.Relay.Loads.{Op, acquired, released, run, replay, acquired_count}
use xtunnel.Relay.Loads
use xtunnel.Relay.Health.{
  Tests, no_tests, more, get_elem?, start, next, added, rated, Reach-unhealthy,
}
use xtunnel.Relay.Select.{Sort, before, select_node_excluding}
use xtunnel.Relay.Select.Order.{before_trans}
use xtunnel.Relay.Select.Choice.{IsChoice, select_node_excluding-IsChoice}

abbrev first_ip : Bytes
first_ip = codes "10.0.0.1:443"

abbrev second_ip : Bytes
second_ip = codes "10.0.0.2:443"

abbrev ops : List Op
ops = acquired first_ip ∷ acquired first_ip ∷ released second_ip ∷ released first_ip ∷ []

run-replay_example :
    let count = replay ops (λ a. 0) first_ip in
    (acquired_count first_ip (run ops []) ≡ count) × (get first_ip (run ops []) ≡ none ↔ count ≡ 0)
run-replay_example = Loads.run-replay ops first_ip (omega arith)

abbrev nodes : List RelayNode
nodes = new_node (codes "relay") first_ip ∷ []

abbrev no_lookup : Bytes → Option (List Bytes)
no_lookup host = none

-- The node's first probe has written its success.
abbrev listed_once : Tests
listed_once = record no_tests { nodes = add_node (codes "relay") (first_ip ∷ []) [] }

abbrev half_tested : Tests
half_tested = record {
  nodes = update_at 0 (rated_node true) listed_once.nodes;
  testing = more 0 (λ i. 0);
}

half_tested_node :
    get_elem? half_tested.nodes 0 ≡ some (rated_node true (new_node (codes "relay") first_ip))
unfolding add_node update_at
half_tested_node = refl

Reach-unhealthy_example : 0 < half_tested.testing 0
Reach-unhealthy_example =
    Reach-unhealthy {s = half_tested} 0 (rated_node true (new_node (codes "relay") first_ip))
      (next (next start (added (codes "relay") (first_ip ∷ []) refl)) (rated 0 true refl))
      half_tested_node refl

-- A sort that puts the node of the fewest failures and the highest score first, and keeps the others.
unfoldable least : RelayNode → List RelayNode → RelayNode × List RelayNode
least n [] = (n, [])
least n (k ∷ rest) =
    let with_k = least k rest in
    let with_n = least n rest in
    if before k n then (with_k.0, n ∷ with_k.1) else (with_n.0, k ∷ with_n.1)

abbrev listed : RelayNode × List RelayNode → List RelayNode
listed (n, nodes) = n ∷ nodes

abbrev sort_least : List RelayNode → List RelayNode
sort_least [] = []
sort_least (n ∷ nodes) = listed (least n nodes)

least_from :
    (n : RelayNode) (nodes : List RelayNode)
    → ((least n nodes).0 ≡ n) ⊎ (before (least n nodes).0 n ≡ true)
unfolding least
least_from n [] = inl refl
least_from n (k ∷ rest) = elim (Bool-cases (before k n)) [
  | inl better ↦ rw better (
      inr (elim (least_from k rest) [
        | inl same ↦ rw same better
        | inr less ↦ before_trans (least k rest).0 k n less better
      ]))
  | inr worse ↦ rw worse (least_from n rest)
]

least_first :
    (n m : RelayNode) (nodes : List RelayNode)
    → m ≡ (least n nodes).0
    → All (λ k. before k m ≡ false) (n ∷ nodes)
unfolding least
least_first n m [] e = (rw e (ground arith), tt)
least_first n m (k ∷ rest) e = elim (Bool-cases (before k n)) [
  | inl better ↦
      let ih = least_first k m rest (rw better at e) in
      (ground (arith, before_trans k n m better, ih.0), ih)
  | inr worse ↦
      let ih = least_first n m rest (rw worse at e) in
      (ih.0, (not_before k n m worse (least_from n rest) (rw worse at e), ih.1))
]
  where
    not_before :
        (k n m : RelayNode)
        → before k n ≡ false
        → ((least n rest).0 ≡ n) ⊎ (before (least n rest).0 n ≡ true)
        → m ≡ (least n rest).0
        → before k m ≡ false
    not_before k n m worse (inl same) e = rw (e, same) worse
    not_before k n m worse (inr less) e = ground (arith, before_trans k m n, rw (sym e) at less)

swap : (k a b : RelayNode) (l : List RelayNode) → Memᴰ k (a ∷ b ∷ l) → Memᴰ k (b ∷ a ∷ l)
swap k a b l (Memᴰ.head e) = Memᴰ.tail (Memᴰ.head e)
swap k a b l (Memᴰ.tail (Memᴰ.head e)) = Memᴰ.head e
swap k a b l (Memᴰ.tail (Memᴰ.tail m)) = Memᴰ.tail (Memᴰ.tail m)

behind :
    (k a : RelayNode) (l m : List RelayNode)
    → (Memᴰ k l → Memᴰ k m)
    → Memᴰ k (a ∷ l)
    → Memᴰ k (a ∷ m)
behind k a l m f (Memᴰ.head e) = Memᴰ.head e
behind k a l m f (Memᴰ.tail h) = Memᴰ.tail (f h)

least-Mem :
    (k n : RelayNode) (nodes : List RelayNode)
    → Memᴰ k (listed (least n nodes)) ↔ Memᴰ k (n ∷ nodes)
unfolding least
least-Mem k n [] = (λ m. m, λ m. m)
least-Mem k n (a ∷ rest) = elim (Bool-cases (before a n)) [
  | inl better ↦ rw better (
    λ m.
        behind k n (listed (least a rest)) (a ∷ rest) (least-Mem k a rest).0
          (swap k (least a rest).0 n (least a rest).1 m),
    λ m.
        swap k n (least a rest).0 (least a rest).1
          (behind k n (a ∷ rest) (listed (least a rest)) (least-Mem k a rest).1 m),
  )
  | inr worse ↦ rw worse (
    λ m. swap k a n rest (
        behind k a (listed (least n rest)) (n ∷ rest) (least-Mem k n rest).0
          (swap k (least n rest).0 a (least n rest).1 m)),
    λ m.
        swap k a (least n rest).0 (least n rest).1 (
          behind k a (n ∷ rest) (listed (least n rest)) (least-Mem k n rest).1 (swap k n a rest m)),
  )
]

sort_least-Mem : (n : RelayNode) (nodes : List RelayNode) → Memᴰ n (sort_least nodes) ↔ Memᴰ n nodes
sort_least-Mem n [] = (λ m. m, λ m. m)
sort_least-Mem n (k ∷ nodes) = least-Mem n k nodes

sort_least_first :
    (n : RelayNode) (nodes rest : List RelayNode)
    → sort_least nodes ≡ n ∷ rest
    → All (λ k. before k n ≡ false) nodes
sort_least_first n [] rest e = tt
sort_least_first n (k ∷ nodes) rest e = least_first k n nodes (sym (head-eq_of_cons-eq e))

pub sort_by_failures : Sort before
sort_by_failures = record {
  sort = sort_least;
  sort-Mem = sort_least-Mem;
  sort-first = sort_least_first;
}

abbrev failed_nodes : List RelayNode
failed_nodes = mark_node_failed 5 first_ip (add_node (codes "relay") (first_ip ∷ second_ip ∷ []) [])

select_node_excluding-IsChoice_example :
    let r =
      select_node_excluding sort_by_failures no_lookup
        (whole 0)
        9
        10
        (second_ip ∷ [])
        []
        failed_nodes in
    IsChoice 10 (second_ip ∷ []) r.1 r.0
select_node_excluding-IsChoice_example =
    select_node_excluding-IsChoice sort_by_failures no_lookup (whole 0) 9 10 (second_ip ∷ []) []
      failed_nodes (omega arith)
