-- ===== src/Relay/Resolve.antt =====
-- relay.go: the nodes that a lookup adds.
use mathlib.Core.List.{append-nil, append_assoc}
use xtunnel.Base.{
  ◌≡◌, refl, sym, ap, ◌∙◌, Bool, true, false, ◌||◌, List, [], ◌∷◌, ◌++◌, All, Bytes, bytes_eq_iff,
  bytes_eq_refl, arith, if◌then◌else◌,
}
use xtunnel.Relay.Nodes.{RelayNode, new_node, is_known, add_resolved_nodes}

-- No two nodes have the same address.
abbrev pub AreUnique : List RelayNode → Type 0
AreUnique [] = Unit {0}
AreUnique (n ∷ nodes) = (is_known n.ip nodes ≡ false) × AreUnique nodes

is_known-append :
    (ip : Bytes) (nodes more : List RelayNode)
    → is_known ip (nodes ++ more) ≡ (is_known ip nodes || is_known ip more)
is_known-append ip [] more = refl
is_known-append ip (n ∷ nodes) more = ground (arith, is_known-append ip nodes more)

append-AreUnique :
    (n : RelayNode) (nodes : List RelayNode)
    → is_known n.ip nodes ≡ false
    → AreUnique nodes
    → AreUnique (nodes ++ (n ∷ []))
append-AreUnique n [] h u = (refl, tt)
append-AreUnique n (k ∷ nodes) h u = (
  ground
      (arith, is_known-append k.ip nodes (n ∷ []), bytes_eq_iff k.ip n.ip, bytes_eq_iff n.ip k.ip),
  append-AreUnique n nodes (ground arith) u.1,
)

-- What holds of the nodes behind a lookup, given those before it.
abbrev pub Extends : List Bytes → List RelayNode → List RelayNode → Type 0
Extends ips nodes after =
    AreUnique after
    × All (λ ip. is_known ip after ≡ true) ips
    × ((more : List RelayNode) × (after ≡ nodes ++ more))

known_stays :
    (ip : Bytes) (nodes more after : List RelayNode)
    → after ≡ nodes ++ more
    → is_known ip nodes ≡ true
    → is_known ip after ≡ true
known_stays ip nodes more after e h = rw e (ground (arith, is_known-append ip nodes more))

Extends-cons :
    (ip : Bytes) (ips : List Bytes) (nodes more middle after : List RelayNode)
    → middle ≡ nodes ++ more
    → is_known ip middle ≡ true
    → Extends ips middle after
    → Extends (ip ∷ ips) nodes after
Extends-cons ip ips nodes more middle after e known (unique, all, (rest, e')) = (
  unique,
  (known_stays ip middle rest after e' known, all),
  (more ++ rest, e' ∙ ap (λ ns. ns ++ rest) e ∙ append_assoc nodes more rest),
)

-- addResolvedNodes keeps the nodes that there are, in their order and unchanged, adds at their end,
-- knows afterwards every address of the lookup, and has no address twice if it had none before.
pub add_resolved_nodes-Extends :
    (source : Bytes) (ips : List Bytes) (nodes : List RelayNode)
    → AreUnique nodes
    → Extends ips nodes (add_resolved_nodes source ips nodes)
unfolding add_resolved_nodes
add_resolved_nodes-Extends source [] nodes u = (u, tt, ([], sym (append-nil nodes)))
add_resolved_nodes-Extends source (ip ∷ ips) nodes u =
    go (is_known ip nodes) refl (λ more unique. add_resolved_nodes-Extends source ips more unique)
  where
    go :
        (known : Bool)
        → is_known ip nodes ≡ known
        → ((more : List RelayNode)
            → AreUnique more
            → Extends ips more (add_resolved_nodes source ips more))
        → Extends (ip ∷ ips) nodes (
            add_resolved_nodes source ips
              (if known then nodes else nodes ++ (new_node source ip ∷ [])))
    go true known ih =
        Extends-cons ip ips nodes [] nodes (add_resolved_nodes source ips nodes)
          (sym (append-nil nodes)) known (ih nodes u)
    go false fresh ih =
        let n = new_node source ip in
        Extends-cons ip ips nodes (n ∷ []) (nodes ++ (n ∷ []))
          (add_resolved_nodes source ips (nodes ++ (n ∷ []))) refl
          (ground (arith, is_known-append ip nodes (n ∷ []), bytes_eq_refl ip))
          (ih (nodes ++ (n ∷ [])) (append-AreUnique n nodes fresh u))
