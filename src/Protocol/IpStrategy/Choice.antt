-- ===== src/Protocol/IpStrategy/Choice.antt =====
-- protocol/ip_strategy.go: which address is chosen, and how old it may be.
use xtunnel.Base.{
  ℕ, ◌+◌, ◌≡◌, refl, Bool, true, false, not, Option, none, some, List, [], ◌∷◌, ltb, if◌then◌else◌,
  Bytes, Bool-cases, inl, inr,
}
use xtunnel.Base.Dict.{text_eq, get, put, delete, get-put_self}
use xtunnel.Protocol.IpStrategy.{
  Addr, Cache, stored, lookup_ip_cached, dns_cache_ttl, plain, bracketed, first_v4, first_v6,
  resolve_ipv4_first, resolve_ipv6_first,
}

abbrev same : Bool → Bool → Bool
same true b = b
same false b = not b

-- An address with its port, as it is dialled.
abbrev pub dialled : Addr → Bytes → Bytes
dialled a port = if a.is_v4 then plain a.text port else bracketed a.text port

unfoldable pub find : Bool → List Addr → Option Addr
find v4 [] = none
find v4 (a ∷ addrs) = let rest = find v4 addrs in if same v4 a.is_v4 then some a else rest

abbrev pub head_of : List Addr → Option Addr
head_of [] = none
head_of (a ∷ addrs) = some a

abbrev pub or_else : Option Addr → Option Addr → Option Addr
or_else none o = o
or_else (some a) o = some a

-- The first address of a family, or else the first of all.
abbrev pub preferred : Bool → List Addr → Option Addr
preferred v4 addrs = or_else (find v4 addrs) (head_of addrs)

abbrev pub shown : Bytes → Bytes → Option Addr → Bytes
shown port otherwise none = otherwise
shown port otherwise (some a) = dialled a port

first_v4-find :
    (addrs : List Addr) (port otherwise : Bytes)
    → first_v4 addrs port otherwise ≡ shown port otherwise (find true addrs)
unfolding first_v4 find
first_v4-find [] port otherwise = refl
first_v4-find (a ∷ addrs) port otherwise = elim (Bool-cases a.is_v4) [
  | inl four ↦ rw (first_v4, find, four) refl
  | inr six ↦ rw (first_v4, find, six) (first_v4-find addrs port otherwise)
]

first_v6-find :
    (addrs : List Addr) (port otherwise : Bytes)
    → first_v6 addrs port otherwise ≡ shown port otherwise (find false addrs)
unfolding first_v6 find
first_v6-find [] port otherwise = refl
first_v6-find (a ∷ addrs) port otherwise = elim (Bool-cases a.is_v4) [
  | inl four ↦ rw (first_v6, find, four) (first_v6-find addrs port otherwise)
  | inr six ↦ rw (first_v6, find, six) refl
]

-- Where no address is of one family, the first of the other is the first of all.
find_other :
    (v4 : Bool) (addrs : List Addr) → find v4 addrs ≡ none → find (not v4) addrs ≡ head_of addrs
unfolding find
find_other v4 [] h = refl
find_other true (a ∷ addrs) h = elim (Bool-cases a.is_v4) [
  | inl four ↦ cc (rw (find, four) at h)
  | inr six ↦ rw (find, six) refl
]
find_other false (a ∷ addrs) h = elim (Bool-cases a.is_v4) [
  | inl four ↦ rw (find, four) refl
  | inr six ↦ cc (rw (find, six) at h)
]

in_turn :
    (port otherwise : Bytes) (first second head : Option Addr)
    → (first ≡ none → second ≡ head)
    → shown port (shown port otherwise second) first ≡ shown port otherwise (or_else first head)
in_turn port otherwise none second head h = rw (h refl) refl
in_turn port otherwise (some a) second head h = refl

-- The strategies that prefer a family answer with its first address or, if there is none, with the
-- first address of all, an IPv6 address in brackets; and with the host itself only if the lookup found
-- no address.
pub resolve_first-preferred :
    (host port : Bytes) (addrs : List Addr)
    → (resolve_ipv4_first host port (some addrs)
        ≡ shown port (plain host port) (preferred true addrs))
      × (resolve_ipv6_first host port (some addrs)
          ≡ shown port (bracketed host port) (preferred false addrs))
unfolding resolve_ipv4_first resolve_ipv6_first
resolve_first-preferred host port addrs = (
  rw
      (
        first_v4-find addrs port (first_v6 addrs port (plain host port)),
        first_v6-find addrs port (plain host port),
      )
      (in_turn port (plain host port) (find true addrs) (find false addrs) (head_of addrs)
        (find_other true addrs)),
  rw
      (
        first_v6-find addrs port (first_v4 addrs port (bracketed host port)),
        first_v4-find addrs port (bracketed host port),
      )
      (in_turn port (bracketed host port) (find false addrs) (find true addrs) (head_of addrs)
        (find_other false addrs)),
)

-- A lookup that has found addresses for a host that was not in the cache answers for the host for one
-- minute, whatever the resolver would say then; from the end of the minute on, the resolver is asked.
pub lookup_ip_cached-again :
    (lookup again : Bytes → Option (List Addr)) (now later now_again later_again : ℕ) (host : Bytes)
    (addrs : List Addr) (cache : Cache)
    → get host cache ≡ none
    → lookup host ≡ some addrs
    → (lookup_ip_cached again now_again later_again host
        (lookup_ip_cached lookup now later host cache).1).0
      ≡ (if ltb now_again (later + dns_cache_ttl) then some addrs else again host)
unfolding lookup_ip_cached
lookup_ip_cached-again lookup again now later now_again later_again host addrs cache absent found =
    rw (absent, found)
      (rw (get-put_self host (record { addrs = addrs; expires_at = later + dns_cache_ttl }) cache) (
        asked (put host (record { addrs = addrs; expires_at = later + dns_cache_ttl }) cache)
          (ltb now_again (later + dns_cache_ttl))))
  where
    answer : (o : Option (List Addr)) (c : Cache) → (stored host later_again o c).0 ≡ o
    answer none c = refl
    answer (some found_again) c = refl

    asked :
        (c : Cache) (valid : Bool)
        → (if valid
            then (some addrs, c)
            else stored host later_again (again host) (delete host c)).0
          ≡ (if valid then some addrs else again host)
    asked c true = refl
    asked c false = answer (again host) (delete host c)
