-- ===== src/Protocol/IpStrategy.antt =====
-- protocol/ip_strategy.go: the choice of an address for a target, and the cache of lookups. What it
-- takes from package net is a Network, and strings.TrimSpace an argument.
pub mod Choice
use xtunnel.Base.{
  ℕ, ◌+◌, ◌*◌, Bool, true, false, not, Option, none, some, List, [], ◌∷◌, ◌++◌, ltb, if◌then◌else◌,
  keep, Bytes, bytes_eq, codes, has_prefix, ◌==◌, ◌&&◌,
}
use xtunnel.Base.Dict.{text_eq, get, put, delete}

-- net.IP: whether To4 is not nil, and String.
pub record Addr : Type 0 where
  pub is_v4 : Bool
  pub text : Bytes

-- SplitHostPort and ParseIP; none is an error or nil.
pub record Network : Type 0 where
  pub split_host_port : Bytes → Option (Bytes × Bytes)
  pub parse_ip : Bytes → Option Addr

pub data IpStrategy : Type 0 where
  default ipv4_only ipv6_only pv4_pv6 pv6_pv4 : IpStrategy

abbrev no_spaces : Bytes → Bytes
no_spaces s = keep (λ c. not (c == 32)) s

unfoldable pub parse_ip_strategy : (Bytes → Bytes) → Bytes → IpStrategy
parse_ip_strategy trim_space s =
    let t = no_spaces (trim_space s) in
    if bytes_eq t (codes "4")
    then ipv4_only
    else if bytes_eq t (codes "6")
    then ipv6_only
    else if bytes_eq t (codes "4,6")
    then pv4_pv6
    else if bytes_eq t (codes "6,4")
    then pv6_pv4
    else default

-- Times are in nanoseconds.
abbrev pub dns_cache_ttl : ℕ
dns_cache_ttl = 60 * 1000000000

pub record DnsCacheEntry : Type 0 where
  pub addrs : List Addr
  pub expires_at : ℕ

abbrev pub Cache : Type 0
Cache = List (Bytes × DnsCacheEntry)

abbrev pub stored : Bytes → ℕ → Option (List Addr) → Cache → Option (List Addr) × Cache
stored host later none cache = (none, cache)
stored host later (some addrs) cache =
    (some addrs, put host (record { addrs = addrs; expires_at = later + dns_cache_ttl }) cache)

abbrev pub from_entry :
    (Bytes → Option (List Addr))
    → ℕ
    → ℕ
    → Bytes
    → Cache
    → Option DnsCacheEntry
    → Option (List Addr) × Cache
from_entry lookup now later host cache none = stored host later (lookup host) cache
from_entry lookup now later host cache (some entry) =
    if ltb now entry.expires_at
    then (some entry.addrs, cache)
    else stored host later (lookup host) (delete host cache)

-- `now` is the time of the look into the cache, `later` that of the answer.
unfoldable pub lookup_ip_cached :
    (Bytes → Option (List Addr)) → ℕ → ℕ → Bytes → Cache → Option (List Addr) × Cache
lookup_ip_cached lookup now later host cache =
    from_entry lookup now later host cache (get host cache)

abbrev pub plain : Bytes → Bytes → Bytes
plain host port = host ++ (codes ":" ++ port)

abbrev pub bracketed : Bytes → Bytes → Bytes
bracketed host port = codes "[" ++ (host ++ (codes "]:" ++ port))

-- The loops: the first IPv4 address, or IPv6 address, and what is returned behind the loop.
unfoldable pub first_v4 : List Addr → Bytes → Bytes → Bytes
first_v4 [] port otherwise = otherwise
first_v4 (a ∷ addrs) port otherwise =
    let rest = first_v4 addrs port otherwise in if a.is_v4 then plain a.text port else rest

unfoldable pub first_v6 : List Addr → Bytes → Bytes → Bytes
first_v6 [] port otherwise = otherwise
first_v6 (a ∷ addrs) port otherwise =
    let rest = first_v6 addrs port otherwise in if not a.is_v4 then bracketed a.text port else rest

unfoldable pub resolve_ipv4_only : Bytes → Bytes → Option (List Addr) → Bytes
resolve_ipv4_only host port none = plain host port
resolve_ipv4_only host port (some addrs) = first_v4 addrs port (plain host port)

unfoldable pub resolve_ipv6_only : Bytes → Bytes → Option (List Addr) → Bytes
resolve_ipv6_only host port none = bracketed host port
resolve_ipv6_only host port (some addrs) = first_v6 addrs port (bracketed host port)

unfoldable pub resolve_ipv4_first : Bytes → Bytes → Option (List Addr) → Bytes
resolve_ipv4_first host port none = plain host port
resolve_ipv4_first host port (some addrs) =
    first_v4 addrs port (first_v6 addrs port (plain host port))

unfoldable pub resolve_ipv6_first : Bytes → Bytes → Option (List Addr) → Bytes
resolve_ipv6_first host port none = bracketed host port
resolve_ipv6_first host port (some addrs) =
    first_v6 addrs port (first_v4 addrs port (bracketed host port))

abbrev pub by_strategy : IpStrategy → Bytes → Bytes → Bytes → Option (List Addr) → Bytes
by_strategy default target host port found = target
by_strategy ipv4_only target host port found = resolve_ipv4_only host port found
by_strategy ipv6_only target host port found = resolve_ipv6_only host port found
by_strategy pv4_pv6 target host port found = resolve_ipv4_first host port found
by_strategy pv6_pv4 target host port found = resolve_ipv6_first host port found

abbrev pub is_default : IpStrategy → Bool
is_default default = true
is_default _ = false

abbrev pub of_host :
    (Bytes → Option (List Addr))
    → ℕ
    → ℕ
    → Bytes
    → IpStrategy
    → Bytes × Bytes
    → Option Addr
    → Cache
    → Bytes × Cache
of_host lookup now later target strategy (host, port) (some ip) cache = (
  if not ip.is_v4 && not (has_prefix host (codes "[")) then bracketed host port else target,
  cache,
)
of_host lookup now later target strategy (host, port) none cache =
    let r = lookup_ip_cached lookup now later host cache in
    (by_strategy strategy target host port r.0, if is_default strategy then cache else r.1)

abbrev pub of_target :
    Network
    → (Bytes → Option (List Addr))
    → ℕ
    → ℕ
    → Bytes
    → IpStrategy
    → Option (Bytes × Bytes)
    → Cache
    → Bytes × Cache
of_target net lookup now later target strategy none cache = (target, cache)
of_target net lookup now later target strategy (some hp) cache =
    of_host lookup now later target strategy hp (net.parse_ip hp.0) cache

unfoldable pub resolve_with_strategy :
    Network → (Bytes → Option (List Addr)) → ℕ → ℕ → Bytes → IpStrategy → Cache → Bytes × Cache
resolve_with_strategy net lookup now later target strategy cache =
    of_target net lookup now later target strategy (net.split_host_port target) cache
