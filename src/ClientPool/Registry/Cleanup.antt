-- ===== src/ClientPool/Registry/Cleanup.antt =====
-- pool.go: cleanupChannel, and what is left of the connections of a channel that is lost, and of a pair.
use xtunnel.Base.{
  ℕ, ◌≡◌, refl, Bool, true, false, not, Option, none, some, List, [], ◌∷◌, any, if◌then◌else◌,
  Bytes, bytes_eq, bytes_eq_iff, arith, Bool-cases, inl, inr, ◌==◌, ◌||◌, ◌++◌,
}
use xtunnel.Base.Dict.{text_eq, get, put, delete, only, get-delete, Distinct, get-Fresh}
use xtunnel.ClientPool.Registry.{ConnState, unregister, is_prebind, Effect, close_tcp, close_udp}

abbrev pub Conns : Type 0
Conns = List (Bytes × ConnState)

abbrev pub set_entry : Bytes → Option ConnState → Conns → Conns
set_entry conn_id none conns = delete conn_id conns
set_entry conn_id (some st) conns = put conn_id st conns

-- cleanupChannel: the IDs that it collects, and the connections that it closes one after the other.
abbrev pub on_channel : ℕ → ConnState → Bool
on_channel ch_id st = st.uplink == ch_id || st.downlink == ch_id

unfoldable pub to_close : ℕ → Conns → List Bytes
to_close ch_id [] = []
to_close ch_id ((id, st) ∷ conns) =
    let rest = to_close ch_id conns in if on_channel ch_id st then id ∷ rest else rest

abbrev pub close_effects : Option ConnState → List Effect
close_effects none = []
close_effects (some st) = close_tcp st ++ (close_udp st ++ (unregister (some st)).1)

unfoldable pub close_all : List Bytes → Conns → Conns × List Effect
close_all [] conns = (conns, [])
close_all (id ∷ ids) conns =
    let rest = close_all ids (set_entry id (unregister (get id conns)).0 conns) in
    (rest.0, close_effects (get id conns) ++ rest.1)

unfoldable pub cleanup_channel : ℕ → Conns → Conns × List Effect
cleanup_channel ch_id conns = close_all (to_close ch_id conns) conns

-- No entry of the map is one that Unregister has marked, which takes it out at once.
abbrev pub IsLive : Option ConnState → Type 0
IsLive none = Unit {0}
IsLive (some st) = st.is_closed ≡ false

unregister-none : (o : Option ConnState) → IsLive o → (unregister o).0 ≡ none
unfolding unregister
unregister-none none live = refl
unregister-none (some st) live = elim (Bool-cases (is_prebind st.target)) [
  | inl prebinds ↦ rw (live, prebinds) refl
  | inr plain ↦ rw (live, plain) refl
]

deleted-IsLive :
    (i k : Bytes) (conns : Conns) → IsLive (get k conns) → IsLive (get k (delete i conns))
deleted-IsLive i k conns h = rw (get-delete i k conns) (either (bytes_eq i k))
  where
    either : (b : Bool) → IsLive (if b then none else get k conns)
    either true = tt
    either false = h

-- The entries of the IDs that are closed are gone, and the others stay.
get-close_all :
    (ids : List Bytes) (conns : Conns) (id : Bytes)
    → ((i : Bytes) → IsLive (get i conns))
    → get id (close_all ids conns).0 ≡ (if any (bytes_eq id) ids then none else get id conns)
unfolding close_all
get-close_all [] conns id live = refl
get-close_all (i ∷ ids) conns id live = rw (unregister-none (get i conns) (live i)) (
    rw (get-close_all ids (delete i conns) id (λ k. deleted-IsLive i k conns (live k)))
      (ground (arith, get-delete i id conns, bytes_eq_iff i id, bytes_eq_iff id i)))

abbrev entry_on : ℕ → Option ConnState → Bool
entry_on ch_id none = false
entry_on ch_id (some st) = on_channel ch_id st

any-to_close :
    (ch_id : ℕ) (conns : Conns) (id : Bytes)
    → Distinct conns
    → any (bytes_eq id) (to_close ch_id conns) ≡ entry_on ch_id (get id conns)
unfolding to_close get
any-to_close ch_id [] id d = refl
any-to_close ch_id ((i, st) ∷ conns) id d = elim (Bool-cases (bytes_eq i id)) [
  | inl hit ↦
      let same = (bytes_eq_iff i id).0 hit in
      let gone = rw same at (get-Fresh i conns d.0) in
      rw hit (ground (arith, any-to_close ch_id conns id d.1, gone, bytes_eq_iff id i, same))
  | inr miss ↦
      rw miss
        (ground (arith, any-to_close ch_id conns id d.1, bytes_eq_iff id i, bytes_eq_iff i id))
]

-- Losing a channel unregisters exactly the connections whose uplink or downlink it was. No ID is twice
-- in the map, and Unregister has marked none of its entries.
pub get-cleanup_channel :
    (ch_id : ℕ) (conns : Conns) (id : Bytes)
    → Distinct conns
    → ((i : Bytes) → IsLive (get i conns))
    → get id (cleanup_channel ch_id conns).0 ≡ only (λ st. not (on_channel ch_id st)) (get id conns)
unfolding cleanup_channel
get-cleanup_channel ch_id conns id d live =
    rw (get-close_all (to_close ch_id conns) conns id live, any-to_close ch_id conns id d)
      (without (get id conns))
  where
    without :
        (o : Option ConnState)
        → (if entry_on ch_id o then none else o) ≡ only (λ st. not (on_channel ch_id st)) o
    without none = refl
    without (some st) = ground arith
