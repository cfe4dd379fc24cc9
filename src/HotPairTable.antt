-- ===== src/HotPairTable.antt =====
-- hotpair_table.go: the server's table of warmed channel pairs, clientID -> key -> entry. The clock
-- is an argument, in nanoseconds; a missing client reads as an empty map, as a nil Go map does.
pub mod Notify
pub mod Queries
pub mod Invalidate
mod Tests
use xtunnel.Base.{
  ℕ, ◌-◌, ◌*◌, Bool, not, ◌||◌, Option, none, some, List, [], ◌∷◌, ◌==◌, ltb, if◌then◌else◌, length,
  keep, Bytes,
}
use xtunnel.Base.Dict.{get, put, delete, text_eq}
use xtunnel.Protocol.HotPair.{HotPairInfo, decode_hot_pair_notify}

pub record HotPairEntry : Type 0 where
  pub key : Bytes
  pub cha : ℕ
  pub chb : ℕ
  pub at : ℕ

abbrev pub Entries : Type 0
Entries = List (Bytes × HotPairEntry)

abbrev pub HotPairTable : Type 0
HotPairTable = List (Bytes × Entries)

-- 10 minutes.
abbrev pub hot_pair_entry_ttl : ℕ
hot_pair_entry_ttl = 600 * 1000 * 1000 * 1000

-- `now.Sub(e.At) > hotPairEntryTTL`
abbrev pub is_expired : ℕ → HotPairEntry → Bool
is_expired now e = ltb hot_pair_entry_ttl (now - e.at)

abbrev pub entries_of : Bytes → HotPairTable → Entries
entries_of client t = elim (get client t) [ none ↦ [] | some m ↦ m ]

-- `for k, e := range m { if expired { delete(m, k) } }`
abbrev pub sweep : ℕ → Entries → Entries
sweep now = keep (λ kv. not (is_expired now kv.1))

-- `e.Key == "" || e.ChA <= 0 || e.ChB <= 0`
abbrev pub is_unusable : HotPairInfo → Bool
is_unusable e = length e.key == 0 || (e.cha == 0 || e.chb == 0)

abbrev pub entry_at : ℕ → HotPairInfo → HotPairEntry
entry_at now e = record { key = e.key; cha = e.cha; chb = e.chb; at = now }

unfoldable pub upsert_all : ℕ → List HotPairInfo → Entries → Entries
upsert_all now [] m = m
upsert_all now (e ∷ es) m =
    upsert_all now es (if is_unusable e then m else put e.key (entry_at now e) m)

unfoldable pub notify_entries : ℕ → List HotPairInfo → Bytes → HotPairTable → HotPairTable
notify_entries now [] client t = t
notify_entries now (e ∷ es) client t =
    put client (upsert_all now (e ∷ es) (sweep now (entries_of client t))) t

unfoldable pub handle_notify : ℕ → Bytes → Bytes → HotPairTable → HotPairTable
handle_notify now client payload t = notify_entries now (decode_hot_pair_notify payload) client t

-- The entry, and the table, from which an expired entry is taken out.
unfoldable pub lookup : ℕ → Bytes → Bytes → HotPairTable → Option HotPairEntry × HotPairTable
lookup now client key t =
    if length client == 0 || length key == 0 then (none, t) else elim (get client t) [
      | none ↦ (none, t)
      | some m ↦ elim (get key m) [
        | none ↦ (none, t)
        | some e ↦ if is_expired now e then (none, put client (delete key m) t) else (some e, t)
      ]
    ]

-- `best == nil || e.At.After(best.At)`
abbrev pub advance : ℕ → Option HotPairEntry → HotPairEntry → Option HotPairEntry
advance now none e = if is_expired now e then none else some e
advance now (some b) e =
    if is_expired now e then some b else if ltb b.at e.at then some e else some b

-- The loop of Newest over what it has not visited, `best` so far. An expired entry is deleted.
unfoldable pub newest_of : ℕ → Option HotPairEntry → Entries → Option HotPairEntry
newest_of now best [] = best
newest_of now best ((k, e) ∷ m) = newest_of now (advance now best e) m

unfoldable pub newest : ℕ → Bytes → HotPairTable → Option HotPairEntry × HotPairTable
newest now client t = if length client == 0 then (none, t) else elim (get client t) [
  | none ↦ (none, t)
  | some m ↦ (newest_of now none m, put client (sweep now m) t)
]

abbrev pub uses_channel : ℕ → HotPairEntry → Bool
uses_channel ch e = e.cha == ch || e.chb == ch

-- A client whose last entry goes is taken out too.
unfoldable pub invalidate_channel : ℕ → HotPairTable → HotPairTable
invalidate_channel ch [] = []
invalidate_channel ch ((client, m) ∷ t) =
    let rest = invalidate_channel ch t in
    let m' = keep (λ kv. not (uses_channel ch kv.1)) m in
    if length m' == 0 then rest else (client, m') ∷ rest

unfoldable pub invalidate_client : Bytes → HotPairTable → HotPairTable
invalidate_client client t = delete client t

-- The entry that the table holds for a client and a key.
abbrev pub entry : Bytes → Bytes → HotPairTable → Option HotPairEntry
entry client key t = get key (entries_of client t)
