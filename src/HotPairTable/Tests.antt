-- ===== src/HotPairTable/Tests.antt =====
-- The table of warmed pairs on a small example.
use xtunnel.Base.{
  ℕ, ◌≡◌, ◌<◌, ◌≤◌, ◌⊎◌, refl, Bool, true, false, not, Option, none, some, List, [], ◌∷◌, ◌++◌,
  arith, if◌then◌else◌, length, Bytes, All, codes, bytes_eq,
}
use xtunnel.Base.Dict.{only, Distinct}
use xtunnel.HotPairTable.{
  HotPairEntry, HotPairTable, Entries, is_expired, entries_of, handle_notify, lookup, newest,
  uses_channel, invalidate_channel, invalidate_client, entry,
}
use xtunnel.HotPairTable.Notify.{HasKeys, IsWellFormed}
use xtunnel.HotPairTable.Invalidate.{entry-invalidate_channel}

abbrev alice : Bytes
alice = codes "alice"

abbrev key_a : Bytes
key_a = codes "a"

abbrev old_entry : HotPairEntry
old_entry = record { key = key_a; cha = 1; chb = 2; at = 10 }

abbrev new_entry : HotPairEntry
new_entry = record { key = codes "b"; cha = 3; chb = 4; at = 20 }

abbrev table : HotPairTable
table = (alice, (key_a, old_entry) ∷ (codes "b", new_entry) ∷ []) ∷ []

-- One record: key "a", channels 5 and 6.
abbrev payload : Bytes
payload = 1 ∷ 97 ∷ 0 ∷ 0 ∷ 0 ∷ 5 ∷ 0 ∷ 0 ∷ 0 ∷ 6 ∷ []

table-HasKeys : HasKeys alice table
unfolding xtunnel.Base.Dict.get
table-HasKeys = ((refl, tt), (tt, tt))

table-IsWellFormed : IsWellFormed table
unfolding xtunnel.Base.Dict.get
table-IsWellFormed = record {
  clients = (tt, tt);
  usable = (
    (
      table-HasKeys,
      (
        (refl, omega arith, omega arith, omega arith),
        ((refl, omega arith, omega arith, omega arith), tt),
      ),
    ),
    tt,
  );
}

newest_found : (newest 30 alice table).0 ≡ some new_entry
unfolding newest xtunnel.Base.Dict.get xtunnel.HotPairTable.newest_of
newest_found = refl

-- A time at which both entries have expired.
abbrev much_later : ℕ
much_later = 600000000100

newest_gone : (newest much_later alice table).0 ≡ none
unfolding newest xtunnel.Base.Dict.get xtunnel.HotPairTable.newest_of
newest_gone = refl

entry-invalidate_channel_example :
    entry alice key_a (invalidate_channel 2 table)
    ≡ only (λ e. not (uses_channel 2 e)) (entry alice key_a table)
entry-invalidate_channel_example = entry-invalidate_channel 2 alice key_a table table-IsWellFormed
