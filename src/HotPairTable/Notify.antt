-- ===== src/HotPairTable/Notify.antt =====
-- hotpair_table.go: what HandleNotify leaves in the table, and the table's invariant.
use xtunnel.Base.{
  ℕ, ◌<◌, ◌≡◌, refl, not, Option, none, some, List, [], ◌∷◌, arith, if◌then◌else◌, length, Bytes,
  All, All-keep, ap, ◌∙◌, Bool-cases, Option-cases, inl, inr, bytes_eq, bytes_eq_iff,
}
use xtunnel.Base.Dict.{
  get, put, text_eq, only, Distinct, get-put, get-keep, keep-Distinct, put-Distinct, All-put,
  All-get,
}
use xtunnel.Protocol.HotPair.{HotPairInfo, decode_hot_pair_notify}
use xtunnel.HotPairTable.{
  HotPairEntry, Entries, HotPairTable, is_expired, is_unusable, entries_of, sweep, entry_at,
  upsert_all, notify_entries, handle_notify, entry,
}

-- The last usable record for a key in a notification.
unfoldable pub told : Bytes → List HotPairInfo → Option HotPairInfo
told key [] = none
told key (e ∷ es) = elim (told key es) [
  | some later ↦ some later
  | none ↦ if is_unusable e then none else if bytes_eq e.key key then some e else none
]

-- The entry after a notification at `now`: the told one, else the old one if it has not expired.
abbrev pub renewed : ℕ → Option HotPairInfo → Option HotPairEntry → Option HotPairEntry
renewed now (some e) old = some (entry_at now e)
renewed now none old = only (λ e. not (is_expired now e)) old

get-upsert_all :
    (now : ℕ) (key : Bytes) (es : List HotPairInfo) (m : Entries)
    → get key (upsert_all now es m) ≡ elim (told key es) as (λ _. Option HotPairEntry) [
      | some e ↦ some (entry_at now e)
      | none ↦ get key m
    ]
unfolding upsert_all told
get-upsert_all now key [] m = refl
get-upsert_all now key (e ∷ es) m = ground (
  arith,
  get-upsert_all now key es (if is_unusable e then m else put e.key (entry_at now e) m),
  get-put e.key key (entry_at now e) m,
)

-- What the table held for a key, after a notification of the records `es`; one with no record is
-- not acted on.
abbrev pub after_notify :
    ℕ → List HotPairInfo → Option HotPairInfo → Option HotPairEntry → Option HotPairEntry
after_notify now [] last old = old
after_notify now (e ∷ es) last old = renewed now last old

-- A client's keys are distinct, as in a Go map.
abbrev pub HasKeys : Bytes → HotPairTable → Type 0
HasKeys client t = Distinct (entries_of client t)

pub entries_of-put :
    (client client' : Bytes) (m : Entries) (t : HotPairTable)
    → entries_of client' (put client m t)
      ≡ (if bytes_eq client client' then m else entries_of client' t)
entries_of-put client client' m t = ground (arith, get-put client client' m t)

renewed_of :
    (now : ℕ) (last : Option HotPairInfo) (swept old : Option HotPairEntry)
    → swept ≡ only (λ e. not (is_expired now e)) old
    → (elim last as (λ _. Option HotPairEntry) [ some e ↦ some (entry_at now e) | none ↦ swept ])
      ≡ renewed now last old
renewed_of now none swept old h = h
renewed_of now (some e) swept old h = refl

entry-notify_entries :
    (now : ℕ) (es : List HotPairInfo) (client client' key : Bytes) (t : HotPairTable)
    → HasKeys client t
    → entry client' key (notify_entries now es client t) ≡ (
        if bytes_eq client client'
        then after_notify now es (told key es) (entry client key t)
        else entry client' key t)
unfolding notify_entries
entry-notify_entries now [] client client' key t d = ground (arith, bytes_eq_iff client client')
entry-notify_entries now (e ∷ es) client client' key t d =
    let old = entries_of client t in
    let new = upsert_all now (e ∷ es) (sweep now old) in
    ap (get key) (entries_of-put client client' new t)
    ∙ elim (Bool-cases (bytes_eq client client')) [
      | inl same ↦ rw same (
          get-upsert_all now key (e ∷ es) (sweep now old)
          ∙ renewed_of now (told key (e ∷ es)) (get key (sweep now old)) (get key old)
              (get-keep (λ kv. not (is_expired now kv.1)) key old d))
      | inr other ↦ rw other
    ]

-- Where the client's keys are distinct, a notification gives each key that it tells its last usable
-- record, stamped with the time, and one that tells no record changes nothing; the client's
-- other entries stay as they were if they have not expired, and other clients' entries stay.
pub entry-handle_notify :
    (now : ℕ) (client client' key payload : Bytes) (t : HotPairTable)
    → HasKeys client t
    → let es = decode_hot_pair_notify payload in
      entry client' key (handle_notify now client payload t) ≡ (
        if bytes_eq client client'
        then after_notify now es (told key es) (entry client key t)
        else entry client' key t)
unfolding handle_notify
entry-handle_notify now client client' key payload t d =
    entry-notify_entries now (decode_hot_pair_notify payload) client client' key t d

-- What the code relies on in a table: maps have distinct keys, an entry stands under its own key,
-- and its key and channels passed the checks of HandleNotify.
abbrev pub IsUsable : Bytes × HotPairEntry → Type 0
IsUsable (k, e) = (e.key ≡ k) × (0 < length k) × (0 < e.cha) × (0 < e.chb)

abbrev pub AreUsable : Bytes × Entries → Type 0
AreUsable (client, m) = Distinct m × All IsUsable m

pub record IsWellFormed (t : HotPairTable) : Type 0 where
  pub clients : Distinct t
  pub usable : All AreUsable t

pub entries_of-AreUsable :
    (client : Bytes) (t : HotPairTable) → IsWellFormed t → AreUsable (client, entries_of client t)
entries_of-AreUsable client t w = elim (Option-cases (get client t)) [
  | inl missing ↦ rw (missing, entries_of) (tt, tt)
  | inr (m, found) ↦ rw (found, entries_of) (All-get AreUsable client t m w.usable found)
]

pub put-IsWellFormed :
    (client : Bytes) (m : Entries) (t : HotPairTable)
    → IsWellFormed t
    → AreUsable (client, m)
    → IsWellFormed (put client m t)
put-IsWellFormed client m t w h = record {
  clients = put-Distinct client m t w.clients;
  usable = All-put AreUsable client m t h w.usable;
}

upsert_all-AreUsable :
    (now : ℕ) (client : Bytes) (es : List HotPairInfo) (m : Entries)
    → AreUsable (client, m)
    → AreUsable (client, upsert_all now es m)
unfolding upsert_all
upsert_all-AreUsable now client [] m h = h
upsert_all-AreUsable now client (e ∷ es) m h = elim (Bool-cases (is_unusable e)) [
  | inl skipped ↦ rw skipped (upsert_all-AreUsable now client es m h)
  | inr kept ↦ rw kept (
      upsert_all-AreUsable now client es (put e.key (entry_at now e) m) (
        put-Distinct e.key (entry_at now e) m h.0,
        All-put IsUsable e.key (entry_at now e) m (ground arith) h.1,
      ))
]

notify_entries-IsWellFormed :
    (now : ℕ) (es : List HotPairInfo) (client : Bytes) (t : HotPairTable)
    → IsWellFormed t
    → IsWellFormed (notify_entries now es client t)
unfolding notify_entries
notify_entries-IsWellFormed now [] client t w = w
notify_entries-IsWellFormed now (e ∷ es) client t w =
    let old = entries_of client t in
    let fresh = λ (kv : Bytes × HotPairEntry). not (is_expired now kv.1) in
    let have = entries_of-AreUsable client t w in
    let new = upsert_all now (e ∷ es) (sweep now old) in
    put-IsWellFormed client new t w (
      upsert_all-AreUsable now client (e ∷ es) (sweep now old)
        (keep-Distinct fresh old have.0, All-keep IsUsable fresh old have.1))

-- A notification keeps the table well formed, whatever its payload holds.
pub handle_notify-IsWellFormed :
    (now : ℕ) (client payload : Bytes) (t : HotPairTable)
    → IsWellFormed t
    → IsWellFormed (handle_notify now client payload t)
unfolding handle_notify
handle_notify-IsWellFormed now client payload t =
    notify_entries-IsWellFormed now (decode_hot_pair_notify payload) client t
