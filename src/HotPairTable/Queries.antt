-- ===== src/HotPairTable/Queries.antt =====
-- hotpair_table.go: what Lookup and Newest answer, and what they leave in the table.
use xtunnel.Base.{
  ℕ, ◌<◌, ◌≤◌, ◌≡◌, ◌≢◌, ◌⊎◌, refl, Bool, true, false, not, ◌||◌, ◌&&◌, bytes_eq→eq, Option, none,
  some, [], ◌∷◌, ◌==◌, arith, if◌then◌else◌, length, Bytes, All, All-keep, Bool-cases, Option-cases,
  inl, inr, bytes_eq, bytes_eq_iff,
}
use xtunnel.Base.Dict.{
  get, put, delete, text_eq, only, get-keep, keep-Distinct, All-get, All-delete, get-Fresh,
  get-delete, delete-Distinct,
}
use xtunnel.HotPairTable.{
  HotPairEntry, Entries, HotPairTable, is_expired, entries_of, sweep, lookup, newest_of, newest,
  advance, entry,
}
use xtunnel.HotPairTable.Notify.{
  IsWellFormed, AreUsable, IsUsable, entries_of-put, put-IsWellFormed,
}

abbrev pub is_blank : Bytes → Bytes → Bool
is_blank client key = length client == 0 || length key == 0

-- Lookup answers the entry of the client under the key, if it has not expired; a blank client or
-- key has none.
pub lookup-entry :
    (now : ℕ) (client key : Bytes) (t : HotPairTable)
    → (lookup now client key t).0 ≡ (
        if is_blank client key
        then none
        else only (λ e. not (is_expired now e)) (entry client key t))
unfolding lookup
lookup-entry now client key t =
    let nothing : get {V = HotPairEntry} key [] ≡ none = get-Fresh key [] tt in ground arith

-- The entry stands in the map and has not expired.
abbrev pub Holds : ℕ → HotPairEntry → Entries → Type 0
Holds now e [] = ⊥
Holds now e ((k, x) ∷ m) = ((x ≡ e) × (is_expired now x ≡ false)) ⊎ Holds now e m

abbrev pub NotNewer : ℕ → HotPairEntry → Bytes × HotPairEntry → Type 0
NotNewer now e (k, x) = (is_expired now x ≡ true) ⊎ (x.at ≤ e.at)

abbrev BestIs : Option HotPairEntry → HotPairEntry → Type 0
BestIs none e = ⊥
BestIs (some b) e = b ≡ e

abbrev BestNotNewer : Option HotPairEntry → HotPairEntry → Type 0
BestNotNewer none e = Unit {0}
BestNotNewer (some b) e = b.at ≤ e.at

newest_of_sound :
    (now : ℕ) (best : Option HotPairEntry) (m : Entries) (e : HotPairEntry)
    → newest_of now best m ≡ some e
    → (BestIs best e ⊎ Holds now e m) × BestNotNewer best e × All (NotNewer now e) m
unfolding newest_of
newest_of_sound now none [] e h = cc
newest_of_sound now (some b) [] e h = (inl (ground arith), ground arith, tt)
newest_of_sound now none ((k, x) ∷ m) e h =
    let rest = newest_of_sound now (advance now none x) m e h in ground arith
newest_of_sound now (some b) ((k, x) ∷ m) e h =
    let rest = newest_of_sound now (advance now (some b) x) m e h in ground arith

newest_of-some : (now : ℕ) (b : HotPairEntry) (m : Entries) → newest_of now (some b) m ≢ none
unfolding newest_of
newest_of-some now b [] h = cc
newest_of-some now b ((k, x) ∷ m) h = ground (arith, newest_of-some now b m, newest_of-some now x m)

newest_of-none :
    (now : ℕ) (m : Entries) → newest_of now none m ≡ none → All (λ kv. is_expired now kv.1 ≡ true) m
unfolding newest_of
newest_of-none now [] h = tt
newest_of-none now ((k, x) ∷ m) h = elim (Bool-cases (is_expired now x)) [
  | inl old ↦ (old, newest_of-none now m (rw old at h))
  | inr fresh ↦ absurd (newest_of-some now x m (rw fresh at h))
]

-- Newest answers an entry of the client that has not expired, and no other entry that has not
-- expired is newer.
pub newest_sound :
    (now : ℕ) (client : Bytes) (t : HotPairTable) (e : HotPairEntry)
    → (newest now client t).0 ≡ some e
    → Holds now e (entries_of client t) × All (NotNewer now e) (entries_of client t)
unfolding newest
newest_sound now client t e h = elim (Option-cases (get client t)) [
  | inl missing ↦ absurd (ground arith)
  | inr (m, found) ↦
      let answered : newest_of now none m ≡ some e = ground arith in
      let (held, _, all) = newest_of_sound now none m e answered in
      rw (found, entries_of) (held_only m held, all)
]
  where
    held_only : (m : Entries) → BestIs none e ⊎ Holds now e m → Holds now e m
    held_only m (inl h) = absurd h
    held_only m (inr h) = h

-- For a client that is named, Newest answers nothing only where every entry of the client has expired.
pub newest-none :
    (now : ℕ) (client : Bytes) (t : HotPairTable)
    → 0 < length client
    → (newest now client t).0 ≡ none
    → All (λ kv. is_expired now kv.1 ≡ true) (entries_of client t)
unfolding newest
newest-none now client t named h = elim (Option-cases (get client t)) [
  | inl missing ↦ rw (missing, entries_of) tt
  | inr (m, found) ↦
      let answered : newest_of now none m ≡ none = ground arith in
      rw (found, entries_of) (newest_of-none now m answered)
]

-- The table after Lookup: as it was, or without the expired entry that was asked for.
lookup_table :
    (now : ℕ) (client key : Bytes) (t : HotPairTable)
    → ((lookup now client key t).1 ≡ t)
      ⊎ ((m : Entries) × (e : HotPairEntry) × (get client t ≡ some m)
          × (get key m ≡ some e)
          × (is_expired now e ≡ true)
          × ((lookup now client key t).1 ≡ put client (delete key m) t))
unfolding lookup
lookup_table now client key t = elim (Option-cases (get client t)) [
  | inl missing ↦ inl (ground arith)
  | inr (m, found) ↦ elim (Option-cases (get key m)) [
    | inl missing ↦ inl (ground arith)
    | inr (e, held) ↦ elim (Bool-cases (not (is_blank client key) && is_expired now e)) [
      | inl old ↦ inr (m, e, found, held, ground arith, ground arith)
      | inr kept ↦ inl (ground arith)
    ]
  ]
]

newest_table :
    (now : ℕ) (client : Bytes) (t : HotPairTable)
    → ((newest now client t).1 ≡ t)
      ⊎ ((m : Entries) × (get client t ≡ some m)
          × ((newest now client t).1 ≡ put client (sweep now m) t))
unfolding newest
newest_table now client t = elim (Option-cases (get client t)) [
  | inl missing ↦ inl (ground arith)
  | inr (m, found) ↦ elim (Bool-cases (length client == 0)) [
    | inl blank ↦ inl (ground arith)
    | inr named ↦ inr (m, found, ground arith)
  ]
]

-- What Lookup may still answer at a time.
abbrev pub live : ℕ → Bytes → Bytes → HotPairTable → Option HotPairEntry
live now client key t = only (λ e. not (is_expired now e)) (entry client key t)

expires_later :
    (now later : ℕ) (e : HotPairEntry)
    → now ≤ later
    → is_expired now e ≡ true
    → is_expired later e ≡ true
expires_later now later e h old = ground arith

live-put :
    (later : ℕ) (client client' key : Bytes) (m m' : Entries) (t : HotPairTable)
    → get client t ≡ some m
    → only (λ e. not (is_expired later e)) (get key m')
      ≡ only (λ e. not (is_expired later e)) (get key m)
    → live later client' key (put client m' t) ≡ live later client' key t
live-put later client client' key m m' t found same =
    let there : entries_of client t ≡ m = rw (found, entries_of) in
    elim (Bool-cases (bytes_eq client client')) [
      | inl hit ↦
          let one = bytes_eq→eq client client' hit in
          rw (entries_of-put client client' m' t, hit, ← one, there) same
      | inr other ↦ rw (entries_of-put client client' m' t, other)
    ]

-- Lookup takes nothing from the table that it could answer at the same time or later.
pub live-lookup :
    (now later : ℕ) (client client' key key' : Bytes) (t : HotPairTable)
    → now ≤ later
    → live later client' key' (lookup now client key t).1 ≡ live later client' key' t
live-lookup now later client client' key key' t h = elim (lookup_table now client key t) [
  | inl same ↦ rw same
  | inr (m, e, found, held, old, after) ↦ rw after (
      live-put later client client' key' m (delete key m) t found (
        ground
          (arith, get-delete key key' m, bytes_eq_iff key key', expires_later now later e h old)))
]

-- Newest takes nothing from a well-formed table that Lookup could answer at the same time or later.
pub live-newest :
    (now later : ℕ) (client client' key : Bytes) (t : HotPairTable)
    → IsWellFormed t
    → now ≤ later
    → live later client' key (newest now client t).1 ≡ live later client' key t
live-newest now later client client' key t w h = elim (newest_table now client t) [
  | inl same ↦ rw same
  | inr (m, found, after) ↦
      let have = All-get AreUsable client t m w.usable found in
      rw after (
        live-put later client client' key m (sweep now m) t found
          (rw (get-keep (λ kv. not (is_expired now kv.1)) key m have.0) (only_later (get key m))))
]
  where
    only_later :
        (o : Option HotPairEntry)
        → only (λ e. not (is_expired later e)) (only (λ e. not (is_expired now e)) o)
          ≡ only (λ e. not (is_expired later e)) o
    only_later none = refl
    only_later (some e) = ground (arith, expires_later now later e h)

-- Lookup keeps the table well formed.
pub lookup-IsWellFormed :
    (now : ℕ) (client key : Bytes) (t : HotPairTable)
    → IsWellFormed t
    → IsWellFormed (lookup now client key t).1
lookup-IsWellFormed now client key t w = elim (lookup_table now client key t) [
  | inl same ↦ rw same w
  | inr (m, e, found, held, old, after) ↦
      let have = All-get AreUsable client t m w.usable found in
      rw after (
        put-IsWellFormed client (delete key m) t w
          (delete-Distinct key m have.0, All-delete IsUsable key m have.1))
]

-- Newest keeps the table well formed.
pub newest-IsWellFormed :
    (now : ℕ) (client : Bytes) (t : HotPairTable)
    → IsWellFormed t
    → IsWellFormed (newest now client t).1
newest-IsWellFormed now client t w = elim (newest_table now client t) [
  | inl same ↦ rw same w
  | inr (m, found, after) ↦
      let have = All-get AreUsable client t m w.usable found in
      let fresh = λ (kv : Bytes × HotPairEntry). not (is_expired now kv.1) in
      rw after (
        put-IsWellFormed client (sweep now m) t w
          (keep-Distinct fresh m have.0, All-keep IsUsable fresh m have.1))
]
