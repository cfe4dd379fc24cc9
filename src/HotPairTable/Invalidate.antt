-- ===== src/HotPairTable/Invalidate.antt =====
-- hotpair_table.go: what InvalidateChannel and InvalidateClient take out of the table.
use xtunnel.Base.{
  ℕ, ◌≡◌, refl, Bool, true, not, none, [], ◌∷◌, ◌==◌, arith, if◌then◌else◌, length, keep, Bytes,
  All, All-keep, ap, ◌∙◌, Bool-cases, inl, inr, bytes_eq, bytes_eq→eq,
}
use xtunnel.Base.Dict.{
  get, delete, text_eq, only, Distinct, Fresh, get-keep, keep-Distinct, get-Fresh, get-delete,
  All-delete, delete-Distinct,
}
use xtunnel.HotPairTable.{
  HotPairEntry, Entries, HotPairTable, entries_of, uses_channel, invalidate_channel,
  invalidate_client, entry,
}
use xtunnel.HotPairTable.Notify.{IsWellFormed, AreUsable, IsUsable, entries_of-AreUsable}

abbrev off_channel : ℕ → Bytes × HotPairEntry → Bool
off_channel ch kv = not (uses_channel ch kv.1)

invalidate_channel-Fresh :
    (ch : ℕ) (client : Bytes) (t : HotPairTable)
    → Fresh client t
    → Fresh client (invalidate_channel ch t)
unfolding invalidate_channel
invalidate_channel-Fresh ch client [] h = tt
invalidate_channel-Fresh ch client ((c, m) ∷ t) h =
    elim (Bool-cases (length (keep (off_channel ch) m) == 0)) [
      | inl gone ↦ rw gone (invalidate_channel-Fresh ch client t h.1)
      | inr left ↦ rw left (h.0, invalidate_channel-Fresh ch client t h.1)
    ]

empty_of_length : (m : Entries) → (length m == 0) ≡ true → m ≡ []
empty_of_length [] h = refl
empty_of_length (x ∷ m) h = absurd (ground arith)

entries_of-cons :
    (c client : Bytes) (m : Entries) (t : HotPairTable)
    → entries_of client ((c, m) ∷ t) ≡ (if bytes_eq c client then m else entries_of client t)
unfolding get
entries_of-cons c client m t = ground arith

entries_of-Fresh : (client : Bytes) (t : HotPairTable) → Fresh client t → entries_of client t ≡ []
entries_of-Fresh client t h = rw (get-Fresh client t h, entries_of)

entries_of-invalidate_channel :
    (ch : ℕ) (client : Bytes) (t : HotPairTable)
    → Distinct t
    → entries_of client (invalidate_channel ch t) ≡ keep (off_channel ch) (entries_of client t)
unfolding invalidate_channel
entries_of-invalidate_channel ch client [] d = rw (entries_of-Fresh client [] tt)
entries_of-invalidate_channel ch client ((c, m) ∷ t) d =
    let ih = entries_of-invalidate_channel ch client t d.1 in
    let rest = invalidate_channel ch t in
    let m' = keep (off_channel ch) m in
    let fresh = invalidate_channel-Fresh ch c t d.0 in
    elim (Bool-cases (length m' == 0)) [
      | inl gone ↦ elim (Bool-cases (bytes_eq c client)) [
        | inl hit ↦
            let here = bytes_eq→eq c client hit in
            rw (gone, entries_of-cons c client m t, hit, empty_of_length m' gone, ← here)
              (entries_of-Fresh c rest fresh)
        | inr miss ↦ rw (gone, entries_of-cons c client m t, miss) ih
      ]
      | inr left ↦ elim (Bool-cases (bytes_eq c client)) [
        | inl hit ↦ rw (left, entries_of-cons c client m' rest, entries_of-cons c client m t, hit)
        | inr miss ↦
            rw (left, entries_of-cons c client m' rest, entries_of-cons c client m t, miss) ih
      ]
    ]

-- When a channel goes, every client keeps exactly its entries that do not name the channel.
pub entry-invalidate_channel :
    (ch : ℕ) (client key : Bytes) (t : HotPairTable)
    → IsWellFormed t
    → entry client key (invalidate_channel ch t)
      ≡ only (λ e. not (uses_channel ch e)) (entry client key t)
entry-invalidate_channel ch client key t w =
    ap (get key) (entries_of-invalidate_channel ch client t w.clients)
    ∙ get-keep (off_channel ch) key (entries_of client t) (entries_of-AreUsable client t w).0

invalidate_channel-Distinct :
    (ch : ℕ) (t : HotPairTable) → Distinct t → Distinct (invalidate_channel ch t)
unfolding invalidate_channel
invalidate_channel-Distinct ch [] d = tt
invalidate_channel-Distinct ch ((c, m) ∷ t) d =
    elim (Bool-cases (length (keep (off_channel ch) m) == 0)) [
      | inl gone ↦ rw gone (invalidate_channel-Distinct ch t d.1)
      | inr left ↦
          rw left (invalidate_channel-Fresh ch c t d.0, invalidate_channel-Distinct ch t d.1)
    ]

invalidate_channel-AreUsable :
    (ch : ℕ) (t : HotPairTable) → All AreUsable t → All AreUsable (invalidate_channel ch t)
unfolding invalidate_channel
invalidate_channel-AreUsable ch [] h = tt
invalidate_channel-AreUsable ch ((c, m) ∷ t) h =
    elim (Bool-cases (length (keep (off_channel ch) m) == 0)) [
      | inl gone ↦ rw gone (invalidate_channel-AreUsable ch t h.1)
      | inr left ↦ rw left (
        (keep-Distinct (off_channel ch) m h.0.0, All-keep IsUsable (off_channel ch) m h.0.1),
        invalidate_channel-AreUsable ch t h.1,
      )
    ]

-- A channel's end keeps the table well formed.
pub invalidate_channel-IsWellFormed :
    (ch : ℕ) (t : HotPairTable) → IsWellFormed t → IsWellFormed (invalidate_channel ch t)
invalidate_channel-IsWellFormed ch t w = record {
  clients = invalidate_channel-Distinct ch t w.clients;
  usable = invalidate_channel-AreUsable ch t w.usable;
}

-- When a client goes, its entries go, and the other clients' stay.
pub entry-invalidate_client :
    (client client' key : Bytes) (t : HotPairTable)
    → entry client' key (invalidate_client client t)
      ≡ (if bytes_eq client client' then none else entry client' key t)
unfolding invalidate_client
entry-invalidate_client client client' key t =
    let nothing : get {V = HotPairEntry} key [] ≡ none = get-Fresh key [] tt in
    elim (Bool-cases (bytes_eq client client')) [
      | inl hit ↦
          let gone : get client' (delete client t) ≡ none =
            ground (arith, get-delete client client' t) in
          rw (hit, gone, entries_of) nothing
      | inr miss ↦
          let same : get client' (delete client t) ≡ get client' t =
            ground (arith, get-delete client client' t) in
          rw (miss, same, entries_of)
    ]

-- A client's end keeps the table well formed.
pub invalidate_client-IsWellFormed :
    (client : Bytes) (t : HotPairTable) → IsWellFormed t → IsWellFormed (invalidate_client client t)
unfolding invalidate_client
invalidate_client-IsWellFormed client t w = record {
  clients = delete-Distinct client t w.clients;
  usable = All-delete AreUsable client t w.usable;
}
