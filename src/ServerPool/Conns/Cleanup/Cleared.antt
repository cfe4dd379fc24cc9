-- ===== src/ServerPool/Conns/Cleanup/Cleared.antt =====
-- server_pool.go: what cleanupChannel leaves of the connections.
use xtunnel.Base.{
  true, ℕ, ◌≡◌, ◌≢◌, refl, sym, ap, ◌∙◌, Bool, false, Option, none, some, List, [], ◌∷◌, ◌==◌,
  ==_iff, arith, any, if◌then◌else◌, Bytes, bytes_eq, bytes_eq_iff, bytes_eq_refl, Bool-cases,
  Option-cases, inl, inr, ◌⊎◌,
}
use xtunnel.Base.Dict.{get, text_eq, get-delete, Distinct, get-Fresh}
use xtunnel.ServerPool.Conns.{Conn, Server, shut_conn, unregister_conn}
use xtunnel.ServerPool.Conns.Cleanup.{uses, to_close, unregister_all, take_channel, cleanup_channel}

-- No id but `id` has the connection at `a`.
abbrev pub IsOwner : Bytes → ℕ → Server → Type 0
IsOwner id a s = (j : Bytes) → get j s.conns ≡ some a → j ≡ id

abbrev IsUnowned : ℕ → Server → Type 0
IsUnowned a s = (j : Bytes) → get j s.conns ≢ some a

get-unregister_conn :
    (i id : Bytes) (s : Server)
    → get id (unregister_conn i s).conns ≡ (if bytes_eq i id then none else get id s.conns)
unfolding unregister_conn
get-unregister_conn i id s = elim (Option-cases (get i s.conns)) [
  | inl missing ↦ rw (unregister_conn, missing) (ground (arith, missing, bytes_eq_iff i id))
  | inr (a, found) ↦ rw (unregister_conn, found) (get-delete i id s.conns)
]

-- An id that is not registered any more is not so later.
kept_after :
    (i j : Bytes) (a : ℕ) (s : Server)
    → get j (unregister_conn i s).conns ≡ some a
    → get j s.conns ≡ some a
kept_after i j a s h = elim (Bool-cases (bytes_eq i j)) [
  | inl hit ↦ absurd (cc (rw (get-unregister_conn i j s, hit) at h))
  | inr miss ↦ rw (get-unregister_conn i j s, miss) at h
]

heap-unregister_conn_other :
    (i : Bytes) (a : ℕ) (s : Server)
    → get i s.conns ≢ some a
    → (unregister_conn i s).heap a ≡ s.heap a
unfolding unregister_conn
heap-unregister_conn_other i a s other = elim (Option-cases (get i s.conns)) [
  | inl missing ↦ rw (unregister_conn, missing) refl
  | inr (b, found) ↦ elim (Bool-cases (a == b)) [
    | inl same ↦ absurd (other (found ∙ ap some (sym ((==_iff a b).0 same))))
    | inr differ ↦ rw (unregister_conn, found, differ) refl
  ]
]

heap-unregister_conn_self :
    (i : Bytes) (a : ℕ) (s : Server)
    → get i s.conns ≡ some a
    → (unregister_conn i s).heap a ≡ shut_conn (s.heap a)
unfolding unregister_conn
heap-unregister_conn_self i a s found = rw (unregister_conn, found) (ground (arith, ==_iff a a))

heap-unregister_all_other :
    (ids : List Bytes) (a : ℕ) (s : Server)
    → IsUnowned a s
    → (unregister_all ids s).heap a ≡ s.heap a
unfolding unregister_all
heap-unregister_all_other [] a s free = refl
heap-unregister_all_other (i ∷ ids) a s free =
    heap-unregister_all_other ids a (unregister_conn i s) (λ j h. free j (kept_after i j a s h))
    ∙ heap-unregister_conn_other i a s (free i)

get-unregister_all :
    (ids : List Bytes) (id : Bytes) (s : Server)
    → get id (unregister_all ids s).conns ≡ (if any (bytes_eq id) ids then none else get id s.conns)
unfolding unregister_all
get-unregister_all [] id s = refl
get-unregister_all (i ∷ ids) id s =
    rw (get-unregister_all ids id (unregister_conn i s))
      (ground (arith, get-unregister_conn i id s, bytes_eq_iff i id, bytes_eq_iff id i))

heap-unregister_all :
    (ids : List Bytes) (id : Bytes) (a : ℕ) (s : Server)
    → get id s.conns ≡ some a
    → IsOwner id a s
    → (unregister_all ids s).heap a
      ≡ (if any (bytes_eq id) ids then shut_conn (s.heap a) else s.heap a)
unfolding unregister_all
heap-unregister_all [] id a s found owner = refl
heap-unregister_all (i ∷ ids) id a s found owner = elim (Bool-cases (bytes_eq id i)) [
  | inl hit ↦
      let same : id ≡ i = (bytes_eq_iff id i).0 hit in
      let found' : get i s.conns ≡ some a = ap (λ k. get k s.conns) (sym same) ∙ found in
      let free : IsUnowned a (unregister_conn i s) = λ j h.
        let self : j ≡ i = owner j (kept_after i j a s h) ∙ same in
        cc (rw (get-unregister_conn i j s, self, bytes_eq_refl i) at h) in
      rw hit (
        heap-unregister_all_other ids a (unregister_conn i s) free
        ∙ heap-unregister_conn_self i a s found')
  | inr miss ↦
      let differ : bytes_eq i id ≡ false = ground (arith, bytes_eq_iff i id, bytes_eq_iff id i) in
      let other : get i s.conns ≢ some a =
        λ h. let true_too = (bytes_eq_iff id i).1 (sym (owner i h)) in cc (sym true_too ∙ miss) in
      rw
        (
          miss,
          heap-unregister_all ids id a (unregister_conn i s)
              (get-unregister_conn i id s ∙ rw differ found)
              (λ j h. owner j (kept_after i j a s h)),
          heap-unregister_conn_other i a s other,
        )
        refl
]

abbrev uses_at : Bytes → ℕ → (ℕ → Conn) → Option ℕ → Bool
uses_at client ch heap none = false
uses_at client ch heap (some a) = uses client ch (heap a)

any-to_close :
    (client : Bytes) (ch : ℕ) (heap : ℕ → Conn) (conns : List (Bytes × ℕ)) (id : Bytes)
    → Distinct conns
    → any (bytes_eq id) (to_close client ch heap conns) ≡ uses_at client ch heap (get id conns)
unfolding to_close get
any-to_close client ch heap [] id d = refl
any-to_close client ch heap ((i, a) ∷ conns) id d = elim (Bool-cases (bytes_eq i id)) [
  | inl hit ↦
      let same = (bytes_eq_iff i id).0 hit in
      let gone = rw same at (get-Fresh i conns d.0) in
      rw hit
        (ground (arith, any-to_close client ch heap conns id d.1, gone, bytes_eq_iff id i, same))
  | inr miss ↦ rw miss (
      ground
        (arith, any-to_close client ch heap conns id d.1, bytes_eq_iff id i, bytes_eq_iff i id))
]

-- A connection of the client's that sends or receives on the channel.
abbrev pub IsOn : Bytes → ℕ → Conn → Type 0
IsOn client ch c = (c.client ≡ client) × ((c.uplink ≡ ch) ⊎ (c.downlink ≡ ch))

uses→IsOn : (client : Bytes) (ch : ℕ) (c : Conn) → uses client ch c ≡ true → IsOn client ch c
uses→IsOn client ch c h = elim (Bool-cases (bytes_eq c.client client)) [
  | inr other ↦ absurd (cc (rw other at h))
  | inl own ↦ (
    (bytes_eq_iff c.client client).0 own,
    elim (Bool-cases (c.uplink == ch)) [
      | inl up ↦ inl ((==_iff c.uplink ch).0 up)
      | inr not_up ↦ inr ((==_iff c.downlink ch).0 (rw (own, not_up) at h))
    ],
  )
]

IsOn→uses : (client : Bytes) (ch : ℕ) (c : Conn) → IsOn client ch c → uses client ch c ≡ true
IsOn→uses client ch c (own, inl up) =
    rw ((bytes_eq_iff c.client client).1 own, (==_iff c.uplink ch).1 up) refl
IsOn→uses client ch c (own, inr down) =
    rw ((bytes_eq_iff c.client client).1 own, (==_iff c.downlink ch).1 down) (ground arith)

-- When a channel of a client is lost, the connections of that client that send or receive on it are
-- taken out of the registry and their states are shut, sockets included where they were connected;
-- every other connection keeps its entry and its state as it is, those of other clients on a channel
-- of the same number included. The registry has no id twice, and the connection of `id` under no
-- other id.
pub cleanup_channel_lem :
    (client : Bytes) (ch : ℕ) (id : Bytes) (a : ℕ) (s : Server)
    → Distinct s.conns
    → get id s.conns ≡ some a
    → IsOwner id a s
    → let t = (cleanup_channel client ch s).server in
      (IsOn client ch (s.heap a) × (get id t.conns ≡ none) × (t.heap a ≡ shut_conn (s.heap a)))
      ⊎ (¬ (IsOn client ch (s.heap a)) × (get id t.conns ≡ some a) × (t.heap a ≡ s.heap a))
unfolding cleanup_channel
cleanup_channel_lem client ch id a s d found owner =
    let ids : List Bytes = to_close client ch s.heap s.conns in
    let taken : Server = take_channel client ch s in
    let used : any (bytes_eq id) ids ≡ uses client ch (s.heap a) =
      any-to_close client ch s.heap s.conns id d ∙ ap (uses_at client ch s.heap) found in
    let entry = get-unregister_all ids id taken in
    let state = heap-unregister_all ids id a taken found owner in
    elim (Bool-cases (uses client ch (s.heap a))) [
      | inl on ↦ inl (
        uses→IsOn client ch (s.heap a) on,
        entry ∙ rw (used ∙ on) refl,
        state ∙ rw (used ∙ on) refl,
      )
      | inr off ↦ inr (
        λ is_on. cc (sym (IsOn→uses client ch (s.heap a) is_on) ∙ off),
        entry ∙ rw (used ∙ off) found,
        state ∙ rw (used ∙ off) refl,
      )
    ]
