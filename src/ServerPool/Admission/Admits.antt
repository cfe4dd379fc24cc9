-- ===== src/ServerPool/Admission/Admits.antt =====
-- server_pool.go: which channels are admitted, and under which number.
use xtunnel.Base.{
  ℕ, zero, suc, ◌+◌, ◌≤◌, ◌<◌, ◌≡◌, refl, ap, subst, ==_iff, Bool, true, false, not, ◌||◌, Option,
  none, some, ltb, ◌==◌, Bytes, bytes_eq_refl, ==_refl, arith, ◌⊎◌, inl, inr, Bool-cases,
}
use xtunnel.ServerPool.Conns.{Channel, Server, channel_alive}
use xtunnel.ServerPool.Admission.{
  Limits, Reply, admitted, alloc_from, alloc_client_ch_id, is_full, with_channel, new_channel,
  with_number, handle_web_socket, max_allowed_ch_id,
}

-- The least number that no open channel of the client has, or 0 if there is none.
abbrev pub IsLeast : ℕ → ℕ → Bytes → Server → ℕ → Type 0
IsLeast left i client s r =
    ((r ≡ 0) × ((k : ℕ) → i ≤ k → k < i + left → channel_alive client k s ≡ true))
    ⊎ ((i ≤ r)
        × (r < i + left)
        × (channel_alive client r s ≡ false)
        × ((k : ℕ) → i ≤ k → k < r → channel_alive client k s ≡ true))

alloc_from-IsLeast :
    (left i : ℕ) (client : Bytes) (s : Server)
    → IsLeast left i client s (alloc_from left i client s)
unfolding alloc_from
alloc_from-IsLeast zero i client s = inl (refl, λ k low high. absurd (omega arith))
alloc_from-IsLeast (suc left) i client s = elim (Bool-cases (channel_alive client i s)) [
  | inr free ↦ rw free (inr (omega arith, omega arith, free, λ k low high. absurd (omega arith)))
  | inl taken ↦
      rw taken
        (later (alloc_from left (suc i) client s) taken (alloc_from-IsLeast left (suc i) client s))
]
  where
    first :
        (k : ℕ)
        → channel_alive client i s ≡ true
        → i ≤ k
        → (suc i ≤ k → channel_alive client k s ≡ true)
        → channel_alive client k s ≡ true
    first k taken low h = elim (Bool-cases (i == k)) [
      | inl same ↦ subst (λ n. channel_alive client n s ≡ true) ((==_iff i k).0 same) taken
      | inr other ↦ h (ground arith)
    ]

    later :
        (r : ℕ)
        → channel_alive client i s ≡ true
        → IsLeast left (suc i) client s r
        → IsLeast (suc left) i client s r
    later r taken (inl (none_free, all)) =
        inl (none_free, λ k low high. first k taken low (λ more. all k more (omega arith)))
    later r taken (inr (low, high, free, below)) =
        inr (omega arith, omega arith, free, λ k l h. first k taken l (λ more. below k more h))

-- The number that the client asked for, or the least that none of its open channels has.
abbrev pub IsNumber : Option (Option ℕ) → Bytes → Server → ℕ → Type 0
IsNumber none client s ch = IsLeast max_allowed_ch_id 1 client s ch
IsNumber (some none) client s ch = ⊥
IsNumber (some (some asked)) client s ch = ch ≡ asked

-- What a reply says of the server before and behind it: only an admission changes it, and then a
-- channel has come to life under a number that was free, within the limits.
abbrev pub IsReply : Limits → Bytes → Option (Option ℕ) → Server → Reply → Server → Type 0
IsReply limits client requested s admitted after =
    (ch : ℕ) × (0 < ch)
    × (ch ≤ max_allowed_ch_id)
    × IsNumber requested client s ch
    × (channel_alive client ch s ≡ false)
    × (is_full limits client s ≡ false)
    × (after ≡ with_channel client ch s)
    × (channel_alive client ch after ≡ true)
IsReply limits client requested s _ after = after ≡ s

found :
    (client : Bytes) (ch : ℕ) (s : Server)
    → (with_channel client ch s).channels client ch ≡ some (new_channel client ch)
found client ch s = ground (arith, bytes_eq_refl client, ==_refl ch)

alive-with_channel :
    (client : Bytes) (ch : ℕ) (s : Server)
    → channel_alive client ch (with_channel client ch s) ≡ true
unfolding channel_alive
alive-with_channel client ch s =
    ap (λ (o : Option Channel). elim o [ none ↦ false | some w ↦ not w.closed ]) (found client ch s)

with_number-IsReply :
    (limits : Limits) (upgraded : Bool) (client : Bytes) (requested : Option (Option ℕ)) (ch : ℕ)
    (s : Server)
    → 0 < ch
    → ch ≤ max_allowed_ch_id
    → IsNumber requested client s ch
    → let r = with_number limits upgraded client ch s in IsReply limits client requested s r.0 r.1
with_number-IsReply limits upgraded client requested ch s positive small right =
    elim (Bool-cases (is_full limits client s)) [
      | inl full ↦ rw full refl
      | inr room ↦ elim (Bool-cases upgraded) [
        | inr failed ↦ rw (room, failed) refl
        | inl works ↦ elim (Bool-cases (channel_alive client ch s)) [
          | inl used ↦ rw (room, works, used) refl
          | inr free ↦
              rw (room, works, free)
                (ch, positive, small, right, free, room, refl, alive-with_channel client ch s)
        ]
      ]
    ]

alloc_client_ch_id-small :
    (client : Bytes) (s : Server) → alloc_client_ch_id client s ≤ max_allowed_ch_id
unfolding alloc_client_ch_id
alloc_client_ch_id-small client s = elim (alloc_from-IsLeast max_allowed_ch_id 1 client s) [
  | inl (none_free, all) ↦ rw none_free (omega arith)
  | inr (low, high, free, below) ↦ omega arith
]

-- The number that is given to a client without a wish is the least that none of its open channels has,
-- and 0 only when all of 1 to 65535 are taken.
pub alloc_client_ch_id-IsLeast :
    (client : Bytes) (s : Server)
    → IsLeast max_allowed_ch_id 1 client s (alloc_client_ch_id client s)
unfolding alloc_client_ch_id
alloc_client_ch_id-IsLeast client s = alloc_from-IsLeast max_allowed_ch_id 1 client s

-- handleWebSocket changes nothing unless it admits the channel; and then the channel has a number from
-- 1 to 65535, the one asked for or, where none was, the least free one, under which the client had no
-- open channel, and the open channels were below both limits.
pub handle_web_socket-IsReply :
    (limits : Limits) (authorized upgraded : Bool) (client : Bytes) (requested : Option (Option ℕ))
    (s : Server)
    → let r = handle_web_socket limits authorized upgraded client requested s in
      IsReply limits client requested s r.0 r.1
unfolding handle_web_socket
handle_web_socket-IsReply limits false upgraded client requested s = refl
handle_web_socket-IsReply limits true upgraded client none s =
    elim (Bool-cases (alloc_client_ch_id client s == 0)) [
      | inl none_free ↦ rw none_free refl
      | inr found ↦ rw found (
          with_number-IsReply limits upgraded client none (alloc_client_ch_id client s) s
            (ground arith) (alloc_client_ch_id-small client s)
            (alloc_client_ch_id-IsLeast client s))
    ]
handle_web_socket-IsReply limits true upgraded client (some none) s = refl
handle_web_socket-IsReply limits true upgraded client (some (some ch)) s =
    elim (Bool-cases (ch == 0 || ltb max_allowed_ch_id ch)) [
      | inl bad ↦ rw bad refl
      | inr good ↦ rw good (
          with_number-IsReply limits upgraded client (some (some ch)) ch s (ground arith)
            (ground arith) refl)
    ]
