-- ===== src/ServerPool/Conns/Steps.antt =====
-- handler.go: the handlers and goroutines of many connections in any order, and what no order of
-- them changes about a connection.
use xtunnel.Base.{
  ℕ, ◌≤◌, ◌<◌, ◌≡◌, ◌⊎◌, inl, inr, refl, sym, ap, ◌∙◌, subst, arith, Bool, true, false, Option,
  none, some, List, ◌==◌, ==_iff, if◌then◌else◌, any, Bytes, Bool-cases,
}
use xtunnel.Base.Dict.{text_eq}
use xtunnel.HotPairTable.{HotPairTable}
use xtunnel.ServerPool.Conns.{Conn, Channel, Server, set_conn}
use xtunnel.ServerPool.Conns.Udp.{
  new_udp_conn, begin_udp_connect, listen_failed, publish_udp, handle_udp_close, forward_udp,
  forward_udp_end,
}
use xtunnel.ServerPool.Conns.Cleanup.{cleanup_channel}
use xtunnel.ServerPool.Conns.Handlers.{
  pending_data_max_size, end_dial, handle_tcp_connect, dial_failed, attach_target, deliver, total,
  handle_tcp_data, handle_select_downlink, handle_tcp_close, handle_prebind_request, forward_data,
  forward_end, report_target,
}

abbrev pub is_dialing : ℕ → Server → Bool
is_dialing a s = any (λ b. b == a) s.dialing

-- One handler's call or one goroutine's section. `accepted` is the outcome of a write, and
-- `channels_change` stands for channels that open or are closed and not cleaned up yet, and
-- for notifications of warmed pairs.
pub data Step (s t : Server) : Type 0 where
  tcp_connect :
      (now : ℕ) (client : Bytes) (ch : ℕ) (id meta : Bytes)
      → t ≡ handle_tcp_connect now client ch id meta s
      → Step s t
  tcp_data :
      (accepted : Bool) (ch : ℕ) (id payload : Bytes)
      → t ≡ handle_tcp_data accepted ch id payload s
      → Step s t
  select_downlink :
      (client : Bytes) (ch : ℕ) (id meta : Bytes)
      → t ≡ handle_select_downlink client ch id meta s
      → Step s t
  tcp_close : (id : Bytes) → t ≡ handle_tcp_close id s → Step s t
  prebind_request :
      (client : Bytes) (ch : ℕ) (id meta : Bytes)
      → t ≡ handle_prebind_request client ch id meta s
      → Step s t
  dial_fails : (a : ℕ) → is_dialing a s ≡ true → t ≡ dial_failed a (end_dial a s) → Step s t
  dial_succeeds :
      (a : ℕ) → is_dialing a s ≡ true → t ≡ (attach_target a (end_dial a s)).1 → Step s t
  dial_reported : (a : ℕ) → t ≡ report_target a s → Step s t
  write_pending :
      (accepted : Bool) (a : ℕ) (bytes : Bytes)
      → t ≡ deliver accepted a (s.heap a).conn_id bytes s
      → Step s t
  forward : (a : ℕ) (payload : Bytes) → t ≡ forward_data a payload s → Step s t
  target_ends : (a : ℕ) → t ≡ forward_end a s → Step s t
  udp_connect_begins :
      (client : Bytes) (ch : ℕ) (id meta : Bytes)
      → t ≡ (begin_udp_connect client ch id meta s).1
      → Step s t
  udp_listen_fails : (c : Conn) → t ≡ listen_failed c s → Step s t
  udp_published :
      (client : Bytes) (ch : ℕ) (id target : Bytes) (strategy : ℕ)
      → t ≡ publish_udp (new_udp_conn client ch id target strategy) s
      → Step s t
  udp_close : (id : Bytes) → t ≡ handle_udp_close id s → Step s t
  udp_forward :
      (a : ℕ) (reply_addr payload : Bytes) → t ≡ forward_udp a reply_addr payload s → Step s t
  udp_ends : (a : ℕ) → t ≡ forward_udp_end a s → Step s t
  channel_lost : (client : Bytes) (ch : ℕ) → t ≡ (cleanup_channel client ch s).server → Step s t
  channels_change :
      (channels : Bytes → ℕ → Option Channel) (sockets : List Channel) (hot_pairs : HotPairTable)
      → t ≡ record s { channels = channels; sockets = sockets; hot_pairs = hot_pairs }
      → Step s t

pub data Reach (s : Server) : Server → Type 0 where
  here : Reach s s
  next : {t u : Server} → Reach s t → Step t u → Reach s u

abbrev pub IsSmall : Conn → Type 0
IsSmall c = total c.pending ≤ pending_data_max_size

-- What never changes about a connection: its id, target, uplink and owner; a downlink, once chosen;
-- that it is closed; and the limit on what it buffers.
pub record Keeps (c d : Conn) : Type 0 where
  pub id_kept : d.conn_id ≡ c.conn_id
  pub target_kept : d.target ≡ c.target
  pub uplink_kept : d.uplink ≡ c.uplink
  pub client_kept : d.client ≡ c.client
  pub downlink_kept : 0 < c.downlink → d.downlink ≡ c.downlink
  pub closed_kept : c.closed ≡ true → d.closed ≡ true
  pub small_kept : IsSmall c → IsSmall d

pub Keeps-refl : (c : Conn) → Keeps c c
Keeps-refl c = record {
  id_kept = refl;
  target_kept = refl;
  uplink_kept = refl;
  client_kept = refl;
  downlink_kept = λ _. refl;
  closed_kept = λ h. h;
  small_kept = λ h. h;
}

pub Keeps-trans : {c d e : Conn} → Keeps c d → Keeps d e → Keeps c e
Keeps-trans h k = record {
  id_kept = k.id_kept ∙ h.id_kept;
  target_kept = k.target_kept ∙ h.target_kept;
  uplink_kept = k.uplink_kept ∙ h.uplink_kept;
  client_kept = k.client_kept ∙ h.client_kept;
  downlink_kept =
      λ p. k.downlink_kept (subst (λ n. 0 < n) (sym (h.downlink_kept p)) p) ∙ h.downlink_kept p;
  closed_kept = λ p. k.closed_kept (h.closed_kept p);
  small_kept = λ p. k.small_kept (h.small_kept p);
}

-- The state at an address stays the same connection, or it is one that was made at `n` or later.
abbrev pub Changes : ℕ → ℕ → Conn → Conn → Type 0
Changes n b c d = Keeps c d ⊎ ((n ≤ b) × IsSmall d)

pub Changes-trans : (n b : ℕ) {c d e : Conn} → Changes n b c d → Changes n b d e → Changes n b c e
Changes-trans n b (inl h) (inl k) = inl (Keeps-trans h k)
Changes-trans n b (inr h) (inl k) = inr (h.0, k.small_kept h.1)
Changes-trans n b h (inr k) = inr k

pub record Evolves (n : ℕ) (s t : Server) : Type 0 where
  pub grows : s.next ≤ t.next
  pub changes : (b : ℕ) → Changes n b (s.heap b) (t.heap b)

pub Evolves-trans : {n : ℕ} {s t u : Server} → Evolves n s t → Evolves n t u → Evolves n s u
Evolves-trans {n} h k = record {
  grows = omega (arith, h.grows, k.grows);
  changes = λ b. Changes-trans n b (h.changes b) (k.changes b);
}

-- A step that writes no connection.
pub same-Evolves : (n : ℕ) (s t : Server) → t.next ≡ s.next → t.heap ≡ s.heap → Evolves n s t
same-Evolves n s t e h = record {
  grows = omega (arith, e);
  changes = λ b. inl (rw (ap (λ (f : ℕ → Conn). f b) h) (Keeps-refl (s.heap b)));
}

pub set_conn-Evolves :
    (n a : ℕ) (c : Conn) (s : Server) → Changes n a (s.heap a) c → Evolves n s (set_conn a c s)
set_conn-Evolves n a c s k = record {
  grows = omega arith;
  changes = λ b. elim (Bool-cases (b == a)) [
    | inl hit ↦
        rw hit (subst (λ x. Changes n x (s.heap x) c) (sym (ground (arith, hit, ==_iff b a))) k)
    | inr miss ↦ rw miss (inl (Keeps-refl (s.heap b)))
  ];
}

pub Keeps-if : (b : Bool) {c d e : Conn} → Keeps c d → Keeps c e → Keeps c (if b then d else e)
Keeps-if true h k = h
Keeps-if false h k = k

pub Evolves-if :
    (b : Bool) {n : ℕ} {s t u : Server}
    → Evolves n s t
    → Evolves n s u
    → Evolves n s (if b then t else u)
Evolves-if true h k = h
Evolves-if false h k = k

pub Evolves-if_pair :
    {A : Type 0} (b : Bool) {n : ℕ} {s : Server} (p q : A × Server)
    → Evolves n s p.1
    → Evolves n s q.1
    → Evolves n s (if b then p else q).1
Evolves-if_pair true p q h k = h
Evolves-if_pair false p q h k = k

pub Evolves-elim :
    {A : Type 0} {n : ℕ} {s : Server} (o : Option A) (u : Server) (f : A → Server)
    → Evolves n s u
    → ((a : A) → Evolves n s (f a))
    → Evolves n s (elim o as (λ _. Server) [ none ↦ u | some a ↦ f a ])
Evolves-elim none u f h k = h
Evolves-elim (some a) u f h k = k a
