-- ===== src/ServerPool/Conns/Moves.antt =====
-- handler.go: what happens to a connection later on leaves all connections the same ones.
use xtunnel.Base.{
  ℕ, ◌+◌, ◌≡◌, inl, inr, refl, arith, Bool, true, not, ◌&&◌, List, [], ◌∷◌, ◌++◌, ◌==◌, ==_iff, ltb,
  length, Bytes, Bool-cases, Option-cases,
}
use xtunnel.Base.Dict.{get, delete, text_eq}
use xtunnel.Protocol.Message.{msg_conn_status, msg_tcp_close}
use xtunnel.ServerPool.Conns.{
  opened, is_absent, is_open, Conn, Server, send_downlink, unregister_conn,
}
use xtunnel.ServerPool.Conns.Handlers.{
  pending_data_max_size, status_err, dial_failed, attach_target, write_target, deliver, total,
  buffer, handle_tcp_data, choose_downlink, chosen_downlink, may_choose, handle_select_downlink,
  forward_end,
}
use xtunnel.ServerPool.Conns.Steps.{
  Keeps, Keeps-refl, Evolves, Evolves-trans, same-Evolves, set_conn-Evolves, Evolves-if,
  Evolves-if_pair, Evolves-elim,
}
use xtunnel.ServerPool.Conns.Begins.{send_downlink-Evolves, unregister_conn-Evolves}

pub dial_failed-Evolves : (n a : ℕ) (s : Server) → Evolves n s (dial_failed a s)
unfolding dial_failed
dial_failed-Evolves n a s =
    let id = (s.heap a).conn_id in
    let told : Server = (send_downlink id msg_conn_status status_err [] s).1 in
    let closing : Server = (send_downlink id msg_tcp_close [] [] told).1 in
    Evolves-trans (send_downlink-Evolves n id msg_conn_status status_err [] s) (
      Evolves-trans (send_downlink-Evolves n id msg_tcp_close [] [] told)
        (same-Evolves n closing (record closing { conns = delete id closing.conns }) refl refl))

pub attached-Keeps :
    (c : Conn) → Keeps c (record c { socket = opened; connected = true; pending = [] })
attached-Keeps c = record {
  id_kept = refl;
  target_kept = refl;
  uplink_kept = refl;
  client_kept = refl;
  downlink_kept = λ _. refl;
  closed_kept = λ h. h;
  small_kept = λ h. omega arith;
}

pub attach_target-Evolves : (n a : ℕ) (s : Server) → Evolves n s (attach_target a s).1
unfolding attach_target
attach_target-Evolves n a s = Evolves-if_pair (s.heap a).closed _ _ (same-Evolves n s s refl refl) (
    set_conn-Evolves n a (record (s.heap a) { socket = opened; connected = true; pending = [] }) s
      (inl (attached-Keeps (s.heap a))))

pub written-Keeps : (c : Conn) (ws : List Bytes) → Keeps c (record c { written = ws })
written-Keeps c ws = record {
  id_kept = refl;
  target_kept = refl;
  uplink_kept = refl;
  client_kept = refl;
  downlink_kept = λ _. refl;
  closed_kept = λ h. h;
  small_kept = λ h. h;
}

pub write_target-Evolves :
    (n : ℕ) (accepted : Bool) (a : ℕ) (bytes : Bytes) (s : Server)
    → Evolves n s (write_target accepted a bytes s).1
unfolding write_target
write_target-Evolves n accepted a bytes s =
    Evolves-if_pair (is_open (s.heap a).socket && accepted) _ _
      (set_conn-Evolves n a (record (s.heap a) { written = (s.heap a).written ++ (bytes ∷ []) }) s
        (inl (written-Keeps (s.heap a) ((s.heap a).written ++ (bytes ∷ [])))))
      (same-Evolves n s s refl refl)

pub deliver-Evolves :
    (n : ℕ) (accepted : Bool) (a : ℕ) (id bytes : Bytes) (s : Server)
    → Evolves n s (deliver accepted a id bytes s)
unfolding deliver
deliver-Evolves n accepted a id bytes s =
    let r : Bool × Server = write_target accepted a bytes s in
    let wrote = write_target-Evolves n accepted a bytes s in
    Evolves-if r.0 wrote (Evolves-trans wrote (unregister_conn-Evolves n id r.1))

pub total-append : (ds es : List Bytes) → total (ds ++ es) ≡ total ds + total es
total-append [] es = omega arith
total-append (d ∷ ds) es = omega (arith, total-append ds es)

pub buffer-Evolves :
    (n a : ℕ) (id payload : Bytes) (s : Server) → Evolves n s (buffer a id payload s)
unfolding buffer
buffer-Evolves n a id payload s =
    let c = s.heap a in
    elim (Bool-cases (ltb pending_data_max_size (total c.pending + length payload))) [
      | inl full ↦ rw (full, buffer) (unregister_conn-Evolves n id s)
      | inr fits ↦
          rw (fits, buffer)
            (set_conn-Evolves n a (record c { pending = c.pending ++ (payload ∷ []) }) s
              (inl (record {
                id_kept = refl;
                target_kept = refl;
                uplink_kept = refl;
                client_kept = refl;
                downlink_kept = λ _. refl;
                closed_kept = λ h. h;
                small_kept = λ h. ground (arith, total-append (s.heap a).pending (payload ∷ []));
              })))
    ]

pub handle_tcp_data-Evolves :
    (n : ℕ) (accepted : Bool) (ch : ℕ) (id payload : Bytes) (s : Server)
    → Evolves n s (handle_tcp_data accepted ch id payload s)
unfolding handle_tcp_data
handle_tcp_data-Evolves n accepted ch id payload s = elim (Option-cases (get id s.conns)) [
  | inl missing ↦ rw (missing, handle_tcp_data) (same-Evolves n s s refl refl)
  | inr (a, found) ↦
      rw (found, handle_tcp_data)
        (Evolves-if (ltb 0 (s.heap a).uplink && not (ch == (s.heap a).uplink))
          (same-Evolves n s s refl refl)
          (Evolves-if (is_absent (s.heap a).socket) (buffer-Evolves n a id payload s)
            (deliver-Evolves n accepted a id payload s)))
]

pub choose_downlink-Keeps : (d : ℕ) (c : Conn) → Keeps c (choose_downlink d c)
choose_downlink-Keeps d c = elim (Bool-cases (c.downlink == 0)) [
  | inl unset ↦ simp (unset) (record {
    id_kept = refl;
    target_kept = refl;
    uplink_kept = refl;
    client_kept = refl;
    downlink_kept = λ p. absurd (ground (arith, ==_iff c.downlink 0));
    closed_kept = λ h. h;
    small_kept = λ h. h;
  })
  | inr chosen ↦ simp (chosen) (Keeps-refl c)
]

pub handle_select_downlink-Evolves :
    (n : ℕ) (client : Bytes) (ch : ℕ) (id meta : Bytes) (s : Server)
    → Evolves n s (handle_select_downlink client ch id meta s)
unfolding handle_select_downlink
handle_select_downlink-Evolves n client ch id meta s =
    let d = chosen_downlink ch meta in
    Evolves-elim (get id s.conns) s _ (same-Evolves n s s refl refl) (λ a.
      Evolves-elim (s.channels client d) s _ (same-Evolves n s s refl refl) (λ w.
        Evolves-if (not w.closed && may_choose ch (s.heap a) w)
          (set_conn-Evolves n a (choose_downlink d (s.heap a)) s
            (inl (choose_downlink-Keeps d (s.heap a))))
          (same-Evolves n s s refl refl)))

pub forward_end-Evolves : (n a : ℕ) (s : Server) → Evolves n s (forward_end a s)
unfolding forward_end
forward_end-Evolves n a s =
    let id = (s.heap a).conn_id in
    Evolves-trans (unregister_conn-Evolves n id s)
      (send_downlink-Evolves n id msg_tcp_close [] [] (unregister_conn id s))
