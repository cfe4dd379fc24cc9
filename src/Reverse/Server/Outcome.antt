-- ===== src/Reverse/Server/Outcome.antt =====
-- reverse_server.go: the result of a dial, which settle decides once.
use xtunnel.Base.{
  ℕ, ◌%◌, ◌^◌, ◌≡◌, subst, Bool, true, false, not, ◌&&◌, ◌||◌, Option, none, some, List, [], ◌∷◌,
  ◌==◌, ==_iff, arith, ltb, length, get_or, drop, Bytes, Bool-cases, Option-cases, inl, inr,
}
use xtunnel.Base.Dict.{get, text_eq}
use xtunnel.Protocol.Message.{
  Message, msg_tcp_data, msg_tcp_close, msg_select_uplink, msg_conn_status,
}
use xtunnel.Reverse.{is_positive, is_channel, named_channel}
use xtunnel.Reverse.Server.{
  Reason, unset, told, timed_out, cancelled, connection_closed, ServerReverseConn, Store, Server,
  write, update, settle, remove_reverse_conn, adopt, on_select_uplink, on_conn_status, on_tcp_data,
  handle_reverse_message, ids_on, remove_all, cleanup_channel,
}
use xtunnel.Reverse.Server.Dialer.{
  Channels, Wait, result, timer, context, give_up, dial_end, reverse_upstream_pump,
}

-- What may happen on the server: a frame of a client, a channel that fails, the end of a wait and a
-- round of a pump.
pub data Event : Type 0 where
  arrives : Bool → ℕ → Message → Event
  channel_fails : Bytes → ℕ → Event
  ends : Wait → ℕ → Bytes → Event
  reads : Channels → Option Bytes → ℕ → Bytes → Event

abbrev pub step : Event → Server → Server
step (arrives accepts ch m) s = (handle_reverse_message accepts ch m s).server
step (channel_fails client ch) s = cleanup_channel client ch s
step (ends wait a id) s = (dial_end wait a id s).2
step (reads channels chunk a id) s = (reverse_upstream_pump channels chunk a id s).1

abbrev pub run : List Event → Server → Server
run [] s = s
run (e ∷ events) s = run events (step e s)

-- The result is `ok`, or the error.
abbrev pub Says : Bool → Reason → ServerReverseConn → Type 0
Says ok why rc = (rc.settled ≡ true) × (rc.ok ≡ ok) × (rc.err_msg ≡ why)

module _ (v : Bool) (why : Reason) (a : ℕ) where
  abbrev At : Server → Type 0
  At s = Says v why (s.store a)

  write-Says :
      (b : ℕ) (rc : ServerReverseConn) (s : Store)
      → (Says v why (s b) → Says v why rc)
      → Says v why (s a)
      → Says v why (write b rc s a)
  write-Says b rc s f h = elim (Bool-cases (a == b)) [
    | inl hit ↦ rw hit (f (subst (λ x. Says v why (s x)) ((==_iff a b).0 hit) h))
    | inr miss ↦ rw miss h
  ]

  settle-Says :
      (ok : Bool) (msg : Reason) (rc : ServerReverseConn)
      → Says v why rc
      → Says v why (settle ok msg rc)
  unfolding settle
  settle-Says ok msg rc (done, o, m) = ground arith

  remove-Says : (id : Bytes) (s : Server) → At s → At (remove_reverse_conn id s)
  unfolding remove_reverse_conn
  remove-Says id s h = elim (Option-cases (get id s.conns)) [
    | inl unknown ↦ rw (remove_reverse_conn, unknown) h
    | inr (b, found) ↦
        rw (remove_reverse_conn, found)
          (write-Says b (record (settle false connection_closed (s.store b)) { piped = false })
            s.store (settle-Says false connection_closed (s.store b)) h)
  ]

  remove_all-Says : (ids : List Bytes) (s : Server) → At s → At (remove_all ids s)
  unfolding remove_all
  remove_all-Says [] s h = h
  remove_all-Says (id ∷ ids) s h =
      remove_all-Says ids (remove_reverse_conn id s) (remove-Says id s h)

  uplink-Says :
      (b ch : ℕ) (id meta : Bytes) (s : Server) → At s → At (on_select_uplink b ch id meta s).server
  unfolding on_select_uplink
  uplink-Says b ch id meta s h =
      let taken : (repaired : Bool) → At (adopt b ch id (named_channel meta) repaired s).server =
        λ r.
          write-Says b
            (record (s.store b) {
              send_ch = named_channel meta;
              recv_ch = ch % 2 ^ 32;
              repaired = r || (s.store b).repaired;
            })
            s.store (λ x. x) h in
      elim (Bool-cases (ltb (length meta) 4)) [
        | inl short ↦ rw (on_select_uplink, short) h
        | inr long ↦ elim (Bool-cases ((s.store b).send_ch == 0)) [
          | inl first ↦ rw (on_select_uplink, long, first) (taken false)
          | inr known ↦ elim (Bool-cases ((s.store b).pair_preset && not (s.store b).repaired)) [
            | inl repair ↦ rw (on_select_uplink, long, known, repair) (taken true)
            | inr fixed ↦ rw (on_select_uplink, long, known, fixed) h
          ]
        ]
      ]

  status-Says : (b : ℕ) (meta : Bytes) (s : Server) → At s → At (on_conn_status b meta s)
  unfolding on_conn_status
  status-Says b meta s h = elim (Bool-cases (length meta == 0)) [
    | inl short ↦ rw (on_conn_status, short) h
    | inr long ↦ elim (Bool-cases (get_or meta 0 0 == 0)) [
      | inl fine ↦
          rw (on_conn_status, long, fine)
            (write-Says b (settle true unset (s.store b)) s.store
              (settle-Says true unset (s.store b)) h)
      | inr bad ↦
          rw (on_conn_status, long, bad)
            (write-Says b (settle false (told (drop 1 meta)) (s.store b)) s.store
              (settle-Says false (told (drop 1 meta)) (s.store b)) h)
    ]
  ]

  data-Says :
      (accepts : Bool) (b ch : ℕ) (id payload : Bytes) (s : Server)
      → At s
      → At (on_tcp_data accepts b ch id payload s).server
  unfolding on_tcp_data
  data-Says accepts b ch id payload s h = elim (Bool-cases (is_channel (s.store b).recv_ch ch)) [
    | inr other ↦ rw (on_tcp_data, other) h
    | inl here ↦ elim (Bool-cases ((s.store b).piped && accepts)) [
      | inl taken ↦ rw (on_tcp_data, here, taken) h
      | inr refused ↦ rw (on_tcp_data, here, refused) (remove-Says id s h)
    ]
  ]

  routed-Says :
      (b : ℕ) (accepts : Bool) (ch : ℕ) (m : Message) (s : Server)
      → get m.conn_id s.conns ≡ some b
      → At s
      → At (handle_reverse_message accepts ch m s).server
  unfolding handle_reverse_message
  routed-Says b accepts ch m s found h = elim (Bool-cases (m.kind == msg_select_uplink)) [
    | inl t ↦ rw (handle_reverse_message, found, t) (uplink-Says b ch m.conn_id m.meta s h)
    | inr t ↦ elim (Bool-cases (m.kind == msg_conn_status)) [
      | inl u ↦ rw (handle_reverse_message, found, t, u) (status-Says b m.meta s h)
      | inr u ↦ elim (Bool-cases (m.kind == msg_tcp_data)) [
        | inl x ↦
            rw (handle_reverse_message, found, t, u, x)
              (data-Says accepts b ch m.conn_id m.payload s h)
        | inr x ↦ elim (Bool-cases (m.kind == msg_tcp_close)) [
          | inl y ↦ rw (handle_reverse_message, found, t, u, x, y) (remove-Says m.conn_id s h)
          | inr y ↦ rw (handle_reverse_message, found, t, u, x, y) h
        ]
      ]
    ]
  ]

  arrives-Says :
      (accepts : Bool) (ch : ℕ) (m : Message) (s : Server)
      → At s
      → At (handle_reverse_message accepts ch m s).server
  unfolding handle_reverse_message
  arrives-Says accepts ch m s h = elim (Option-cases (get m.conn_id s.conns)) [
    | inl unknown ↦ rw (handle_reverse_message, unknown) h
    | inr (b, found) ↦ routed-Says b accepts ch m s found h
  ]

  given_up-Says :
      (msg : Reason) (b : ℕ) (id : Bytes) (s : Server) → At s → At (give_up msg b id s).2
  given_up-Says msg b id s h =
      remove-Says id (update b (settle false msg (s.store b)) s)
        (write-Says b (settle false msg (s.store b)) s.store (settle-Says false msg (s.store b)) h)

  ends-Says : (wait : Wait) (b : ℕ) (id : Bytes) (s : Server) → At s → At (dial_end wait b id s).2
  unfolding dial_end
  ends-Says timer b id s h = given_up-Says timed_out b id s h
  ends-Says (context msg) b id s h = given_up-Says (cancelled msg) b id s h
  ends-Says result b id s h = elim (Bool-cases (s.store b).ok) [
    | inl fine ↦ rw (dial_end, fine) h
    | inr bad ↦ rw (dial_end, bad) (remove-Says id s h)
  ]

  reads-Says :
      (channels : Channels) (chunk : Option Bytes) (b : ℕ) (id : Bytes) (s : Server)
      → At s
      → At (reverse_upstream_pump channels chunk b id s).1
  unfolding reverse_upstream_pump
  reads-Says channels none b id s h = remove-Says id s h
  reads-Says channels (some chunk) b id s h = elim (Bool-cases (is_positive (s.store b).send_ch)) [
    | inr unknown ↦ rw (reverse_upstream_pump, unknown) h
    | inl known ↦ elim (Bool-cases (channels.takes (s.store b).send_ch)) [
      | inl taken ↦ rw (reverse_upstream_pump, known, taken) h
      | inr refused ↦ rw (reverse_upstream_pump, known, refused) h
    ]
  ]

  step-Says : (e : Event) (s : Server) → At s → At (step e s)
  step-Says (arrives accepts ch m) s h = arrives-Says accepts ch m s h
  step-Says (channel_fails client ch) s h =
      unfold cleanup_channel in remove_all-Says (ids_on client ch s.store s.conns) s h
  step-Says (ends wait b id) s h = ends-Says wait b id s h
  step-Says (reads channels chunk b id) s h = reads-Says channels chunk b id s h

-- A result that a connection has, a success or an error, stays its result, whatever frames arrive,
-- channels fail, waits end and pumps read.
pub run-Says :
    (events : List Event) (ok : Bool) (why : Reason) (a : ℕ) (s : Server)
    → Says ok why (s.store a)
    → Says ok why ((run events s).store a)
run-Says [] ok why a s h = h
run-Says (e ∷ events) ok why a s h = run-Says events ok why a (step e s) (step-Says ok why a e s h)
