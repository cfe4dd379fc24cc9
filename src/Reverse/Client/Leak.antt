-- ===== src/Reverse/Client/Leak.antt =====
-- reverse.go: a close that arrives while the target is dialled.
use xtunnel.Base.{
  ℕ, ◌≡◌, subst, Bool, true, false, not, ◌||◌, Option, none, some, List, [], ◌∷◌, ◌==◌, ==_iff,
  arith, ltb, length, Bytes, Bool-cases, Option-cases, inl, inr,
}
use xtunnel.Base.Dict.{get, text_eq}
use xtunnel.Protocol.Message.{Message, msg_tcp_data, msg_tcp_close, msg_select_downlink}
use xtunnel.Reverse.{message, named_channel}
use xtunnel.Reverse.Client.{
  Socket, absent, opened, shut, ReverseConn, Store, Client, write, update, close_once, uses_channel,
  close_on, reverse_cleanup_channel, send_reverse_close, dialled, pumped, remove_reverse_conn,
  closing, on_select_downlink, write_socket, on_tcp_data, handle_reverse_server_msg,
}

-- What may happen to the client's connections once the dial of the one at `a` has succeeded: frames
-- of the server, a channel that fails, and rounds of the pump, which reads an error at last.
pub data Event : Type 0 where
  arrives : Bool → ℕ → Message → Event
  channel_fails : ℕ → Event
  reads : Option Bytes → ℕ → Bytes → Event

abbrev pub step : Event → Client → Client
step (arrives accepts ch m) c = (handle_reverse_server_msg accepts ch m c).client
step (channel_fails ch) c = reverse_cleanup_channel ch c
step (reads chunk a id) c = (pumped chunk a id c).1

abbrev pub run : List Event → Client → Client
run [] c = c
run (e ∷ events) c = run events (step e c)

-- The socket is open and nothing will shut it.
abbrev pub IsLeaked : ReverseConn → Type 0
IsLeaked rc = (rc.conn ≡ opened) × (rc.once ≡ true)

abbrev At : ℕ → Client → Type 0
At a c = IsLeaked (c.store a)

close_once-IsLeaked : (rc : ReverseConn) → IsLeaked rc → IsLeaked (close_once rc)
close_once-IsLeaked rc (o, u) = ground arith

write-IsLeaked :
    (a b : ℕ) (rc : ReverseConn) (s : Store)
    → (IsLeaked (s b) → IsLeaked rc)
    → IsLeaked (s a)
    → IsLeaked (write b rc s a)
write-IsLeaked a b rc s f l = elim (Bool-cases (a == b)) [
  | inl hit ↦ rw hit (f (subst (λ x. IsLeaked (s x)) ((==_iff a b).0 hit) l))
  | inr miss ↦ rw miss l
]

close_on-IsLeaked :
    (a ch : ℕ) (conns : List (Bytes × ℕ)) (s : Store)
    → IsLeaked (s a)
    → IsLeaked (close_on ch conns s a)
unfolding close_on
close_on-IsLeaked a ch [] s l = l
close_on-IsLeaked a ch ((id, b) ∷ conns) s l = elim (Bool-cases (uses_channel ch (s b))) [
  | inl hit ↦
      rw (close_on, hit)
        (close_on-IsLeaked a ch conns (write b (close_once (s b)) s)
          (write-IsLeaked a b (close_once (s b)) s (close_once-IsLeaked (s b)) l))
  | inr miss ↦ rw (close_on, miss) (close_on-IsLeaked a ch conns s l)
]

closing-IsLeaked : (a b : ℕ) (id : Bytes) (c : Client) → At a c → At a (send_reverse_close b id c).1
unfolding send_reverse_close remove_reverse_conn
closing-IsLeaked a b id c l =
    write-IsLeaked a b (close_once (c.store b)) c.store (close_once-IsLeaked (c.store b)) l

write_socket-IsLeaked :
    (a : ℕ) (accepts : Bool) (socket : Socket) (b : ℕ) (id payload : Bytes) (c : Client)
    → At a c
    → At a (write_socket accepts socket b id payload c).client
unfolding write_socket closing
write_socket-IsLeaked a accepts absent b id payload c l = l
write_socket-IsLeaked a accepts shut b id payload c l = closing-IsLeaked a b id c l
write_socket-IsLeaked a true opened b id payload c l = l
write_socket-IsLeaked a false opened b id payload c l = closing-IsLeaked a b id c l

on_tcp_data-IsLeaked :
    (a : ℕ) (accepts : Bool) (b ch : ℕ) (id payload : Bytes) (c : Client)
    → At a c
    → At a (on_tcp_data accepts b ch id payload c).client
unfolding on_tcp_data
on_tcp_data-IsLeaked a accepts b ch id payload c l = elim (Bool-cases ((c.store b).recv_ch == ch)) [
  | inl here ↦
      rw (on_tcp_data, here) (write_socket-IsLeaked a accepts (c.store b).conn b id payload c l)
  | inr other ↦ rw (on_tcp_data, other) l
]

on_select_downlink-IsLeaked :
    (a b ch : ℕ) (meta : Bytes) (c : Client) → At a c → At a (on_select_downlink b ch meta c)
unfolding on_select_downlink
on_select_downlink-IsLeaked a b ch meta c l =
    elim (Bool-cases (not ((c.store b).recv_ch == ch) || ltb (length meta) 4)) [
      | inl skip ↦ rw (on_select_downlink, skip) l
      | inr fits ↦ elim (Bool-cases ((c.store b).send_ch == 0)) [
        | inl first ↦
            rw (on_select_downlink, fits, first)
              (write-IsLeaked a b (record (c.store b) { send_ch = named_channel meta }) c.store
                (λ h. h) l)
        | inr again ↦ rw (on_select_downlink, fits, again) l
      ]
    ]

routed-IsLeaked :
    (a b : ℕ) (accepts : Bool) (ch : ℕ) (m : Message) (c : Client)
    → get m.conn_id c.conns ≡ some b
    → At a c
    → At a (handle_reverse_server_msg accepts ch m c).client
unfolding handle_reverse_server_msg closing
routed-IsLeaked a b accepts ch m c found l = elim (Bool-cases (m.kind == msg_select_downlink)) [
  | inl t ↦ rw (handle_reverse_server_msg, found, t) (on_select_downlink-IsLeaked a b ch m.meta c l)
  | inr t ↦ elim (Bool-cases (m.kind == msg_tcp_data)) [
    | inl u ↦
        rw (handle_reverse_server_msg, found, t, u)
          (on_tcp_data-IsLeaked a accepts b ch m.conn_id m.payload c l)
    | inr u ↦ elim (Bool-cases (m.kind == msg_tcp_close)) [
      | inl v ↦ rw (handle_reverse_server_msg, found, t, u, v) (closing-IsLeaked a b m.conn_id c l)
      | inr v ↦ rw (handle_reverse_server_msg, found, t, u, v) l
    ]
  ]
]

arrives-IsLeaked :
    (a : ℕ) (accepts : Bool) (ch : ℕ) (m : Message) (c : Client)
    → At a c
    → At a (handle_reverse_server_msg accepts ch m c).client
unfolding handle_reverse_server_msg
arrives-IsLeaked a accepts ch m c l = elim (Option-cases (get m.conn_id c.conns)) [
  | inl unknown ↦ rw (handle_reverse_server_msg, unknown) l
  | inr (b, found) ↦ routed-IsLeaked a b accepts ch m c found l
]

step-IsLeaked : (e : Event) (a : ℕ) (c : Client) → At a c → At a (step e c)
step-IsLeaked (arrives accepts ch m) a c l = arrives-IsLeaked a accepts ch m c l
step-IsLeaked (channel_fails ch) a c l =
    unfold reverse_cleanup_channel in close_on-IsLeaked a ch c.conns c.store l
step-IsLeaked (reads none b id) a c l = unfold pumped in closing-IsLeaked a b id c l
step-IsLeaked (reads (some chunk) b id) a c l = unfold pumped in l

run-IsLeaked : (events : List Event) (a : ℕ) (c : Client) → At a c → At a (run events c)
run-IsLeaked [] a c l = l
run-IsLeaked (e ∷ events) a c l = run-IsLeaked events a (step e c) (step-IsLeaked e a c l)

closed_early :
    (a ch : ℕ) (id : Bytes) (c : Client)
    → get id c.conns ≡ some a
    → ((handle_reverse_server_msg true ch (message msg_tcp_close id [] []) c).client.store a).once
      ≡ true
unfolding handle_reverse_server_msg closing send_reverse_close remove_reverse_conn
closed_early a ch id c found = rw (handle_reverse_server_msg, found) (ground (arith, ==_iff a a))

-- Where the server's close arrives before the dial has a socket, the socket that the dial then opens
-- stays open, whatever frames arrive, channels fail and reads succeed or fail afterwards.
pub close_during_dial_leaks :
    (a ch : ℕ) (id : Bytes) (events : List Event) (c : Client)
    → get id c.conns ≡ some a
    → let closed = (handle_reverse_server_msg true ch (message msg_tcp_close id [] []) c).client in
      ((run events (dialled true a id closed).1).store a).conn ≡ opened
unfolding dialled
close_during_dial_leaks a ch id events c found =
    let closed : Client =
      (handle_reverse_server_msg true ch (message msg_tcp_close id [] []) c).client in
    let once : (closed.store a).once ≡ true = closed_early a ch id c found in
    let open_now : Client = update a (record (closed.store a) { conn = opened }) closed in
    (run-IsLeaked events a open_now (ground (arith, once, ==_iff a a))).0
